-- ===== src/Retainable/Runs.antt =====
-- Releases one after the other, and releases that overlap.
use rtmessage.Prelude.{ℕ, zero, suc, ◌+◌, ◌≡◌, refl, ◌∙◌, subst, sym, ap, arith}
use rtmessage.Retainable.{Retainable, drop_one, test, release, drops, tests, Run, done, next}

-- An object with `n` references that nobody is releasing
abbrev pub held : ℕ → Retainable
held n = record { ref_count = n; testing = 0; destroyed = 0; freed_reads = 0 }

unfoldable pub release_times : ℕ → Retainable → Retainable
release_times zero r = r
release_times (suc k) r = release_times k (release r)

release-held : (n : ℕ) → release (held (suc n + 1)) ≡ held (n + 1)
unfolding release drop_one test
release-held n = ground arith

-- All but the last of the references are released.
release_times-last : (n : ℕ) → release_times n (held (n + 1)) ≡ held 1
unfolding release_times
release_times-last zero = refl
release_times-last (suc n) = ap (release_times n) (release-held n) ∙ release_times-last n

release_times-next :
    (n : ℕ) (r : Retainable) → release_times (suc n) r ≡ release (release_times n r)
unfolding release_times
release_times-next zero r = refl
release_times-next (suc n) r = release_times-next n (release r)

-- Releases that do not overlap call the destructor once, with the last reference, and not before.
release_times-held :
    (n : ℕ)
    → ((release_times n (held (n + 1))).destroyed ≡ 0)
      × (release_times (suc n) (held (n + 1))
          ≡ record { ref_count = 0; testing = 0; destroyed = 1; freed_reads = 0 })
release_times-held n =
    let last = release_times-last n in
    (
      ap (λ (r : Retainable). r.destroyed) last,
      release_times-next n (held (n + 1))
          ∙ (ap release last ∙ (unfold release drop_one test in refl)),
    )

abbrev pub state : ℕ → ℕ → ℕ → ℕ → Retainable
state n k d f = record { ref_count = n; testing = k; destroyed = d; freed_reads = f }

drop_one-state : (n k : ℕ) → drop_one (state (suc n) k 0 0) ≡ state n (suc k) 0 0
unfolding drop_one
drop_one-state n k = ground arith

-- Every holder subtracts, and the run goes on.
drop_all : (n k : ℕ) (t : Retainable) → Run (state 0 (n + k) 0 0) t → Run (state n k 0 0) t
drop_all zero k t q = subst (λ m. Run (state 0 m 0 0) t) (omega arith) q
drop_all (suc n) k t q = next _ _ t (drops (state (suc n) k 0 0) (omega arith)) (
    subst (λ r. Run r t) (sym (drop_one-state n k))
      (drop_all n (suc k) t (subst (λ m. Run (state 0 m 0 0) t) (omega arith) q)))

-- A test after the first one, of the count of an object that is gone
test-state : (k d f : ℕ) → test (state 0 (suc k) (suc d) f) ≡ state 0 k (suc (suc d)) (suc f)
unfolding test
test-state k d f = ground arith

first_test : (k : ℕ) → test (state 0 (suc k) 0 0) ≡ state 0 k 1 0
unfolding test
first_test k = ground arith

-- Every one of them tests.
test_all : (k d f : ℕ) → Run (state 0 k (suc d) f) (state 0 0 (suc (k + d)) (k + f))
test_all zero d f =
    subst (λ m. Run (state 0 0 (suc d) f) (state 0 0 (suc m) (0 + f))) (omega arith)
      (subst (λ m. Run (state 0 0 (suc d) f) (state 0 0 (suc d) m)) (omega arith) (done _))
test_all (suc k) d f = next _ _ _ (tests (state 0 (suc k) (suc d) f) (omega arith)) (
    subst (λ r. Run r (state 0 0 (suc (suc k + d)) (suc k + f))) (sym (test-state k d f))
      (subst (λ m. Run (state 0 k (suc (suc d)) (suc f)) (state 0 0 m (suc k + f))) (omega arith)
        (subst (λ m. Run (state 0 k (suc (suc d)) (suc f)) (state 0 0 (suc (k + suc d)) m))
          (omega arith) (test_all k (suc d) (suc f)))))

-- When the releases of an object with `n + 1` references overlap, the destructor may be called `n + 1` times:
-- all of them subtract before the first tests, and each then reads a count of 0, all but the first
-- from an object that is gone, if its memory still holds the 0.
pub releases-overlap :
    (n : ℕ)
    → Run (held (n + 1)) (record { ref_count = 0; testing = 0; destroyed = n + 1; freed_reads = n })
releases-overlap n =
    subst (λ m. Run (held m) (state 0 0 m n)) (omega arith)
      (drop_all (suc n) 0 _ (
        subst (λ m. Run (state 0 m 0 0) (state 0 0 (suc n) n)) (omega arith)
          (next _ _ _ (tests (state 0 (suc n) 0 0) (omega arith)) (
            subst (λ r. Run r (state 0 0 (suc n) n)) (sym (first_test n))
              (subst (λ m. Run (state 0 n 1 0) (state 0 0 (suc m) n)) (omega arith)
                (subst (λ m. Run (state 0 n 1 0) (state 0 0 (suc (n + 0)) m)) (omega arith)
                  (test_all n 0 0)))))))
