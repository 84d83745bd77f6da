-- ===== src/Semaphore/Runs.antt =====
-- What the semaphore keeps, and what it does not.
use rtmessage.Prelude.{ℕ, zero, suc, ◌+◌, ◌*◌, ◌≤◌, ◌≡◌, subst, arith}
use rtmessage.Semaphore.{
  Semaphore, create, post, signal, wait, resume, time_out, wake_spuriously, Reachable, created,
  posted, signalled, waited, resumed, timed_out, woken_spuriously,
}

-- Whatever the threads do, each post is in the value or was taken by one wait, and every wait that
-- took a post returned RT_OK.
Reachable-balance : (s : Semaphore) → Reachable s → (s.v + s.taken ≡ s.posts) × (s.taken ≤ s.passed)
unfolding create post signal wait resume time_out wake_spuriously
Reachable-balance s created = (omega arith, omega arith)
Reachable-balance s (posted s' r) =
    let (b, t) = Reachable-balance s' r in (omega arith, omega arith)
Reachable-balance s (signalled s' l r) = let (b, t) = Reachable-balance s' r in ground arith
Reachable-balance s (waited s' r) = let (b, t) = Reachable-balance s' r in ground arith
Reachable-balance s (resumed s' l r) = let (b, t) = Reachable-balance s' r in ground arith
Reachable-balance s (timed_out s' l r) =
    let (b, t) = Reachable-balance s' r in (omega arith, omega arith)
Reachable-balance s (woken_spuriously s' l r) =
    let (b, t) = Reachable-balance s' r in (omega arith, omega arith)

-- After `n` posts, with no thread asleep
abbrev pub doubled : ℕ → Semaphore
doubled n = record {
  v = 0;
  signalling = 0;
  asleep = 0;
  woken = 0;
  posts = n;
  taken = n;
  passed = 2 * n;
}

one_round : (n : ℕ) → resume (wait (signal (post (wait (doubled n))))) ≡ doubled (suc n)
unfolding post signal wait resume
one_round n = ground arith

-- For every `n` a state is reachable in which `n` posts were made, all of them were taken, no thread
-- is asleep or woken, and `2 * n` waits have returned RT_OK.
pub Reachable-doubled : (n : ℕ) → Reachable (doubled n)
unfolding create post signal wait
Reachable-doubled zero = created
Reachable-doubled (suc n) = subst Reachable (one_round n) (
    resumed _ (omega arith)
      (waited _ (signalled _ (omega arith) (posted _ (waited _ (Reachable-doubled n))))))
