-- ===== src/Retainable.antt =====
-- rtRetainable.c, with the atomic operations of rtAtomic.h: a release is two steps, the atomic
-- subtraction and the test of the count that is read after it, and other threads may step between.
pub mod Runs
use rtmessage.Prelude.{ℕ, zero, suc, ◌+◌, ◌-◌, ◌<◌, ◌==◌, if◌then◌else◌}

-- The count, how many threads are between the two steps of a release, how often the destructor was called,
-- and how often the count was read after that: it is memory that was given back.
pub record Retainable : Type 0 where
  pub ref_count : ℕ
  pub testing : ℕ
  pub destroyed : ℕ
  pub freed_reads : ℕ

-- rtRetainable_retainInternal
unfoldable pub retain : Retainable → Retainable
retain r = record r { ref_count = r.ref_count + 1 }

-- `rt_atomic_fetch_sub(&r->refCount, 1)`
unfoldable pub drop_one : Retainable → Retainable
drop_one r = record r { ref_count = r.ref_count - 1; testing = r.testing + 1 }

-- `if(r->refCount == 0) destructor(r)`
unfoldable pub test : Retainable → Retainable
test r = record r {
  testing = r.testing - 1;
  destroyed = r.destroyed + (if r.ref_count == 0 then 1 else 0);
  freed_reads = r.freed_reads + (if r.destroyed == 0 then 0 else 1);
}

-- rtRetainable_releaseInternal, with no other thread between its steps
unfoldable pub release : Retainable → Retainable
release r = test (drop_one r)

-- What the threads do: only an object with a reference is retained or released.
pub data Step : Retainable → Retainable → Type 0 where
  retains : (r : Retainable) → 0 < r.ref_count → Step r (retain r)
  drops : (r : Retainable) → 0 < r.ref_count → Step r (drop_one r)
  tests : (r : Retainable) → 0 < r.testing → Step r (test r)

pub data Run : Retainable → Retainable → Type 0 where
  done : (r : Retainable) → Run r r
  next : (r s t : Retainable) → Step r s → Run s t → Run r t
