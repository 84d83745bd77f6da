-- ===== src/Semaphore.antt =====
-- rtSemaphore.c as steps of threads, each a critical section of the mutex or a call of the condition
-- variable. The errors of the pthread calls are left out, but for the time-out.
pub mod Runs
use rtmessage.Prelude.{ℕ, suc, ◌+◌, ◌-◌, ◌<◌, ◌≡◌, ltb, if◌then◌else◌}

-- The value; the threads between their post and its signal, asleep in the wait, and woken but
-- not yet back in the critical section. The last three fields count what was done: posts, decrements
-- of the value, and waits that returned RT_OK.
pub record Semaphore : Type 0 where
  pub v : ℕ
  pub signalling : ℕ
  pub asleep : ℕ
  pub woken : ℕ
  pub posts : ℕ
  pub taken : ℕ
  pub passed : ℕ

-- rtSemaphore_Create
unfoldable pub create : Semaphore
create = record { v = 0; signalling = 0; asleep = 0; woken = 0; posts = 0; taken = 0; passed = 0 }

-- rtSemaphore_Post up to the unlock
unfoldable pub post : Semaphore → Semaphore
post s = record s { v = s.v + 1; signalling = s.signalling + 1; posts = s.posts + 1 }

-- pthread_cond_signal wakes a thread if one is asleep.
unfoldable pub signal : Semaphore → Semaphore
signal s =
    if ltb 0 s.asleep
    then record s { signalling = s.signalling - 1; asleep = s.asleep - 1; woken = s.woken + 1 }
    else record s { signalling = s.signalling - 1 }

-- rtSemaphore_TimedWait up to its return or its wait
unfoldable pub wait : Semaphore → Semaphore
wait s =
    if ltb 0 s.v
    then record s { v = s.v - 1; taken = s.taken + 1; passed = s.passed + 1 }
    else record s { asleep = s.asleep + 1 }

-- The rest of rtSemaphore_TimedWait after a wait without error: RT_OK either way
unfoldable pub resume : Semaphore → Semaphore
resume s =
    if ltb 0 s.v
    then record s { v = s.v - 1; woken = s.woken - 1; taken = s.taken + 1; passed = s.passed + 1 }
    else record s { woken = s.woken - 1; passed = s.passed + 1 }

-- The rest of rtSemaphore_TimedWait after a time-out: RT_ERROR_TIMEOUT
unfoldable pub time_out : Semaphore → Semaphore
time_out s = record s { asleep = s.asleep - 1 }

-- A thread may be woken without a signal, as POSIX allows.
unfoldable pub wake_spuriously : Semaphore → Semaphore
wake_spuriously s = record s { asleep = s.asleep - 1; woken = s.woken + 1 }

pub data Reachable : Semaphore → Type 0 where
  created : Reachable create
  posted : (s : Semaphore) → Reachable s → Reachable (post s)
  signalled : (s : Semaphore) → 0 < s.signalling → Reachable s → Reachable (signal s)
  waited : (s : Semaphore) → Reachable s → Reachable (wait s)
  resumed : (s : Semaphore) → 0 < s.woken → Reachable s → Reachable (resume s)
  timed_out : (s : Semaphore) → 0 < s.asleep → Reachable s → Reachable (time_out s)
  woken_spuriously : (s : Semaphore) → 0 < s.asleep → Reachable s → Reachable (wake_spuriously s)
