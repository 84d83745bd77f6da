-- ===== src/ThreadPool/Workers.antt =====
-- rtThreadPool.c: the queue of tasks and the worker threads as steps, each a critical section of the
-- pool's lock or an event of the condition variable; memory and threads are granted.
use rtmessage.Prelude.{
  ℕ, ◌+◌, ◌-◌, ◌<◌, ◌≡◌, ◌&&◌, Bool, true, false, List, [], ◌∷◌, ◌++◌, ltb, ◌==◌, if◌then◌else◌,
}
use rtmessage.Error.{rt_ok}

-- RT_ERROR_THREADPOOL_TASKS_CANCELLED and RT_ERROR_THREADPOOL_TASK_PENDING
abbrev pub tasks_cancelled : ℕ
tasks_cancelled = 3000

abbrev pub task_pending : ℕ
task_pending = 3001

-- struct _rtThreadPool, with a number for a task. The threads that were created and have not locked yet,
-- are asleep in the wait, were woken from it, or came out of it by a time-out and have not locked
-- yet; the threads before the check of rtThreadPool_TryRealDestroy, and those that it told to destroy the
-- pool; how often the pool was freed. The last two fields list the tasks that a worker took
-- and those that were given to rtThreadPool_RunTask.
pub record Pool : Type 0 where
  pub task_list : List ℕ
  pub max_thread_count : ℕ
  pub thread_count : ℕ
  pub busy_thread_count : ℕ
  pub is_running : Bool
  pub is_shutdown : Bool
  pub starting : ℕ
  pub asleep : ℕ
  pub woken : ℕ
  pub timed_out : ℕ
  pub leaving : ℕ
  pub destroying : ℕ
  pub freed : ℕ
  pub started : List ℕ
  pub submitted : List ℕ

-- rtThreadPool_Create
unfoldable pub create : ℕ → Pool
create max = record {
  task_list = [];
  max_thread_count = max;
  thread_count = 0;
  busy_thread_count = 0;
  is_running = true;
  is_shutdown = false;
  starting = 0;
  asleep = 0;
  woken = 0;
  timed_out = 0;
  leaving = 0;
  destroying = 0;
  freed = 0;
  started = [];
  submitted = [];
}

-- The end of rtThread_WorkerThreadFunc, up to rtThreadPool_TryRealDestroy
unfoldable pub leave : Pool → Pool
leave p = record p { thread_count = p.thread_count - 1; leaving = p.leaving + 1 }

-- rtThread_DequeTask and what the loops of rtThread_WorkerThreadFunc do with its answer
unfoldable pub deque_task : Pool → List ℕ → Pool
deque_task p [] = record p { asleep = p.asleep + 1 }
deque_task p (t ∷ ts) = record p {
  task_list = ts;
  busy_thread_count = p.busy_thread_count + 1;
  started = p.started ++ (t ∷ []);
}

-- The loops of rtThread_WorkerThreadFunc, from where the thread holds the lock to where it gives it up
unfoldable pub work : Pool → Pool
work p = if p.is_running then deque_task p p.task_list else leave p

-- A new thread enters rtThread_WorkerThreadFunc.
unfoldable pub start_thread : Pool → Pool
start_thread p = work (record p { starting = p.starting - 1; thread_count = p.thread_count + 1 })

-- A thread comes back from the wait without a time-out.
unfoldable pub resume : Pool → Pool
resume p = work (record p { woken = p.woken - 1 })

-- A thread comes back from its task.
unfoldable pub finish_task : Pool → Pool
finish_task p = work (record p { busy_thread_count = p.busy_thread_count - 1 })

-- The wait of a thread ends by its time, and later the thread gets the lock and leaves.
unfoldable pub time_out : Pool → Pool
time_out p = record p { asleep = p.asleep - 1; timed_out = p.timed_out + 1 }

unfoldable pub expire : Pool → Pool
expire p = leave (record p { timed_out = p.timed_out - 1 })

-- pthread_cond_signal wakes a thread if one is asleep; POSIX allows it to be woken without a signal.
unfoldable pub signal : Pool → Pool
signal p = if ltb 0 p.asleep then record p { asleep = p.asleep - 1; woken = p.woken + 1 } else p

unfoldable pub wake_spuriously : Pool → Pool
wake_spuriously p = record p { asleep = p.asleep - 1; woken = p.woken + 1 }

-- rtThreadPool_CreateWorkerThread
unfoldable pub create_worker_thread : Pool → Pool
create_worker_thread p = record p { starting = p.starting + 1 }

-- The rest of rtThreadPool_RunTask, with the task in the list
unfoldable pub find_thread : Pool → ℕ × Pool
find_thread p =
    if ltb p.busy_thread_count p.thread_count
    then (rt_ok, signal p)
    else if ltb p.thread_count p.max_thread_count
    then (rt_ok, create_worker_thread p)
    else (task_pending, p)

-- rtThreadPool_RunTask
unfoldable pub run_task : Pool → ℕ → ℕ × Pool
run_task p t =
    find_thread
      (record p { task_list = p.task_list ++ (t ∷ []); submitted = p.submitted ++ (t ∷ []) })

abbrev pub cancelled : List ℕ → ℕ
cancelled [] = rt_ok
cancelled (t ∷ ts) = tasks_cancelled

-- rtThreadPool_StopAllThread, after its wait
unfoldable pub stop_all_thread : Pool → ℕ × Pool
stop_all_thread p =
    (cancelled p.task_list, record p { is_running = false; woken = p.woken + p.asleep; asleep = 0 })

-- The rest of rtThreadPool_Destroy, up to rtThreadPool_TryRealDestroy
unfoldable pub shut_down : Pool → Pool
shut_down p = record p { is_shutdown = true; leaving = p.leaving + 1 }

-- The check of rtThreadPool_TryRealDestroy
unfoldable pub try_real_destroy : Pool → Pool
try_real_destroy p =
    if (p.thread_count == 0) && p.is_shutdown
    then record p { leaving = p.leaving - 1; destroying = p.destroying + 1 }
    else record p { leaving = p.leaving - 1 }

-- The rest of rtThreadPool_TryRealDestroy
unfoldable pub free_pool : Pool → Pool
free_pool p = record p { destroying = p.destroying - 1; freed = p.freed + 1 }

-- The states of a pool of at most `max` threads, whose user runs no task after rtThreadPool_Destroy and
-- calls that once.
pub data Reachable (max : ℕ) : Pool → Type 0 where
  created : Reachable max (create max)
  submits :
      (p : Pool) (t : ℕ) → p.is_shutdown ≡ false → Reachable max p → Reachable max (run_task p t).1
  starts : (p : Pool) → 0 < p.starting → Reachable max p → Reachable max (start_thread p)
  resumes : (p : Pool) → 0 < p.woken → Reachable max p → Reachable max (resume p)
  finishes : (p : Pool) → 0 < p.busy_thread_count → Reachable max p → Reachable max (finish_task p)
  times_out : (p : Pool) → 0 < p.asleep → Reachable max p → Reachable max (time_out p)
  expires : (p : Pool) → 0 < p.timed_out → Reachable max p → Reachable max (expire p)
  wakes : (p : Pool) → 0 < p.asleep → Reachable max p → Reachable max (wake_spuriously p)
  stops : (p : Pool) → p.is_shutdown ≡ false → Reachable max p → Reachable max (stop_all_thread p).1
  shuts_down :
      (p : Pool)
      → p.is_running ≡ false
      → p.is_shutdown ≡ false
      → Reachable max p
      → Reachable max (shut_down p)
  checks : (p : Pool) → 0 < p.leaving → Reachable max p → Reachable max (try_real_destroy p)
  frees : (p : Pool) → 0 < p.destroying → Reachable max p → Reachable max (free_pool p)
