-- ===== src/Examples/Pools.antt =====
-- Thread pools: the theorems at concrete inputs.
use rtmessage.Prelude.{◌+◌, ◌≡◌, refl, [], ◌∷◌, ◌++◌, inl, arith}
use rtmessage.Error.{rt_ok}
use rtmessage.ThreadPool.Workers.{
  Pool, create, work, deque_task, leave, start_thread, resume, finish_task, time_out, find_thread,
  create_worker_thread, run_task, stop_all_thread, shut_down, Reachable, created, submits, starts,
  resumes, finishes, times_out, stops, shuts_down,
}
use rtmessage.ThreadPool.Queue.{Accounts, Reachable-Accounts}
use rtmessage.ThreadPool.Drain.{Drains, Reachable-Drains}
use rtmessage.ThreadPool.Races.{Reachable-stranded, Reachable-freed_twice}

-- One thread is created for the task 7 and takes it.
abbrev busy : Pool
busy = start_thread (run_task (create 1) 7).1

busy-Reachable : Reachable 1 busy
unfolding create run_task find_thread create_worker_thread
busy-Reachable = starts _ (omega arith) (submits (create 1) 7 refl created)

-- Its wait for another task ends by time.
abbrev late : Pool
late = time_out (finish_task busy)

late-Reachable : Reachable 1 late
unfolding create run_task find_thread create_worker_thread start_thread work deque_task finish_task
late-Reachable = times_out _ (omega arith) (finishes busy (omega arith) busy-Reachable)

-- The pool is stopped and shut down while the thread sleeps, and the thread leaves.
abbrev closed : Pool
closed = shut_down (resume (stop_all_thread (finish_task busy)).1)

closed-Reachable : Reachable 1 closed
unfolding create run_task find_thread create_worker_thread start_thread work deque_task finish_task
    stop_all_thread resume leave
closed-Reachable =
    shuts_down _ refl refl
      (resumes _ (omega arith) (stops _ refl (finishes busy (omega arith) busy-Reachable)))

Reachable-Accounts_example : Accounts 0 busy
Reachable-Accounts_example = Reachable-Accounts 1 busy busy-Reachable

Reachable-Drains_example : Drains busy busy.submitted
unfolding create run_task find_thread create_worker_thread start_thread work deque_task
Reachable-Drains_example = Reachable-Drains 1 busy busy-Reachable refl (inl (omega arith))

Reachable-stranded_example :
    ((run_task late 8).0 ≡ rt_ok)
    × ((q : Pool) × Reachable 1 q
        × (q.task_list ≡ late.task_list ++ (8 ∷ []))
        × (q.thread_count ≡ 0)
        × (q.starting ≡ 0)
        × (q.is_running ≡ late.is_running))
unfolding create run_task find_thread create_worker_thread start_thread work deque_task finish_task
    time_out
Reachable-stranded_example = Reachable-stranded 1 late 8 late-Reachable refl refl refl refl

Reachable-freed_twice_example : (q : Pool) × Reachable 1 q × (q.freed ≡ closed.freed + 2)
unfolding create run_task find_thread create_worker_thread start_thread work deque_task finish_task
    stop_all_thread resume leave shut_down
Reachable-freed_twice_example =
    Reachable-freed_twice 1 closed closed-Reachable refl refl (omega arith)
