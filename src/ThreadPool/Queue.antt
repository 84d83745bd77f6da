-- ===== src/ThreadPool/Queue.antt =====
-- rtThreadPool.c: what every state of a pool keeps, and that its queue can be emptied.
use rtmessage.Prelude.{
  ◌==◌, ◌&&◌, ℕ, ◌+◌, ◌≡◌, refl, sym, ap, ◌∙◌, subst, true, false, Bool-cases, inl, inr, List, [],
  ◌∷◌, ◌++◌, ltb, if◌then◌else◌, arith, append_assoc,
}
use rtmessage.ThreadPool.Workers.{
  Pool, create, leave, deque_task, work, start_thread, resume, finish_task, time_out, expire,
  signal, wake_spuriously, create_worker_thread, find_thread, run_task, stop_all_thread, shut_down,
  try_real_destroy, free_pool, Reachable, created, submits, starts, resumes, finishes, times_out,
  expires, wakes, stops, shuts_down, checks, frees,
}

-- Every thread that is counted is busy, asleep, woken or timed out, but for `others`; the tasks that were
-- taken and those in the list are those that were submitted, in that order.
pub record Accounts (others : ℕ) (p : Pool) : Type 0 where
  pub threads : p.thread_count ≡ p.busy_thread_count + p.asleep + p.woken + p.timed_out + others
  pub order : p.started ++ p.task_list ≡ p.submitted

deque_task-Accounts :
    (p : Pool) (ts : List ℕ) → p.task_list ≡ ts → Accounts 1 p → Accounts 0 (deque_task p ts)
unfolding deque_task
deque_task-Accounts p [] e a = record { threads = omega (arith, a.threads); order = a.order }
deque_task-Accounts p (t ∷ ts) e a = record {
  threads = omega (arith, a.threads);
  order = append_assoc p.started (t ∷ []) ts ∙ (ap (λ l. p.started ++ l) (sym e) ∙ a.order);
}

pub work_on : (p : Pool) → p.is_running ≡ true → work p ≡ deque_task p p.task_list
unfolding work
work_on p e = ap (λ b. if b then deque_task p p.task_list else leave p) e

work_off : (p : Pool) → p.is_running ≡ false → work p ≡ leave p
unfolding work
work_off p e = ap (λ b. if b then deque_task p p.task_list else leave p) e

work-Accounts : (p : Pool) → Accounts 1 p → Accounts 0 (work p)
unfolding leave
work-Accounts p a = elim (Bool-cases p.is_running) [
  | inl on ↦ subst (Accounts 0) (sym (work_on p on)) (deque_task-Accounts p p.task_list refl a)
  | inr off ↦
      subst (Accounts 0) (sym (work_off p off))
        (record { threads = omega (arith, a.threads); order = a.order })
]

try_real_destroy-Accounts : (p : Pool) → Accounts 0 p → Accounts 0 (try_real_destroy p)
unfolding try_real_destroy
try_real_destroy-Accounts p a = elim (Bool-cases ((p.thread_count == 0) && p.is_shutdown)) [
  | inl last ↦ rw last (record { threads = a.threads; order = a.order })
  | inr other ↦ rw other (record { threads = a.threads; order = a.order })
]

run_task-Accounts : (p : Pool) (t : ℕ) → Accounts 0 p → Accounts 0 (run_task p t).1
unfolding run_task find_thread signal create_worker_thread
run_task-Accounts p t a =
    let order : p.started ++ (p.task_list ++ (t ∷ [])) ≡ p.submitted ++ (t ∷ []) =
      sym (append_assoc p.started p.task_list (t ∷ [])) ∙ ap (λ l. l ++ (t ∷ [])) a.order in
    elim (Bool-cases (ltb p.busy_thread_count p.thread_count)) [
      | inl spare ↦ elim (Bool-cases (ltb 0 p.asleep)) [
        | inl sleeper ↦
            rw (spare, sleeper) (record { threads = ground (arith, a.threads); order = order })
        | inr none_asleep ↦ rw (spare, none_asleep) (record { threads = a.threads; order = order })
      ]
      | inr full ↦ elim (Bool-cases (ltb p.thread_count p.max_thread_count)) [
        | inl room ↦ rw (full, room) (record { threads = a.threads; order = order })
        | inr limit ↦ rw (full, limit) (record { threads = a.threads; order = order })
      ]
    ]

-- In every reachable state the thread count is the number of threads that run a task, sleep, were woken
-- or timed out, and the tasks that workers took, followed by those in the list, are all that were
-- given to `rtThreadPool_RunTask`, in that order: none is lost, run twice or overtaken.
pub Reachable-Accounts : (max : ℕ) (p : Pool) → Reachable max p → Accounts 0 p
unfolding create start_thread resume finish_task time_out expire leave wake_spuriously
    stop_all_thread shut_down free_pool
Reachable-Accounts max p created = record { threads = refl; order = refl }
Reachable-Accounts max p (submits q t s r) = run_task-Accounts q t (Reachable-Accounts max q r)
Reachable-Accounts max p (starts q l r) =
    let a = Reachable-Accounts max q r in
    work-Accounts _ (record { threads = omega (arith, a.threads); order = a.order })
Reachable-Accounts max p (resumes q l r) =
    let a = Reachable-Accounts max q r in
    work-Accounts _ (record { threads = omega (arith, a.threads, l); order = a.order })
Reachable-Accounts max p (finishes q l r) =
    let a = Reachable-Accounts max q r in
    work-Accounts _ (record { threads = omega (arith, a.threads, l); order = a.order })
Reachable-Accounts max p (times_out q l r) =
    let a = Reachable-Accounts max q r in
    record { threads = omega (arith, a.threads, l); order = a.order }
Reachable-Accounts max p (expires q l r) =
    let a = Reachable-Accounts max q r in
    record { threads = omega (arith, a.threads, l); order = a.order }
Reachable-Accounts max p (wakes q l r) =
    let a = Reachable-Accounts max q r in
    record { threads = omega (arith, a.threads, l); order = a.order }
Reachable-Accounts max p (stops q s r) =
    let a = Reachable-Accounts max q r in
    record { threads = omega (arith, a.threads); order = a.order }
Reachable-Accounts max p (shuts_down q f s r) =
    let a = Reachable-Accounts max q r in record { threads = a.threads; order = a.order }
Reachable-Accounts max p (checks q l r) = try_real_destroy-Accounts q (Reachable-Accounts max q r)
Reachable-Accounts max p (frees q l r) =
    let a = Reachable-Accounts max q r in record { threads = a.threads; order = a.order }
