-- ===== src/ThreadPool/Drain.antt =====
-- rtThreadPool.c: a pool with a thread that is awake can take all its tasks.
use rtmessage.Prelude.{
  ℕ, ◌-◌, ◌<◌, ◌≡◌, refl, sym, ap, ◌∙◌, subst, true, inl, inr, List, [], ◌∷◌, ◌++◌, arith,
  append-nil, ◌⊎◌,
}
use rtmessage.ThreadPool.Workers.{
  Pool, deque_task, work, start_thread, resume, finish_task, Reachable, starts, resumes, finishes,
}
use rtmessage.ThreadPool.Queue.{Reachable-Accounts, work_on}

-- Steps of the workers alone: threads that start, woken threads that go on, and workers that finish a task
pub data Works (p : Pool) : Pool → Type 0 where
  stays : Works p p
  then_starts : (q : Pool) → 0 < q.starting → Works p q → Works p (start_thread q)
  then_resumes : (q : Pool) → 0 < q.woken → Works p q → Works p (resume q)
  then_finishes : (q : Pool) → 0 < q.busy_thread_count → Works p q → Works p (finish_task q)

Works-Reachable : (max : ℕ) (p : Pool) {q : Pool} → Reachable max p → Works p q → Reachable max q
Works-Reachable max p r stays = r
Works-Reachable max p r (then_starts q' h w) = starts q' h (Works-Reachable max p r w)
Works-Reachable max p r (then_resumes q' h w) = resumes q' h (Works-Reachable max p r w)
Works-Reachable max p r (then_finishes q' h w) = finishes q' h (Works-Reachable max p r w)

-- The workers come from a state to one in which the list is empty and they have taken these tasks, in this
-- order.
abbrev pub Drains : Pool → List ℕ → Type 0
Drains p tasks = (q : Pool) × Works p q × (q.task_list ≡ []) × (q.started ≡ tasks)

-- A worker that comes for a task can go on until the list is empty.
drain_work :
    (max : ℕ) (ts : List ℕ) (first p : Pool)
    → Reachable max first
    → Works first (work p)
    → p.is_running ≡ true
    → p.task_list ≡ ts
    → Drains first p.submitted
unfolding deque_task finish_task
drain_work max [] first p r w on e =
    let w' : Works first (deque_task p []) =
      subst (Works first) (work_on p on ∙ ap (deque_task p) e) w in
    let order = (Reachable-Accounts max (deque_task p []) (Works-Reachable max first r w')).order in
    (
      deque_task p [],
      w',
      e,
      sym (append-nil p.started) ∙ (ap (λ l. p.started ++ l) (sym e) ∙ order),
    )
drain_work max (t ∷ ts) first p r w on e =
    let q = deque_task p (t ∷ ts) in
    let w' : Works first q = subst (Works first) (work_on p on ∙ ap (deque_task p) e) w in
    drain_work max ts first (record q { busy_thread_count = q.busy_thread_count - 1 }) r
      (then_finishes q (omega arith) w') on refl

-- From every reachable state in which the pool runs and a thread is busy, woken or about to start, steps of
-- the workers alone, without a further task, lead to a state in which they have taken every task that
-- was submitted, in that order, and the list is empty.
pub Reachable-Drains :
    (max : ℕ) (p : Pool)
    → Reachable max p
    → p.is_running ≡ true
    → (0 < p.busy_thread_count) ⊎ ((0 < p.woken) ⊎ (0 < p.starting))
    → Drains p p.submitted
unfolding start_thread resume finish_task
Reachable-Drains max p r on (inl busy) =
    drain_work max p.task_list p _ r (then_finishes p busy stays) on refl
Reachable-Drains max p r on (inr (inl awake)) =
    drain_work max p.task_list p _ r (then_resumes p awake stays) on refl
Reachable-Drains max p r on (inr (inr fresh)) =
    drain_work max p.task_list p _ r (then_starts p fresh stays) on refl
