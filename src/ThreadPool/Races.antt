-- ===== src/ThreadPool/Races.antt =====
-- rtThreadPool.c: orders of steps that lose a task or free the pool twice.
use rtmessage.Prelude.{
  ℕ, ◌+◌, ◌-◌, ◌≤◌, ◌≡◌, refl, ap, ◌∙◌, subst, true, false, [], ◌∷◌, ◌++◌, ltb, if◌then◌else◌,
  arith, ◌==◌, ◌&&◌,
}
use rtmessage.Error.{rt_ok}
use rtmessage.ThreadPool.Workers.{
  Pool, leave, expire, signal, find_thread, run_task, create_worker_thread, task_pending,
  try_real_destroy, free_pool, Reachable, submits, expires, checks, frees,
}
use rtmessage.ThreadPool.Queue.{Reachable-Accounts}

find_thread_idle :
    (p : Pool)
    → ltb p.busy_thread_count p.thread_count ≡ true
    → ltb 0 p.asleep ≡ false
    → find_thread p ≡ (rt_ok, p)
unfolding find_thread signal
find_thread_idle p e f =
    ap
      (λ b.
        if b
        then (rt_ok, signal p)
        else if ltb p.thread_count p.max_thread_count
        then (rt_ok, create_worker_thread p)
        else (task_pending, p))
      e
    ∙ ap (λ b. (rt_ok, (if b then record p { asleep = p.asleep - 1; woken = p.woken + 1 } else p)))
        f

destroyer : Pool → Pool
destroyer p = record p { leaving = p.leaving - 1; destroying = p.destroying + 1 }

try_real_destroy_last :
    (p : Pool) → p.thread_count ≡ 0 → p.is_shutdown ≡ true → try_real_destroy p ≡ destroyer p
unfolding try_real_destroy destroyer
try_real_destroy_last p e f =
    let both : ((p.thread_count == 0) && p.is_shutdown) ≡ true =
      ap (λ n. (n == 0) && p.is_shutdown) e ∙ f in
    ap (λ b. if b then destroyer p else record p { leaving = p.leaving - 1 }) both

-- If the wait of the only thread has timed out and the thread has not locked again when
-- `rtThreadPool_RunTask` comes, that returns RT_OK without starting a thread, and the thread leaves: the task
-- stays in the list of a pool that has no thread.
pub Reachable-stranded :
    (max : ℕ) (p : Pool) (t : ℕ)
    → Reachable max p
    → p.is_shutdown ≡ false
    → p.thread_count ≡ 1
    → p.timed_out ≡ 1
    → p.starting ≡ 0
    → ((run_task p t).0 ≡ rt_ok)
      × ((q : Pool) × Reachable max q
          × (q.task_list ≡ p.task_list ++ (t ∷ []))
          × (q.thread_count ≡ 0)
          × (q.starting ≡ 0)
          × (q.is_running ≡ p.is_running))
unfolding run_task expire leave
Reachable-stranded max p t r alive one late none_new =
    let a = Reachable-Accounts max p r in
    let idle : ltb p.busy_thread_count p.thread_count ≡ true = ground (arith, a.threads) in
    let none_asleep : ltb 0 p.asleep ≡ false = ground (arith, a.threads) in
    let pending : Pool = record p {
      task_list = p.task_list ++ (t ∷ []);
      submitted = p.submitted ++ (t ∷ []);
    } in
    let quiet : run_task p t ≡ (rt_ok, pending) = find_thread_idle pending idle none_asleep in
    let r' : Reachable max pending = subst (λ w. Reachable max w.1) quiet (submits p t alive r) in
    (
      ap (λ w. w.0) quiet,
      (expire pending, expires pending (omega arith) r', refl, omega arith, none_new, refl),
    )

-- If two threads are before the check of `rtThreadPool_TryRealDestroy` when the pool is shut down and has no
-- counted thread, as its last worker and the caller of `rtThreadPool_Destroy` can be, both may free it.
pub Reachable-freed_twice :
    (max : ℕ) (p : Pool)
    → Reachable max p
    → p.is_shutdown ≡ true
    → p.thread_count ≡ 0
    → 2 ≤ p.leaving
    → (q : Pool) × Reachable max q × (q.freed ≡ p.freed + 2)
unfolding free_pool destroyer
Reachable-freed_twice max p r shut empty two =
    let p1 = destroyer p in
    let p2 = destroyer p1 in
    let r1 : Reachable max p1 =
      subst (Reachable max) (try_real_destroy_last p empty shut) (checks p (omega arith) r) in
    let r2 : Reachable max p2 =
      subst (Reachable max) (try_real_destroy_last p1 empty shut) (checks p1 (omega arith) r1) in
    let r3 : Reachable max (free_pool p2) = frees p2 (omega arith) r2 in
    let r4 : Reachable max (free_pool (free_pool p2)) = frees (free_pool p2) (omega arith) r3 in
    (free_pool (free_pool p2), r4, omega arith)
