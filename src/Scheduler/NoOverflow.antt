-- ===== src/Scheduler/NoOverflow.antt =====
-- The queue functions of src/scheduler.c keep the bookkeeping, and never write past a queue's end.
use sky_net_os.Base.{
  ℕ, zero, suc, inl, inr, none, some, List-cases, Option-cases, arith, Returns, Bool, ◌+◌, ◌≤◌, ◌<◌,
  ◌≡◌, refl, ap, Returns-bind, length,
}
use sky_net_os.Scheduler.State.{max_tasks, num_queues, ready, Tcb, Sched, set_task}
use sky_net_os.Scheduler.Queues.{schedule_from, schedule, demote, requeue, yielded, task_yield}
use sky_net_os.Scheduler.Rows.{row_le}
use sky_net_os.Scheduler.Queued.{
  IsQueued, joins, dispatch-IsQueued, live_tasks-le, enqueue-done, running_tasks,
}

schedule_from-IsQueued :
    (n q : ℕ) (s : Sched)
    → q + n ≤ num_queues
    → IsQueued s
    → s.current_pid ≡ none
    → IsQueued (schedule_from n q s)
unfolding schedule_from
schedule_from-IsQueued zero q s h inv idle = inv
schedule_from-IsQueued (suc n) q s h inv idle = elim (List-cases (s.queues q)) [
  | inl e ↦ rw (schedule_from, e) (schedule_from-IsQueued n (q + 1) s (omega arith) inv idle)
  | inr (p, rest, e) ↦ rw (schedule_from, e) (dispatch-IsQueued s q p rest inv (omega arith) e idle)
]

-- schedule keeps the bookkeeping, if the processor is idle.
pub schedule-IsQueued : (s : Sched) → IsQueued s → s.current_pid ≡ none → IsQueued (schedule s)
unfolding schedule
schedule-IsQueued s = schedule_from-IsQueued num_queues 0 s (omega arith)

yielded_keeps :
    (used : Bool) (t : Tcb)
    → t.priority_level < num_queues
    → ((yielded used t).priority_level < num_queues) × ((yielded used t).state ≡ ready)
unfolding yielded demote
yielded_keeps used t h = ground arith

requeue-IsQueued :
    (used : Bool) (p : ℕ) (s : Sched)
    → IsQueued s
    → s.current_pid ≡ some p
    → Returns (λ s'. IsQueued s' × (s'.current_pid ≡ none)) (requeue used p s)
unfolding requeue
requeue-IsQueued used p s inv cur =
    let t = yielded used (s.tasks p) in
    let (lev, rdy) = yielded_keeps used (s.tasks p) (inv.levels p) in
    let fits : length (s.queues t.priority_level) < max_tasks = omega (
      arith,
      row_le t.priority_level s.queues lev,
      inv.room,
      ap running_tasks cur,
      live_tasks-le s.tasks,
    ) in
    rw (requeue, enqueue-done t.priority_level p (set_task s p t) fits)
      (joins s t.priority_level p t inv lev cur rdy lev, refl)

-- task_yield never overflows a queue, and keeps the bookkeeping.
pub task_yield-IsQueued :
    (used : Bool) (s : Sched) → IsQueued s → Returns IsQueued (task_yield used s)
unfolding task_yield
task_yield-IsQueued used s inv = elim (Option-cases s.current_pid) [
  | inl idle ↦ rw (task_yield, idle) inv
  | inr (p, cur) ↦
      rw (task_yield, cur)
        (Returns-bind (λ s'. IsQueued s' × (s'.current_pid ≡ none)) IsQueued (requeue used p s) _
          (requeue-IsQueued used p s inv cur) (λ s' h. schedule-IsQueued s' h.0 h.1))
]
