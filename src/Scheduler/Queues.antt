-- ===== src/Scheduler/Queues.antt =====
-- The multi-level feedback queues (src/scheduler.c): `schedule`, `task_yield`, `priority_boost` and
-- `system_tick`.
use sky_net_os.Base.{
  ℕ, zero, suc, ◌+◌, Bool, true, none, some, List, [], ◌∷◌, ltb, if◌then◌else◌, pos, ◌-ℤ◌, leb_ℤ,
  ltb_ℤ, eqb_ℤ, ◌-◌, Outcome, done, ◌>>=◌,
}
use sky_net_os.Scheduler.State.{
  num_queues, ready, running, Tcb, Sched, quantums, set_task, set_queue, enqueue,
}
use sky_net_os.Scheduler.Tasks.{task_terminate}

-- The head of the first queue that is not empty goes on the processor.
unfoldable pub dispatch : ℕ → ℕ → List ℕ → Sched → Sched
dispatch q pid rest s =
    let s' = set_queue s q rest in
    set_task (record s' { current_pid = some pid }) pid (record (s.tasks pid) { state = running })

-- The loop of `schedule` over the `n` queues from `q` on.
unfoldable pub schedule_from : ℕ → ℕ → Sched → Sched
schedule_from zero q s = s
schedule_from (suc n) q s = elim (s.queues q) [
  | [] ↦ schedule_from n (q + 1) s
  | pid ∷ rest ↦ dispatch q pid rest s
]

unfoldable pub schedule : Sched → Sched
schedule s = schedule_from num_queues 0 s

-- The demotion of `task_yield`: at the lowest level nothing changes, the quantum included.
unfoldable pub demote : Tcb → Tcb
demote t =
    if ltb t.priority_level (num_queues - 1)
    then record t {
      priority_level = t.priority_level + 1;
      remaining_quantum = pos (quantums (t.priority_level + 1));
    }
    else t

-- What `task_yield` makes of the running task.
unfoldable pub yielded : Bool → Tcb → Tcb
yielded used_full_quantum t =
    let t' = record t { state = ready } in if used_full_quantum then demote t' else t'

-- `task_yield` up to the call of `schedule`, for the running task `p`.
unfoldable pub requeue : Bool → ℕ → Sched → Outcome Sched
requeue used_full_quantum p s =
    let t = yielded used_full_quantum (s.tasks p) in
    do s' ← enqueue t.priority_level p (set_task s p t); done (record s' { current_pid = none })

unfoldable pub task_yield : Bool → Sched → Outcome Sched
task_yield used_full_quantum s = elim s.current_pid [
  | none ↦ done s
  | some p ↦ do s' ← requeue used_full_quantum p s; done (schedule s')
]

-- What `priority_boost` does to a task.
unfoldable pub boost_task : Tcb → Tcb
boost_task t = record t { priority_level = 0; remaining_quantum = pos (quantums 0) }

-- The inner loop of `priority_boost`, over the entries of a queue.
unfoldable pub boost_tasks : List ℕ → Sched → Outcome Sched
boost_tasks [] s = done s
boost_tasks (pid ∷ rest) s = do
  s' ← enqueue 0 pid (set_task s pid (boost_task (s.tasks pid)))
  boost_tasks rest s'

unfoldable pub boost_queue : ℕ → Sched → Outcome Sched
boost_queue q s = do s' ← boost_tasks (s.queues q) s; done (set_queue s' q [])

unfoldable pub priority_boost : Sched → Outcome Sched
priority_boost s = do s' ← boost_queue 1 s; boost_queue 2 s'

-- The second half of `system_tick`: the quantum, for the running task `p`.
unfoldable pub charge_quantum : ℕ → Sched → Outcome Sched
charge_quantum p s =
    let t = s.tasks p in
    let left = t.remaining_quantum -ℤ pos 1 in
    let s' = set_task s p (record t { remaining_quantum = left }) in
    if leb_ℤ left (pos 0) then task_yield true s' else done s'

-- `system_tick` while task `p` runs.
unfoldable pub tick_task : ℕ → Sched → Outcome Sched
tick_task p s =
    let t = s.tasks p in
    let work = t.remaining_work -ℤ pos 1 in
    let s' = set_task s p (record t { remaining_work = work }) in
    if ltb_ℤ (pos 0) t.remaining_work
    then (if eqb_ℤ work (pos 0)
        then done (record (task_terminate (pos p) s') { current_pid = none })
        else charge_quantum p s')
    else charge_quantum p s

unfoldable pub system_tick : Sched → Outcome Sched
system_tick s = elim s.current_pid [ none ↦ done (schedule s) | some p ↦ tick_task p s ]
