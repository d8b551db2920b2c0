-- ===== src/Scheduler/Tick.antt =====
-- `system_tick` and `task_create` (src/scheduler.c) keep the bookkeeping.
use native.Mathlib.Decide.{dec_lt}
use native.Mathlib.Decide.{ℕ_discrete}
use sky_net_os.Base.{
  ℕ, refl, inl, inr, true, none, some, ap, pos, update_other, update_all, update_view, Bool-cases,
  Option-cases, arith, Returns, ltb_ℤ, leb_ℤ, eqb_ℤ, ◌<◌, ◌≡◌, ◌-ℤ◌, zero, suc, update, int_laws,
  ◌+◌, ◌+ℤ◌, parts_of_eq, length, ◌≢◌, sym, if-false, ◌∙◌,
}
use sky_net_os.Scheduler.State.{
  max_tasks, TaskState, num_queues, ready, running, is_terminated, Resources, Tcb, Sched, set_task,
}
use sky_net_os.Scheduler.Rounds.{open_weight}
use sky_net_os.Scheduler.Decides.{live_tasks}
use sky_net_os.Scheduler.Requests.{live_index-live}
use sky_net_os.Scheduler.Tasks.{task_create, find_free, fresh_task, task_terminate, ended}
use sky_net_os.Scheduler.Queues.{charge_quantum, tick_task, system_tick}
use sky_net_os.Scheduler.Rows.{waiting, push, EntriesReady-push, OnceEach-push, queued-push}
use sky_net_os.Scheduler.Queued.{
  IsQueued, running_tasks, live_tasks-same, live_tasks-update, enqueue-done, waiting-current,
}
use sky_net_os.Scheduler.NoOverflow.{schedule-IsQueued, task_yield-IsQueued}

-- A change to a task that leaves its state and its level alone.
pub retask-IsQueued :
    (s : Sched) (p : ℕ) (t : Tcb)
    → IsQueued s
    → t.state ≡ (s.tasks p).state
    → t.priority_level ≡ (s.tasks p).priority_level
    → IsQueued (set_task s p t)
retask-IsQueued s p t inv st lev =
    let states = update_view (λ t. t.state) s.tasks p t st in
    let levels = update_view (λ t. t.priority_level) s.tasks p t lev in
    let same = live_tasks-same s.tasks p t (ap is_terminated st) in
    record {
      entries = λ j h. rw (ap (λ f. f j) states) (inv.entries j h);
      once = inv.once;
      current = λ c e. rw (ap (λ f. f c) states) (inv.current c e);
      levels = λ j. rw (ap (λ f. f j) levels) (inv.levels j);
      room = rw same inv.room;
      counted = rw same inv.counted;
    }

-- The running task ends.
finish-IsQueued :
    (s : Sched) (p : ℕ)
    → IsQueued s
    → s.current_pid ≡ some p
    → IsQueued (record (task_terminate (pos p) s) { current_pid = none })
unfolding task_terminate ended
finish-IsQueued s p inv cur =
    let (lt, run) = inv.current p cur in
    let out = waiting-current inv p cur in
    let t = ended (s.tasks p) in
    let fewer : live_tasks (update s.tasks p t) + 1 ≡ live_tasks s.tasks =
      omega
        (arith, live_tasks-update s.tasks p t lt, ap (λ st. open_weight (is_terminated st)) run) in
    rw (task_terminate, live_index-live p s lt (rw run refl))
      (record {
        entries = λ j h. elim (ℕ_discrete p j) [
          | yes e ↦ absurd (omega (arith, out, rw (← e) at h))
          | no ne ↦ rw (update_other s.tasks p j t ne) (inv.entries j h)
        ];
        once = inv.once;
        current = λ c h. cc;
        levels =
            update_all (λ t. t.priority_level < num_queues) s.tasks p t inv.levels (inv.levels p);
        room = omega (arith, inv.room, ap running_tasks cur);
        counted = omega (int_laws, parts_of_eq inv.counted);
      })

charge_quantum-IsQueued : (p : ℕ) (s : Sched) → IsQueued s → Returns IsQueued (charge_quantum p s)
unfolding charge_quantum
charge_quantum-IsQueued p s inv =
    let left = (s.tasks p).remaining_quantum -ℤ pos 1 in
    let s' = set_task s p (record (s.tasks p) { remaining_quantum = left }) in
    let inv' =
      retask-IsQueued s p (record (s.tasks p) { remaining_quantum = left }) inv refl refl in
    elim (Bool-cases (leb_ℤ left (pos 0))) [
      | inl e ↦ rw (charge_quantum, e) (task_yield-IsQueued true s' inv')
      | inr e ↦ rw (charge_quantum, e) inv'
    ]

tick_task-IsQueued :
    (p : ℕ) (s : Sched) → IsQueued s → s.current_pid ≡ some p → Returns IsQueued (tick_task p s)
unfolding tick_task
tick_task-IsQueued p s inv cur =
    let work = (s.tasks p).remaining_work -ℤ pos 1 in
    let s' = set_task s p (record (s.tasks p) { remaining_work = work }) in
    let inv' = retask-IsQueued s p (record (s.tasks p) { remaining_work = work }) inv refl refl in
    elim (Bool-cases (ltb_ℤ (pos 0) (s.tasks p).remaining_work)) [
      | inl e ↦ elim (Bool-cases (eqb_ℤ work (pos 0))) [
        | inl z ↦ rw (tick_task, e, z) (finish-IsQueued s' p inv' cur)
        | inr z ↦ rw (tick_task, e, z) (charge_quantum-IsQueued p s' inv')
      ]
      | inr e ↦ rw (tick_task, e) (charge_quantum-IsQueued p s inv)
    ]

-- system_tick never overflows a queue, and keeps the bookkeeping.
pub system_tick-IsQueued : (s : Sched) → IsQueued s → Returns IsQueued (system_tick s)
unfolding system_tick
system_tick-IsQueued s inv = elim (Option-cases s.current_pid) [
  | inl idle ↦ rw (system_tick, idle) (schedule-IsQueued s inv idle)
  | inr (p, cur) ↦ rw (system_tick, cur) (tick_task-IsQueued p s inv cur)
]

find_free-free :
    (n i : ℕ) (tasks : ℕ → Tcb) {p : ℕ}
    → find_free n i tasks ≡ some p
    → (p < i + n) × (is_terminated (tasks p).state ≡ true)
unfolding find_free
find_free-free zero i tasks h = cc
find_free-free (suc n) i tasks {p} h = elim (Bool-cases (is_terminated (tasks i).state)) [
  | inl e ↦ ground arith
  | inr e ↦
      let later =
        find_free-free n (i + 1) tasks
          (sym (if-false (some i) (find_free n (i + 1) tasks) e) ∙ h) in
      (omega arith, later.1)
]

-- A dead task is not in the queues.
waiting-terminated :
    {s : Sched} (p : ℕ)
    → IsQueued s
    → is_terminated (s.tasks p).state ≡ true
    → waiting s.queues p ≡ 0
waiting-terminated {s} p inv dead = elim (dec_lt 0 (waiting s.queues p)) [
  | yes some_entry ↦ let rdy = (inv.entries p some_entry).1 in ground arith
  | no none_there ↦ omega arith
]

dead_not_running : {st : TaskState} → is_terminated st ≡ true → st ≢ running
dead_not_running dead run = ground arith

-- A new task takes the free entry `p`, and joins queue 0.
create-IsQueued :
    (s : Sched) (p : ℕ) (t : Tcb)
    → IsQueued s
    → p < max_tasks
    → is_terminated (s.tasks p).state ≡ true
    → t.state ≡ ready
    → t.priority_level ≡ 0
    → IsQueued (record s {
      tasks = update s.tasks p t;
      queues = push 0 p s.queues;
      task_count = s.task_count +ℤ pos 1;
    })
create-IsQueued s p t inv lt dead rdy lev =
    let out = waiting-terminated p inv dead in
    let more : live_tasks (update s.tasks p t) ≡ live_tasks s.tasks + 1 = omega (
      arith,
      live_tasks-update s.tasks p t lt,
      ap open_weight dead,
      ap (λ st. open_weight (is_terminated st)) rdy,
    ) in
    record {
      entries = EntriesReady-push 0 p s.queues (omega arith) s.tasks t inv.entries lt rdy;
      once = OnceEach-push 0 p s.queues (omega arith) inv.once out;
      current = λ c h.
          rw
            (update_other s.tasks p c t
              (λ e. dead_not_running dead (rw (← e) at (inv.current c h).1)))
            (inv.current c h);
      levels = update_all (λ t. t.priority_level < num_queues) s.tasks p t inv.levels (omega arith);
      room = omega (arith, more, inv.room, queued-push 0 p s.queues (omega arith));
      counted = omega (int_laws, more, parts_of_eq inv.counted);
    }

-- task_create never overflows a queue, and keeps the bookkeeping.
pub task_create-IsQueued :
    (demand : Resources) (s : Sched)
    → IsQueued s
    → Returns (λ r. IsQueued r.0) (task_create demand s)
unfolding task_create fresh_task
task_create-IsQueued demand s inv = elim (Bool-cases (leb_ℤ (pos max_tasks) s.task_count)) [
  | inl full ↦ rw (task_create, full) inv
  | inr free ↦ elim (Option-cases (find_free max_tasks 0 s.tasks)) [
    | inl none_free ↦ rw (task_create, free, none_free) inv
    | inr (p, found) ↦
        let (lt, dead) = find_free-free max_tasks 0 s.tasks found in
        let t = fresh_task p demand (s.tasks p) in
        let fits : length (s.queues 0) < max_tasks =
          ground (arith, parts_of_eq inv.counted, inv.room) in
        rw (task_create, free, found, enqueue-done 0 p (set_task s p t) fits)
          (create-IsQueued s p t inv lt dead refl refl)
  ]
]
