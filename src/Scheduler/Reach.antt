-- ===== src/Scheduler/Reach.antt =====
-- The scheduler of src/scheduler.c driven by its clients: what a state can become while no task is
-- killed, blocked or unblocked from outside.
use sky_net_os.Base.{
  ℕ, refl, inl, inr, done, Option-cases, arith, Outcome, ℤ, Bool, List, ◌∷◌, [], ◌>>=◌, Bool-cases,
  Returns-bind, leb, total, Returns,
}
use sky_net_os.Scheduler.State.{
  max_threads_per_task, Resources, Sched, boot, scheduler_init, live_index,
}
use sky_net_os.Scheduler.Tasks.{task_create, thread_create, task_set_work}
use sky_net_os.Scheduler.Queues.{task_yield, priority_boost, system_tick}
use sky_net_os.Scheduler.Banker.{
  give, take_back, allocate, rollback, may_request, is_safe_state, request_resources,
  release_resources,
}
use sky_net_os.Scheduler.Rows.{count}
use sky_net_os.Scheduler.Queued.{IsQueued}
use sky_net_os.Scheduler.NoOverflow.{task_yield-IsQueued}
use sky_net_os.Scheduler.Boost.{priority_boost-IsQueued}
use sky_net_os.Scheduler.Tick.{retask-IsQueued, task_create-IsQueued, system_tick-IsQueued}

-- A call of the scheduler.
pub data Call : Type 0 where
  create : Resources → Call
  yield : Bool → Call
  boost : Call
  tick : Call
  add_thread : ℤ → Call
  set_work : ℤ → ℤ → Call
  request : ℤ → Resources → Call
  release : ℤ → Resources → Call

-- What the call does to the state.
unfoldable pub perform : Call → Sched → Outcome Sched
perform (create demand) s = do r ← task_create demand s; done r.0
perform (yield used) s = task_yield used s
perform boost s = priority_boost s
perform tick s = system_tick s
perform (add_thread pid) s = done (thread_create pid s).0
perform (set_work pid work) s = done (task_set_work pid work s)
perform (request pid amounts) s = done (request_resources pid amounts s).0
perform (release pid amounts) s = done (release_resources pid amounts s)

unfoldable pub perform_all : List Call → Sched → Outcome Sched
perform_all [] s = done s
perform_all (c ∷ cs) s = do s' ← perform c s; perform_all cs s'

boot-IsQueued : IsQueued boot
unfolding count total
boot-IsQueued = record {
  entries = λ p h. absurd (omega arith);
  once = λ p. omega arith;
  current = λ c h. cc;
  levels = λ p. omega arith;
  room = omega arith;
  counted = refl;
}

available-IsQueued :
    {s : Sched} (a : Resources) → IsQueued s → IsQueued (record s { available = a })
available-IsQueued a inv = record {
  entries = inv.entries;
  once = inv.once;
  current = inv.current;
  levels = inv.levels;
  room = inv.room;
  counted = inv.counted;
}

thread_create-IsQueued : (pid : ℤ) (s : Sched) → IsQueued s → IsQueued (thread_create pid s).0
unfolding thread_create
thread_create-IsQueued pid s inv = elim (Option-cases (live_index pid s)) [
  | inl e ↦ rw (thread_create, e) inv
  | inr (p, e) ↦ elim (Bool-cases (leb max_threads_per_task (s.tasks p).thread_count)) [
    | inl full ↦ rw (thread_create, e, full) inv
    | inr free ↦ rw (thread_create, e, free) (retask-IsQueued s p _ inv refl refl)
  ]
]

allocate-IsQueued :
    (amounts : Resources) (p : ℕ) (s : Sched) → IsQueued s → IsQueued (allocate amounts p s)
unfolding allocate give
allocate-IsQueued amounts p s inv =
    available-IsQueued _ (retask-IsQueued s p (give amounts (s.tasks p)) inv refl refl)

rollback-IsQueued :
    (amounts : Resources) (p : ℕ) (s : Sched) → IsQueued s → IsQueued (rollback amounts p s)
unfolding rollback take_back
rollback-IsQueued amounts p s inv =
    available-IsQueued _ (retask-IsQueued s p (take_back amounts (s.tasks p)) inv refl refl)

request_resources-IsQueued :
    (pid : ℤ) (amounts : Resources) (s : Sched)
    → IsQueued s
    → IsQueued (request_resources pid amounts s).0
unfolding request_resources
request_resources-IsQueued pid amounts s inv = elim (Option-cases (live_index pid s)) [
  | inl e ↦ rw (request_resources, e) inv
  | inr (p, e) ↦
      rw (request_resources, e)
        (elim (Bool-cases (may_request amounts p s)) [
          | inl m ↦ rw m (elim (Bool-cases (is_safe_state (allocate amounts p s))) [
            | inl q ↦ rw q (allocate-IsQueued amounts p s inv)
            | inr q ↦ rw q (rollback-IsQueued amounts p _ (allocate-IsQueued amounts p s inv))
          ])
          | inr m ↦ rw m inv
        ])
]

release_resources-IsQueued :
    (pid : ℤ) (amounts : Resources) (s : Sched)
    → IsQueued s
    → IsQueued (release_resources pid amounts s)
unfolding release_resources
release_resources-IsQueued pid amounts s inv = elim (Option-cases (live_index pid s)) [
  | inl e ↦ rw (release_resources, e) inv
  | inr (p, e) ↦ rw (release_resources, e) (rollback-IsQueued _ p s inv)
]

task_set_work-IsQueued :
    (pid work : ℤ) (s : Sched) → IsQueued s → IsQueued (task_set_work pid work s)
unfolding task_set_work
task_set_work-IsQueued pid work s inv = elim (Option-cases (live_index pid s)) [
  | inl e ↦ rw (task_set_work, e) inv
  | inr (p, e) ↦ rw (task_set_work, e) (retask-IsQueued s p _ inv refl refl)
]

-- Where the bookkeeping of the queues holds, every call keeps it, and none faults.
pub perform-IsQueued : (c : Call) (s : Sched) → IsQueued s → Returns IsQueued (perform c s)
unfolding perform
perform-IsQueued (create demand) s inv =
    Returns-bind (λ r. IsQueued r.0) IsQueued (task_create demand s) _
      (task_create-IsQueued demand s inv) (λ r h. h)
perform-IsQueued (yield used) s inv = task_yield-IsQueued used s inv
perform-IsQueued boost s inv = priority_boost-IsQueued s inv
perform-IsQueued tick s inv = system_tick-IsQueued s inv
perform-IsQueued (add_thread pid) s inv = thread_create-IsQueued pid s inv
perform-IsQueued (set_work pid work) s inv = task_set_work-IsQueued pid work s inv
perform-IsQueued (request pid amounts) s inv = request_resources-IsQueued pid amounts s inv
perform-IsQueued (release pid amounts) s inv = release_resources-IsQueued pid amounts s inv

perform_all-IsQueued :
    (cs : List Call) (s : Sched) → IsQueued s → Returns IsQueued (perform_all cs s)
unfolding perform_all
perform_all-IsQueued [] s inv = inv
perform_all-IsQueued (c ∷ cs) s inv =
    Returns-bind IsQueued IsQueued (perform c s) (perform_all cs) (perform-IsQueued c s inv)
      (perform_all-IsQueued cs)

-- From the start of the program, no sequence of calls (task_create, task_yield, priority_boost,
-- system_tick, thread_create, task_set_work, request_resources, release_resources) writes past the
-- end of a queue: every call returns, and the bookkeeping holds after it.
pub perform_all-boot : (cs : List Call) → Returns IsQueued (perform_all cs (scheduler_init boot))
unfolding scheduler_init
perform_all-boot cs = perform_all-IsQueued cs boot boot-IsQueued
