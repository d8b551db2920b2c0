-- ===== src/Scheduler/Banker.antt =====
-- The banker's algorithm (src/scheduler.c): `is_safe_state`, `request_resources` and
-- `release_resources`.
use sky_net_os.Base.{
  ℕ, zero, suc, ◌+◌, Bool, true, false, ◌&&◌, not, none, some, if◌then◌else◌, ℤ, pos, pos_part,
  ltb_ℤ, update,
}
use sky_net_os.Scheduler.State.{
  max_tasks, is_terminated, Resources, resources, ◌+r◌, ◌-r◌, leb_resources, Tcb, Sched, live_index,
}

-- The local variables `work`, `finish` and `count` of `is_safe_state`, with `found`.
pub record Scan : Type 0 where
  pub work : Resources
  pub finish : ℕ → Bool
  pub count : ℕ
  pub found : Bool

-- The test of the `for` loop of `is_safe_state`.
unfoldable pub can_finish : (ℕ → Tcb) → ℕ → Scan → Bool
can_finish tasks i c = not (c.finish i) && leb_resources (tasks i).need c.work

-- What the loop does with a task that can finish: it gives back what it holds.
abbrev pub finish_task : (ℕ → Tcb) → ℕ → Scan → Scan
finish_task tasks i c = record {
  work = c.work +r (tasks i).allocation;
  finish = update c.finish i true;
  count = c.count + 1;
  found = true;
}

-- The body of the `for` loop.
unfoldable pub try_finish : (ℕ → Tcb) → ℕ → Scan → Scan
try_finish tasks i c = if can_finish tasks i c then finish_task tasks i c else c

-- One run of the `for` loop, from `i` on.
unfoldable pub pass : (ℕ → Tcb) → ℕ → ℕ → Scan → Scan
pass tasks zero i c = c
pass tasks (suc n) i c = pass tasks n (i + 1) (try_finish tasks i c)

-- The body of the `while` loop of `is_safe_state`.
abbrev pub round : (ℕ → Tcb) → Scan → Scan
round tasks c = pass tasks max_tasks 0 (record c { found = false })

-- The `while` loop. Each round that goes on adds to `count`, so `task_count` rounds are enough.
unfoldable pub rounds : (ℕ → Tcb) → ℤ → ℕ → Scan → Scan
rounds tasks task_count zero c = c
rounds tasks task_count (suc fuel) c =
    let c' = round tasks c in
    let rest = rounds tasks task_count fuel c' in
    let after = if c'.found then rest else c' in if ltb_ℤ (pos c.count) task_count then after else c

-- The last loop: is `finish` set everywhere?
unfoldable pub all_finished : ℕ → (ℕ → Bool) → Bool
all_finished zero finish = true
all_finished (suc n) finish = all_finished n finish && finish n

abbrev pub start_scan : Sched → Scan
start_scan s = record {
  work = s.available;
  finish = λ i. is_terminated (s.tasks i).state;
  count = 0;
  found = false;
}

unfoldable pub is_safe_state : Sched → Bool
is_safe_state s =
    all_finished max_tasks
      (rounds s.tasks s.task_count (pos_part s.task_count) (start_scan s)).finish

-- The consistency checks of `request_resources`.
unfoldable pub may_request : Resources → ℕ → Sched → Bool
may_request request p s =
    leb_resources request (s.tasks p).need && leb_resources request s.available

-- What the trial allocation does to the task, and what the rollback does.
unfoldable pub give : Resources → Tcb → Tcb
give request t = record t { allocation = t.allocation +r request; need = t.need -r request }

unfoldable pub take_back : Resources → Tcb → Tcb
take_back request t = record t { allocation = t.allocation -r request; need = t.need +r request }

unfoldable pub allocate : Resources → ℕ → Sched → Sched
allocate request p s = record s {
  available = s.available -r request;
  tasks = update s.tasks p (give request (s.tasks p));
}

unfoldable pub rollback : Resources → ℕ → Sched → Sched
rollback request p s = record s {
  available = s.available +r request;
  tasks = update s.tasks p (take_back request (s.tasks p));
}

unfoldable pub request_resources : ℤ → Resources → Sched → Sched × Bool
request_resources pid request s = elim (live_index pid s) [
  | none ↦ (s, false)
  | some p ↦
      if may_request request p s
      then (let s' = allocate request p s in
          if is_safe_state s' then (s', true) else (rollback request p s', false))
      else (s, false)
]

-- What `release_resources` releases of one resource: an amount above the allocation is skipped.
unfoldable pub releasable : ℤ → ℤ → ℤ
releasable release allocation = if ltb_ℤ allocation release then pos 0 else release

unfoldable pub released : Resources → Resources → Resources
released release allocation =
    resources (releasable release.cpu allocation.cpu) (releasable release.memory allocation.memory)
      (releasable release.io allocation.io)

unfoldable pub release_resources : ℤ → Resources → Sched → Sched
release_resources pid release s = elim (live_index pid s) [
  | none ↦ s
  | some p ↦ rollback (released release (s.tasks p).allocation) p s
]
