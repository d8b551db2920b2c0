-- ===== src/Scheduler/Tasks.antt =====
-- Creating and ending tasks, and the small operations on one task (src/scheduler.c).
use sky_net_os.Base.{
  ℕ, zero, suc, ◌+◌, Bool, true, false, Option, none, some, leb, if◌then◌else◌, ℤ, pos, negsuc,
  ◌+ℤ◌, ◌-ℤ◌, leb_ℤ, Outcome, done, ◌>>=◌, map,
}
use sky_net_os.Sync.Defs.{mutex_init}
use sky_net_os.Scheduler.State.{
  max_tasks, max_threads_per_task, ready, terminated, blocked, is_terminated, is_blocked, Resources,
  no_resources, ◌+r◌, Tcb, Sched, quantums, live_index, pid_index, set_task, enqueue, Message,
}

-- The search of `task_create` for a free entry, from `i` on.
unfoldable pub find_free : ℕ → ℕ → (ℕ → Tcb) → Option ℕ
find_free zero i tasks = none
find_free (suc n) i tasks =
    let rest = find_free n (i + 1) tasks in if is_terminated (tasks i).state then some i else rest

-- What is left of an entry of a mailbox that is set to not valid.
abbrev pub invalid : Message → Message
invalid m = record m { valid = false }

-- What `task_create` writes into the entry that it found.
unfoldable pub fresh_task : ℕ → Resources → Tcb → Tcb
fresh_task i max_resources old = record {
  pid = pos i;
  priority_level = 0;
  state = ready;
  remaining_quantum = pos (quantums 0);
  time_slice = pos (quantums 0);
  remaining_work = negsuc 0;
  max_demand = max_resources;
  allocation = no_resources;
  need = max_resources;
  thread_count = 1;
  mailbox = map invalid old.mailbox;
  msg_count = 0;
  ipc_mutex = mutex_init old.ipc_mutex;
}

-- The pid is `none` for -1.
unfoldable pub task_create : Resources → Sched → Outcome (Sched × Option ℕ)
task_create max_resources s =
    if leb_ℤ (pos max_tasks) s.task_count
    then done (s, none)
    else elim (find_free max_tasks 0 s.tasks) [
      | none ↦ done (s, none)
      | some i ↦ do
        s' ← enqueue 0 i (set_task s i (fresh_task i max_resources (s.tasks i)))
        done (record s' { task_count = s'.task_count +ℤ pos 1 }, some i)
    ]

-- What is left of a task that ends.
unfoldable pub ended : Tcb → Tcb
ended t = record t { allocation = no_resources; state = terminated }

unfoldable pub task_terminate : ℤ → Sched → Sched
task_terminate pid s = elim (live_index pid s) [
  | none ↦ s
  | some p ↦ record s {
    available = s.available +r (s.tasks p).allocation;
    tasks = (set_task s p (ended (s.tasks p))).tasks;
    task_count = s.task_count -ℤ pos 1;
  }
]

unfoldable pub get_task_info : ℤ → Sched → Option Tcb
get_task_info pid s = elim (live_index pid s) [ none ↦ none | some p ↦ some (s.tasks p) ]

unfoldable pub thread_create : ℤ → Sched → Sched × Bool
thread_create pid s = elim (live_index pid s) [
  | none ↦ (s, false)
  | some p ↦
      if leb max_threads_per_task (s.tasks p).thread_count
      then (s, false)
      else (set_task s p (record (s.tasks p) { thread_count = (s.tasks p).thread_count + 1 }), true)
]

unfoldable pub task_set_work : ℤ → ℤ → Sched → Sched
task_set_work pid work_units s = elim (live_index pid s) [
  | none ↦ s
  | some p ↦ set_task s p (record (s.tasks p) { remaining_work = work_units })
]

unfoldable pub task_block : ℤ → Sched → Sched
task_block pid s = elim (live_index pid s) [
  | none ↦ s
  | some p ↦ set_task s p (record (s.tasks p) { state = blocked })
]

unfoldable pub task_unblock : ℤ → Sched → Outcome Sched
task_unblock pid s = elim (pid_index pid) [
  | none ↦ done s
  | some p ↦
      if is_blocked (s.tasks p).state
      then enqueue (s.tasks p).priority_level p
          (set_task s p (record (s.tasks p) { state = ready }))
      else done s
]
