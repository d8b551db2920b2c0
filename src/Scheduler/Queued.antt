-- ===== src/Scheduler/Queued.antt =====
-- The bookkeeping of src/scheduler.c between two calls: which task stands where. It holds as long
-- as no task is killed, blocked or unblocked from outside, and then no queue overflows.
use native.Mathlib.Decide.{dec_lt}
use sky_net_os.Base.{
  lt→ltb, ℕ, none, some, ap, done, pos, length, update_map, update_all, update_view, arith, update,
  total-update, total-le, Bool, Option, ◌+◌, ◌≤◌, ◌<◌, ◌≡◌, ◌∷◌, ◌++◌, [], lt→ltb, refl,
  update_same, List,
}
use sky_net_os.Scheduler.State.{
  max_tasks, num_queues, ready, running, is_terminated, Tcb, Sched, enqueue, set_queue,
}
use sky_net_os.Scheduler.Rounds.{open_weight, unfinished}
use sky_net_os.Scheduler.Decides.{live_tasks}
use sky_net_os.Scheduler.Queues.{dispatch}
use sky_net_os.Scheduler.Rows.{
  EntriesReady, OnceEach, EntriesReady-push, OnceEach-push, EntriesReady-pop, OnceEach-pop,
  waiting_head, queued, waiting, push, queued-push, queued_pop,
}

abbrev pub running_tasks : Option ℕ → ℕ
running_tasks none = 0
running_tasks (some _) = 1

pub record IsQueued (s : Sched) : Type 0 where
  pub entries : EntriesReady s.queues s.tasks
  pub once : OnceEach s.queues
  -- the task on the processor is running
  pub current : (c : ℕ) → s.current_pid ≡ some c → (c < max_tasks) × ((s.tasks c).state ≡ running)
  pub levels : (p : ℕ) → (s.tasks p).priority_level < num_queues
  pub room : queued s.queues + running_tasks s.current_pid ≤ live_tasks s.tasks
  pub counted : s.task_count ≡ pos (live_tasks s.tasks)

pub live_tasks-le : (tasks : ℕ → Tcb) → live_tasks tasks ≤ max_tasks
live_tasks-le tasks = total-le open_weight max_tasks _ weight_le
  where
    weight_le : (b : Bool) → open_weight b ≤ 1
    weight_le b = ground arith

-- A write to a task that stays alive, or stays dead, keeps the number of live tasks.
pub live_tasks-same :
    (tasks : ℕ → Tcb) (p : ℕ) (t : Tcb)
    → is_terminated t.state ≡ is_terminated (tasks p).state
    → live_tasks (update tasks p t) ≡ live_tasks tasks
live_tasks-same tasks p t h = ap unfinished (update_view (λ t. is_terminated t.state) tasks p t h)

pub live_tasks-update :
    (tasks : ℕ → Tcb) (p : ℕ) (t : Tcb)
    → p < max_tasks
    → live_tasks (update tasks p t) + open_weight (is_terminated (tasks p).state)
      ≡ live_tasks tasks + open_weight (is_terminated t.state)
live_tasks-update tasks p t lt = rw (update_map (λ t. is_terminated t.state) tasks p t) (
    total-update open_weight max_tasks (λ j. is_terminated (tasks j).state) p
      (is_terminated t.state) lt)

-- Where there is room, `enqueue` appends.
pub enqueue-done :
    (q p : ℕ) (s : Sched)
    → length (s.queues q) < max_tasks
    → enqueue q p s ≡ done (set_queue s q (s.queues q ++ p ∷ []))
unfolding enqueue
enqueue-done q p s h = rw (lt→ltb _ _ h)

-- The running task does not stand in the queues.
pub waiting-current :
    {s : Sched} → IsQueued s → (c : ℕ) → s.current_pid ≡ some c → waiting s.queues c ≡ 0
waiting-current {s} inv c e = elim (dec_lt 0 (waiting s.queues c)) [
  | yes some_entry ↦ let rdy = (inv.entries c some_entry).1 in let run = (inv.current c e).1 in cc
  | no none_there ↦ omega arith
]

-- The running task joins queue `q`, and leaves the processor.
pub joins :
    (s : Sched) (q p : ℕ) (t : Tcb)
    → IsQueued s
    → q < num_queues
    → s.current_pid ≡ some p
    → t.state ≡ ready
    → t.priority_level < num_queues
    → IsQueued
        (record s { tasks = update s.tasks p t; queues = push q p s.queues; current_pid = none })
joins s q p t inv hq cur rdy lev =
    let (lt, run) = inv.current p cur in
    let same = live_tasks-same s.tasks p t (rw (rdy, run) refl) in
    record {
      entries = EntriesReady-push q p s.queues hq s.tasks t inv.entries lt rdy;
      once = OnceEach-push q p s.queues hq inv.once (waiting-current inv p cur);
      current = λ c h. cc;
      levels = update_all (λ t. t.priority_level < num_queues) s.tasks p t inv.levels lev;
      room = rw same (omega (arith, queued-push q p s.queues hq, inv.room, ap running_tasks cur));
      counted = rw same inv.counted;
    }

-- The head of queue `q` goes on the processor, which was idle.
pub dispatch-IsQueued :
    (s : Sched) (q p : ℕ) (rest : List ℕ)
    → IsQueued s
    → q < num_queues
    → s.queues q ≡ p ∷ rest
    → s.current_pid ≡ none
    → IsQueued (dispatch q p rest s)
unfolding dispatch
dispatch-IsQueued s q p rest inv hq head idle =
    let (lt, rdy) =
      inv.entries p (omega (arith, (waiting_head q p rest s.queues hq head inv.once).0)) in
    let t = record (s.tasks p) { state = running } in
    let same = live_tasks-same s.tasks p t (rw rdy refl) in
    record {
      entries = EntriesReady-pop q p rest s.queues hq head s.tasks t inv.entries inv.once;
      once = OnceEach-pop q p rest s.queues hq head inv.once;
      current = λ c h. ground (arith, update_same s.tasks p t);
      levels =
          update_all (λ t. t.priority_level < num_queues) s.tasks p t inv.levels (inv.levels p);
      room =
          rw same
            (omega (arith, queued_pop q p rest s.queues hq head, inv.room, ap running_tasks idle));
      counted = rw same inv.counted;
    }
