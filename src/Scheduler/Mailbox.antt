-- ===== src/Scheduler/Mailbox.antt =====
-- Mailboxes (src/scheduler.c: `ipc_send`, `ipc_receive`), with `mutex_lock` and `mutex_unlock` of
-- src/sync.c on the mutex of a task.
use sky_net_os.Base.{
  true, false, none, some, done, pos, take, leb, Outcome, ℕ, ℤ, Bool, Option, List, ◌+◌, ◌-◌, ◌∷◌,
  ◌==◌, [], if◌then◌else◌, ◌>>=◌,
}
use sky_net_os.Sync.Defs.{Mutex, lock_mutex, unlock_mutex}
use sky_net_os.Scheduler.State.{
  Sched, max_msg_length, Message, Tcb, set_task, max_ipc_messages, live_index,
}
use sky_net_os.Scheduler.Queues.{task_yield}
use sky_net_os.Scheduler.Tasks.{task_unblock, task_block}

abbrev pub with_mutex : ℕ → Mutex → Sched → Sched
with_mutex p m s = set_task s p (record (s.tasks p) { ipc_mutex = m })

-- `mutex_lock` by the caller `pid`, which is `none` where no task runs.
unfoldable pub lock_for : ℕ → Sched → Option ℕ → Outcome Sched
lock_for p s none = done s
lock_for p s (some pid) = do
  r ← lock_mutex pid (s.tasks p).ipc_mutex
  let s' = with_mutex p r.0 s
  if r.1 then task_yield false (task_block (pos pid) s') else done s'

-- `mutex_lock` on the mutex of task `p`: a caller that must wait is blocked, and then yields.
abbrev pub mutex_lock : ℕ → Sched → Outcome Sched
mutex_lock p s = lock_for p s s.current_pid

unfoldable pub mutex_unlock : ℕ → Sched → Outcome Sched
mutex_unlock p s = do
  r ← unlock_mutex (s.tasks p).ipc_mutex
  let s' = with_mutex p r.0 s
  elim r.1 [ none ↦ done s' | some next_pid ↦ task_unblock (pos next_pid) s' ]

-- What is copied of a text: all but the last byte of a message holds it.
abbrev pub clipped : List ℕ → List ℕ
clipped msg = take (max_msg_length - 1) msg

-- The loop of `ipc_send`: the first entry that is not valid takes the text.
unfoldable pub deposit : List ℕ → List Message → Option (List Message)
deposit msg [] = none
deposit msg (m ∷ ms) =
    let rest = deposit msg ms in
    if m.valid
    then elim rest [ none ↦ none | some ms' ↦ some (m ∷ ms') ]
    else some (record { message = clipped msg; valid = true } ∷ ms)

-- The loop of `ipc_receive`: the first valid entry gives its text, and is not valid any more.
unfoldable pub withdraw : List Message → Option (List ℕ × List Message)
withdraw [] = none
withdraw (m ∷ ms) =
    let rest = withdraw ms in
    if m.valid
    then some (clipped m.message, record m { valid = false } ∷ ms)
    else elim rest [ none ↦ none | some r ↦ some (r.0, m ∷ r.1) ]

-- `ipc_send` between the lock and the unlock: the task, and whether the message was sent.
unfoldable pub put_message : List ℕ → Tcb → Tcb × Bool
put_message msg t =
    if leb max_ipc_messages t.msg_count then (t, false) else elim (deposit msg t.mailbox) [
      | none ↦ (t, false)
      | some ms ↦ (record t { mailbox = ms; msg_count = t.msg_count + 1 }, true)
    ]

unfoldable pub take_message : Tcb → Tcb × Option (List ℕ)
take_message t = if t.msg_count == 0 then (t, none) else elim (withdraw t.mailbox) [
  | none ↦ (t, none)
  | some r ↦ (record t { mailbox = r.1; msg_count = t.msg_count - 1 }, some r.0)
]

unfoldable pub ipc_send : ℤ → List ℕ → Sched → Outcome (Sched × Bool)
ipc_send receiver_pid msg s = elim (live_index receiver_pid s) [
  | none ↦ done (s, false)
  | some p ↦ do
    s' ← mutex_lock p s
    let r = put_message msg (s'.tasks p)
    s'' ← mutex_unlock p (set_task s' p r.0)
    done (s'', r.1)
]

-- The text that lands in `buffer_out`, or `none` where the result is false.
unfoldable pub ipc_receive : ℤ → Sched → Outcome (Sched × Option (List ℕ))
ipc_receive receiver_pid s = elim (live_index receiver_pid s) [
  | none ↦ done (s, none)
  | some p ↦ do
    s' ← mutex_lock p s
    let r = take_message (s'.tasks p)
    s'' ← mutex_unlock p (set_task s' p r.0)
    done (s'', r.1)
]
