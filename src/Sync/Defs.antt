-- ===== src/Sync/Defs.antt =====
-- `spinlock_t`, `mutex_t` and what src/sync.c does to them. Where `mutex_lock` and `mutex_unlock`
-- call the scheduler, they return whom to block or unblock, and the caller in the scheduler's
-- modules makes the call.
use sky_net_os.Base.{
  ℕ, ◌+◌, ◌%◌, Bool, true, false, Option, none, some, ◌==◌, if◌then◌else◌, update, Outcome, done,
  fault, ◌>>=◌, ◌≡◌,
}

-- `spinlock_t`: whether `locked` is set.
abbrev pub Spinlock : Type 0
Spinlock = Bool

abbrev pub spinlock_init : Spinlock
spinlock_init = false

-- Nothing runs beside the caller, so a lock that is held is waited for without end.
unfoldable pub spinlock_acquire : Spinlock → Outcome Spinlock
spinlock_acquire false = done true
spinlock_acquire true = fault

abbrev pub spinlock_release : Spinlock → Spinlock
spinlock_release _ = false

abbrev pub max_blocked_queue : ℕ
max_blocked_queue = 16

-- `mutex_t`; `owner_pid` is `none` for -1.
pub record Mutex : Type 0 where
  pub lock : Spinlock
  pub owner_pid : Option ℕ
  pub blocked_queue : ℕ → ℕ
  pub queue_head : ℕ
  pub queue_tail : ℕ

unfoldable pub mutex_init : Mutex → Mutex
mutex_init m = record m { lock = spinlock_init; owner_pid = none; queue_head = 0; queue_tail = 0 }

abbrev next_slot : ℕ → ℕ
next_slot i = (i + 1) % max_blocked_queue

-- "Add to blocked queue", where a full queue drops the pid.
unfoldable pub push_blocked : ℕ → Mutex → Mutex
push_blocked pid m = if next_slot m.queue_tail == m.queue_head then m else record m {
  blocked_queue = update m.blocked_queue m.queue_tail pid;
  queue_tail = next_slot m.queue_tail;
}

-- `mutex_lock` up to its scheduler calls, by the running task: the mutex, and whether the caller
-- goes on to block.
unfoldable pub lock_mutex : ℕ → Mutex → Outcome (Mutex × Bool)
unfolding spinlock_acquire push_blocked
lock_mutex pid m = do
  l ← spinlock_acquire m.lock
  let m' = record m { lock = l }
  elim m'.owner_pid [
    | none ↦ done (record m' { owner_pid = some pid; lock = spinlock_release l }, false)
    | some _ ↦
        let m'' = push_blocked pid m' in done (record m'' { lock = spinlock_release l }, true)
  ]

-- `mutex_unlock` up to its scheduler call: the mutex, and the task that it wakes, if any.
unfoldable pub unlock_mutex : Mutex → Outcome (Mutex × Option ℕ)
unfolding spinlock_acquire
unlock_mutex m = do
  l ← spinlock_acquire m.lock
  if m.queue_head == m.queue_tail
      then done (record m { owner_pid = none; lock = spinlock_release l }, none)
      else (let next_pid = m.blocked_queue m.queue_head in
          done (
            record m {
              queue_head = next_slot m.queue_head;
              owner_pid = some next_pid;
              lock = spinlock_release l;
            },
            some next_pid,
          ))

-- A lock that is free is got at once.
pub spinlock_acquire-free : {l : Spinlock} → l ≡ false → spinlock_acquire l ≡ done true
unfolding spinlock_acquire
spinlock_acquire-free h = rw h
