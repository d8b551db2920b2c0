-- ===== src/Scheduler/Mutual.antt =====
-- `mutex_lock` and `mutex_unlock` (src/sync.c) while nobody else wants the mutex of the mailbox.
use sky_net_os.Base.{
  true, false, none, done, update_self, arith, ℕ, Option, ◌≡◌, ◌==◌, some, sym, ap, ◌∙◌,
}
use sky_net_os.Sync.Defs.{Mutex, lock_mutex, unlock_mutex, spinlock_acquire-free}
use sky_net_os.Scheduler.State.{Sched}
use sky_net_os.Scheduler.Mailbox.{mutex_unlock, with_mutex, lock_for, mutex_lock}

-- Nobody holds the mutex, and nobody waits for it.
pub record IsFree (m : Mutex) : Type 0 where
  pub unlocked : m.lock ≡ false
  pub unowned : m.owner_pid ≡ none
  pub nobody_waits : m.queue_head ≡ m.queue_tail

-- The mutex with the owner `o`.
abbrev pub owned_by : Option ℕ → Mutex → Mutex
owned_by o m = record m { owner_pid = o }

with_mutex_same : (p : ℕ) (s : Sched) → with_mutex p (s.tasks p).ipc_mutex s ≡ s
with_mutex_same p s = λ i. record s { tasks = update_self s.tasks p i }

lock_for-free :
    (p : ℕ) (s : Sched) (o : Option ℕ)
    → IsFree (s.tasks p).ipc_mutex
    → lock_for p s o ≡ done (with_mutex p (owned_by o (s.tasks p).ipc_mutex) s)
unfolding lock_for lock_mutex
lock_for-free p s none v = ap done (
    sym (with_mutex_same p s)
    ∙ ap (λ m. with_mutex p m s) (λ i. record ((s.tasks p).ipc_mutex) { owner_pid = v.unowned i }))
lock_for-free p s (some c) v =
    rw (lock_for, lock_mutex, spinlock_acquire-free v.unlocked, v.unowned)
      (ap done (λ i.
        with_mutex p
          (record ((s.tasks p).ipc_mutex) { lock = sym v.unlocked i; owner_pid = some c }) s))

-- mutex_lock on the mutex of a task that nobody holds or waits for returns at once, without a call
-- of the scheduler: the caller, if a task is running, owns the mutex, and nothing else changes.
pub mutex_lock-free :
    (p : ℕ) (s : Sched)
    → IsFree (s.tasks p).ipc_mutex
    → mutex_lock p s ≡ done (with_mutex p (owned_by s.current_pid (s.tasks p).ipc_mutex) s)
mutex_lock-free p s v = lock_for-free p s s.current_pid v

-- mutex_unlock on a mutex that nobody waits for returns and leaves it without an owner; nothing
-- else changes.
pub mutex_unlock-free :
    (p : ℕ) (s : Sched)
    → (s.tasks p).ipc_mutex.lock ≡ false
    → (s.tasks p).ipc_mutex.queue_head ≡ (s.tasks p).ipc_mutex.queue_tail
    → mutex_unlock p s ≡ done (with_mutex p (owned_by none (s.tasks p).ipc_mutex) s)
unfolding mutex_unlock unlock_mutex
mutex_unlock-free p s unlocked same =
    let idle : ((s.tasks p).ipc_mutex.queue_head == (s.tasks p).ipc_mutex.queue_tail) ≡ true =
      ground arith in
    rw (mutex_unlock, unlock_mutex, spinlock_acquire-free unlocked, idle)
      (ap done (λ i.
        with_mutex p (record ((s.tasks p).ipc_mutex) { lock = sym unlocked i; owner_pid = none })
          s))
