-- ===== src/Disk/Defs.antt =====
-- The request queue of src/disk_scheduler.c and the shortest-seek-time-first loop over it.
use sky_net_os.Base.{
  zero, suc, true, false, none, some, done, pos, length, get_or, leb, not, update, Outcome, ltb_ℤ,
  ℕ, ℤ, Bool, Option, List, ◌∷◌, ◌++◌, ◌&&◌, ◌==◌, ◌+ℤ◌, ◌-ℤ◌, [], if◌then◌else◌, ◌>>=◌, ◌≤◌, ◌≡◌,
}
use sky_net_os.Sync.Defs.{Spinlock, spinlock_init, spinlock_acquire, spinlock_release}

abbrev pub max_disk_requests : ℕ
max_disk_requests = 64

-- `request_queue` holds its first `queue_size` entries.
pub record Disk : Type 0 where
  pub request_queue : List ℤ
  pub disk_lock : Spinlock

unfoldable pub init_disk_scheduler : Disk → Disk
init_disk_scheduler d = record d { request_queue = []; disk_lock = spinlock_init }

unfoldable pub submit_disk_request : ℤ → Disk → Outcome (Disk × Bool)
submit_disk_request track d = do
  l ← spinlock_acquire d.disk_lock
  let full = leb max_disk_requests (length d.request_queue)
  let queue = if full then d.request_queue else d.request_queue ++ track ∷ []
  done (record { request_queue = queue; disk_lock = spinlock_release l }, not full)

abbrev pub abs_diff : ℤ → ℤ → ℤ
abs_diff a b = if ltb_ℤ b a then a -ℤ b else b -ℤ a

-- The variables `min_dist` and `next_idx`, the latter `none` for -1.
pub record Nearest : Type 0 where
  pub min_dist : ℤ
  pub next_idx : Option ℕ

abbrev pub far : Nearest
far = record { min_dist = pos 999999; next_idx = none }

module _ (track : ℕ → ℤ) where
  -- The body of the inner loop.
  unfoldable pub consider : (ℕ → Bool) → ℤ → ℕ → Nearest → Nearest
  consider completed current_head i best =
      let dist = abs_diff current_head (track i) in
      if not (completed i) && ltb_ℤ dist best.min_dist
      then record { min_dist = dist; next_idx = some i }
      else best

  -- The inner loop over the first `n` requests.
  unfoldable pub search_nearest : (ℕ → Bool) → ℤ → ℕ → Nearest
  search_nearest completed current_head zero = far
  search_nearest completed current_head (suc n) =
      consider completed current_head n (search_nearest completed current_head n)

-- The local variables of `process_disk_requests`, and the tracks that it has printed.
pub record Run : Type 0 where
  pub current_head : ℤ
  pub total_movement : ℤ
  pub completed : ℕ → Bool
  pub printed : List ℤ

module _ (track : ℕ → ℤ) (queue_size : ℕ) where
  -- The body of the outer loop.
  unfoldable pub serve_next : Run → Run
  serve_next r =
      let best = search_nearest track r.completed r.current_head queue_size in
      elim best.next_idx [
        | none ↦ r
        | some i ↦ record {
          current_head = track i;
          total_movement = r.total_movement +ℤ best.min_dist;
          completed = update r.completed i true;
          printed = r.printed ++ track i ∷ [];
        }
      ]

  -- `count` rounds of the outer loop.
  unfoldable pub serve : ℕ → Run → Run
  serve zero r = r
  serve (suc count) r = serve count (serve_next r)

abbrev pub start_run : ℤ → Run
start_run initial_head = record {
  current_head = initial_head;
  total_movement = pos 0;
  completed = λ _. false;
  printed = [];
}

-- The run that is printed is `none` where there was nothing to process.
unfoldable pub process_disk_requests : ℤ → Disk → Outcome (Disk × Option Run)
process_disk_requests initial_head d = do
  l ← spinlock_acquire d.disk_lock
  let queue_size = length d.request_queue
  let run =
      serve (λ i. get_or d.request_queue i (pos 0)) queue_size queue_size (start_run initial_head)
  if queue_size == 0
      then done (record d { disk_lock = spinlock_release l }, none)
      else done (record { request_queue = []; disk_lock = spinlock_release l }, some run)

-- Between calls the lock is free, and the queue is within its array.
pub record IsDisk (d : Disk) : Type 0 where
  pub unlocked : d.disk_lock ≡ false
  pub fits : length d.request_queue ≤ max_disk_requests
