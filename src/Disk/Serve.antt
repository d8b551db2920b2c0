-- ===== src/Disk/Serve.antt =====
-- `process_disk_requests` (src/disk_scheduler.c) serves every request, nearest first.
use sky_net_os.Base.{
  zero, suc, inl, inr, true, false, pos, Bool-cases, arith, total, int_laws, ℕ, ℤ, Bool, List, ◌<◌,
  ◌≡◌, ◌++◌, ◌+ℤ◌, ◌≤ℤ◌, ◌<ℤ◌, if◌then◌else◌, ◌-ℤ◌, parts_of_eq, refl, some, sym, ap, subst,
  append-nil, append_assoc, Option-cases, update, total-zero, total-update, ◌∙◌, ◌∷◌, [], none,
  length, get_or, Returns, Option, ◌==◌,
}
use sky_net_os.Disk.Defs.{
  Run, abs_diff, serve, serve_next, search_nearest, Disk, process_disk_requests, start_run,
}
use sky_net_os.Disk.Sstf.{InReach, Sstf, movement, serve_one, all_served, distance}
use sky_net_os.Disk.Search.{search_nearest-IsNearest, IsOwn}
use sky_net_os.Sync.Defs.{spinlock_acquire-free}
use sky_net_os.Disk.Submit.{same_disk}

abbrev still_open : Bool → ℕ
still_open c = if c then 0 else 1

-- How many requests are not completed.
abbrev open_requests : ℕ → (ℕ → Bool) → ℕ
open_requests n completed = total still_open n completed

reach_abs_diff : (a b : ℤ) → InReach a → InReach b → abs_diff a b <ℤ pos 999999
unfolding ◌-ℤ◌
reach_abs_diff a b ra rb = ground arith

abs_diff-distance : (a b : ℤ) → abs_diff a b ≡ distance a b
unfolding distance ◌-ℤ◌
abs_diff-distance a b = ground arith

-- What the loop has added to a run: the tracks of `l`.
abbrev Served : (ℕ → ℤ) → ℕ → Run → Run → Type 0
Served track n r r' =
    (l : List ℤ) × Sstf track n r.current_head r.completed l
    × (r'.printed ≡ r.printed ++ l)
    × (r'.total_movement ≡ r.total_movement +ℤ movement r.current_head l)

all_served-zero :
    (n : ℕ) (completed : ℕ → Bool)
    → ((i : ℕ) → i < n → completed i ≡ true)
    → open_requests n completed ≡ 0
unfolding total
all_served-zero zero completed all = refl
all_served-zero (suc n) completed all =
    ground (arith, all n (omega arith), all_served-zero n completed (λ i lt. all i (omega arith)))

zero-all_served :
    (n : ℕ) (completed : ℕ → Bool)
    → open_requests n completed ≡ 0
    → (i : ℕ) → i < n
    → completed i ≡ true
zero-all_served n completed none_left i lt =
    let h = total-zero still_open n completed none_left i lt in ground arith

-- A run after one more request.
abbrev advance : ℤ → ℤ → ℕ → Run → Run
advance t dist i r = record {
  current_head = t;
  total_movement = r.total_movement +ℤ dist;
  completed = update r.completed i true;
  printed = r.printed ++ t ∷ [];
}

serve_next-some :
    (track : ℕ → ℤ) (n : ℕ) (r : Run) {i : ℕ}
    → (search_nearest track r.completed r.current_head n).next_idx ≡ some i
    → serve_next track n r
      ≡ advance (track i) (search_nearest track r.completed r.current_head n).min_dist i r
unfolding serve_next
serve_next-some track n r e = rw (serve_next, e)

module _ (track : ℕ → ℤ) (n : ℕ) (reach : (i : ℕ) → InReach (track i)) where
  none_open :
      (r : Run) (dist : ℤ)
      → InReach r.current_head
      → dist ≡ pos 999999
      → ((j : ℕ) → j < n → r.completed j ≡ false → dist ≤ℤ abs_diff r.current_head (track j))
      → (i : ℕ) → i < n
      → r.completed i ≡ true
  none_open r dist head_in e low i lt = elim (Bool-cases (r.completed i)) [
    | inl served ↦ served
    | inr open_i ↦ absurd (
        omega (
          int_laws,
          parts_of_eq e,
          low i lt open_i,
          reach_abs_diff r.current_head (track i) head_in (reach i),
        ))
  ]

  Served-more :
      (r r' : Run) (i : ℕ) (dist : ℤ)
      → i < n
      → r.completed i ≡ false
      → dist ≡ abs_diff r.current_head (track i)
      → ((j : ℕ) → j < n → r.completed j ≡ false → dist ≤ℤ abs_diff r.current_head (track j))
      → Served track n (advance (track i) dist i r) r'
      → Served track n r r'
  unfolding movement
  Served-more r r' i dist lt open_i e low (l, sstf, out, moved) = (
    track i ∷ l,
    serve_one i lt open_i
        (λ j lt_j open_j.
          subst (λ d. d ≤ℤ distance r.current_head (track j))
            (e ∙ abs_diff-distance r.current_head (track i))
            (subst (λ d. dist ≤ℤ d) (abs_diff-distance r.current_head (track j))
              (low j lt_j open_j)))
        sstf,
    out ∙ append_assoc r.printed (track i ∷ []) l,
    moved
        ∙ ap (λ d. r.total_movement +ℤ d +ℤ movement (track i) l)
            (e ∙ abs_diff-distance r.current_head (track i))
        ∙ omega int_laws,
  )

  serve-Served :
      (k : ℕ) (r : Run)
      → InReach r.current_head
      → open_requests n r.completed ≡ k
      → Served track n r (serve track n k r)
  unfolding serve movement
  serve-Served zero r head_in none_left = (
    [],
    all_served (zero-all_served n r.completed none_left),
    sym (append-nil r.printed),
    omega int_laws,
  )
  serve-Served (suc k) r head_in left =
      let best = search_nearest track r.completed r.current_head n in
      let (low, own) = search_nearest-IsNearest track r.completed r.current_head n in
      elim (Option-cases best.next_idx) [
        | inl e ↦
            let far_off = subst (IsOwn track r.completed r.current_head n best.min_dist) e own in
            absurd (
              omega (
                arith,
                all_served-zero n r.completed (none_open r best.min_dist head_in far_off low),
              ))
        | inr (i, e) ↦
            let (lt, open_i, at) =
              subst (IsOwn track r.completed r.current_head n best.min_dist) e own in
            let fewer : open_requests n (update r.completed i true) ≡ k =
              omega
                (arith, total-update still_open n r.completed i true lt, ap still_open open_i) in
            Served-more r (serve track n k (serve_next track n r)) i best.min_dist lt open_i at low
              (subst (λ x. Served track n (advance (track i) best.min_dist i r) (serve track n k x))
                (sym (serve_next-some track n r e))
                (serve-Served k (advance (track i) best.min_dist i r) (reach i) fewer))
      ]

all_open : (n : ℕ) → open_requests n (λ _. false) ≡ n
unfolding total
all_open zero = refl
all_open (suc n) = omega (arith, all_open n)

Sstf-length :
    {track : ℕ → ℤ} {n : ℕ} {head : ℤ} {completed : ℕ → Bool} {l : List ℤ}
    → Sstf track n head completed l
    → length l ≡ open_requests n completed
Sstf-length {track} {n} {head} {completed} (all_served all) = sym (all_served-zero n completed all)
Sstf-length {track} {n} {head} {completed} (serve_one i lt open_i near rest) =
    omega
      (arith, Sstf-length rest, total-update still_open n completed i true lt, ap still_open open_i)

-- The track of request `i`.
abbrev pub requested : Disk → ℕ → ℤ
requested d i = get_or d.request_queue i (pos 0)

-- What a run over the requests comes to: nothing where the queue is empty, and otherwise each
-- request printed once in an order that is shortest seek time first, with its head movement, and
-- the queue cleared.
abbrev pub SstfResult : ℤ → Disk → Disk × Option Run → Type 0
SstfResult head d (d', none) = (d.request_queue ≡ []) × (d' ≡ d)
SstfResult head d (d', some r) =
    (d'.request_queue ≡ [])
    × (d'.disk_lock ≡ false)
    × Sstf (requested d) (length d.request_queue) head (λ _. false) r.printed
    × (length r.printed ≡ length d.request_queue)
    × (r.total_movement ≡ movement head r.printed)

process-Served :
    (head : ℤ) (d : Disk) (r : Run)
    → Served (requested d) (length d.request_queue) (start_run head) r
    → Sstf (requested d) (length d.request_queue) head (λ _. false) r.printed
      × (length r.printed ≡ length d.request_queue)
      × (r.total_movement ≡ movement head r.printed)
process-Served head d r (l, sstf, out, moved) = (
  subst (Sstf (requested d) (length d.request_queue) head (λ _. false)) (sym out) sstf,
  ap length out ∙ Sstf-length sstf ∙ all_open (length d.request_queue),
  moved ∙ omega int_laws ∙ ap (movement head) (sym out),
)

length-zero : {A : Type 0} (l : List A) → length l ≡ 0 → l ≡ []
length-zero [] h = refl
length-zero (x ∷ l) h = absurd (omega arith)

-- process_disk_requests, called with the lock free, the head and all requested tracks between 0 and
-- 999998, returns. It serves every request exactly once, each time one nearest to the head, reports
-- the movement of the head over that order, and clears the queue; an empty queue changes nothing.
pub process_disk_requests-SstfResult :
    (head : ℤ) (d : Disk)
    → d.disk_lock ≡ false
    → InReach head
    → ((i : ℕ) → InReach (requested d i))
    → Returns (SstfResult head d) (process_disk_requests head d)
unfolding process_disk_requests
process_disk_requests-SstfResult head d unlocked head_in reach =
    rw (process_disk_requests, spinlock_acquire-free unlocked)
      (elim (Bool-cases (length d.request_queue == 0)) [
        | inl empty ↦ rw empty (length-zero d.request_queue (ground arith), same_disk d unlocked)
        | inr some_left ↦ rw some_left (
            let (sstf, all, moved) =
              process-Served head d
                (serve (requested d) (length d.request_queue) (length d.request_queue)
                  (start_run head))
                (serve-Served (requested d) (length d.request_queue) reach (length d.request_queue)
                  (start_run head) head_in (all_open (length d.request_queue))) in
            (refl, refl, sstf, all, moved))
      ])
