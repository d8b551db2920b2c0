-- ===== src/Disk/Search.antt =====
-- The inner loop of `process_disk_requests` (src/disk_scheduler.c) finds a nearest open request.
use native.Mathlib.Decide.{ℕ_discrete}
use sky_net_os.Base.{
  zero, suc, refl, inl, inr, false, none, some, pos, Bool-cases, not, arith, ltb_ℤ, ℕ, ℤ, Bool, ◌<◌,
  ◌≡◌, ◌&&◌, ◌≤ℤ◌, Option, true, sym, subst,
}
use sky_net_os.Disk.Defs.{abs_diff, Nearest, consider, search_nearest}

-- The distance is that of the request, one of the first `n`, that is still open.
abbrev pub IsOwn : (ℕ → ℤ) → (ℕ → Bool) → ℤ → ℕ → ℤ → Option ℕ → Type 0
IsOwn track completed head n dist none = dist ≡ pos 999999
IsOwn track completed head n dist (some i) =
    (i < n) × (completed i ≡ false) × (dist ≡ abs_diff head (track i))

-- What the search knows after the first `n` requests.
abbrev pub IsNearest : (ℕ → ℤ) → (ℕ → Bool) → ℤ → ℕ → Nearest → Type 0
IsNearest track completed head n best =
    ((j : ℕ) → j < n → completed j ≡ false → best.min_dist ≤ℤ abs_diff head (track j))
    × IsOwn track completed head n best.min_dist best.next_idx

IsOwn-suc :
    (track : ℕ → ℤ) (completed : ℕ → Bool) (head : ℤ) (n : ℕ) (dist : ℤ) (idx : Option ℕ)
    → IsOwn track completed head n dist idx
    → IsOwn track completed head (suc n) dist idx
IsOwn-suc track completed head n dist none h = h
IsOwn-suc track completed head n dist (some i) (lt, open_i, at) = (omega arith, open_i, at)

taken_open : (c b : Bool) → (not c && b) ≡ true → c ≡ false
taken_open c b h = ground arith

taken_le : (c : Bool) (d m x : ℤ) → (not c && ltb_ℤ d m) ≡ true → m ≤ℤ x → d ≤ℤ x
taken_le c d m x h le = ground arith

kept_le : (c : Bool) (d m : ℤ) → (not c && ltb_ℤ d m) ≡ false → c ≡ false → m ≤ℤ d
kept_le c d m h open_c = ground arith

IsNearest-consider :
    (track : ℕ → ℤ) (completed : ℕ → Bool) (head : ℤ) (n : ℕ) (best : Nearest)
    → IsNearest track completed head n best
    → IsNearest track completed head (suc n) (consider track completed head n best)
unfolding consider
IsNearest-consider track completed head n best (low, own) =
    elim (Bool-cases (not (completed n) && ltb_ℤ (abs_diff head (track n)) best.min_dist)) [
      | inl better ↦
          rw (consider, better)
            (
              λ j lt open_j. elim (ℕ_discrete j n) [
                | yes e ↦ rw e (omega arith)
                | no ne ↦
                    taken_le (completed n) (abs_diff head (track n)) best.min_dist
                      (abs_diff head (track j)) better (low j (omega arith) open_j)
              ],
              (
                omega arith,
                taken_open (completed n) (ltb_ℤ (abs_diff head (track n)) best.min_dist) better,
                refl,
              ),
            )
      | inr worse ↦
          rw (consider, worse)
            (
              λ j lt open_j. elim (ℕ_discrete j n) [
                | yes e ↦
                    subst (λ x. best.min_dist ≤ℤ abs_diff head (track x)) (sym e)
                      (kept_le (completed n) (abs_diff head (track n)) best.min_dist worse
                        (subst (λ x. completed x ≡ false) e open_j))
                | no ne ↦ low j (omega arith) open_j
              ],
              IsOwn-suc track completed head n best.min_dist best.next_idx own,
            )
    ]

pub search_nearest-IsNearest :
    (track : ℕ → ℤ) (completed : ℕ → Bool) (head : ℤ) (n : ℕ)
    → IsNearest track completed head n (search_nearest track completed head n)
unfolding search_nearest
search_nearest-IsNearest track completed head zero = (λ j lt. absurd (omega arith), refl)
search_nearest-IsNearest track completed head (suc n) =
    IsNearest-consider track completed head n (search_nearest track completed head n)
      (search_nearest-IsNearest track completed head n)
