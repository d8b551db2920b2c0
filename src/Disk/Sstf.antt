-- ===== src/Disk/Sstf.antt =====
-- Shortest seek time first, independent of the code.
use sky_net_os.Base.{
  true, false, pos, update, ℕ, ℤ, Bool, List, ◌<◌, ◌≡◌, ◌∷◌, ◌+ℤ◌, ◌≤ℤ◌, ◌<ℤ◌, [], pos_part,
  neg_part, ◌+◌, ◌-ℤ◌,
}

-- How far two tracks lie apart: the positive and the negative part of their difference, one of them 0.
unfoldable pub distance : ℤ → ℤ → ℤ
distance a b = pos (pos_part (a -ℤ b) + neg_part (a -ℤ b))

-- From `head`, with the requests in `completed` served, the others are served in the order of `l`:
-- each time one that no open request is nearer to the head than.
pub data Sstf (track : ℕ → ℤ) (n : ℕ) : ℤ → (ℕ → Bool) → List ℤ → Type 0 where
  all_served :
      {head : ℤ} {completed : ℕ → Bool}
      → ((i : ℕ) → i < n → completed i ≡ true)
      → Sstf track n head completed []
  serve_one :
      {head : ℤ} {completed : ℕ → Bool} {l : List ℤ} (i : ℕ)
      → i < n
      → completed i ≡ false
      → ((j : ℕ) → j < n → completed j ≡ false → distance head (track i) ≤ℤ distance head (track j))
      → Sstf track n (track i) (update completed i true) l
      → Sstf track n head completed (track i ∷ l)

-- How far the head moves to visit the tracks one after another.
unfoldable pub movement : ℤ → List ℤ → ℤ
movement head [] = pos 0
movement head (t ∷ l) = distance head t +ℤ movement t l

-- The tracks of a disk that the search can reach from any other.
abbrev pub InReach : ℤ → Type 0
InReach t = (pos 0 ≤ℤ t) × (t <ℤ pos 999999)
