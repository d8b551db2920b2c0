-- ===== src/Memory/HeapTaken.antt =====
-- What `malloc` of src/memory_management.c makes of the heap.
use sky_net_os.Base.{
  Returns-map, refl, inl, inr, true, false, none, some, ap, subst, Bool-cases, ltb, arith, if-true,
  if-false, Returns, ℕ, Option, List, ◌+◌, ◌-◌, ◌≤◌, ◌<◌, ◌≡◌, ◌⊎◌, ◌∙◌, ◌∷◌, ◌++◌, [], ltb→lt,
}
use sky_net_os.Memory.Heap.{heap_max_size, header, Block, block, Heap, split, malloc, fits}
use sky_net_os.Memory.HeapLaws.{Tiles, IsHeap, split_lem}
use sky_net_os.Memory.HeapUse.{All, FirstFit, malloc-FirstFit}
use sky_net_os.Memory.HeapTrip.{Tiles-end}

-- The block is used, or smaller than `size`.
abbrev pub CannotHold : ℕ → Block → Type 0
CannotHold size b = (b.free ≡ false) ⊎ (b.size < size)

-- What is left of the block `b` behind a used block of `n` bytes at its place: nothing, where at most 20
-- bytes would be over, and else one free block, up to the end of `b`.
abbrev pub Leftover : ℕ → Block → ℕ → List Block → Type 0
Leftover size b n [] = (n ≡ b.size) × (b.size ≤ size + 20)
Leftover size b n (r ∷ []) =
    (n ≡ size)
    × (size + 20 < b.size)
    × (r.free ≡ true)
    × (r.addr ≡ b.addr + header + n)
    × (r.addr + header + r.size ≡ b.addr + header + b.size)
Leftover size b n (r ∷ q ∷ l) = ⊥

-- The blocks after `malloc`, and its pointer: NULL, or a pointer to a used block of at least `size` bytes, at
-- the place of the first free block that holds `size` bytes; the blocks before and behind that one stay.
abbrev pub Allocated : ℕ → List Block → List Block × Option ℕ → Type 0
Allocated size bs (bs', none) = (bs' ≡ bs) × All (CannotHold size) bs
Allocated size bs (bs', some ptr) =
    (xs : List Block) × (b : Block) × (ys : List Block) × (n : ℕ) × (rest : List Block) × (bs
      ≡ xs ++ (b ∷ ys))
    × (bs' ≡ xs ++ (block b.addr n false ∷ (rest ++ ys)))
    × All (CannotHold size) xs
    × (b.free ≡ true)
    × (size ≤ n)
    × (ptr ≡ b.addr + header)
    × Leftover size b n rest

All-CannotHold :
    (size : ℕ) (l : List Block) → All (λ b. fits size b ≡ false) l → All (CannotHold size) l
All-CannotHold size [] h = tt
All-CannotHold size (b ∷ l) (no_fit, h) = (
  elim (Bool-cases b.free) [ inl is_free ↦ inr (ground arith) | inr taken ↦ inl taken ],
  All-CannotHold size l h,
)

split-Leftover :
    (size : ℕ) (b : Block)
    → b.addr + header + b.size ≤ heap_max_size
    → size ≤ b.size
    → (n : ℕ) × (rest : List Block) × (split size b ≡ block b.addr n false ∷ rest)
      × (size ≤ n)
      × Leftover size b n rest
split-Leftover size b small le = elim (Bool-cases (ltb (size + 20) b.size)) [
  | inl large ↦
      let more = ltb→lt (size + 20) b.size large in
      (
        size,
        block (b.addr + header + size) (b.size - size - header) true ∷ [],
        split_lem size b small le ∙ if-true _ _ large,
        omega arith,
        (refl, more, refl, refl, omega arith),
      )
  | inr tight ↦
      (b.size, [], split_lem size b small le ∙ if-false _ _ tight, le, (refl, ground arith))
]

FirstFit-Allocated :
    (size : ℕ) (bs : List Block) (r : List Block × Option ℕ)
    → Tiles 0 bs heap_max_size
    → FirstFit size bs r
    → Allocated size bs r
FirstFit-Allocated size bs (bs', none) t (same, tight) = (same, All-CannotHold size bs tight)
FirstFit-Allocated size bs (bs', some ptr) t (xs, b, ys, e, tight, is_free, le, at, e') =
    let t' = subst (λ l. Tiles 0 l heap_max_size) e t in
    let (n, rest, cut, room, left) =
      split-Leftover size b (Tiles-end 0 xs b ys heap_max_size t') le in
    (
      xs,
      b,
      ys,
      n,
      rest,
      e,
      e' ∙ ap (λ l. xs ++ (l ++ ys)) cut,
      All-CannotHold size xs tight,
      is_free,
      room,
      at,
      left,
    )

-- malloc, called with the lock free on a heap whose blocks fill it, returns. The blocks still fill the heap. It gives NULL and
-- changes no block where every block is used or too small; otherwise the first free block of at least the size asked for
-- becomes a used block of at least that size at the same place, which the pointer is to, and what is over by more
-- than 20 bytes a free block behind it, up to the old end; all other blocks stay.
pub malloc-Allocated :
    (size : ℕ) (h : Heap)
    → IsHeap h
    → Returns (λ r. IsHeap r.0 × Allocated size h.blocks (r.0.blocks, r.1)) (malloc size h)
malloc-Allocated size h v =
    Returns-map _ _ (malloc size h)
      (λ r (v', first). (v', FirstFit-Allocated size h.blocks (r.0.blocks, r.1) v.tiles first))
      (malloc-FirstFit size h v)
