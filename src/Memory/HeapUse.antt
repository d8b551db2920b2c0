-- ===== src/Memory/HeapUse.antt =====
-- `malloc` and `free` of src/memory_management.c as their callers see them.
use sky_net_os.Base.{
  ℕ, refl, inl, inr, true, false, none, some, ap, done, Bool-cases, Returns-bind, arith, Returns,
  Option, List, ◌+◌, ◌≤◌, ◌≡◌, ◌⊎◌, ◌∷◌, ◌++◌, ◌==◌, [],
}
use sky_net_os.Sync.Defs.{spinlock_acquire-free}
use sky_net_os.Memory.Heap.{
  heap_max_size, header, Block, Heap, split, fits, malloc_from, malloc, mark_free, coalesce_all,
  free,
}
use sky_net_os.Memory.HeapLaws.{
  Tiles, Coalesced, IsHeap, malloc_from-Tiles, coalesce-Tiles, coalesce-Coalesced,
}

abbrev pub All : (Block → Type 0) → List Block → Type 0
All P [] = Unit
All P (b ∷ bs) = P b × All P bs

-- `ptr` is what `malloc` returned for some block of the list.
abbrev pub Has : ℕ → List Block → Type 0
Has ptr [] = ⊥
Has ptr (b ∷ bs) = (b.addr + header ≡ ptr) ⊎ Has ptr bs

-- What first fit comes to: no block fits and nothing changes, or the first block that fits is
-- taken, and what is left over of it becomes a free block behind it.
abbrev pub FirstFit : ℕ → List Block → List Block × Option ℕ → Type 0
FirstFit size bs (bs', none) = (bs' ≡ bs) × All (λ b. fits size b ≡ false) bs
FirstFit size bs (bs', some ptr) =
    (xs : List Block) × (b : Block) × (ys : List Block) × (bs ≡ xs ++ (b ∷ ys))
    × All (λ x. fits size x ≡ false) xs
    × (b.free ≡ true)
    × (size ≤ b.size)
    × (ptr ≡ b.addr + header)
    × (bs' ≡ xs ++ (split size b ++ ys))

FirstFit-cons :
    (size : ℕ) (b : Block) (bs : List Block) (r : List Block × Option ℕ)
    → fits size b ≡ false
    → FirstFit size bs r
    → FirstFit size (b ∷ bs) (b ∷ r.0, r.1)
FirstFit-cons size b bs (bs', none) no_fit (same, tight) = (ap (λ l. b ∷ l) same, (no_fit, tight))
FirstFit-cons size b bs (bs', some ptr) no_fit (xs, c, ys, e, tight, free, le, at, e') =
    (b ∷ xs, c, ys, ap (λ l. b ∷ l) e, (no_fit, tight), free, le, at, ap (λ l. b ∷ l) e')

malloc_from-FirstFit : (size : ℕ) (bs : List Block) → FirstFit size bs (malloc_from size bs)
unfolding malloc_from
malloc_from-FirstFit size [] = (refl, tt)
malloc_from-FirstFit size (b ∷ bs) = elim (Bool-cases (fits size b)) [
  | inl yes_fits ↦
      rw (malloc_from, yes_fits) ([], b, bs, refl, tt, ground arith, ground arith, refl, refl)
  | inr no_fit ↦
      rw (malloc_from, no_fit)
        (FirstFit-cons size b bs (malloc_from size bs) no_fit (malloc_from-FirstFit size bs))
]

-- malloc on a heap in order goes by first fit, and leaves the heap in order.
pub malloc-FirstFit :
    (size : ℕ) (h : Heap)
    → IsHeap h
    → Returns (λ r. IsHeap r.0 × FirstFit size h.blocks (r.0.blocks, r.1)) (malloc size h)
unfolding malloc
malloc-FirstFit size h v =
    rw (malloc, spinlock_acquire-free v.unlocked)
      (
        record {
          unlocked = refl;
          tiles = malloc_from-Tiles size 0 h.blocks heap_max_size (omega arith) v.tiles;
        },
        malloc_from-FirstFit size h.blocks,
      )

mark_free-Tiles :
    (ptr a : ℕ) (bs : List Block) (e : ℕ)
    → Tiles a bs e
    → Has ptr bs
    → Returns (λ bs'. Tiles a bs' e) (mark_free ptr bs)
unfolding mark_free
mark_free-Tiles ptr a [] e t h = h
mark_free-Tiles ptr a (b ∷ bs) e t h = elim (Bool-cases (b.addr + header == ptr)) [
  | inl here ↦ rw (mark_free, here) t
  | inr later ↦
      rw (mark_free, later)
        (Returns-bind (λ bs'. Tiles (a + header + b.size) bs' e) (λ bs'. Tiles a bs' e)
          (mark_free ptr bs) (λ bs'. done (b ∷ bs'))
          (mark_free-Tiles ptr (a + header + b.size) bs e t.1 (ground arith)) (λ bs' t'. (t.0, t')))
]

pub coalesce_all-Tiles :
    (bs : List Block) (e : ℕ)
    → Tiles 0 bs e
    → Tiles 0 (coalesce_all bs) e × Coalesced (coalesce_all bs)
unfolding coalesce_all
coalesce_all-Tiles [] e t = (t, tt)
coalesce_all-Tiles (b ∷ bs) e t = (coalesce-Tiles 0 b bs e t, coalesce-Coalesced b bs)

-- free of a pointer to a block, on a heap whose lock is free and whose blocks fill it, returns, the blocks still fill the heap, and afterwards no two free
-- blocks lie side by side.
pub free-Coalesced :
    (ptr : ℕ) (h : Heap)
    → IsHeap h
    → Has ptr h.blocks
    → Returns (λ h'. IsHeap h' × Coalesced h'.blocks) (free (some ptr) h)
unfolding free
free-Coalesced ptr h v has =
    rw (free, spinlock_acquire-free v.unlocked)
      (Returns-bind (λ bs. Tiles 0 bs heap_max_size) (λ h'. IsHeap h' × Coalesced h'.blocks)
        (mark_free ptr h.blocks) _ (mark_free-Tiles ptr 0 h.blocks heap_max_size v.tiles has)
        (λ bs t.
          let (t', c) = coalesce_all-Tiles bs heap_max_size t in
          (record { unlocked = refl; tiles = t' }, c)))
