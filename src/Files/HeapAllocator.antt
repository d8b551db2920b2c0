-- ===== src/Files/HeapAllocator.antt =====
-- `malloc` and `free` of src/memory_management.c, as Memory models them, keep the laws of `Allocator`.
use sky_net_os.Base.{
  Returns-map, refl, inl, inr, none, some, sym, ap, subst, done, Bool-cases, Returns-bind, ltb,
  arith, if-true, if-either, Returns, ℕ, Option, List, ◌+◌, ◌≤◌, ◌<◌, ◌≡◌, ◌∙◌, ◌∷◌, ◌++◌, ◌&&◌,
  ◌==◌, [], if◌then◌else◌,
}
use sky_net_os.Memory.Heap.{
  heap_max_size, header, Block, Heap, split, mark_free, coalesce, coalesce_all, malloc, free, merge,
  add_size,
}
use sky_net_os.Memory.HeapLaws.{Tiles, IsHeap}
use sky_net_os.Memory.HeapUse.{FirstFit, malloc-FirstFit, coalesce_all-Tiles}
use sky_net_os.Files.Allocator.{one_at, Allocator}
use sky_net_os.Sync.Defs.{spinlock_acquire-free}

-- 1 at the pointer to the block if the block is used, 0 elsewhere.
abbrev block_used : Block → ℕ → ℕ
block_used b q = if b.free then 0 else one_at (b.addr + header) q

-- How many used blocks the pointer is the pointer to.
abbrev pub used : List Block → ℕ → ℕ
used [] q = 0
used (b ∷ bs) q = block_used b q + used bs q

-- The heap is in order, and each pointer that is owned is a pointer to a used block.
abbrev pub OwnedBlocks : Heap → (ℕ → ℕ) → Type 0
OwnedBlocks h c = IsHeap h × ((q : ℕ) → c q ≤ used h.blocks q)

used-append : (xs ys : List Block) (q : ℕ) → used (xs ++ ys) q ≡ used xs q + used ys q
used-append [] ys q = omega arith
used-append (x ∷ xs) ys q = omega (arith, used-append xs ys q)

used-split : (size : ℕ) (b : Block) (q : ℕ) → used (split size b) q ≡ one_at (b.addr + header) q
unfolding split
used-split size b q =
    if-either (λ l. used l q ≡ one_at (b.addr + header) q)
      (ltb (add_size (add_size size header) 8) b.size) _ _ (λ large. omega arith)
      (λ tight. omega arith)

-- The block that is taken is used afterwards, and all others as before.
FirstFit-used :
    (size ptr : ℕ) (bs bs' : List Block) (q : ℕ)
    → FirstFit size bs (bs', some ptr)
    → used bs' q ≡ one_at ptr q + used bs q
FirstFit-used size ptr bs bs' q (xs, b, ys, e, tight, is_free, le, at, e') =
    let before = ap (λ l. used l q) e ∙ used-append xs (b ∷ ys) q in
    let after = ap (λ l. used l q) e' ∙ used-append xs (split size b ++ ys) q in
    let cut = used-append (split size b) ys q in
    let taken = used-split size b q ∙ ap (λ p. one_at p q) (sym at) in
    let unused : block_used b q ≡ 0 = if-true _ _ is_free in omega arith

pub malloc-OwnedBlocks :
    (n : ℕ) (h : Heap) (c : ℕ → ℕ)
    → OwnedBlocks h c
    → Returns
        (λ r. elim r.1 [
          | none ↦ OwnedBlocks r.0 c
          | some p ↦ OwnedBlocks r.0 (λ q. one_at p q + c q)
        ])
        (malloc n h)
malloc-OwnedBlocks n h c (v, own) =
    Returns-map _ _ (malloc n h) (owned h c own) (malloc-FirstFit n h v)
  where
    owned :
        (h : Heap) (c : ℕ → ℕ)
        → ((q : ℕ) → c q ≤ used h.blocks q)
        → (r : Heap × Option ℕ) → IsHeap r.0 × FirstFit n h.blocks (r.0.blocks, r.1)
        → elim r.1 as (λ _. Type 0) [
          | none ↦ OwnedBlocks r.0 c
          | some p ↦ OwnedBlocks r.0 (λ q. one_at p q + c q)
        ]
    owned h c own (h', none) (v', (same, tight)) =
        (v', λ q. subst (λ l. c q ≤ used l q) (sym same) (own q))
    owned h c own (h', some p) (v', first) =
        (v', λ q. omega (arith, own q, FirstFit-used n p h.blocks h'.blocks q first))

-- One block stops being used at most.
abbrev Released : ℕ → List Block → List Block → Type 0
Released p bs bs' = (q : ℕ) → used bs q ≤ one_at p q + used bs' q

mark_free-Released :
    (p a : ℕ) (bs : List Block) (e : ℕ)
    → Tiles a bs e
    → 0 < used bs p
    → Returns (λ bs'. Tiles a bs' e × Released p bs bs') (mark_free p bs)
unfolding mark_free
mark_free-Released p a [] e t owned = absurd (omega arith)
mark_free-Released p a (b ∷ bs) e t owned = elim (Bool-cases (b.addr + header == p)) [
  | inl here ↦ rw (mark_free, here) (t, λ q. ground arith)
  | inr later ↦
      rw (mark_free, later)
        (Returns-bind (λ bs'. Tiles (a + header + b.size) bs' e × Released p bs bs')
          (λ bs'. Tiles a bs' e × Released p (b ∷ bs) bs') (mark_free p bs) (λ bs'. done (b ∷ bs'))
          (mark_free-Released p (a + header + b.size) bs e t.1 (ground arith))
          (λ bs' (t', kept). ((t.0, t'), λ q. omega (arith, kept q))))
]

-- Free blocks that are merged were not used, and the merged block is not.
coalesce-used : (b : Block) (bs : List Block) (q : ℕ) → used (coalesce b bs) q ≡ used (b ∷ bs) q
unfolding coalesce
coalesce-used b [] q = refl
coalesce-used b (c ∷ cs) q = elim (Bool-cases (b.free && c.free)) [
  | inl both ↦ rw (coalesce, both) (coalesce-used (merge b c) cs q ∙ ground arith)
  | inr not_both ↦ rw (coalesce, not_both) (ap (λ n. block_used b q + n) (coalesce-used c cs q))
]

coalesce_all-used : (bs : List Block) (q : ℕ) → used (coalesce_all bs) q ≡ used bs q
unfolding coalesce_all
coalesce_all-used [] q = refl
coalesce_all-used (b ∷ bs) q = coalesce-used b bs q

pub free-OwnedBlocks :
    (p : ℕ) (h : Heap) (c : ℕ → ℕ)
    → OwnedBlocks h (λ q. one_at p q + c q)
    → Returns (λ h'. OwnedBlocks h' c) (free (some p) h)
unfolding free
free-OwnedBlocks p h c (v, own) =
    let there : 0 < used h.blocks p = let at = own p in ground arith in
    rw (free, spinlock_acquire-free v.unlocked)
      (Returns-bind (λ bs. Tiles 0 bs heap_max_size × Released p h.blocks bs)
        (λ h'. OwnedBlocks h' c) (mark_free p h.blocks) _
        (mark_free-Released p 0 h.blocks heap_max_size v.tiles there)
        (λ bs (t, released). (
          record { unlocked = refl; tiles = (coalesce_all-Tiles bs heap_max_size t).0 },
          λ q. omega (arith, own q, released q, coalesce_all-used bs q),
        )))

used-low : (a : ℕ) (bs : List Block) (e q : ℕ) → Tiles a bs e → q < a + header → used bs q ≡ 0
used-low a [] e q t low = refl
used-low a (b ∷ bs) e q t low =
    let rest = used-low (a + header + b.size) bs e q t.1 (omega arith) in
    let here = t.0 in ground arith

-- Blocks that lie one behind the other have different pointers.
used-le : (a : ℕ) (bs : List Block) (e q : ℕ) → Tiles a bs e → used bs q ≤ 1
used-le a [] e q t = omega arith
used-le a (b ∷ bs) e q t = elim (Bool-cases (b.addr + header == q)) [
  | inl here ↦
      let behind = used-low (a + header + b.size) bs e q t.1 (let at = t.0 in ground arith) in
      ground arith
  | inr other ↦ let rest = used-le (a + header + b.size) bs e q t.1 in ground arith
]

-- What `malloc` hands out was not owned before, and is owned afterwards, with what was owned before.
abbrev pub Handed : (ℕ → ℕ) → Heap × Option ℕ → Type 0
Handed c (h', none) = OwnedBlocks h' c
Handed c (h', some p) = (c p ≡ 0) × OwnedBlocks h' (λ q. one_at p q + c q)

-- On a heap in order, whose users hold pointers to used blocks, malloc returns. A pointer that it
-- returns is held by nobody before, and to a used block afterwards, as are the pointers that were held
-- before; where it gives NULL, those stay pointers to used blocks. The heap is in order afterwards.
pub malloc-Handed :
    (n : ℕ) (h : Heap) (c : ℕ → ℕ) → OwnedBlocks h c → Returns (Handed c) (malloc n h)
malloc-Handed n h c own = Returns-map _ (Handed c) (malloc n h) fresh (malloc-OwnedBlocks n h c own)
  where
    fresh :
        (r : Heap × Option ℕ)
        → elim r.1 as (λ _. Type 0) [
          | none ↦ OwnedBlocks r.0 c
          | some p ↦ OwnedBlocks r.0 (λ q. one_at p q + c q)
        ]
        → Handed c r
    fresh (h', none) own' = own'
    fresh (h', some p) (v, own') =
        let at = own' p in
        let once = used-le 0 h'.blocks heap_max_size p v.tiles in (ground arith, (v, own'))

-- The heap of the program, with `malloc` and `free` as they are.
abbrev pub heap_allocator : Allocator
heap_allocator = record {
  Store = Heap;
  Owned = OwnedBlocks;
  malloc = malloc;
  free = λ p h. free (some p) h;
  malloc_law = malloc-OwnedBlocks;
  free_law = free-OwnedBlocks;
}
