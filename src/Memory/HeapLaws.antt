-- ===== src/Memory/HeapLaws.antt =====
-- What `malloc` and `free` of src/memory_management.c keep and promise.
use sky_net_os.Base.{
  ℕ, inl, inr, false, Bool-cases, arith, List, ◌+◌, ◌≤◌, ◌≡◌, ◌∷◌, ◌&&◌, [], refl, true, subst, ltb,
  ◌-◌, ◌<◌, ◌++◌, if◌then◌else◌, ltb→lt,
}
use sky_net_os.Memory.Heap.{
  heap_max_size, header, Block, block, Heap, init_heap, split, fits, malloc_from, merge, coalesce,
  add_size, sub_size,
}

-- The blocks lie one behind the other from `a` to `e`, without a gap.
abbrev pub Tiles : ℕ → List Block → ℕ → Type 0
Tiles a [] e = a ≡ e
Tiles a (b ∷ bs) e = (b.addr ≡ a) × Tiles (a + header + b.size) bs e

pub Tiles-le : (a : ℕ) (bs : List Block) (e : ℕ) → Tiles a bs e → a ≤ e
Tiles-le a [] e t = omega arith
Tiles-le a (b ∷ bs) e t = omega (arith, Tiles-le (a + header + b.size) bs e t.1)

-- No two blocks that follow one another are both free.
abbrev pub Coalesced : List Block → Type 0
Coalesced [] = Unit
Coalesced (b ∷ []) = Unit
Coalesced (b ∷ c ∷ bs) = ((b.free && c.free) ≡ false) × Coalesced (c ∷ bs)

-- In a heap of `heap_max_size` no addition or subtraction of `malloc` wraps.
pub split_lem :
    (size : ℕ) (b : Block)
    → b.addr + header + b.size ≤ heap_max_size
    → size ≤ b.size
    → split size b ≡ (
        if ltb (size + 20) b.size
        then block b.addr size false
          ∷ block (b.addr + header + size) (b.size - size - header) true
          ∷ []
        else block b.addr b.size false ∷ [])
unfolding split
split_lem size b small le =
    rw (no_wrap₁ size b.size le (omega arith)) (elim (Bool-cases (ltb (size + 20) b.size)) [
      | inl large ↦
          let more = ltb→lt (size + 20) b.size large in
          rw (large, no_wrap₂ b.addr size (omega arith), no_wrap₃ size b.size more (omega arith))
      | inr tight ↦ rw tight
    ])
  where
    no_wrap₁ : (s n : ℕ) → s ≤ n → n ≤ heap_max_size → add_size (add_size s header) 8 ≡ s + 20
    no_wrap₁ s n le small = omega arith

    no_wrap₂ :
        (a s : ℕ) → a + header + s ≤ heap_max_size → add_size (add_size a header) s ≡ a + header + s
    no_wrap₂ a s small = omega arith

    no_wrap₃ :
        (s n : ℕ) → s + 20 < n → n ≤ heap_max_size → sub_size (sub_size n s) header ≡ n - s - header
    no_wrap₃ s n more small = omega arith

split-Tiles :
    (size a : ℕ) (b : Block) (bs : List Block) (e : ℕ)
    → e ≤ heap_max_size
    → Tiles a (b ∷ bs) e
    → size ≤ b.size
    → Tiles a (split size b ++ bs) e
split-Tiles size a b bs e small t le =
    let room = Tiles-le (a + header + b.size) bs e t.1 in
    rw (split_lem size b (omega arith) le) (elim (Bool-cases (ltb (size + 20) b.size)) [
      | inl large ↦ rw large (
        t.0,
        (
          omega arith,
          subst (λ x. Tiles x bs e) (remainder a size b.size (ltb→lt (size + 20) b.size large)) t.1,
        ),
      )
      | inr tight ↦ rw tight t
    ])
  where
    remainder :
        (a s n : ℕ) → s + 20 < n → a + header + n ≡ a + header + s + header + (n - s - header)
    remainder a s n h = omega arith

pub malloc_from-Tiles :
    (size a : ℕ) (bs : List Block) (e : ℕ)
    → e ≤ heap_max_size
    → Tiles a bs e
    → Tiles a (malloc_from size bs).0 e
unfolding malloc_from split
malloc_from-Tiles size a [] e small t = t
malloc_from-Tiles size a (b ∷ bs) e small t =
    let room = Tiles-le (a + header + b.size) bs e t.1 in
    let ih = malloc_from-Tiles size (a + header + b.size) bs e small t.1 in
    elim (Bool-cases (fits size b)) [
      | inl yes_fits ↦ rw (malloc_from, yes_fits) (split-Tiles size a b bs e small t (ground arith))
      | inr no_fit ↦ rw (malloc_from, no_fit) (t.0, ih)
    ]

pub coalesce-Tiles :
    (a : ℕ) (b : Block) (bs : List Block) (e : ℕ) → Tiles a (b ∷ bs) e → Tiles a (coalesce b bs) e
unfolding coalesce
coalesce-Tiles a b [] e t = t
coalesce-Tiles a b (c ∷ cs) e t = elim (Bool-cases (b.free && c.free)) [
  | inl both ↦
      rw (coalesce, both)
        (coalesce-Tiles a (merge b c) cs e (t.0, subst (λ x. Tiles x cs e) (omega arith) t.1.1))
  | inr not_both ↦ rw (coalesce, not_both) (t.0, coalesce-Tiles (a + header + b.size) c cs e t.1)
]

-- The pass leaves a block at the head that is free as `curr` was.
coalesce_head :
    (b : Block) (bs : List Block)
    → (h : Block) × (r : List Block) × (coalesce b bs ≡ h ∷ r) × (h.free ≡ b.free)
unfolding coalesce
coalesce_head b [] = (b, [], refl, refl)
coalesce_head b (c ∷ cs) = elim (Bool-cases (b.free && c.free)) [
  | inl both ↦ rw (coalesce, both) (coalesce_head (merge b c) cs)
  | inr not_both ↦ rw (coalesce, not_both) (b, coalesce c cs, refl, refl)
]

Coalesced-cons :
    (b : Block) (l : List Block) {h : Block} {r : List Block}
    → l ≡ h ∷ r
    → (b.free && h.free) ≡ false
    → Coalesced l
    → Coalesced (b ∷ l)
Coalesced-cons b [] e apart c = tt
Coalesced-cons b (x ∷ xs) e apart c = (ground arith, c)

pub coalesce-Coalesced : (b : Block) (bs : List Block) → Coalesced (coalesce b bs)
unfolding coalesce
coalesce-Coalesced b [] = tt
coalesce-Coalesced b (c ∷ cs) = elim (Bool-cases (b.free && c.free)) [
  | inl both ↦ rw (coalesce, both) (coalesce-Coalesced (merge b c) cs)
  | inr not_both ↦
      let (h, r, e, same) = coalesce_head c cs in
      rw (coalesce, not_both)
        (Coalesced-cons b (coalesce c cs) e (rw same not_both) (coalesce-Coalesced c cs))
]

-- Between calls the lock is free, and the blocks fill the heap.
pub record IsHeap (h : Heap) : Type 0 where
  pub unlocked : h.heap_lock ≡ false
  pub tiles : Tiles 0 h.blocks heap_max_size

-- init_heap makes one free block of the whole heap.
pub init_heap-IsHeap : IsHeap init_heap × Coalesced init_heap.blocks
unfolding init_heap
init_heap-IsHeap = (record { unlocked = refl; tiles = (refl, refl) }, tt)
