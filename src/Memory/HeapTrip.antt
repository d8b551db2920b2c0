-- ===== src/Memory/HeapTrip.antt =====
-- `free` undoes `malloc` (src/memory_management.c).
use sky_net_os.Base.{
  ℕ, refl, inl, inr, true, false, ap, done, Bool-cases, ltb, arith, List, ◌+◌, ◌-◌, ◌≤◌, ◌≡◌, ◌∷◌,
  ◌++◌, ◌&&◌, ◌==◌, [], some, sym, subst, ◌<◌, ◌∙◌, ltb→lt, Returns,
}
use sky_net_os.Sync.Defs.{spinlock_acquire-free}
use sky_net_os.Memory.Heap.{
  heap_max_size, header, Block, block, Heap, split, malloc, mark_free, coalesce, coalesce_all, free,
}
use sky_net_os.Memory.HeapLaws.{Tiles, Tiles-le, Coalesced, IsHeap, split_lem}
use sky_net_os.Memory.HeapUse.{All, FirstFit, malloc-FirstFit}

Tiles-at :
    (a : ℕ) (xs : List Block) (b : Block) (ys : List Block) (e : ℕ)
    → Tiles a (xs ++ (b ∷ ys)) e
    → a ≤ b.addr
Tiles-at a [] b ys e t = omega arith
Tiles-at a (x ∷ xs) b ys e t = omega (arith, Tiles-at (a + header + x.size) xs b ys e t.1)

-- The blocks before `b` stand elsewhere.
Tiles-before :
    (a : ℕ) (xs : List Block) (b : Block) (ys : List Block) (e : ℕ)
    → Tiles a (xs ++ (b ∷ ys)) e
    → All (λ x. (x.addr + header == b.addr + header) ≡ false) xs
Tiles-before a [] b ys e t = tt
Tiles-before a (x ∷ xs) b ys e t = (
  ground (arith, Tiles-at (a + header + x.size) xs b ys e t.1),
  Tiles-before (a + header + x.size) xs b ys e t.1,
)

pub Tiles-end :
    (a : ℕ) (xs : List Block) (b : Block) (ys : List Block) (e : ℕ)
    → Tiles a (xs ++ (b ∷ ys)) e
    → b.addr + header + b.size ≤ e
Tiles-end a [] b ys e t = omega (arith, Tiles-le (a + header + b.size) ys e t.1)
Tiles-end a (x ∷ xs) b ys e t = Tiles-end (a + header + x.size) xs b ys e t.1

mark_free-through :
    (ptr : ℕ) (xs : List Block) (h : Block) (r : List Block)
    → All (λ x. (x.addr + header == ptr) ≡ false) xs
    → h.addr + header ≡ ptr
    → mark_free ptr (xs ++ (h ∷ r)) ≡ done (xs ++ (record h { free = true } ∷ r))
unfolding mark_free
mark_free-through ptr [] h r other here =
    let hit : (h.addr + header == ptr) ≡ true = ground arith in rw (mark_free, hit)
mark_free-through ptr (x ∷ xs) h r other here =
    rw (mark_free, other.0, mark_free-through ptr xs h r other.1 here)

-- A list without free neighbours is left as it is.
coalesce_same : (b : Block) (bs : List Block) → Coalesced (b ∷ bs) → coalesce b bs ≡ b ∷ bs
unfolding coalesce
coalesce_same b [] c = refl
coalesce_same b (x ∷ xs) c = rw (coalesce, c.0) (ap (λ l. b ∷ l) (coalesce_same x xs c.1))

Coalesced-tail :
    (xs : List Block) (b : Block) (ys : List Block)
    → Coalesced (xs ++ (b ∷ ys))
    → Coalesced (b ∷ ys)
Coalesced-tail [] b ys c = c
Coalesced-tail (x ∷ []) b ys c = c.1
Coalesced-tail (x ∷ y ∷ xs) b ys c = Coalesced-tail (y ∷ xs) b ys c.1

-- Where the blocks from `h` on coalesce into `b`, so they do behind any others.
coalesce-through :
    (x : Block) (xs : List Block) (h : Block) (r : List Block) (b : Block) (ys : List Block)
    → h.free ≡ b.free
    → coalesce h r ≡ b ∷ ys
    → Coalesced (x ∷ (xs ++ (b ∷ ys)))
    → coalesce x (xs ++ (h ∷ r)) ≡ x ∷ (xs ++ (b ∷ ys))
unfolding coalesce
coalesce-through x [] h r b ys same into c =
    let apart : (x.free && h.free) ≡ false = rw same c.0 in
    rw (coalesce, apart) (ap (λ l. x ∷ l) into)
coalesce-through x (y ∷ xs) h r b ys same into c =
    rw (coalesce, c.0) (ap (λ l. x ∷ l) (coalesce-through y xs h r b ys same into c.1))

coalesce_all-through :
    (xs : List Block) (h : Block) (r : List Block) (b : Block) (ys : List Block)
    → h.free ≡ b.free
    → coalesce h r ≡ b ∷ ys
    → Coalesced (xs ++ (b ∷ ys))
    → coalesce_all (xs ++ (h ∷ r)) ≡ xs ++ (b ∷ ys)
unfolding coalesce_all
coalesce_all-through [] h r b ys same into c = into
coalesce_all-through (x ∷ xs) h r b ys same into c = coalesce-through x xs h r b ys same into c

rejoin_size : (size n : ℕ) → size + 20 < n → size + (header + (n - size - header)) ≡ n
rejoin_size size n h = omega arith

-- A free block with the address and size of `b` is `b`.
rejoined :
    (b c : Block) (ys : List Block)
    → c.addr ≡ b.addr
    → c.size ≡ b.size
    → b.free ≡ true
    → Coalesced (b ∷ ys)
    → coalesce (record c { free = true }) ys ≡ b ∷ ys
rejoined b c ys at as_large is_free apart =
    ap (λ x. coalesce x ys) (λ i. record { addr = at i; size = as_large i; free = sym is_free i })
    ∙ coalesce_same b ys apart

-- What `split` made of `b`, its first part free again.
rejoin :
    (size : ℕ) (b : Block) (ys : List Block)
    → b.addr + header + b.size ≤ heap_max_size
    → size ≤ b.size
    → b.free ≡ true
    → Coalesced (b ∷ ys)
    → (h : Block) × (r : List Block) × (split size b ++ ys ≡ h ∷ r)
      × (h.addr ≡ b.addr)
      × (coalesce (record h { free = true }) r ≡ b ∷ ys)
unfolding coalesce
rejoin size b ys small le is_free c = elim (Bool-cases (ltb (size + 20) b.size)) [
  | inl large ↦ (
    block b.addr size false,
    block (b.addr + header + size) (b.size - size - header) true ∷ ys,
    rw (split_lem size b small le, large),
    refl,
    rejoined b (block b.addr (size + (header + (b.size - size - header))) true) ys refl
        (rejoin_size size b.size (ltb→lt (size + 20) b.size large)) is_free c,
  )
  | inr tight ↦ (
    block b.addr b.size false,
    ys,
    rw (split_lem size b small le, tight),
    refl,
    rejoined b (block b.addr b.size true) ys refl refl is_free c,
  )
]

free-taken :
    (size : ℕ) (h h' : Heap) (ptr : ℕ)
    → IsHeap h
    → Coalesced h.blocks
    → IsHeap h'
    → FirstFit size h.blocks (h'.blocks, some ptr)
    → free (some ptr) h' ≡ done h
unfolding free
free-taken size h h' ptr v c v' (xs, b, ys, e, tight, is_free, le, at, e') =
    let t = subst (λ l. Tiles 0 l heap_max_size) e v.tiles in
    let c' = subst Coalesced e c in
    let (k, r, made, same, back) =
      rejoin size b ys (Tiles-end 0 xs b ys heap_max_size t) le is_free
        (Coalesced-tail xs b ys c') in
    let others =
      subst (λ p. All (λ x. (x.addr + header == p) ≡ false) xs) (sym at)
        (Tiles-before 0 xs b ys heap_max_size t) in
    let marked =
      ap (mark_free ptr) (e' ∙ ap (λ l. xs ++ l) made)
      ∙ mark_free-through ptr xs k r others (rw same (sym at)) in
    let joined =
      coalesce_all-through xs (record k { free = true }) r b ys (sym is_free) back c' ∙ sym e in
    rw (spinlock_acquire-free v'.unlocked, marked)
      (ap done (λ i. record { blocks = joined i; heap_lock = sym v.unlocked i }))

-- On a heap whose lock is free, whose blocks fill it and which has no free neighbours, free of a pointer that malloc has just returned restores the
-- heap as it was before malloc, whatever the size asked for.
pub free-malloc :
    (size : ℕ) (h : Heap)
    → IsHeap h
    → Coalesced h.blocks
    → {h' : Heap} {ptr : ℕ} → malloc size h ≡ done (h', some ptr)
    → free (some ptr) h' ≡ done h
free-malloc size h v c {h'} {ptr} e =
    let (v', first) =
      subst (Returns (λ r. IsHeap r.0 × FirstFit size h.blocks (r.0.blocks, r.1))) e
        (malloc-FirstFit size h v) in
    free-taken size h h' ptr v c v' first
