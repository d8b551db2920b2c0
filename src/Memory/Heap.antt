-- ===== src/Memory/Heap.antt =====
-- The heap of src/memory_management.c. The blocks are the chain that starts at `free_list`, in
-- order; an address is an offset into `heap_mem`, and NULL is `none`. `size_t` has 32 bits, and
-- `sizeof(block_t)` is 12.
use sky_net_os.Base.{
  ℕ, true, false, none, some, done, fault, ltb, leb, Outcome, Bool, Option, List, ◌+◌, ◌-◌, ◌%◌,
  ◌^◌, ◌∷◌, ◌++◌, ◌&&◌, ◌==◌, [], if◌then◌else◌, ◌>>=◌,
}
use sky_net_os.Sync.Defs.{Spinlock, spinlock_init, spinlock_acquire, spinlock_release}

abbrev pub heap_max_size : ℕ
heap_max_size = 33554432

abbrev pub header : ℕ
header = 12

-- `block_t`, with the address where it stands; `next` is the block that follows in the list.
pub record Block : Type 0 where
  pub addr : ℕ
  pub size : ℕ
  pub free : Bool

abbrev pub block : ℕ → ℕ → Bool → Block
block a n f = record { addr = a; size = n; free = f }

-- The chain of blocks, and `heap_lock`.
pub record Heap : Type 0 where
  pub blocks : List Block
  pub heap_lock : Spinlock

-- `size_t` addition and subtraction.
abbrev pub add_size : ℕ → ℕ → ℕ
add_size a b = (a + b) % 2 ^ 32

abbrev pub sub_size : ℕ → ℕ → ℕ
sub_size a b = (a + 2 ^ 32 - b) % 2 ^ 32

unfoldable pub init_heap : Heap
init_heap = record {
  blocks = block 0 (sub_size heap_max_size header) true ∷ [];
  heap_lock = spinlock_init;
}

-- The block that `malloc` takes, split if it is significantly larger than requested.
unfoldable pub split : ℕ → Block → List Block
split size b =
    if ltb (add_size (add_size size header) 8) b.size
    then block b.addr size false
      ∷ block (add_size (add_size b.addr header) size) (sub_size (sub_size b.size size) header) true
      ∷ []
    else block b.addr b.size false ∷ []

-- Whether `malloc` takes the block.
abbrev pub fits : ℕ → Block → Bool
fits size b = b.free && leb size b.size

-- The loop of `malloc` over the chain.
unfoldable pub malloc_from : ℕ → List Block → List Block × Option ℕ
malloc_from size [] = ([], none)
malloc_from size (b ∷ bs) =
    let rest = malloc_from size bs in
    if fits size b then (split size b ++ bs, some (b.addr + header)) else (b ∷ rest.0, rest.1)

unfoldable pub malloc : ℕ → Heap → Outcome (Heap × Option ℕ)
malloc size h = do
  l ← spinlock_acquire h.heap_lock
  let (bs, ptr) = malloc_from size h.blocks
  done (record { blocks = bs; heap_lock = spinlock_release l }, ptr)

-- `target->free = 1`, where `target` is a block of the chain; any other pointer is a fault.
unfoldable pub mark_free : ℕ → List Block → Outcome (List Block)
mark_free ptr [] = fault
mark_free ptr (b ∷ bs) =
    let rest = mark_free ptr bs in
    if b.addr + header == ptr
    then done (record b { free = true } ∷ bs)
    else do bs' ← rest; done (b ∷ bs')

abbrev pub merge : Block → Block → Block
merge b c = record b { size = b.size + (header + c.size) }

-- The coalescing pass of `free`, with `curr` and the blocks that follow it.
unfoldable pub coalesce : Block → List Block → List Block
coalesce b [] = b ∷ []
coalesce b (c ∷ cs) =
    let merged = coalesce (merge b c) cs in
    let kept = b ∷ coalesce c cs in if b.free && c.free then merged else kept

unfoldable pub coalesce_all : List Block → List Block
coalesce_all [] = []
coalesce_all (b ∷ bs) = coalesce b bs

unfoldable pub free : Option ℕ → Heap → Outcome Heap
free none h = done h
free (some ptr) h = do
  l ← spinlock_acquire h.heap_lock
  bs ← mark_free ptr h.blocks
  done (record { blocks = coalesce_all bs; heap_lock = spinlock_release l })
