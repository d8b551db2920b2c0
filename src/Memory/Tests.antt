-- ===== src/Memory/Tests.antt =====
-- Runs of the allocators of src/memory_management.c at concrete states.
use sky_net_os.Base.{
  pos, refl, true, false, [], inl, some, done, negsuc, arith, Returns, ℕ, ◌≡◌, ◌≢◌, ◌∷◌,
}
use sky_net_os.Memory.Pages.{
  Pool, allocate_process_memory, free_process_memory, free_frame, take_page, claim_page, find_page,
}
use sky_net_os.Memory.PageLaws.{
  IsPool, PageResult, allocate_process_memory-PageResult, free-allocate_process_memory,
  free_process_memory-protects,
}
use sky_net_os.Memory.Heap.{Heap, malloc, free, block, malloc_from, split}
use sky_net_os.Memory.HeapLaws.{IsHeap, Coalesced}
use sky_net_os.Memory.HeapUse.{free-Coalesced}
use sky_net_os.Memory.HeapTrip.{free-malloc}
use sky_net_os.Sync.Defs.{spinlock_acquire}
use sky_net_os.Memory.HeapTaken.{Allocated, malloc-Allocated}

abbrev fresh : Pool
fresh = record { page_table = λ _. free_frame; last_page_index = 5; mem_lock = false }

fresh-IsPool : IsPool fresh
fresh-IsPool = record { unlocked = refl; start_in = omega arith }

allocate_process_memory-PageResult_example :
    Returns (PageResult 1048576 (pos 3) fresh) (allocate_process_memory 1048576 (pos 3) 100 fresh)
allocate_process_memory-PageResult_example =
    allocate_process_memory-PageResult 1048576 (pos 3) 100 fresh fresh-IsPool (omega arith)

-- `fresh` with page 5 taken by process 3.
abbrev one_page : Pool
one_page = record (take_page (pos 3) 5 fresh) { mem_lock = false }

one_page_run : allocate_process_memory 1048576 (pos 3) 100 fresh ≡ done (one_page, some 1069056)
unfolding allocate_process_memory claim_page find_page take_page spinlock_acquire
one_page_run = refl

free-allocate_process_memory_example :
    Returns
      (λ m'. (j : ℕ) → (m'.page_table j).allocated ≡ false)
      (free_process_memory 1048576 (pos 3) 1069056 one_page)
free-allocate_process_memory_example =
    free-allocate_process_memory 1048576 (pos 3) 100 fresh fresh-IsPool (omega arith) (omega arith)
      one_page_run

free_process_memory-protects_example :
    Returns
      (λ m'.
        (j : ℕ)
        → (one_page.page_table j).owner_pid ≢ pos 4
        → (one_page.page_table j).owner_pid ≢ negsuc 0
        → m'.page_table j ≡ one_page.page_table j)
      (free_process_memory 1048576 (pos 4) 1069056 one_page)
free_process_memory-protects_example =
    free_process_memory-protects 1048576 (pos 4) 1069056 one_page refl

-- A heap of a used block and a free one.
abbrev half : Heap
half = record { blocks = block 0 100 false ∷ block 112 33554308 true ∷ []; heap_lock = false }

half-IsHeap : IsHeap half
half-IsHeap = record { unlocked = refl; tiles = (refl, (refl, refl)) }

malloc-Allocated_example :
    Returns (λ r. IsHeap r.0 × Allocated 64 half.blocks (r.0.blocks, r.1)) (malloc 64 half)
malloc-Allocated_example = malloc-Allocated 64 half half-IsHeap

free-Coalesced_example : Returns (λ h'. IsHeap h' × Coalesced h'.blocks) (free (some 12) half)
free-Coalesced_example = free-Coalesced 12 half half-IsHeap (inl refl)

-- `half` after `malloc` of 64 bytes.
abbrev half_taken : Heap
half_taken = record half {
  blocks = block 0 100 false ∷ block 112 64 false ∷ block 188 33554232 true ∷ [];
}

half_run : malloc 64 half ≡ done (half_taken, some 124)
unfolding malloc malloc_from split spinlock_acquire
half_run = refl

free-malloc_example : free (some 124) half_taken ≡ done half
free-malloc_example = free-malloc 64 half half-IsHeap (refl, tt) half_run
