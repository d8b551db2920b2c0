-- ===== src/Memory/Pages.antt =====
-- The page allocator of src/memory_management.c. Addresses are numbers below 2 ^ 32, and `base` is
-- the address of `memory_pool`, which the linker chooses.
use sky_net_os.Base.{
  ℕ, zero, suc, true, false, none, some, done, negsuc, ltb, not, update, eqb_ℤ, Outcome, eqb_ℤ, ℤ,
  Bool, Option, ◌+◌, ◌-◌, ◌*◌, ◌/◌, ◌%◌, ◌^◌, ◌&&◌, ◌||◌, ◌==◌, if◌then◌else◌, ◌>>=◌,
}
use sky_net_os.Sync.Defs.{Spinlock, spinlock_init, spinlock_acquire, spinlock_release}

abbrev pub page_size : ℕ
page_size = 4096

abbrev pub total_pages : ℕ
total_pages = 8192

-- `page_frame_t`; -1 owns what the kernel owns.
pub record PageFrame : Type 0 where
  pub allocated : Bool
  pub owner_pid : ℤ

-- `page_table`, `last_page_index` and `mem_lock`.
pub record Pool : Type 0 where
  pub page_table : ℕ → PageFrame
  pub last_page_index : ℕ
  pub mem_lock : Spinlock

abbrev pub free_frame : PageFrame
free_frame = record { allocated = false; owner_pid = negsuc 0 }

unfoldable pub init_memory_management : Pool → Pool
init_memory_management m = record m {
  mem_lock = spinlock_init;
  page_table = λ i. if ltb i total_pages then free_frame else m.page_table i;
  last_page_index = 0;
}

-- The search of `allocate_process_memory`, from round `i` of the loop on.
unfoldable pub find_page : ℕ → ℕ → Pool → Option ℕ
find_page zero i m = none
find_page (suc n) i m =
    let idx = (m.last_page_index + i) % total_pages in
    let rest = find_page n (i + 1) m in if not (m.page_table idx).allocated then some idx else rest

-- What the allocation writes for page `idx`.
unfoldable pub take_page : ℤ → ℕ → Pool → Pool
take_page pid idx m = record m {
  page_table = update m.page_table idx (record { allocated = true; owner_pid = pid });
  last_page_index = (idx + 1) % total_pages;
}

-- Whether `free_process_memory` frees the page: it is in the pool, in use, and owned by the
-- caller or by the kernel.
unfoldable pub may_free : ℤ → ℕ → Pool → Bool
may_free pid page_index m =
    ltb page_index total_pages
    && ((m.page_table page_index).allocated
        && (eqb_ℤ (m.page_table page_index).owner_pid pid
            || eqb_ℤ (m.page_table page_index).owner_pid (negsuc 0)))

module _ (base : ℕ) where
  -- What happens under the lock. The pointer is `none` for NULL.
  unfoldable pub claim_page : ℤ → Pool → Pool × Option ℕ
  claim_page pid m = elim (find_page total_pages 0 m) [
    | none ↦ (m, none)
    | some idx ↦ (take_page pid idx m, some (base + idx * page_size))
  ]

  unfoldable pub allocate_process_memory : ℤ → ℕ → Pool → Outcome (Pool × Option ℕ)
  allocate_process_memory pid size m = if ltb page_size size then done (m, none) else do
    l ← spinlock_acquire m.mem_lock
    let (m', ptr) = claim_page pid (record m { mem_lock = l })
    done (record m' { mem_lock = spinlock_release l }, ptr)

  unfoldable pub allocate_memory : ℕ → Pool → Outcome (Pool × Option ℕ)
  allocate_memory size m = allocate_process_memory (negsuc 0) size m

  -- `ptr - memory_pool`, in unsigned 32-bit arithmetic.
  abbrev pub pool_offset : ℕ → ℕ
  pool_offset ptr = (ptr + 2 ^ 32 - base) % 2 ^ 32

  unfoldable pub free_process_memory : ℤ → ℕ → Pool → Outcome Pool
  free_process_memory pid ptr m =
      if pool_offset ptr % page_size == 0
      then (do
        l ← spinlock_acquire m.mem_lock
        let page_index = pool_offset ptr / page_size
        let m' = record m { mem_lock = spinlock_release l }
        done (
            if may_free pid page_index m
            then record m' { page_table = update m.page_table page_index free_frame }
            else m'))
      else done m

  unfoldable pub free_memory : ℕ → Pool → Outcome Pool
  free_memory ptr m = free_process_memory (negsuc 0) ptr m
