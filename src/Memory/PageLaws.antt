-- ===== src/Memory/PageLaws.antt =====
-- What the page allocator of src/memory_management.c promises.
use native.Mathlib.Decide.{ℕ_discrete}
use sky_net_os.Base.{
  ℕ, zero, suc, inl, inr, true, false, none, some, Bool-cases, arith, ◌+◌, ◌-◌, ◌%◌, ◌≤◌, ◌<◌, ◌≡◌,
  refl, sym, Option-cases, ltb, update, Returns, ℤ, Bool, Option, ◌*◌, negsuc, ◌/◌, ◌≢◌, ◌==◌, done,
  update_other, eqb_ℤ, eqb_ℤ, ◌^◌, ◌⊎◌, eqb_ℤ-eq, ap, subst, update_same, ◌∙◌, eqb_ℤ_refl,
}
use sky_net_os.Memory.Pages.{
  total_pages, Pool, find_page, page_size, allocate_process_memory, take_page, claim_page,
  free_process_memory, pool_offset, may_free, free_frame,
}
use sky_net_os.Sync.Defs.{spinlock_acquire-free}

abbrev pub IsFree : Pool → ℕ → Type 0
IsFree m idx = (m.page_table idx).allocated ≡ false

abbrev pub slot : Pool → ℕ → ℕ
slot m i = (m.last_page_index + i) % total_pages

-- The loop finds the first free page from its start, going round.
find_page-some :
    (n i : ℕ) (m : Pool) {idx : ℕ}
    → find_page n i m ≡ some idx
    → (k : ℕ) × (i ≤ k)
      × (k < i + n)
      × (idx ≡ slot m k)
      × IsFree m idx
      × ((j : ℕ) → i ≤ j → j < k → (m.page_table (slot m j)).allocated ≡ true)
unfolding find_page
find_page-some zero i m h = cc
find_page-some (suc n) i m {idx} h = elim (Bool-cases (m.page_table (slot m i)).allocated) [
  | inl taken ↦
      let h' : find_page n (i + 1) m ≡ some idx = ground arith in
      let (k, lo, hi, e, free, before) = find_page-some n (i + 1) m h' in
      (
        k,
        omega arith,
        omega arith,
        e,
        free,
        λ j a b. elim (ℕ_discrete i j) [
          | yes same ↦ rw (← same) taken
          | no ne ↦ before j (omega arith) b
        ],
      )
  | inr free ↦
      (i, omega arith, omega arith, ground arith, ground arith, λ j a b. absurd (omega arith))
]

find_page-none :
    (n i : ℕ) (m : Pool)
    → find_page n i m ≡ none
    → (j : ℕ) → i ≤ j
    → j < i + n
    → (m.page_table (slot m j)).allocated ≡ true
unfolding find_page
find_page-none zero i m h j a b = absurd (omega arith)
find_page-none (suc n) i m h j a b = elim (Bool-cases (m.page_table (slot m i)).allocated) [
  | inl taken ↦
      let h' : find_page n (i + 1) m ≡ none = ground arith in
      elim (ℕ_discrete i j) [
        | yes same ↦ rw (← same) taken
        | no ne ↦ find_page-none n (i + 1) m h' j (omega arith) (omega arith)
      ]
  | inr free ↦ ground arith
]

-- Every page is met in one go round.
slot_onto :
    (m : Pool) (idx : ℕ)
    → m.last_page_index < total_pages
    → idx < total_pages
    → (j : ℕ) × (j < total_pages) × (slot m j ≡ idx)
slot_onto m idx start lt =
    ((idx + total_pages - m.last_page_index) % total_pages, omega arith, omega arith)

-- Between calls the lock is free, and the search starts inside the table.
pub record IsPool (m : Pool) : Type 0 where
  pub unlocked : m.mem_lock ≡ false
  pub start_in : m.last_page_index < total_pages

-- What an allocation of a page may come to: no page was free and nothing changes, or the result
-- points at the first free page from `last_page_index` on, which now belongs to `pid`.
abbrev pub PageResult : ℕ → ℤ → Pool → Pool × Option ℕ → Type 0
PageResult base pid m (m', none) =
    (m' ≡ m) × ((idx : ℕ) → idx < total_pages → (m.page_table idx).allocated ≡ true)
PageResult base pid m (m', some ptr) =
    (idx : ℕ) × (k : ℕ) × (ptr ≡ base + idx * page_size)
    × (idx < total_pages)
    × (k < total_pages)
    × (idx ≡ slot m k)
    × IsFree m idx
    × ((j : ℕ) → j < k → (m.page_table (slot m j)).allocated ≡ true)
    × (m'.page_table ≡ update m.page_table idx (record { allocated = true; owner_pid = pid }))
    × (m'.last_page_index ≡ (idx + 1) % total_pages)
    × (m'.mem_lock ≡ false)

pool_path : (m : Pool) {l : Bool} → m.mem_lock ≡ l → ◌≡◌ {A = Pool} (record m { mem_lock = l }) m
pool_path m h = λ i. record m { mem_lock = sym h i }

claim_page-none :
    (base : ℕ) (pid : ℤ) (m : Pool)
    → find_page total_pages 0 m ≡ none
    → claim_page base pid m ≡ (m, none)
unfolding claim_page
claim_page-none base pid m e = rw (claim_page, e)

claim_page-some :
    (base : ℕ) (pid : ℤ) (m : Pool) {idx : ℕ}
    → find_page total_pages 0 m ≡ some idx
    → claim_page base pid m ≡ (take_page pid idx m, some (base + idx * page_size))
unfolding claim_page
claim_page-some base pid m e = rw (claim_page, e)

-- allocate_process_memory, called with the lock free for a size of at most a page, returns the
-- first free page in next-fit order, recorded as owned by the caller, or NULL with nothing changed
-- where every page is in use.
pub allocate_process_memory-PageResult :
    (base : ℕ) (pid : ℤ) (size : ℕ) (m : Pool)
    → IsPool m
    → size ≤ page_size
    → Returns (PageResult base pid m) (allocate_process_memory base pid size m)
unfolding allocate_process_memory take_page
allocate_process_memory-PageResult base pid size m v small =
    let fits : ltb page_size size ≡ false = ground arith in
    let m' = record m { mem_lock = true } in
    rw (allocate_process_memory, fits, spinlock_acquire-free v.unlocked)
      (elim (Option-cases (find_page total_pages 0 m')) [
        | inl e ↦ rw (claim_page-none base pid m' e) (
          pool_path m v.unlocked,
          λ idx lt.
              let (j, hj, same) = slot_onto m idx v.start_in lt in
              rw (← same) (find_page-none total_pages 0 m' e j (omega arith) hj),
        )
        | inr (idx, e) ↦
            let (k, lo, hi, where_at, free, before) = find_page-some total_pages 0 m' e in
            rw (claim_page-some base pid m' e) (
              idx,
              k,
              refl,
              omega arith,
              hi,
              where_at,
              free,
              λ j b. before j (omega arith) b,
              refl,
              refl,
              refl,
            )
      ])

may_free-owner :
    (pid : ℤ) (idx : ℕ) (m : Pool)
    → may_free pid idx m ≡ true
    → ((m.page_table idx).owner_pid ≡ pid) ⊎ ((m.page_table idx).owner_pid ≡ negsuc 0)
unfolding may_free
may_free-owner pid idx m h = elim (Bool-cases (eqb_ℤ (m.page_table idx).owner_pid pid)) [
  | inl same ↦ inl (eqb_ℤ-eq _ _ same)
  | inr other ↦ inr (eqb_ℤ-eq _ _ (ground arith))
]

-- free_process_memory, called with the lock free, with any pointer at all, leaves every page of
-- another process alone: only a page of the caller, or of the kernel, can change.
pub free_process_memory-protects :
    (base : ℕ) (pid : ℤ) (ptr : ℕ) (m : Pool)
    → m.mem_lock ≡ false
    → Returns
        (λ m'.
          (j : ℕ)
          → (m.page_table j).owner_pid ≢ pid
          → (m.page_table j).owner_pid ≢ negsuc 0
          → m'.page_table j ≡ m.page_table j)
        (free_process_memory base pid ptr m)
unfolding free_process_memory
free_process_memory-protects base pid ptr m unlocked =
    elim (Bool-cases (pool_offset base ptr % page_size == 0)) [
      | inr odd ↦ rw (free_process_memory, odd) (λ j a b. refl)
      | inl even ↦
          rw (free_process_memory, even, spinlock_acquire-free unlocked)
            (elim (Bool-cases (may_free pid (pool_offset base ptr / page_size) m)) [
              | inl allowed ↦ rw allowed (λ j not_pid not_kernel.
                  update_other m.page_table (pool_offset base ptr / page_size) j free_frame (λ e.
                    elim (may_free-owner pid (pool_offset base ptr / page_size) m allowed) [
                      | inl own ↦ not_pid (rw (← e) own)
                      | inr own ↦ not_kernel (rw (← e) own)
                    ]))
              | inr refused ↦ rw refused (λ j a b. refl)
            ])
    ]

page_pointer :
    (base idx : ℕ)
    → base + total_pages * page_size ≤ 2 ^ 32
    → idx < total_pages
    → (pool_offset base (base + idx * page_size) % page_size ≡ 0)
      × (pool_offset base (base + idx * page_size) / page_size ≡ idx)
page_pointer base idx fits lt = omega arith

may_free-own :
    (pid : ℤ) (idx : ℕ) (m : Pool)
    → idx < total_pages
    → m.page_table idx ≡ record { allocated = true; owner_pid = pid }
    → may_free pid idx m ≡ true
unfolding may_free
may_free-own pid idx m lt own =
    ground (arith, ap (λ f. f.allocated) own, ap (λ f. f.owner_pid) own, eqb_ℤ_refl pid)

free_process_memory-own :
    (base : ℕ) (pid : ℤ) (idx : ℕ) (m : Pool)
    → base + total_pages * page_size ≤ 2 ^ 32
    → idx < total_pages
    → m.mem_lock ≡ false
    → m.page_table idx ≡ record { allocated = true; owner_pid = pid }
    → free_process_memory base pid (base + idx * page_size) m
      ≡ done (record m { mem_lock = false; page_table = update m.page_table idx free_frame })
unfolding free_process_memory
free_process_memory-own base pid idx m fits lt unlocked own =
    let (aligned, page) = page_pointer base idx fits lt in
    rw (
      free_process_memory,
      aligned,
      spinlock_acquire-free unlocked,
      page,
      may_free-own pid idx m lt own,
    )

-- A page that allocate_process_memory returned can be given back: with the pool inside the address
-- space, free_process_memory by the owner frees that page, and exactly the pages that were in use
-- before the allocation are in use again.
pub free-allocate_process_memory :
    (base : ℕ) (pid : ℤ) (size : ℕ) (m : Pool)
    → IsPool m
    → size ≤ page_size
    → base + total_pages * page_size ≤ 2 ^ 32
    → {m' : Pool} {ptr : ℕ} → allocate_process_memory base pid size m ≡ done (m', some ptr)
    → Returns
        (λ m''. (j : ℕ) → (m''.page_table j).allocated ≡ (m.page_table j).allocated)
        (free_process_memory base pid ptr m')
free-allocate_process_memory base pid size m v small fits {m'} {ptr} h =
    let (idx, k, at, lt, _, _, free, _, table, _, lock) =
      subst (Returns (PageResult base pid m)) h
        (allocate_process_memory-PageResult base pid size m v small) in
    let own = ap (λ f. f idx) table ∙ update_same m.page_table idx _ in
    rw (at, free_process_memory-own base pid idx m' fits lt lock own)
      (λ j. elim (ℕ_discrete idx j) [
        | yes e ↦ rw (← e, update_same m'.page_table idx free_frame) (sym free)
        | no ne ↦ rw (
          update_other m'.page_table idx j free_frame ne,
          table,
          update_other m.page_table idx j _ ne,
        )
      ])
