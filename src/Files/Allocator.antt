-- ===== src/Files/Allocator.antt =====
-- What the file system takes from `malloc` and `free` of src/memory_management.c.
use sky_net_os.Base.{none, some, Returns, Outcome, ℕ, Option, ◌+◌, ◌==◌, if◌then◌else◌}

-- 1 at `p`, 0 elsewhere.
abbrev pub one_at : ℕ → ℕ → ℕ
one_at p q = if p == q then 1 else 0

-- The operations, and who may call `free`: `Owned s c` says that in the store `s` the pointer `p` is
-- allocated and handed out `c p` times (once or not at all).
pub record Allocator : Type 1 where
  pub Store : Type 0
  pub Owned : Store → (ℕ → ℕ) → Type 0
  pub malloc : ℕ → Store → Outcome (Store × Option ℕ)
  pub free : ℕ → Store → Outcome Store
  pub malloc_law :
      (n : ℕ) (s : Store) (c : ℕ → ℕ)
      → Owned s c
      → Returns
          (λ r. elim r.1 [ none ↦ Owned r.0 c | some p ↦ Owned r.0 (λ q. one_at p q + c q) ])
          (malloc n s)
  pub free_law :
      (p : ℕ) (s : Store) (c : ℕ → ℕ)
      → Owned s (λ q. one_at p q + c q)
      → Returns (λ s'. Owned s' c) (free p s)
