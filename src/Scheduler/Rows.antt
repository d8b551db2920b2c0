-- ===== src/Scheduler/Rows.antt =====
-- The three rows of `queues` in src/scheduler.c: how many entries they hold, and of which task.
use native.Mathlib.Decide.{ℕ_discrete}
use sky_net_os.Scheduler.State.{max_tasks, ready, Tcb}
use sky_net_os.Base.{
  ℕ, inl, inr, ap, length, length-append, arith, update, List, ◌+◌, ◌≤◌, ◌<◌, ◌≡◌, ◌⊎◌, ◌∷◌, ◌++◌,
  ◌==◌, [], if◌then◌else◌, update_other, update_same,
}

unfoldable pub count : ℕ → List ℕ → ℕ
count p [] = 0
count p (x ∷ xs) = count p xs + (if x == p then 1 else 0)

abbrev pub Rows : Type 0
Rows = ℕ → List ℕ

abbrev pub queued : Rows → ℕ
queued rows = length (rows 0) + length (rows 1) + length (rows 2)

-- How often `p` stands in the queues.
abbrev pub waiting : Rows → ℕ → ℕ
waiting rows p = count p (rows 0) + count p (rows 1) + count p (rows 2)

abbrev pub push : ℕ → ℕ → Rows → Rows
push q p rows = update rows q (rows q ++ p ∷ [])

pub count-append : (p : ℕ) (xs ys : List ℕ) → count p (xs ++ ys) ≡ count p xs + count p ys
unfolding count
count-append p [] ys = omega arith
count-append p (x ∷ xs) ys = omega (arith, count-append p xs ys)

count_one : (p x : ℕ) → count p (x ∷ []) ≡ (if x == p then 1 else 0)
unfolding count
count_one p x = omega arith

level_cases : (q : ℕ) → q < 3 → (q ≡ 0) ⊎ ((q ≡ 1) ⊎ (q ≡ 2))
level_cases q h = omega arith

pub row_le : (q : ℕ) (rows : Rows) → q < 3 → length (rows q) ≤ queued rows
row_le q rows h = elim (level_cases q h) [
  | inl e ↦ rw e (omega arith)
  | inr (inl e) ↦ rw e (omega arith)
  | inr (inr e) ↦ rw e (omega arith)
]

pub queued-push : (q p : ℕ) (rows : Rows) → q < 3 → queued (push q p rows) ≡ queued rows + 1
queued-push q p rows h = elim (level_cases q h) [
  | inl e ↦ rw e (omega (arith, length-append (rows 0) (p ∷ [])))
  | inr (inl e) ↦ rw e (omega (arith, length-append (rows 1) (p ∷ [])))
  | inr (inr e) ↦ rw e (omega (arith, length-append (rows 2) (p ∷ [])))
]

pub waiting-push :
    (q p : ℕ) (rows : Rows) (j : ℕ)
    → q < 3
    → waiting (push q p rows) j ≡ waiting rows j + (if p == j then 1 else 0)
waiting-push q p rows j h = elim (level_cases q h) [
  | inl e ↦ rw e (omega (arith, count-append j (rows 0) (p ∷ []), count_one j p))
  | inr (inl e) ↦ rw e (omega (arith, count-append j (rows 1) (p ∷ []), count_one j p))
  | inr (inr e) ↦ rw e (omega (arith, count-append j (rows 2) (p ∷ []), count_one j p))
]

module _ (q p : ℕ) (rest : List ℕ) (rows : Rows) (h : q < 3) (head : rows q ≡ p ∷ rest) where
  pub queued_pop : queued (update rows q rest) + 1 ≡ queued rows
  queued_pop = elim (level_cases q h) [
    | inl e ↦ rw e (omega (arith, ap length (rw e at head)))
    | inr (inl e) ↦ rw e (omega (arith, ap length (rw e at head)))
    | inr (inr e) ↦ rw e (omega (arith, ap length (rw e at head)))
  ]

  pub waiting_pop :
      (j : ℕ) → waiting (update rows q rest) j + (if p == j then 1 else 0) ≡ waiting rows j
  unfolding count
  waiting_pop j = elim (level_cases q h) [
    | inl e ↦ rw e (omega (arith, ap (count j) (rw e at head)))
    | inr (inl e) ↦ rw e (omega (arith, ap (count j) (rw e at head)))
    | inr (inr e) ↦ rw e (omega (arith, ap (count j) (rw e at head)))
  ]

-- A queue holds indices of tasks that are ready, and no task stands twice in the queues.
abbrev pub EntriesReady : Rows → (ℕ → Tcb) → Type 0
EntriesReady rows tasks = (p : ℕ) → 0 < waiting rows p → (p < max_tasks) × ((tasks p).state ≡ ready)

abbrev pub OnceEach : Rows → Type 0
OnceEach rows = (p : ℕ) → waiting rows p ≤ 1

module _ (q p : ℕ) (rows : Rows) (h : q < 3) where
  pub EntriesReady-push :
      (tasks : ℕ → Tcb) (t : Tcb)
      → EntriesReady rows tasks
      → p < max_tasks
      → t.state ≡ ready
      → EntriesReady (push q p rows) (update tasks p t)
  EntriesReady-push tasks t old lt rdy j more = elim (ℕ_discrete p j) [
    | yes e ↦ rw (← e, update_same tasks p t) (lt, rdy)
    | no ne ↦ rw (update_other tasks p j t ne) (old j (ground (arith, waiting-push q p rows j h)))
  ]

  pub OnceEach-push : OnceEach rows → waiting rows p ≡ 0 → OnceEach (push q p rows)
  OnceEach-push old out j = elim (ℕ_discrete p j) [
    | yes e ↦ ground (arith, waiting-push q p rows j h, ap (waiting rows) e)
    | no ne ↦ ground (arith, waiting-push q p rows j h, old j)
  ]

module _ (q p : ℕ) (rest : List ℕ) (rows : Rows) (h : q < 3) (head : rows q ≡ p ∷ rest) where
  -- The task at the head was waiting, and no longer is.
  pub waiting_head : OnceEach rows → (waiting rows p ≡ 1) × (waiting (update rows q rest) p ≡ 0)
  waiting_head old = ground (arith, waiting_pop q p rest rows h head p, old p)

  pub EntriesReady-pop :
      (tasks : ℕ → Tcb) (t : Tcb)
      → EntriesReady rows tasks
      → OnceEach rows
      → EntriesReady (update rows q rest) (update tasks p t)
  EntriesReady-pop tasks t old once j more = elim (ℕ_discrete p j) [
    | yes e ↦ absurd (omega (arith, (waiting_head once).1, rw (← e) at more))
    | no ne ↦
        rw (update_other tasks p j t ne)
          (old j (ground (arith, waiting_pop q p rest rows h head j)))
  ]

  pub OnceEach-pop : OnceEach rows → OnceEach (update rows q rest)
  OnceEach-pop old j = ground (arith, waiting_pop q p rest rows h head j, old j)
