-- ===== src/Scheduler/Rounds.antt =====
-- What a run of the loops of `is_safe_state` (src/scheduler.c) keeps, and when it gets stuck.
use native.Mathlib.Decide.{ℕ_discrete}
use sky_net_os.Base.{
  ℕ, ◌<◌, ◌≡◌, Bool, true, false, arith, total, total-update, Bool-cases, suc, inl, ◌+◌, inr,
  total-zero, ◌≤◌, ◌⊎◌, ◌∙◌, zero, refl,
}
use sky_net_os.Scheduler.State.{max_tasks, ◌≤r◌, Tcb}
use sky_net_os.Scheduler.Resources.{leb_resources-le}
use sky_net_os.Scheduler.Safe.{SafeFrom, next, NonNegative, SafeFrom-finish}
use sky_net_os.Scheduler.Banker.{Scan, can_finish, try_finish, pass, all_finished}

abbrev pub open_weight : Bool → ℕ
open_weight true = 0
open_weight false = 1

-- How many tasks are not finished.
abbrev pub unfinished : (ℕ → Bool) → ℕ
unfinished finish = total open_weight max_tasks finish

pub all_finished-all :
    (n : ℕ) (f : ℕ → Bool) → all_finished n f ≡ true → (i : ℕ) → i < n → f i ≡ true
unfolding all_finished
all_finished-all zero f h i lt = absurd (omega arith)
all_finished-all (suc n) f h i lt = elim (ℕ_discrete i n) [
  | yes e ↦ rw e (ground arith)
  | no ne ↦ all_finished-all n f (ground arith) i (omega arith)
]

pub all-all_finished :
    (n : ℕ) (f : ℕ → Bool) → ((i : ℕ) → i < n → f i ≡ true) → all_finished n f ≡ true
unfolding all_finished
all-all_finished zero f h = refl
all-all_finished (suc n) f h =
    ground (arith, all-all_finished n f (λ i lt. h i (omega arith)), h n (omega arith))

pub unfinished-zero : (f : ℕ → Bool) → unfinished f ≡ 0 → (i : ℕ) → i < max_tasks → f i ≡ true
unfinished-zero f h i lt = ground (arith, total-zero open_weight max_tasks f h i lt)

module _ (tasks : ℕ → Tcb) where
  abbrev pub IsSafeScan : Scan → Type 0
  IsSafeScan c = SafeFrom tasks c.work c.finish

  can_finish-fits :
      (i : ℕ) (c : Scan)
      → can_finish tasks i c ≡ true
      → (c.finish i ≡ false) × ((tasks i).need ≤r c.work)
  unfolding can_finish
  can_finish-fits i c e = (ground arith, leb_resources-le (tasks i).need c.work (ground arith))

  -- A task that the loop finishes can finish, so what is safe after it was safe before.
  try_finish_sound :
      (i : ℕ) (c : Scan) → i < max_tasks → IsSafeScan (try_finish tasks i c) → IsSafeScan c
  unfolding try_finish
  try_finish_sound i c lt safe = elim (Bool-cases (can_finish tasks i c)) [
    | inl e ↦ let (open_i, fits) = can_finish-fits i c e in next i lt open_i fits (rw e at safe)
    | inr e ↦ rw e at safe
  ]

  try_finish_complete :
      NonNegative tasks
      → (i : ℕ) (c : Scan) → i < max_tasks
      → IsSafeScan c
      → IsSafeScan (try_finish tasks i c)
  unfolding try_finish
  try_finish_complete held i c lt safe = elim (Bool-cases (can_finish tasks i c)) [
    | inl e ↦
        let (open_i, fits) = can_finish-fits i c e in
        rw e (SafeFrom-finish held safe i lt open_i fits)
    | inr e ↦ rw e safe
  ]

  try_finish-count :
      (i : ℕ) (c : Scan)
      → i < max_tasks
      → (try_finish tasks i c).count + unfinished (try_finish tasks i c).finish
        ≡ c.count + unfinished c.finish
  unfolding try_finish
  try_finish-count i c lt = elim (Bool-cases (can_finish tasks i c)) [
    | inl e ↦
        let (open_i, fits) = can_finish-fits i c e in
        rw e (ground (arith, total-update open_weight max_tasks c.finish i true lt))
    | inr e ↦ rw e
  ]

  pub pass_sound :
      (n i : ℕ) (c : Scan) → i + n ≤ max_tasks → IsSafeScan (pass tasks n i c) → IsSafeScan c
  unfolding pass
  pass_sound zero i c lt safe = safe
  pass_sound (suc n) i c lt safe =
      try_finish_sound i c (omega arith)
        (pass_sound n (i + 1) (try_finish tasks i c) (omega arith) safe)

  pub pass_complete :
      NonNegative tasks
      → (n i : ℕ) (c : Scan) → i + n ≤ max_tasks
      → IsSafeScan c
      → IsSafeScan (pass tasks n i c)
  unfolding pass
  pass_complete held zero i c lt safe = safe
  pass_complete held (suc n) i c lt safe =
      pass_complete held n (i + 1) (try_finish tasks i c) (omega arith)
        (try_finish_complete held i c (omega arith) safe)

  pub pass-count :
      (n i : ℕ) (c : Scan)
      → i + n ≤ max_tasks
      → (pass tasks n i c).count + unfinished (pass tasks n i c).finish
        ≡ c.count + unfinished c.finish
  unfolding pass
  pass-count zero i c lt = refl
  pass-count (suc n) i c lt =
      pass-count n (i + 1) (try_finish tasks i c) (omega arith) ∙ try_finish-count i c (omega arith)

  try_finish_cases :
      (i : ℕ) (c : Scan)
      → ((try_finish tasks i c ≡ c) × (can_finish tasks i c ≡ false))
        ⊎ (((try_finish tasks i c).found ≡ true) × ((try_finish tasks i c).count ≡ c.count + 1))
  unfolding try_finish
  try_finish_cases i c = elim (Bool-cases (can_finish tasks i c)) [
    | inl e ↦ rw e (inr (refl, refl))
    | inr e ↦ inl (rw e, e)
  ]

  -- Once something is found, it stays found; and `count` never falls.
  pass-found :
      (n i : ℕ) (c : Scan)
      → (c.found ≡ true → (pass tasks n i c).found ≡ true) × (c.count ≤ (pass tasks n i c).count)
  unfolding pass
  pass-found zero i c = (λ h. h, omega arith)
  pass-found (suc n) i c = elim (try_finish_cases i c) [
    | inl (same, _) ↦ rw (pass, same) (pass-found n (i + 1) c)
    | inr (found, more) ↦
        let ih = pass-found n (i + 1) (try_finish tasks i c) in (λ _. ih.0 found, omega arith)
  ]

  -- A run that finds nothing changes nothing, and no task that is left can finish.
  pub pass-stuck :
      (n i : ℕ) (c : Scan)
      → (pass tasks n i c).found ≡ false
      → (pass tasks n i c ≡ c) × ((j : ℕ) → i ≤ j → j < i + n → can_finish tasks j c ≡ false)
  unfolding pass
  pass-stuck zero i c h = (refl, λ j a b. absurd (omega arith))
  pass-stuck (suc n) i c h = elim (try_finish_cases i c) [
    | inl (same, closed) ↦
        let ih = pass-stuck n (i + 1) (try_finish tasks i c) h in
        (
          ih.0 ∙ same,
          λ j a b. elim (ℕ_discrete i j) [
            | yes e ↦ rw (← e) closed
            | no ne ↦ rw same at (ih.1 j (omega arith) (omega arith))
          ],
        )
    | inr (found, more) ↦ absurd (cc ((pass-found n (i + 1) (try_finish tasks i c)).0 found))
  ]

  pub pass-more :
      (n i : ℕ) (c : Scan)
      → c.found ≡ false
      → (pass tasks n i c).found ≡ true
      → c.count < (pass tasks n i c).count
  unfolding pass
  pass-more zero i c h k = cc
  pass-more (suc n) i c h k = elim (try_finish_cases i c) [
    | inl (same, closed) ↦ rw (pass, same) (pass-more n (i + 1) c h (rw (pass, same) at k))
    | inr (found, more) ↦ omega (arith, (pass-found n (i + 1) (try_finish tasks i c)).1)
  ]
