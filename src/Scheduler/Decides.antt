-- ===== src/Scheduler/Decides.antt =====
-- `is_safe_state` (src/scheduler.c) decides whether a safe sequence exists.
use sky_net_os.Base.{
  zero, suc, true, false, pos, not, arith, ℕ, ℤ, Bool, ◌+◌, ◌≤◌, ◌<◌, ◌≡◌, ◌&&◌, refl, inl, inr, ap,
  Bool-cases, ltb_ℤ, pos_part, ◌↔◌, ◌∙◌, sym, subst, if-true, if-false,
}
use sky_net_os.Scheduler.State.{max_tasks, is_terminated, leb_resources, Tcb, Sched, Resources}
use sky_net_os.Scheduler.Resources.{le-leb_resources}
use sky_net_os.Scheduler.Safe.{SafeFrom, all_done, next, NonNegative}
use sky_net_os.Scheduler.Banker.{Scan, can_finish, round, rounds, start_scan, is_safe_state}
use sky_net_os.Scheduler.Rounds.{
  IsSafeScan, unfinished, unfinished-zero, pass_sound, pass_complete, pass-count, pass-stuck,
  pass-more, all_finished-all, all-all_finished,
}

-- The tasks that are not terminated.
abbrev pub live_tasks : (ℕ → Tcb) → ℕ
live_tasks tasks = unfinished (λ i. is_terminated (tasks i).state)

-- Where nothing can finish, a safe scan has finished everything.
SafeFrom-stuck :
    {tasks : ℕ → Tcb} {w : Resources} {f : ℕ → Bool}
    → SafeFrom tasks w f
    → ((j : ℕ) → j < max_tasks → (not (f j) && leb_resources (tasks j).need w) ≡ false)
    → (i : ℕ) → i < max_tasks
    → f i ≡ true
SafeFrom-stuck (all_done all) none_can i lt = all i lt
SafeFrom-stuck {tasks} {w} (next j lt_j open_j fits rest) none_can i lt =
    absurd (ground (arith, none_can j lt_j, le-leb_resources (tasks j).need w fits))

module _ (tasks : ℕ → Tcb) where
  round_stuck :
      (c : Scan)
      → (round tasks c).found ≡ false
      → IsSafeScan tasks (round tasks c)
      → (i : ℕ) → i < max_tasks
      → (round tasks c).finish i ≡ true
  unfolding can_finish
  round_stuck c h safe =
      let (same, none_can) = pass-stuck tasks max_tasks 0 (record c { found = false }) h in
      SafeFrom-stuck safe (λ j lt. rw same (none_can j (omega arith) (omega arith)))

  -- The three ways in which a round of the `while` loop goes on.
  rounds_stop :
      (task_count : ℤ) (c : Scan) (fuel : ℕ)
      → ltb_ℤ (pos c.count) task_count ≡ false
      → rounds tasks task_count (suc fuel) c ≡ c
  unfolding rounds
  rounds_stop task_count c fuel stop = if-false _ c stop

  rounds_last :
      (task_count : ℤ) (c : Scan) (fuel : ℕ)
      → ltb_ℤ (pos c.count) task_count ≡ true
      → (round tasks c).found ≡ false
      → rounds tasks task_count (suc fuel) c ≡ round tasks c
  unfolding rounds
  rounds_last task_count c fuel go none_found =
      if-true _ c go ∙ if-false _ (round tasks c) none_found

  rounds_more :
      (task_count : ℤ) (c : Scan) (fuel : ℕ)
      → ltb_ℤ (pos c.count) task_count ≡ true
      → (round tasks c).found ≡ true
      → rounds tasks task_count (suc fuel) c ≡ rounds tasks task_count fuel (round tasks c)
  unfolding rounds
  rounds_more task_count c fuel go found = if-true _ c go ∙ if-true _ (round tasks c) found

  rounds_sound :
      (task_count : ℤ) (fuel : ℕ) (c : Scan)
      → IsSafeScan tasks (rounds tasks task_count fuel c)
      → IsSafeScan tasks c
  rounds_sound task_count zero c safe = unfold rounds in safe
  rounds_sound task_count (suc fuel) c safe =
      let back = pass_sound tasks max_tasks 0 (record c { found = false }) (omega arith) in
      elim (Bool-cases (ltb_ℤ (pos c.count) task_count)) [
        | inl go ↦ elim (Bool-cases (round tasks c).found) [
          | inl found ↦ back (
              rounds_sound task_count fuel (round tasks c)
                (subst (IsSafeScan tasks) (rounds_more task_count c fuel go found) safe))
          | inr none_found ↦
              back (subst (IsSafeScan tasks) (rounds_last task_count c fuel go none_found) safe)
        ]
        | inr stop ↦ subst (IsSafeScan tasks) (rounds_stop task_count c fuel stop) safe
      ]

  abbrev IsDone : Scan → Type 0
  IsDone c = (i : ℕ) → i < max_tasks → c.finish i ≡ true

  rounds_complete :
      NonNegative tasks
      → (fuel : ℕ) (c : Scan) (task_count : ℤ) → unfinished c.finish ≤ fuel
      → task_count ≡ pos (c.count + unfinished c.finish)
      → IsSafeScan tasks c
      → IsDone (rounds tasks task_count fuel c)
  rounds_complete held zero c task_count enough counted safe =
      unfold rounds in unfinished-zero c.finish (omega arith)
  rounds_complete held (suc fuel) c task_count enough counted safe =
      let fresh = record c { found = false } in
      let safe' = pass_complete tasks held max_tasks 0 fresh (omega arith) safe in
      let count' = pass-count tasks max_tasks 0 fresh (omega arith) in
      elim (Bool-cases (ltb_ℤ (pos c.count) task_count)) [
        | inl go ↦ elim (Bool-cases (round tasks c).found) [
          | inl found ↦ subst IsDone (sym (rounds_more task_count c fuel go found)) (
              rounds_complete held fuel (round tasks c) task_count
                (omega (arith, pass-more tasks max_tasks 0 fresh refl found))
                (counted ∙ ap pos (sym count')) safe')
          | inr none_found ↦
              subst IsDone (sym (rounds_last task_count c fuel go none_found))
                (round_stuck c none_found safe')
        ]
        | inr stop ↦
            subst IsDone (sym (rounds_stop task_count c fuel stop))
              (unfinished-zero c.finish (none_left task_count c.count _ stop counted))
      ]
    where
      none_left : (t : ℤ) (k u : ℕ) → ltb_ℤ (pos k) t ≡ false → t ≡ pos (k + u) → u ≡ 0
      none_left t k u stop counted = ground arith

-- is_safe_state is true exactly when a safe sequence exists, if allocations are not negative and `task_count` counts the live tasks.
pub is_safe_state-SafeFrom :
    (s : Sched)
    → NonNegative s.tasks
    → s.task_count ≡ pos (live_tasks s.tasks)
    → (is_safe_state s ≡ true) ↔ SafeFrom s.tasks s.available (λ i. is_terminated (s.tasks i).state)
unfolding is_safe_state
is_safe_state-SafeFrom s held counted = (
  λ h.
      rounds_sound s.tasks s.task_count (pos_part s.task_count) (start_scan s)
        (all_done (all_finished-all max_tasks _ h)),
  λ safe. all-all_finished max_tasks _ (
      rounds_complete s.tasks held (pos_part s.task_count) (start_scan s) s.task_count
        (rw counted (omega arith)) (counted ∙ ap pos (omega arith)) safe),
)
