-- ===== src/Scheduler/Safe.antt =====
-- Safe states, independent of the code: from the resources `work`, with the tasks in `finish` done,
-- the others can end one after another, each given all that it may still ask for.
use native.Mathlib.Decide.{ℕ_discrete}
use sky_net_os.Base.{ℕ, ◌<◌, ◌≡◌, Bool, true, false, arith, update, update_comm, subst, sym}
use sky_net_os.Scheduler.State.{max_tasks, Resources, no_resources, ◌+r◌, ◌≤r◌, Tcb}
use sky_net_os.Scheduler.Resources.{+r-right_comm, +r-le, ≤r_trans}

pub data SafeFrom (tasks : ℕ → Tcb) : Resources → (ℕ → Bool) → Type 0 where
  all_done :
      {work : Resources} {finish : ℕ → Bool}
      → ((i : ℕ) → i < max_tasks → finish i ≡ true)
      → SafeFrom tasks work finish
  next :
      {work : Resources} {finish : ℕ → Bool} (i : ℕ)
      → i < max_tasks
      → finish i ≡ false
      → (tasks i).need ≤r work
      → SafeFrom tasks (work +r (tasks i).allocation) (update finish i true)
      → SafeFrom tasks work finish

abbrev pub NonNegative : (ℕ → Tcb) → Type 0
NonNegative tasks = (i : ℕ) → no_resources ≤r (tasks i).allocation

module _ {tasks : ℕ → Tcb} (held : NonNegative tasks) where
  -- Any task that can finish may finish first: the order of a safe sequence does not matter.
  pub SafeFrom-finish :
      {work : Resources} {finish : ℕ → Bool}
      → SafeFrom tasks work finish
      → (i : ℕ) → i < max_tasks
      → finish i ≡ false
      → (tasks i).need ≤r work
      → SafeFrom tasks (work +r (tasks i).allocation) (update finish i true)
  SafeFrom-finish (all_done all) i lt open_i fits = absurd (ground (arith, all i lt))
  SafeFrom-finish {work} {finish} (next j lt_j open_j fits_j rest) i lt open_i fits =
      elim (ℕ_discrete i j) [
        | yes e ↦ rw e rest
        | no ne ↦
            next j lt_j (ground arith)
              (≤r_trans (tasks j).need work (work +r (tasks i).allocation) fits_j
                (+r-le work (tasks i).allocation (held i)))
              (subst (λ w. SafeFrom tasks w (update (update finish i true) j true))
                (+r-right_comm work (tasks j).allocation (tasks i).allocation)
                (subst
                  (λ f. SafeFrom tasks (work +r (tasks j).allocation +r (tasks i).allocation) f)
                  (update_comm finish true true (λ e. ne (sym e)))
                  (SafeFrom-finish rest i lt (ground arith) (
                    ≤r_trans (tasks i).need work (work +r (tasks j).allocation) fits
                      (+r-le work (tasks j).allocation (held j))))))
      ]
