-- ===== src/Scheduler/Conservation.antt =====
-- Resources are neither lost nor made by the functions of src/scheduler.c: what is available and
-- what the tasks hold add up to the same.
use sky_net_os.Base.{
  zero, suc, refl, ap, pos, update_same, arith, update, int_laws, ℕ, ℤ, ◌≤◌, ◌<◌, ◌≡◌, ◌+ℤ◌, inl,
  inr, update_other, Bool-cases, Option-cases, parts_of_eq,
}
use native.Mathlib.Decide.{ℕ_discrete}
use sky_net_os.Scheduler.State.{
  max_tasks, Resources, resources, no_resources, ◌+r◌, ◌-r◌, Tcb, Sched, live_index,
}
use sky_net_os.Scheduler.Resources.{resources_path}
use sky_net_os.Scheduler.Tasks.{ended, task_terminate}
use sky_net_os.Scheduler.Banker.{
  give, take_back, allocate, rollback, is_safe_state, may_request, request_resources,
  release_resources,
}
use sky_net_os.Scheduler.Requests.{live_index-some, rollback-allocate}

module _ (w : Tcb → ℤ) where
  pub sum : ℕ → (ℕ → Tcb) → ℤ
  sum zero f = pos 0
  sum (suc n) f = sum n f +ℤ w (f n)

  sum-update_of_le :
      (n : ℕ) (f : ℕ → Tcb) (i : ℕ) (t : Tcb) → n ≤ i → sum n (update f i t) ≡ sum n f
  unfolding sum
  sum-update_of_le zero f i t h = refl
  sum-update_of_le (suc n) f i t h = ground (arith, sum-update_of_le n f i t)

  pub sum-update :
      (n : ℕ) (f : ℕ → Tcb) (i : ℕ) (t : Tcb)
      → i < n
      → sum n (update f i t) +ℤ w (f i) ≡ sum n f +ℤ w t
  unfolding sum
  sum-update zero f i t h = absurd (omega arith)
  sum-update (suc n) f i t h = elim (ℕ_discrete i n) [
    | yes e ↦ rw (e, update_same f n t, sum-update_of_le n f n t (omega arith)) (omega int_laws)
    | no ne ↦ omega (
      int_laws,
      parts_of_eq (sum-update n f i t (omega arith)),
      parts_of_eq (ap w (update_other f i n t ne)),
    )
  ]

  -- One resource moves between the pool and a task.
  sum_move :
      (f : ℕ → Tcb) (p : ℕ) (t : Tcb) (a b : ℤ)
      → p < max_tasks
      → a +ℤ w t ≡ b +ℤ w (f p)
      → a +ℤ sum max_tasks (update f p t) ≡ b +ℤ sum max_tasks f
  sum_move f p t a b lt h =
      omega (int_laws, parts_of_eq h, parts_of_eq (sum-update max_tasks f p t lt))

-- What all tasks hold.
abbrev pub held : (ℕ → Tcb) → Resources
held tasks =
    resources (sum (λ t. t.allocation.cpu) max_tasks tasks)
      (sum (λ t. t.allocation.memory) max_tasks tasks) (sum (λ t. t.allocation.io) max_tasks tasks)

-- What the system has, handed out or not.
abbrev pub total_resources : Sched → Resources
total_resources s = s.available +r held s.tasks

-- A move of resources between the pool and one task keeps the total.
total-move :
    (s : Sched) (p : ℕ) (a : Resources) (t : Tcb)
    → p < max_tasks
    → a +r t.allocation ≡ s.available +r (s.tasks p).allocation
    → a +r held (update s.tasks p t) ≡ total_resources s
unfolding ◌+r◌
total-move s p a t lt h =
    resources_path
      (sum_move (λ t. t.allocation.cpu) s.tasks p t a.cpu s.available.cpu lt (ap (λ r. r.cpu) h))
      (sum_move (λ t. t.allocation.memory) s.tasks p t a.memory s.available.memory lt
        (ap (λ r. r.memory) h))
      (sum_move (λ t. t.allocation.io) s.tasks p t a.io s.available.io lt (ap (λ r. r.io) h))

give_balance : (a b r : Resources) → a -r r +r (b +r r) ≡ a +r b
unfolding ◌+r◌ ◌-r◌
give_balance a b r = resources_path (omega int_laws) (omega int_laws) (omega int_laws)

take_back_balance : (a b r : Resources) → a +r r +r (b -r r) ≡ a +r b
unfolding ◌+r◌ ◌-r◌
take_back_balance a b r = resources_path (omega int_laws) (omega int_laws) (omega int_laws)

end_balance : (a b : Resources) → a +r b +r no_resources ≡ a +r b
unfolding ◌+r◌
end_balance a b = resources_path (omega int_laws) (omega int_laws) (omega int_laws)

total-allocate :
    (request : Resources) (p : ℕ) (s : Sched)
    → p < max_tasks
    → total_resources (allocate request p s) ≡ total_resources s
unfolding allocate give
total-allocate request p s lt =
    total-move s p (s.available -r request) _ lt
      (give_balance s.available (s.tasks p).allocation request)

total-rollback :
    (request : Resources) (p : ℕ) (s : Sched)
    → p < max_tasks
    → total_resources (rollback request p s) ≡ total_resources s
unfolding rollback take_back
total-rollback request p s lt =
    total-move s p (s.available +r request) _ lt
      (take_back_balance s.available (s.tasks p).allocation request)

-- request_resources keeps the total of available and held resources, whether it grants or not.
pub request_resources-total :
    (pid : ℤ) (request : Resources) (s : Sched)
    → total_resources (request_resources pid request s).0 ≡ total_resources s
unfolding request_resources
request_resources-total pid request s = elim (Option-cases (live_index pid s)) [
  | inl none_live ↦ rw (request_resources, none_live)
  | inr (p, live) ↦
      rw (request_resources, live)
        (elim (Bool-cases (may_request request p s)) [
          | inl m ↦ rw m (elim (Bool-cases (is_safe_state (allocate request p s))) [
            | inl q ↦ rw q (total-allocate request p s (live_index-some pid s live).0)
            | inr q ↦ rw (q, rollback-allocate request p s)
          ])
          | inr m ↦ rw m
        ])
]

-- release_resources keeps the total of available and held resources.
pub release_resources-total :
    (pid : ℤ) (release : Resources) (s : Sched)
    → total_resources (release_resources pid release s) ≡ total_resources s
unfolding release_resources
release_resources-total pid release s = elim (Option-cases (live_index pid s)) [
  | inl none_live ↦ rw (release_resources, none_live)
  | inr (p, live) ↦
      rw (release_resources, live) (total-rollback _ p s (live_index-some pid s live).0)
]

-- A task that is terminated hands back all that it held.
pub task_terminate-total :
    (pid : ℤ) (s : Sched) → total_resources (task_terminate pid s) ≡ total_resources s
unfolding task_terminate ended
task_terminate-total pid s = elim (Option-cases (live_index pid s)) [
  | inl none_live ↦ rw (task_terminate, none_live)
  | inr (p, live) ↦
      rw (task_terminate, live)
        (total-move s p (s.available +r (s.tasks p).allocation) (ended (s.tasks p))
          (live_index-some pid s live).0 (end_balance s.available (s.tasks p).allocation))
]
