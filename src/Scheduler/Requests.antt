-- ===== src/Scheduler/Requests.antt =====
-- `request_resources` (src/scheduler.c): when it grants, and what a refusal leaves.
use sky_net_os.Scheduler.Decides.{is_safe_state-SafeFrom, live_tasks}
use sky_net_os.Base.{
  false, arith, ℕ, ℤ, ◌≡◌, inl, inr, update_undo, Option-cases, true, some, pos, negsuc, update,
  Bool, ◌<◌, ◌↔◌, refl, update_all, update_view, int_laws, Bool-cases, ap, subst,
}
use sky_net_os.Scheduler.State.{
  is_terminated, Resources, Tcb, Sched, live_index, pid_index, max_tasks, ◌+r◌, no_resources, ◌≤r◌,
}
use sky_net_os.Scheduler.Resources.{
  sub_add_cancel, add_sub_cancel, leb_resources-le, le-leb_resources,
}
use sky_net_os.Scheduler.Safe.{SafeFrom, NonNegative}
use sky_net_os.Scheduler.Banker.{
  give, take_back, allocate, rollback, request_resources, may_request, is_safe_state,
}

-- The tasks that are not terminated can all end, in some order.
abbrev pub IsSafe : Sched → Type 0
IsSafe s = SafeFrom s.tasks s.available (λ i. is_terminated (s.tasks i).state)

sched_path :
    (s : Sched) {a b : Resources} {f g : ℕ → Tcb}
    → a ≡ b
    → f ≡ g
    → ◌≡◌ {A = Sched}
        (record s { available = a; tasks = f })
        (record s { available = b; tasks = g })
sched_path s p q = λ i. record s { available = p i; tasks = q i }

take_back-give : (request : Resources) (t : Tcb) → take_back request (give request t) ≡ t
unfolding take_back give
take_back-give request t = λ i. record t {
  allocation = add_sub_cancel t.allocation request i;
  need = sub_add_cancel t.need request i;
}

pub rollback-allocate :
    (request : Resources) (p : ℕ) (s : Sched) → rollback request p (allocate request p s) ≡ s
unfolding rollback allocate
rollback-allocate request p s = sched_path s (sub_add_cancel s.available request) (
    update_undo s.tasks p (give request (s.tasks p)) (take_back request)
      (take_back-give request (s.tasks p)))

pub live_index-some :
    (pid : ℤ) (s : Sched) {p : ℕ}
    → live_index pid s ≡ some p
    → (p < max_tasks) × (is_terminated (s.tasks p).state ≡ false) × (pid ≡ pos p)
unfolding live_index pid_index
live_index-some (pos n) s e = ground arith
live_index-some (negsuc n) s e = cc

pub live_index-live :
    (p : ℕ) (s : Sched)
    → p < max_tasks
    → is_terminated (s.tasks p).state ≡ false
    → live_index (pos p) s ≡ some p
unfolding live_index pid_index
live_index-live p s lt alive = ground arith

same_states :
    (request : Resources) (p : ℕ) (tasks : ℕ → Tcb)
    → ◌≡◌ {A = ℕ → Bool}
        (λ i. is_terminated (update tasks p (give request (tasks p)) i).state)
        (λ i. is_terminated (tasks i).state)
unfolding give
same_states request p tasks = update_view (λ t. is_terminated t.state) tasks p _ refl

give-NonNegative :
    (request : Resources) (p : ℕ) (tasks : ℕ → Tcb)
    → no_resources ≤r request
    → NonNegative tasks
    → NonNegative (update tasks p (give request (tasks p)))
unfolding give ◌+r◌
give-NonNegative request p tasks more held =
    update_all (λ t. no_resources ≤r t.allocation) tasks p _ held (omega (int_laws, held p))

may_request_iff :
    (request : Resources) (p : ℕ) (s : Sched)
    → (may_request request p s ≡ true) ↔ ((request ≤r (s.tasks p).need) × (request ≤r s.available))
unfolding may_request
may_request_iff request p s = (
  λ h. (
    leb_resources-le request (s.tasks p).need (ground arith),
    leb_resources-le request s.available (ground arith),
  ),
  λ (a, b).
      rw (le-leb_resources request (s.tasks p).need a, le-leb_resources request s.available b),
)

allocate-IsSafe_iff :
    (request : Resources) (p : ℕ) (s : Sched)
    → no_resources ≤r request
    → NonNegative s.tasks
    → s.task_count ≡ pos (live_tasks s.tasks)
    → (is_safe_state (allocate request p s) ≡ true) ↔ IsSafe (allocate request p s)
unfolding allocate
allocate-IsSafe_iff request p s more held counted =
    is_safe_state-SafeFrom _ (give-NonNegative request p s.tasks more held)
      (rw (same_states request p s.tasks) counted)

-- The pid names a live task, and the request is within its need and the available resources, and the
-- state after the allocation is safe.
abbrev pub Grantable : ℤ → Resources → Sched → ℕ → Type 0
Grantable pid request s p =
    (pid ≡ pos p)
    × (p < max_tasks)
    × (is_terminated (s.tasks p).state ≡ false)
    × (request ≤r (s.tasks p).need)
    × (request ≤r s.available)
    × IsSafe (allocate request p s)

-- What a request comes to: it is refused and nothing changes, or it is granted.
abbrev pub RequestResult : ℤ → Resources → Sched → Sched × Bool → Type 0
RequestResult pid request s (s', false) = (s' ≡ s) × ((p : ℕ) → ¬ Grantable pid request s p)
RequestResult pid request s (s', true) =
    (p : ℕ) × Grantable pid request s p × (s' ≡ allocate request p s)

pos_same : {pid : ℤ} {p q : ℕ} → pid ≡ pos p → pid ≡ pos q → p ≡ q
pos_same e e' = cc

live-RequestResult :
    (p : ℕ) (pid : ℤ) (request : Resources) (s : Sched)
    → live_index pid s ≡ some p
    → no_resources ≤r request
    → NonNegative s.tasks
    → s.task_count ≡ pos (live_tasks s.tasks)
    → RequestResult pid request s (request_resources pid request s)
unfolding request_resources
live-RequestResult p pid request s live more held counted =
    let (lt, alive, e) = live_index-some pid s live in
    let fits = may_request_iff request p s in
    let safe = allocate-IsSafe_iff request p s more held counted in
    elim (Bool-cases (may_request request p s)) [
      | inl m ↦ elim (Bool-cases (is_safe_state (allocate request p s))) [
        | inl q ↦
            rw (request_resources, live, m, q)
              (p, (e, lt, alive, (fits.0 m).0, (fits.0 m).1, safe.0 q), refl)
        | inr q ↦
            rw (request_resources, live, m, q)
              (
                rollback-allocate request p s,
                λ p' g.
                    let there = subst (Grantable pid request s) (pos_same g.0 e) g in
                    absurd (cc (safe.1 there.5)),
              )
      ]
      | inr m ↦
          rw (request_resources, live, m)
            (
              refl,
              λ p' g.
                  let there = subst (Grantable pid request s) (pos_same g.0 e) g in
                  absurd (cc (fits.1 (there.3, there.4))),
            )
    ]

-- Where no allocation is negative and `task_count` counts the live tasks, a request for no negative
-- amount is refused, with nothing changed (a trial allocation is rolled back exactly), where no live task has the pid, the
-- amounts are above its need or the available resources, or the state after the allocation is not
-- safe. Otherwise it is granted: the state is that after the allocation.
pub request_resources-RequestResult :
    (pid : ℤ) (request : Resources) (s : Sched)
    → no_resources ≤r request
    → NonNegative s.tasks
    → s.task_count ≡ pos (live_tasks s.tasks)
    → RequestResult pid request s (request_resources pid request s)
unfolding request_resources
request_resources-RequestResult pid request s more held counted =
    elim (Option-cases (live_index pid s)) [
      | inl none_live ↦
          rw (request_resources, none_live)
            (
              refl,
              λ p g.
                  let live = live_index-live p s g.1 g.2 in
                  let same = ap (λ q. live_index q s) g.0 in absurd cc,
            )
      | inr (p, live) ↦ live-RequestResult p pid request s live more held counted
    ]
