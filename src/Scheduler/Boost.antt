-- ===== src/Scheduler/Boost.antt =====
-- `priority_boost` (src/scheduler.c): every queued task moves to the first queue, in order.
use native.Mathlib.Decide.{dec_lt}
use native.Mathlib.Decide.{ℕ_discrete}
use sky_net_os.Base.{
  update-update, update_self, ℕ, refl, inl, inr, done, length, update_other, update_same,
  update_view, arith, update, List, ◌+◌, ◌≤◌, ◌<◌, ◌≡◌, ◌⊎◌, ◌∙◌, ◌∷◌, ◌++◌, [], sym, ap,
  append-nil, append_assoc, length-append, Returns-bind, Returns, pos,
}
use sky_net_os.Scheduler.State.{
  max_tasks, num_queues, is_terminated, Tcb, Sched, set_task, set_queue, quantums,
}
use sky_net_os.Scheduler.Queues.{boost_task, boost_tasks, boost_queue, priority_boost}
use sky_net_os.Scheduler.Rows.{Rows, count, count-append, queued, waiting}
use sky_net_os.Scheduler.Queued.{IsQueued, enqueue-done, live_tasks-le}
use sky_net_os.Scheduler.Rounds.{unfinished}

-- The task table with the tasks of `l` boosted.
pub boosted : List ℕ → (ℕ → Tcb) → ℕ → Tcb
boosted [] tasks = tasks
boosted (p ∷ l) tasks = boosted l (update tasks p (boost_task (tasks p)))

-- Queue `q` emptied behind queue 0.
abbrev pub rows_moved : ℕ → Rows → Rows
rows_moved q rows = update (update rows 0 (rows 0 ++ rows q)) q []

-- A view that boosting keeps.
pub boosted-view {ℓ} :
    {B : Type ℓ} (view : Tcb → B)
    → ((t : Tcb) → view (boost_task t) ≡ view t)
    → (l : List ℕ) (tasks : ℕ → Tcb)
    → ◌≡◌ {A = ℕ → B} (λ j. view (boosted l tasks j)) (λ j. view (tasks j))
unfolding boosted
boosted-view view keep [] tasks = refl
boosted-view view keep (p ∷ l) tasks =
    boosted-view view keep l (update tasks p (boost_task (tasks p)))
    ∙ update_view view tasks p (boost_task (tasks p)) (keep (tasks p))

-- What stands in `l` is boosted.
pub boosted-all :
    (P : Tcb → Type 0)
    → ((t : Tcb) → P (boost_task t))
    → (l : List ℕ) (tasks : ℕ → Tcb) (j : ℕ) → (P (tasks j) ⊎ (0 < count j l))
    → P (boosted l tasks j)
unfolding boosted count
boosted-all P new [] tasks j (inl h) = h
boosted-all P new [] tasks j (inr h) = absurd (omega arith)
boosted-all P new (p ∷ l) tasks j h =
    boosted-all P new l (update tasks p (boost_task (tasks p))) j (elim (ℕ_discrete p j) [
      | yes e ↦ inl (rw (← e, update_same tasks p (boost_task (tasks p))) (new (tasks p)))
      | no ne ↦ rw (update_other tasks p j (boost_task (tasks p)) ne) (grind arith)
    ])

rows_path :
    (s : Sched) (f : ℕ → Tcb) {r r' : Rows}
    → r ≡ r'
    → ◌≡◌ {A = Sched} (record s { tasks = f; queues = r }) (record s { tasks = f; queues = r' })
rows_path s f p = λ i. record s { tasks = f; queues = p i }

-- The loop of `priority_boost` over the entries of one queue, where the first queue has room.
boost_tasks-done :
    (l : List ℕ) (s : Sched)
    → length (s.queues 0) + length l ≤ max_tasks
    → boost_tasks l s
      ≡ done (record s { tasks = boosted l s.tasks; queues = update s.queues 0 (s.queues 0 ++ l) })
unfolding boost_tasks boosted
boost_tasks-done [] s h = ap done (
    rows_path s s.tasks
      (sym (ap (update s.queues 0) (append-nil (s.queues 0)) ∙ update_self s.queues 0)))
boost_tasks-done (p ∷ l) s h =
    let t = boost_task (s.tasks p) in
    let room : length (s.queues 0) < max_tasks = omega arith in
    let s' = set_queue (set_task s p t) 0 (s.queues 0 ++ p ∷ []) in
    rw (enqueue-done 0 p (set_task s p t) room) (
      boost_tasks-done l s' (omega (arith, length-append (s.queues 0) (p ∷ [])))
      ∙ ap done (
          rows_path s (boosted l s'.tasks) (
            update-update s.queues 0 (s.queues 0 ++ p ∷ []) ((s.queues 0 ++ p ∷ []) ++ l)
            ∙ ap (update s.queues 0) (append_assoc (s.queues 0) (p ∷ []) l))))

-- One queue of `priority_boost`.
boost_queue-done :
    (q : ℕ) (s : Sched)
    → length (s.queues 0) + length (s.queues q) ≤ max_tasks
    → boost_queue q s
      ≡ done (record s { tasks = boosted (s.queues q) s.tasks; queues = rows_moved q s.queues })
unfolding boost_queue
boost_queue-done q s h = rw (boost_tasks-done (s.queues q) s h)

rows_moved-queued :
    (q : ℕ) (rows : Rows) → (q ≡ 1) ⊎ (q ≡ 2) → queued (rows_moved q rows) ≡ queued rows
rows_moved-queued q rows (inl e) = rw e (omega (arith, length-append (rows 0) (rows 1)))
rows_moved-queued q rows (inr e) = rw e (omega (arith, length-append (rows 0) (rows 2)))

rows_moved-waiting :
    (q : ℕ) (rows : Rows) (j : ℕ)
    → (q ≡ 1) ⊎ (q ≡ 2)
    → waiting (rows_moved q rows) j ≡ waiting rows j
unfolding count
rows_moved-waiting q rows j (inl e) = rw e (omega (arith, count-append j (rows 0) (rows 1)))
rows_moved-waiting q rows j (inr e) = rw e (omega (arith, count-append j (rows 0) (rows 2)))

boost_queue-IsQueued :
    (q : ℕ) (s : Sched) → IsQueued s → (q ≡ 1) ⊎ (q ≡ 2) → Returns IsQueued (boost_queue q s)
boost_queue-IsQueued q s inv h =
    let l = s.queues q in
    let states = boosted-view (λ t. t.state) boost_state l s.tasks in
    let same = ap unfinished (
      boosted-view (λ t. is_terminated t.state) (λ t. ap is_terminated (boost_state t)) l
        s.tasks) in
    rw (boost_queue-done q s (fits h)) (record {
      entries = λ p more.
          rw (ap (λ f. f p) states)
            (inv.entries p (rw (rows_moved-waiting q s.queues p h) at more));
      once = λ p. rw (rows_moved-waiting q s.queues p h) (inv.once p);
      current = λ c e. rw (ap (λ f. f c) states) (inv.current c e);
      levels = λ p.
          boosted-all (λ t. t.priority_level < num_queues) boost_level l s.tasks p
            (inl (inv.levels p));
      room = rw (same, rows_moved-queued q s.queues h) inv.room;
      counted = rw same inv.counted;
    })
  where
    boost_state : (t : Tcb) → (boost_task t).state ≡ t.state
    boost_state t = unfold boost_task in refl

    boost_level : (t : Tcb) → (boost_task t).priority_level < num_queues
    boost_level t = unfold boost_task in omega arith

    fits : (q ≡ 1) ⊎ (q ≡ 2) → length (s.queues 0) + length (s.queues q) ≤ max_tasks
    fits (inl e) = rw e (omega (arith, inv.room, live_tasks-le s.tasks))
    fits (inr e) = rw e (omega (arith, inv.room, live_tasks-le s.tasks))

-- priority_boost never overflows the first queue, and keeps the bookkeeping.
pub priority_boost-IsQueued : (s : Sched) → IsQueued s → Returns IsQueued (priority_boost s)
unfolding priority_boost
priority_boost-IsQueued s inv =
    Returns-bind IsQueued IsQueued (boost_queue 1 s) (boost_queue 2)
      (boost_queue-IsQueued 1 s inv (inl refl))
      (λ s' inv'. boost_queue-IsQueued 2 s' inv' (inr refl))

boost_task_fields :
    (t : Tcb) → ((boost_task t).priority_level ≡ 0) × ((boost_task t).remaining_quantum ≡ pos 4)
unfolding boost_task quantums
boost_task_fields t = (refl, refl)

-- Where the bookkeeping of the queues holds, priority_boost moves the tasks of queues 1 and 2, in order, behind those of queue 0, empties
-- queues 1 and 2, and gives each moved task priority 0 and a full quantum.
pub priority_boost-rows :
    (s : Sched)
    → IsQueued s
    → Returns
        (λ s'.
          (s'.queues 0 ≡ (s.queues 0 ++ s.queues 1) ++ s.queues 2)
          × (s'.queues 1 ≡ [])
          × (s'.queues 2 ≡ [])
          × ((p : ℕ)
              → 0 < count p (s.queues 1) + count p (s.queues 2)
              → ((s'.tasks p).priority_level ≡ 0) × ((s'.tasks p).remaining_quantum ≡ pos 4)))
        (priority_boost s)
unfolding priority_boost
priority_boost-rows s inv =
    let room : length (s.queues 0) + length (s.queues 1) + length (s.queues 2) ≤ max_tasks =
      omega (arith, inv.room, live_tasks-le s.tasks) in
    let s' = record s { tasks = boosted (s.queues 1) s.tasks; queues = rows_moved 1 s.queues } in
    rw
      (
        boost_queue-done 1 s (omega arith),
        boost_queue-done 2 s' (omega (arith, length-append (s.queues 0) (s.queues 1))),
      )
      (
        refl,
        refl,
        refl,
        λ p h.
            boosted-all (λ t. (t.priority_level ≡ 0) × (t.remaining_quantum ≡ pos 4))
              boost_task_fields (s.queues 2) _ p
              (elim (dec_lt 0 (count p (s.queues 2))) [
                | yes there ↦ inr there
                | no not_there ↦ inl (
                    boosted-all (λ t. (t.priority_level ≡ 0) × (t.remaining_quantum ≡ pos 4))
                      boost_task_fields (s.queues 1) s.tasks p (inr (omega arith)))
              ]),
      )
