-- ===== src/Scheduler/Tests.antt =====
-- Runs of the scheduler (src/scheduler.c) at concrete states.
use sky_net_os.Scheduler.Rows.{count}
use sky_net_os.Base.{
  pos, refl, true, List, [], done, fault, Returns, ◌≡◌, ◌∷◌, update_all, update, int_laws, ℕ, ℤ,
  ◌+◌, ◌<◌, ◌↔◌, ◌++◌, ◌+ℤ◌, total, none, some, false, ◌-ℤ◌,
}
use sky_net_os.Scheduler.State.{
  Resources, resources, scheduler_init, boot, enqueue, live_index, pid_index, leb_resources, ◌+r◌,
  ◌-r◌, quantums, Sched, Tcb, ◌≤r◌, empty_task, no_resources, is_terminated, ready,
}
use sky_net_os.Scheduler.Reach.{Call, perform_all, create, perform, tick, request, perform_all-boot}
use sky_net_os.Scheduler.Queued.{IsQueued}
use sky_net_os.Scheduler.Tasks.{task_create, find_free, fresh_task}
use sky_net_os.Scheduler.Queues.{system_tick, schedule, schedule_from, priority_boost}
use sky_net_os.Scheduler.Banker.{
  request_resources, may_request, allocate, give, is_safe_state, rounds, pass, try_finish,
  can_finish, all_finished,
}
use sky_net_os.Scheduler.Safe.{NonNegative, SafeFrom}
use sky_net_os.Scheduler.Requests.{RequestResult, request_resources-RequestResult}
use sky_net_os.Scheduler.Boost.{priority_boost-rows}
use sky_net_os.Scheduler.Decides.{is_safe_state-SafeFrom}
use sky_net_os.Scheduler.Letters.{texts, Put, put_message-Put}
use sky_net_os.Scheduler.Mailbox.{put_message}

abbrev demand : Resources
demand = resources (pos 6) (pos 4) (pos 2)

abbrev part : Resources
part = resources (pos 4) (pos 2) (pos 0)

-- Two tasks, the first one running and holding resources.
abbrev script : List Call
script = create demand ∷ create demand ∷ tick ∷ request (pos 0) part ∷ []

perform_all-boot_example : Returns IsQueued (perform_all script (scheduler_init boot))
perform_all-boot_example = perform_all-boot script

abbrev pair : Sched
unfolding perform_all perform scheduler_init task_create find_free fresh_task enqueue system_tick
    schedule schedule_from request_resources live_index pid_index may_request allocate give
    is_safe_state rounds pass try_finish can_finish all_finished leb_resources ◌+r◌ ◌-r◌ quantums
pair = elim (perform_all script (scheduler_init boot)) [ done s ↦ s | fault ↦ boot ]

pair-IsQueued : IsQueued pair
unfolding perform_all perform scheduler_init task_create find_free fresh_task enqueue system_tick
    schedule schedule_from request_resources live_index pid_index may_request allocate give
    is_safe_state rounds pass try_finish can_finish all_finished leb_resources ◌+r◌ ◌-r◌ quantums
    ◌+ℤ◌
pair-IsQueued = perform_all-boot script

priority_boost-rows_example :
    Returns
      (λ s'.
        (s'.queues 0 ≡ (pair.queues 0 ++ pair.queues 1) ++ pair.queues 2)
        × (s'.queues 1 ≡ [])
        × (s'.queues 2 ≡ [])
        × ((p : ℕ)
            → 0 < count p (pair.queues 1) + count p (pair.queues 2)
            → ((s'.tasks p).priority_level ≡ 0) × ((s'.tasks p).remaining_quantum ≡ pos 4)))
      (priority_boost pair)
priority_boost-rows_example = priority_boost-rows pair pair-IsQueued

-- A task that holds `held` and may still ask for `need`.
abbrev holder : ℤ → Resources → Resources → Tcb
holder pid held need = record empty_task {
  pid = pid;
  state = ready;
  allocation = held;
  need = need;
}

abbrev busy_tasks : ℕ → Tcb
busy_tasks =
    update (update (λ _. empty_task) 0 (holder (pos 0) part demand)) 1
      (holder (pos 1) no_resources part)

-- Two tasks in need of resources.
abbrev busy : Sched
busy = record boot {
  tasks = busy_tasks;
  task_count = pos 2;
  available = resources (pos 6) (pos 18) (pos 10);
}

busy-NonNegative : NonNegative busy_tasks
busy-NonNegative =
    update_all (λ t. no_resources ≤r t.allocation)
      (update (λ _. empty_task) 0 (holder (pos 0) part demand)) 1 _
      (update_all (λ t. no_resources ≤r t.allocation) (λ _. empty_task) 0 _ (λ i. omega int_laws)
        (omega int_laws))
      (omega int_laws)

is_safe_state-SafeFrom_example :
    (is_safe_state busy ≡ true)
    ↔ SafeFrom busy.tasks busy.available (λ i. is_terminated (busy.tasks i).state)
unfolding total
is_safe_state-SafeFrom_example = is_safe_state-SafeFrom busy busy-NonNegative refl

-- Two tasks that can both end only if the first one ends first, with all that is available.
abbrev tight_tasks : ℕ → Tcb
tight_tasks =
    update (update (λ _. empty_task) 0 (holder (pos 0) part demand)) 1
      (holder (pos 1) no_resources (resources (pos 8) (pos 4) (pos 2)))

abbrev tight : Sched
tight = record boot { tasks = tight_tasks; task_count = pos 2; available = demand }

tight-NonNegative : NonNegative tight_tasks
tight-NonNegative =
    update_all (λ t. no_resources ≤r t.allocation)
      (update (λ _. empty_task) 0 (holder (pos 0) part demand)) 1 _
      (update_all (λ t. no_resources ≤r t.allocation) (λ _. empty_task) 0 _ (λ i. omega int_laws)
        (omega int_laws))
      (omega int_laws)

abbrev one_cpu : Resources
one_cpu = resources (pos 1) (pos 0) (pos 0)

-- The second task's request passes the checks, and its trial allocation is rolled back.
tight_checks : may_request one_cpu 1 tight ≡ true
unfolding may_request leb_resources
tight_checks = refl

tight_refused : (request_resources (pos 1) one_cpu tight).1 ≡ false
unfolding request_resources live_index pid_index may_request leb_resources allocate give
    is_safe_state rounds pass try_finish can_finish all_finished ◌+r◌ ◌-r◌ ◌-ℤ◌
tight_refused = refl

request_resources-RequestResult_example :
    RequestResult (pos 1) one_cpu tight (request_resources (pos 1) one_cpu tight)
unfolding total
request_resources-RequestResult_example =
    request_resources-RequestResult (pos 1) one_cpu tight (omega int_laws) tight-NonNegative refl

put_message-Put_example : Put (7 ∷ 8 ∷ []) empty_task (put_message (7 ∷ 8 ∷ []) empty_task)
unfolding texts
put_message-Put_example =
    put_message-Put (7 ∷ 8 ∷ []) empty_task (record { slots = refl; counted = refl })

-- Task 1 of two runs, with its mutex free.
abbrev idle_mutex : Sched
idle_mutex = record busy {
  tasks = λ i. record empty_task { ipc_mutex = record (empty_task.ipc_mutex) { owner_pid = none } };
  current_pid = some 1;
}
