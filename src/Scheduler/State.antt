-- ===== src/Scheduler/State.antt =====
-- The scheduler's data (src/scheduler.h, the head of src/scheduler.c): a task control block, the
-- queues with their counts, the resources, and `scheduler_init`.
use sky_net_os.Base.{
  ℕ, Bool, true, false, ◌&&◌, Option, none, some, List, [], ◌∷◌, ◌++◌, ltb, if◌then◌else◌, length,
  replicate, ℤ, pos, negsuc, ◌+ℤ◌, ◌-ℤ◌, ◌≤ℤ◌, leb_ℤ, update, Outcome, done, fault,
}
use sky_net_os.Sync.Defs.{Mutex}

abbrev pub max_tasks : ℕ
max_tasks = 16

abbrev pub num_queues : ℕ
num_queues = 3

abbrev pub max_threads_per_task : ℕ
max_threads_per_task = 4

abbrev pub max_ipc_messages : ℕ
max_ipc_messages = 5

abbrev pub max_msg_length : ℕ
max_msg_length = 64

pub data TaskState : Type 0 where
  ready running blocked terminated : TaskState

abbrev pub is_terminated : TaskState → Bool
is_terminated terminated = true
is_terminated _ = false

abbrev pub is_blocked : TaskState → Bool
is_blocked blocked = true
is_blocked _ = false

-- `int x[MAX_RESOURCES]`: the entries RES_CPU, RES_MEMORY and RES_IO.
pub record Resources : Type 0 where
  pub cpu : ℤ
  pub memory : ℤ
  pub io : ℤ

-- A loop over the resources that combines two arrays.
abbrev pub zip_resources : (ℤ → ℤ → ℤ) → Resources → Resources → Resources
zip_resources f a b = record { cpu = f a.cpu b.cpu; memory = f a.memory b.memory; io = f a.io b.io }

-- A loop over the resources that stops at the first one that fails a test.
abbrev pub all_resources : (ℤ → ℤ → Bool) → Resources → Resources → Bool
all_resources p a b = p a.cpu b.cpu && (p a.memory b.memory && p a.io b.io)

abbrev pub resources : ℤ → ℤ → ℤ → Resources
resources c m i = record { cpu = c; memory = m; io = i }

abbrev pub no_resources : Resources
no_resources = resources (pos 0) (pos 0) (pos 0)

infixl 65 ◌+r◌ ◌-r◌
infix 50 ◌≤r◌
unfoldable pub ◌+r◌ : Resources → Resources → Resources
a +r b = zip_resources ◌+ℤ◌ a b

unfoldable pub ◌-r◌ : Resources → Resources → Resources
a -r b = zip_resources ◌-ℤ◌ a b

unfoldable pub leb_resources : Resources → Resources → Bool
leb_resources a b = all_resources leb_ℤ a b

abbrev pub ◌≤r◌ : Resources → Resources → Type 0
a ≤r b = (a.cpu ≤ℤ b.cpu) × (a.memory ≤ℤ b.memory) × (a.io ≤ℤ b.io)

-- `ipc_message_t`. The text is what stands before its NUL byte.
pub record Message : Type 0 where
  pub message : List ℕ
  pub valid : Bool

-- `tcb_t`
pub record Tcb : Type 0 where
  pub pid : ℤ
  pub priority_level : ℕ
  pub state : TaskState
  pub remaining_quantum : ℤ
  pub time_slice : ℤ
  pub remaining_work : ℤ
  pub max_demand : Resources
  pub allocation : Resources
  pub need : Resources
  pub thread_count : ℕ
  pub mailbox : List Message
  pub msg_count : ℕ
  pub ipc_mutex : Mutex

-- The file's variables. `queues q` holds the first `queue_counts[q]` entries of `queues[q]`;
-- `current_pid` is `none` for -1.
pub record Sched : Type 0 where
  pub tasks : ℕ → Tcb
  pub task_count : ℤ
  pub current_pid : Option ℕ
  pub queues : ℕ → List ℕ
  pub available : Resources

-- `quantums[NUM_QUEUES]`
unfoldable pub quantums : ℕ → ℕ
quantums q = if ltb q 1 then 4 else if ltb q 2 then 8 else 16

abbrev pub empty_message : Message
empty_message = record { message = []; valid = false }

-- What `memset` and the loop of `scheduler_init` leave in an entry of the task table.
abbrev pub empty_task : Tcb
empty_task = record {
  pid = negsuc 0;
  priority_level = 0;
  state = terminated;
  remaining_quantum = pos 0;
  time_slice = pos 0;
  remaining_work = pos 0;
  max_demand = no_resources;
  allocation = no_resources;
  need = no_resources;
  thread_count = 0;
  mailbox = replicate max_ipc_messages empty_message;
  msg_count = 0;
  ipc_mutex = record {
    lock = false;
    owner_pid = some 0;
    blocked_queue = λ _. 0;
    queue_head = 0;
    queue_tail = 0;
  };
}

-- `scheduler_init` clears the task table and the queue counts, and nothing else.
unfoldable pub scheduler_init : Sched → Sched
scheduler_init s = record s { tasks = λ _. empty_task; queues = λ _. [] }

-- The variables as the program starts, before `scheduler_init`.
abbrev pub boot : Sched
boot = record {
  tasks = λ _. empty_task;
  task_count = pos 0;
  current_pid = none;
  queues = λ _. [];
  available = resources (pos 10) (pos 20) (pos 10);
}

-- `pid < 0 || pid >= MAX_TASKS`, the other way round: the index that a pid names.
unfoldable pub pid_index : ℤ → Option ℕ
pid_index (pos n) = if ltb n max_tasks then some n else none
pid_index (negsuc _) = none

-- The test with which most functions begin: the pid names a task that is not terminated.
unfoldable pub live_index : ℤ → Sched → Option ℕ
live_index pid s = elim (pid_index pid) [
  | none ↦ none
  | some p ↦ if is_terminated (s.tasks p).state then none else some p
]

abbrev pub set_task : Sched → ℕ → Tcb → Sched
set_task s p t = record s { tasks = update s.tasks p t }

abbrev pub set_queue : Sched → ℕ → List ℕ → Sched
set_queue s q l = record s { queues = update s.queues q l }

-- `queues[q][queue_counts[q]++] = pid`, a fault where the row is full.
unfoldable pub enqueue : ℕ → ℕ → Sched → Outcome Sched
enqueue q pid s =
    if ltb (length (s.queues q)) max_tasks
    then done (set_queue s q (s.queues q ++ pid ∷ []))
    else fault
