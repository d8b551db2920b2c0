-- ===== src/Shell/Texts.antt =====
-- What the commands of src/shell.c print, as the texts and numbers of their calls in order.
use sky_net_os.Scheduler.State.{running, ready, blocked, terminated}
use sky_net_os.Base.{
  zero, suc, none, some, done, pos, Outcome, codes, ℕ, ℤ, List, ◌+◌, ◌∷◌, ◌++◌, [], if◌then◌else◌,
  ◌>>=◌,
}
use sky_net_os.Io.Print.{Output, print, print_int}
use sky_net_os.Scheduler.State.{TaskState, Tcb, Sched, max_tasks}
use sky_net_os.Files.Defs.{File}
use sky_net_os.Scheduler.Tasks.{get_task_info}

pub data Piece : Type 0 where
  str : List ℕ → Piece
  num : ℤ → Piece

unfoldable pub print_piece : Piece → Output → Outcome Output
print_piece (str text) o = print text o
print_piece (num n) o = print_int n o

unfoldable pub print_pieces : List Piece → Output → Outcome Output
print_pieces [] o = done o
print_pieces (p ∷ l) o = do o' ← print_piece p o; print_pieces l o'

unfoldable pub help_text : List Piece
help_text =
    str (codes "Available commands:\n")
    ∷ str (codes "  help       - Display this help message\n")
    ∷ str (codes "  clear      - Clear the screen\n")
    ∷ str (codes "  whoami     - Display current user\n")
    ∷ str (codes "  ls         - List files and directories\n")
    ∷ str (codes "  cat <file> - Display file contents\n")
    ∷ str (codes "  touch <f>  - Create an empty file\n")
    ∷ str (codes "  mkdir <d>  - Create a directory\n")
    ∷ str (codes "  rm <file>  - Delete a file\n")
    ∷ str (codes "  edit <file> - Edit or create a file\n")
    ∷ str (codes "  ps         - List active processes\n")
    ∷ str (codes "  kill <pid> - Terminate a process\n")
    ∷ str (codes "  sim-load   - Run simulated workload (& for bg)\n")
    ∷ str (codes "  gui        - Start GUI mode\n")
    ∷ str (codes "  doom       - Play DOOM\n")
    ∷ str (codes "  exit       - Shutdown the system\n")
    ∷ []

unfoldable pub state_text : TaskState → List ℕ
state_text running = codes "RUN\t"
state_text ready = codes "RDY\t"
state_text blocked = codes "BLK\t"
state_text terminated = codes "UNK\t"

unfoldable pub task_row : Tcb → List Piece
task_row info =
    num info.pid
    ∷ str (codes "\t")
    ∷ num (pos info.priority_level)
    ∷ str (codes "\t")
    ∷ str (state_text info.state)
    ∷ num (pos info.thread_count)
    ∷ str (codes "\t")
    ∷ num (pos info.msg_count)
    ∷ str (codes "\n")
    ∷ []

-- The loop of `ps_command`, over `n` tasks from `i` on.
unfoldable pub task_rows : ℕ → ℕ → Sched → List Piece
task_rows zero i s = []
task_rows (suc n) i s =
    elim (get_task_info (pos i) s) [ none ↦ [] | some info ↦ task_row info ]
    ++ task_rows n (i + 1) s

unfoldable pub ps_command : Sched → List Piece
ps_command s = str (codes "PID\tPRIO\tSTATE\tTHRDS\tMSGS\n") ∷ task_rows max_tasks 0 s

unfoldable pub file_row : File → List Piece
file_row f =
    str (if f.is_directory then codes "[DIR]  " else codes "[FILE] ")
    ∷ str f.name
    ∷ str (codes "  (")
    ∷ num (pos f.size)
    ∷ str (codes " bytes)\n")
    ∷ []

unfoldable pub file_rows : List File → List Piece
file_rows [] = []
file_rows (f ∷ files) = file_row f ++ file_rows files

unfoldable pub ls_text : List File → List Piece
ls_text [] = str (codes "(empty)\n") ∷ []
ls_text (f ∷ files) = file_rows (f ∷ files)

-- A line of a message, a name and a newline.
unfoldable pub note : List ℕ → List ℕ → List Piece
note message name = str message ∷ str name ∷ str (codes "\n") ∷ []
