-- ===== src/Shell/Run.antt =====
-- What `handle_command` of src/shell.c does for each command.
use sky_net_os.Base.{
  true, false, none, some, pos, length, ltb, codes, ℕ, Bool, Option, List, ◌∷◌, ◌++◌, [],
  if◌then◌else◌,
}
use sky_net_os.Scheduler.Mailbox
use sky_net_os.Files.Effects.{◌>>=◌, Effect, ok, halted, undefined, lift}
use sky_net_os.Shell.Parse.{
  Command, help, clear, whoami, ls, ps, disk_test, exit, gui, doom, cat, touch, mkdir, rm, edit,
  unknown, kill, thread_add, ipc_recv, ipc_send, ipc_usage, sim_load, parse_command, c_text,
}
use sky_net_os.Files.Allocator.{Allocator}
use sky_net_os.Files.Defs.{Item, Root}
use sky_net_os.Scheduler.State.{Sched, resources}
use sky_net_os.Shell.Texts.{Piece, note, help_text, print_pieces, str, num, ls_text, ps_command}
use sky_net_os.Shell.Editor.{
  edit_lines, edit_intro, edit_bytes, edit_help, run_disk_test, system_shutdown,
}
use sky_net_os.Files.Calls.{create_file, write_file, read_file, create_directory, delete_file}
use sky_net_os.Disk.Defs.{Disk}
use sky_net_os.Io.Screen.{clear_screen}
use sky_net_os.Io.Print.{Output}
use sky_net_os.Scheduler.Tasks.{task_set_work, task_terminate, thread_create, task_create}
use sky_net_os.Scheduler.Mailbox.{ipc_receive}

abbrev pub cat_bytes : ℕ
cat_bytes = 512

-- `M` is the heap under the file system, `image` the bytes of a `directory_t`.
module _ (M : Allocator) (image : List ℕ → List Item → List ℕ) where
  -- The state of the parts that commands use.
  pub record Machine : Type 0 where
    pub sched : Sched
    pub root : Root M
    pub disk : Disk
    pub out : Output

  unfoldable pub say_pieces : List Piece → Machine → Effect Machine
  say_pieces l m = do o ← lift (print_pieces l m.out); ok (record m { out = o })

  unfoldable pub with_root : Machine → Root M → Machine
  with_root m r = record m { root = r }

  unfoldable pub with_sched : Machine → Sched → Machine
  with_sched m s = record m { sched = s }

  -- `buffer[read_size] = '\0'` is outside of `buffer` for a file of 512 bytes; a longer one is copied
  -- past its end before.
  unfoldable pub show_file : List ℕ → Option (List ℕ) → Machine → Effect Machine
  show_file name none m = say_pieces (note (codes "File not found: ") name) m
  show_file name (some []) m = say_pieces (note (codes "File not found: ") name) m
  show_file name (some (c ∷ l)) m =
      if ltb (length (c ∷ l)) cat_bytes
      then say_pieces (str (c_text (c ∷ l)) ∷ str (codes "\n") ∷ []) m
      else undefined

  -- The editor after `read_file`; it writes the file at the end.
  unfoldable pub edit_rest : List (List ℕ) → List ℕ → List ℕ → Machine → Effect Machine
  edit_rest lines name old m = do
    let (kept, said) = edit_lines lines old
    m1 ← say_pieces (edit_intro old ++ edit_help ++ said) m
    r ← write_file M name kept m1.root
    say_pieces (str (codes "File saved.\n") ∷ []) (with_root m1 r)

  unfoldable pub edit_file : List (List ℕ) → List ℕ → Option (List ℕ) → Machine → Effect Machine
  edit_file lines name none m = do
    r ← create_file M name m.root
    edit_rest lines name [] (with_root m r)
  edit_file lines name (some old) m =
      if ltb (length old) edit_bytes then edit_rest lines name old m else undefined

  -- `sim-load` in the background.
  unfoldable pub start_load : Sched × Option ℕ → Machine → Effect Machine
  start_load (s, none) m =
      say_pieces (str (codes "Error: Could not create task (task table full).\n") ∷ [])
        (with_sched m s)
  start_load (s, some pid) m =
      say_pieces
        (str (codes "Started simulated load task with PID: ")
          ∷ num (pos pid)
          ∷ str (codes "\n")
          ∷ [])
        (with_sched m (task_set_work (pos pid) (pos 50) s))

  unfoldable pub show_letter : Sched × Option (List ℕ) → Machine → Effect Machine
  show_letter (s, none) m =
      say_pieces (str (codes "No messages or IPC failed.\n") ∷ []) (with_sched m s)
  show_letter (s, some text) m =
      say_pieces (str (codes "Received: ") ∷ str text ∷ str (codes "\n") ∷ []) (with_sched m s)

  -- A message where a call has failed.
  unfoldable pub report : List ℕ → Sched × Bool → Machine → Effect Machine
  report message (s, worked) m =
      if worked then ok (with_sched m s) else say_pieces (str message ∷ []) (with_sched m s)

  -- `desktop` and `game` are what the commands "gui" and "doom" do after their message.
  module _ (desktop game : Machine → Effect Machine) (lines : List (List ℕ)) where
    unfoldable pub execute : Command → Machine → Effect Machine
    execute help m = say_pieces help_text m
    execute clear m = ok (record m { out = record m.out { console = clear_screen m.out.console } })
    execute whoami m = say_pieces (str (codes "admin\n") ∷ []) m
    execute ls m = say_pieces (ls_text m.root.files) m
    execute (cat name) m = do l ← read_file image name m.root.files; show_file name l m
    execute (touch name) m = do
      r ← create_file M name m.root
      say_pieces (note (codes "Created file: ") name) (with_root m r)
    execute (mkdir name) m = do
      r ← create_directory M name m.root
      say_pieces (note (codes "Created directory: ") name) (with_root m r)
    execute (rm name) m = do
      r ← delete_file M name m.root
      say_pieces (note (codes "Deleted: ") name) (with_root m r)
    execute (edit name) m = do l ← read_file image name m.root.files; edit_file lines name l m
    execute ps m = say_pieces (ps_command m.sched) m
    execute (kill pid) m = ok (with_sched m (task_terminate pid m.sched))
    execute (thread_add pid) m =
        report (codes "Failed to add thread.\n") (thread_create pid m.sched) m
    execute (ipc_send pid text) m = do
      r ← lift (Mailbox.ipc_send pid text m.sched)
      report (codes "IPC send failed.\n") r m
    execute ipc_usage m = say_pieces (str (codes "Usage: ipc-send <pid> <msg>\n") ∷ []) m
    execute (ipc_recv pid) m = do r ← lift (ipc_receive pid m.sched); show_letter r m
    execute disk_test m = do d ← lift (run_disk_test m.disk); ok (record m { disk = d })
    execute exit m = do
      m' ← say_pieces (str (codes "Exiting shell...\n") ∷ []) m
      halted system_shutdown
    execute (sim_load false) m =
        say_pieces
          (str (codes "Running simulated load synchronously...\n") ∷ str (codes "Done.\n") ∷ []) m
    execute (sim_load true) m = do
      r ← lift (task_create (resources (pos 2) (pos 2) (pos 2)) m.sched)
      start_load r m
    execute gui m = do m' ← say_pieces (str (codes "Entering GUI mode...\n") ∷ []) m; desktop m'
    execute doom m = do m' ← say_pieces (str (codes "Launching DOOM...\n") ∷ []) m; game m'
    execute (unknown text) m = say_pieces (note (codes "Unknown command: ") text) m

    unfoldable pub handle_command : List ℕ → List ℕ → Machine → Effect Machine
    handle_command stale command m = do c ← lift (parse_command stale command); execute c m
