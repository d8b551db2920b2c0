-- ===== src/Shell/Answers.antt =====
-- What `handle_command` of src/shell.c does to the terminal when the event loop of src/gui.c calls it.
use sky_net_os.Base.{
  true, false, none, some, done, fault, pos, length, ltb, if-either, Outcome, ℕ, Bool, Option, List,
  ◌∷◌, [],
}
use sky_net_os.Scheduler.Mailbox
use sky_net_os.Files.Effects.{Effect, ok, halted, undefined, lift, ◌>>=◌}
use sky_net_os.Shell.Parse.{
  Command, help, clear, whoami, ls, ps, disk_test, exit, gui, doom, cat, touch, mkdir, rm, edit,
  unknown, kill, thread_add, ipc_recv, ipc_send, ipc_usage, sim_load, parse_command,
}
use sky_net_os.Shell.Printing.{
  Yields, OnTerminal, ShownOn, ShownOn-refl, ShownOn-trans, print_pieces-ShownOn,
}
use sky_net_os.Shell.Run.{
  Machine, say_pieces, show_file, edit_rest, edit_file, start_load, show_letter, report, execute,
  handle_command, with_root, with_sched, cat_bytes,
}
use sky_net_os.Files.Allocator.{Allocator}
use sky_net_os.Files.Defs.{Item}
use sky_net_os.Shell.Texts.{Piece, print_pieces}
use sky_net_os.Files.Calls.{write_file, create_file, read_file, create_directory, delete_file}
use sky_net_os.Scheduler.State.{Sched}
use sky_net_os.Shell.Editor.{edit_bytes, run_disk_test}
use sky_net_os.Scheduler.Tasks.{task_set_work, thread_create, task_create}
use sky_net_os.Scheduler.Mailbox.{ipc_receive}

-- Where the call comes back, `P` holds of what it returns.
abbrev pub After : {A : Type 0} → (A → Type 0) → Effect A → Type 0
After P (ok a) = P a
After P (halted code) = Unit
After P undefined = Unit

After-bind :
    {A B : Type 0} (P : A → Type 0) (Q : B → Type 0) (m : Effect A) (f : A → Effect B)
    → After P m
    → ((a : A) → P a → After Q (f a))
    → After Q (m >>= f)
After-bind P Q (ok a) f p next = next a p
After-bind P Q (halted code) f p next = tt
After-bind P Q undefined f p next = tt

-- Whatever the first call returns.
After-then :
    {A B : Type 0} (Q : B → Type 0) (m : Effect A) (f : A → Effect B)
    → ((a : A) → After Q (f a))
    → After Q (m >>= f)
After-then Q (ok a) f next = next a
After-then Q (halted code) f next = tt
After-then Q undefined f next = tt

After-lift : {A : Type 0} (P : A → Type 0) (m : Outcome A) → Yields P m → After P (lift m)
After-lift P (done a) h = h
After-lift P fault h = tt

module _ (M : Allocator) (image : List ℕ → List Item → List ℕ) where
  -- From the machine `m`, the output of the machine afterwards is shown on the terminal.
  abbrev pub Shows : Machine M image → Machine M image → Type 0
  Shows m m' = ShownOn m.out m'.out

  say_pieces-Shows :
      (l : List Piece) (m : Machine M image)
      → OnTerminal m.out
      → After (Shows m) (say_pieces M image l m)
  unfolding say_pieces
  say_pieces-Shows l m on =
      After-bind (ShownOn m.out) (Shows m) (lift (print_pieces l m.out)) _
        (After-lift (ShownOn m.out) (print_pieces l m.out) (print_pieces-ShownOn l m.out on))
        (λ o shown. shown)

  -- A call that comes after output.
  Shows-then :
      (m : Machine M image) (e : Effect (Machine M image))
      (f : Machine M image → Effect (Machine M image))
      → After (Shows m) e
      → ((m' : Machine M image) → OnTerminal m'.out → After (Shows m') (f m'))
      → After (Shows m) (e >>= f)
  Shows-then m e f first next =
      After-bind (Shows m) (Shows m) e f first
        (λ m' shown. After-trans m m' shown (f m') (next m' shown.0))
    where
      After-trans :
          (m m' : Machine M image)
          → Shows m m'
          → (e : Effect (Machine M image)) → After (Shows m') e
          → After (Shows m) e
      After-trans m m' shown (ok m'') h = ShownOn-trans m.out m'.out m''.out shown h
      After-trans m m' shown (halted code) h = tt
      After-trans m m' shown undefined h = tt

  show_file-Shows :
      (name : List ℕ) (o : Option (List ℕ)) (m : Machine M image)
      → OnTerminal m.out
      → After (Shows m) (show_file M image name o m)
  unfolding show_file
  show_file-Shows name none m on = say_pieces-Shows _ m on
  show_file-Shows name (some []) m on = say_pieces-Shows _ m on
  show_file-Shows name (some (c ∷ l)) m on =
      if-either (After (Shows m)) (ltb (length (c ∷ l)) cat_bytes) _ undefined
        (λ fits. say_pieces-Shows _ m on) (λ over. tt)

  edit_rest-Shows :
      (lines : List (List ℕ)) (name old : List ℕ) (m : Machine M image)
      → OnTerminal m.out
      → After (Shows m) (edit_rest M image lines name old m)
  unfolding edit_rest with_root
  edit_rest-Shows lines name old m on =
      Shows-then m (say_pieces M image _ m) _ (say_pieces-Shows _ m on) (λ m1 on1.
        After-then (Shows m1) (write_file M name _ m1.root) _
          (λ r. say_pieces-Shows _ (record m1 { root = r }) on1))

  edit_file-Shows :
      (lines : List (List ℕ)) (name : List ℕ) (o : Option (List ℕ)) (m : Machine M image)
      → OnTerminal m.out
      → After (Shows m) (edit_file M image lines name o m)
  unfolding edit_file with_root
  edit_file-Shows lines name none m on =
      After-then (Shows m) (create_file M name m.root) _
        (λ r. edit_rest-Shows lines name [] (record m { root = r }) on)
  edit_file-Shows lines name (some old) m on =
      if-either (After (Shows m)) (ltb (length old) edit_bytes) _ undefined
        (λ fits. edit_rest-Shows lines name old m on) (λ over. tt)

  start_load-Shows :
      (r : Sched × Option ℕ) (m : Machine M image)
      → OnTerminal m.out
      → After (Shows m) (start_load M image r m)
  unfolding start_load with_sched
  start_load-Shows (s, none) m on = say_pieces-Shows _ (record m { sched = s }) on
  start_load-Shows (s, some pid) m on =
      say_pieces-Shows _ (record m { sched = task_set_work (pos pid) (pos 50) s }) on

  show_letter-Shows :
      (r : Sched × Option (List ℕ)) (m : Machine M image)
      → OnTerminal m.out
      → After (Shows m) (show_letter M image r m)
  unfolding show_letter with_sched
  show_letter-Shows (s, none) m on = say_pieces-Shows _ (record m { sched = s }) on
  show_letter-Shows (s, some text) m on = say_pieces-Shows _ (record m { sched = s }) on

  report-Shows :
      (message : List ℕ) (r : Sched × Bool) (m : Machine M image)
      → OnTerminal m.out
      → After (Shows m) (report M image message r m)
  unfolding report with_sched
  report-Shows message (s, true) m on = ShownOn-refl m.out on
  report-Shows message (s, false) m on = say_pieces-Shows _ (record m { sched = s }) on

  module _ (desktop game : Machine M image → Effect (Machine M image))
      (desktop_shows : (m : Machine M image) → OnTerminal m.out → After (Shows m) (desktop m))
      (game_shows : (m : Machine M image) → OnTerminal m.out → After (Shows m) (game m))
      (lines : List (List ℕ)) where
    execute-Shows :
        (c : Command) (m : Machine M image)
        → OnTerminal m.out
        → After (Shows m) (execute M image desktop game lines c m)
    unfolding execute with_root with_sched
    execute-Shows help m on = say_pieces-Shows _ m on
    execute-Shows clear m on = (on, (ShownOn-refl m.out on).1)
    execute-Shows whoami m on = say_pieces-Shows _ m on
    execute-Shows ls m on = say_pieces-Shows _ m on
    execute-Shows (cat name) m on =
        After-then (Shows m) (read_file image name m.root.files) _
          (λ l. show_file-Shows name l m on)
    execute-Shows (touch name) m on =
        After-then (Shows m) (create_file M name m.root) _
          (λ r. say_pieces-Shows _ (record m { root = r }) on)
    execute-Shows (mkdir name) m on =
        After-then (Shows m) (create_directory M name m.root) _
          (λ r. say_pieces-Shows _ (record m { root = r }) on)
    execute-Shows (rm name) m on =
        After-then (Shows m) (delete_file M name m.root) _
          (λ r. say_pieces-Shows _ (record m { root = r }) on)
    execute-Shows (edit name) m on =
        After-then (Shows m) (read_file image name m.root.files) _
          (λ l. edit_file-Shows lines name l m on)
    execute-Shows ps m on = say_pieces-Shows _ m on
    execute-Shows (kill pid) m on = ShownOn-refl m.out on
    execute-Shows (thread_add pid) m on = report-Shows _ (thread_create pid m.sched) m on
    execute-Shows (ipc_send pid text) m on =
        After-then (Shows m) (lift (Mailbox.ipc_send pid text m.sched)) _
          (λ r. report-Shows _ r m on)
    execute-Shows ipc_usage m on = say_pieces-Shows _ m on
    execute-Shows (ipc_recv pid) m on =
        After-then (Shows m) (lift (ipc_receive pid m.sched)) _ (λ r. show_letter-Shows r m on)
    execute-Shows disk_test m on =
        After-then (Shows m) (lift (run_disk_test m.disk)) _ (λ d. ShownOn-refl m.out on)
    execute-Shows exit m on = After-then (Shows m) (say_pieces M image _ m) _ (λ m'. tt)
    execute-Shows (sim_load false) m on = say_pieces-Shows _ m on
    execute-Shows (sim_load true) m on =
        After-then (Shows m) (lift (task_create _ m.sched)) _ (λ r. start_load-Shows r m on)
    execute-Shows gui m on =
        Shows-then m (say_pieces M image _ m) desktop (say_pieces-Shows _ m on) desktop_shows
    execute-Shows doom m on =
        Shows-then m (say_pieces M image _ m) game (say_pieces-Shows _ m on) game_shows
    execute-Shows (unknown text) m on = say_pieces-Shows _ m on

    -- With the output on the terminal of the desktop, a command that comes back has changed the terminal
    -- by printing only: its `Answer` in the event loop is what it prints.
    pub handle_command-Shows :
        (stale command : List ℕ) (m : Machine M image)
        → OnTerminal m.out
        → After (Shows m) (handle_command M image desktop game lines stale command m)
    unfolding handle_command
    handle_command-Shows stale command m on =
        After-then (Shows m) (lift (parse_command stale command)) _ (λ c. execute-Shows c m on)
