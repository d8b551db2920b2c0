-- ===== src/Kernel/Main.antt =====
-- `run_shell` of src/shell.c, and `kernel_main` of src/kernel.c from the start of its parts to the shell,
-- which never returns. The characters that are typed are a list; where they run out, the machine waits.
use sky_net_os.Base.{
  zero, suc, true, none, some, codes, ℕ, Option, List, ◌≡◌, ◌∷◌, [], inl, inr, sym, ap, subst,
  Option-cases, ◌∙◌,
}
use sky_net_os.Shell.Run.{Machine, handle_command, say_pieces}
use sky_net_os.Files.Effects.{◌>>=◌, Effect, ok}
use sky_net_os.Files.Allocator.{Allocator}
use sky_net_os.Files.Defs.{Item}
use sky_net_os.Io.Screen.{Console}
use sky_net_os.Scheduler.State.{scheduler_init}
use sky_net_os.Security.Login.{and_then, Session, login}
use sky_net_os.Io.Print.{print_from}
use sky_net_os.Shell.Texts.{str}
use sky_net_os.Files.Calls.{init_file_system}
use sky_net_os.Security.Password.{authenticate_user}
use sky_net_os.Io.Line.{read_line}
use sky_net_os.Security.Attempts.{Accepted, login-Accepted}

-- Two returned values are the same where their results are.
same_some {ℓ} : {A : Type ℓ} {a b : A} → some a ≡ some b → a ≡ b
same_some {A} {a} {b} h = ap value h
  where
    value : Option A → A
    value none = a
    value (some x) = x

not_none {ℓ} : {A : Type ℓ} {a : A} → none ≡ some a → ⊥
not_none h = cc

unfoldable pub say_all : List (List ℕ) → Console → Console
say_all [] s = s
say_all (text ∷ l) s = say_all l (print_from 0 text s)

unfoldable pub boot_texts : List (List ℕ)
boot_texts =
    codes "SkyNetOS is booting...\n"
    ∷ codes "Initializing scheduler...\n"
    ∷ codes "Initializing heap...\n"
    ∷ codes "loading shell...\n"
    ∷ []

module _ (M : Allocator) (image : List ℕ → List Item → List ℕ)
    (desktop game : Machine M image → Effect (Machine M image)) (lines : List (List ℕ))
    (stale : List ℕ) where
  unfoldable pub with_console : Machine M image → Console → Machine M image
  with_console m t = record m { out = record m.out { console = t } }

  -- What the shell does with a line that has been read.
  unfoldable pub run_line : List ℕ → Machine M image → Effect (Machine M image)
  run_line [] m = ok m
  run_line (c ∷ command) m = handle_command M image desktop game lines stale (c ∷ command) m

  -- The loop, for at most `fuel` lines.
  unfoldable pub run_shell : ℕ → List ℕ → Machine M image → Effect (Machine M image)
  run_shell zero chars m = ok m
  run_shell (suc fuel) chars m = do
    asked ← say_pieces M image (str (codes "SkyNet > ") ∷ []) m
    elim (read_line 100 chars asked.out.console) [
      | none ↦ ok asked
      | some line ↦ do
        next ← run_line line.0 (with_console asked line.2)
        run_shell fuel line.1 next
    ]

  -- The start of the file system and of the scheduler, with the messages; the heap is behind `M`.
  unfoldable pub start : Machine M image → Machine M image
  start m = record m {
    sched = scheduler_init m.sched;
    root = init_file_system M m.root;
    out = record m.out { console = say_all boot_texts m.out.console };
  }

  -- `shell_startup` and `login`, and then the shell; `banner` is the text of `shell_startup`.
  unfoldable pub kernel_main :
      (ℕ → ℕ → ℕ) → List ℕ → ℕ → List ℕ → Machine M image → Option (Effect (Machine M image))
  kernel_main wide banner fuel chars m =
      let m' = start m in
      and_then (login wide fuel chars (print_from 0 banner m'.out.console))
        (λ (name, pass, rest, t). some (run_shell fuel rest (with_console m' t)))

  -- The shell runs only after a login with a user name and a password that authenticate_user accepts: it
  -- begins with the characters typed after them, on the machine as it has been started.
  pub kernel_main-authenticate_user :
      (wide : ℕ → ℕ → ℕ) (banner : List ℕ) (fuel : ℕ) (chars : List ℕ) (m : Machine M image)
      (run : Effect (Machine M image))
      → kernel_main wide banner fuel chars m ≡ some run
      → (s : Session) × (authenticate_user wide s.0 s.1 ≡ true)
        × (login wide fuel chars (print_from 0 banner (start m).out.console) ≡ some s)
        × (run ≡ run_shell fuel s.2 (with_console (start m) s.3))
  unfolding kernel_main
  kernel_main-authenticate_user wide banner fuel chars m run e =
      elim (Option-cases (login wide fuel chars (print_from 0 banner (start m).out.console))) [
        | inl waits ↦ absurd (not_none (sym (ap after waits) ∙ e))
        | inr (s, ends) ↦ (
          s,
          subst (Accepted wide) ends
              (login-Accepted wide fuel chars (print_from 0 banner (start m).out.console)),
          ends,
          same_some (sym e ∙ ap after ends),
        )
      ]
    where
      after : Option Session → Option (Effect (Machine M image))
      after o =
          and_then o
            (λ (name, pass, rest, t). some (run_shell fuel rest (with_console (start m) t)))
