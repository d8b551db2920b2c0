-- ===== src/Kernel/Tests.antt =====
-- A start of the kernel, with its heap as `init_heap` leaves it.
use sky_net_os.Base.{refl, true, false, some, ap, pos, arith, codes, ℕ, Option, List, ◌≡◌, []}
use sky_net_os.Shell.Run.{Machine}
use sky_net_os.Files.Defs.{Item}
use sky_net_os.Io.Screen.{Console}
use sky_net_os.Desktop.Terminal.{Terminal}
use sky_net_os.Scheduler.State.{boot}
use sky_net_os.Files.Effects.{Effect, ok}
use sky_net_os.Kernel.Main.{
  start, kernel_main, run_shell, with_console, kernel_main-authenticate_user,
}
use sky_net_os.Security.Attempts.{Returned, login-attempts, attempts}
use sky_net_os.Kernel.Errors.{err_handler, power_off}
use sky_net_os.Security.Login.{Session, login, and_then}
use sky_net_os.Security.Password.{authenticate_user}
use sky_net_os.Io.Print.{print_from}
use sky_net_os.Files.HeapAllocator.{heap_allocator}
use sky_net_os.Memory.Heap.{init_heap}

abbrev no_image : List ℕ → List Item → List ℕ
no_image name items = []

abbrev blank_console : Console
blank_console = record { cursor_pos = 0; video = λ a. 0 }

abbrev blank_terminal : Terminal
blank_terminal = record { buf = λ row col. 0; cur_row = 0; cur_col = 0; input = [] }

abbrev off : Machine heap_allocator no_image
off = record {
  sched = boot;
  root = record { files = []; store = init_heap };
  disk = record { request_queue = []; disk_lock = false };
  out = record {
    gui_output_mode = false;
    hooked = false;
    console = blank_console;
    term = blank_terminal;
  };
}

abbrev stays : Machine heap_allocator no_image → Effect (Machine heap_allocator no_image)
stays m = ok m

abbrev zeros : ℕ → ℕ → ℕ
zeros x y = 0

abbrev started : Machine heap_allocator no_image
started = start heap_allocator no_image stays stays [] [] off

-- The login with the right password.
entered :
    Returned (
      login zeros 1
        (codes "admin\nskynet\nhelp\n")
        (print_from 0 (codes "#\n") started.out.console))
unfolding attempts
entered =
    login-attempts zeros 1 [] (codes "help\n") (print_from 0 (codes "#\n") started.out.console) tt
      (omega arith)

powered_off : (err_handler (pos 101)).1 ≡ power_off
unfolding err_handler
powered_off = refl

abbrev then_shell : Option Session → Option (Effect (Machine heap_allocator no_image))
then_shell o = and_then o (λ (name, pass, rest, t). some (
    run_shell heap_allocator no_image stays stays [] [] 1 rest
      (with_console heap_allocator no_image stays stays [] [] started t)))

abbrev shell_run : Effect (Machine heap_allocator no_image)
shell_run =
    run_shell heap_allocator no_image stays stays [] [] 1 entered.0.2
      (with_console heap_allocator no_image stays stays [] [] started entered.0.3)

kernel_main-authenticate_user_example :
    (s : Session) × (authenticate_user zeros s.0 s.1 ≡ true)
    × (login zeros 1
          (codes "admin\nskynet\nhelp\n")
          (print_from 0 (codes "#\n") started.out.console)
        ≡ some s)
    × (shell_run
        ≡ run_shell heap_allocator no_image stays stays [] [] 1 s.2
            (with_console heap_allocator no_image stays stays [] [] started s.3))
unfolding kernel_main
kernel_main-authenticate_user_example =
    kernel_main-authenticate_user heap_allocator no_image stays stays [] [] zeros (codes "#\n") 1
      (codes "admin\nskynet\nhelp\n") off shell_run (ap then_shell entered.1)
