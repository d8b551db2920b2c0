-- ===== src/Shell/Tests.antt =====
-- Runs of the shell on small inputs.
use sky_net_os.Files.Effects.{Effect, ok}
use sky_net_os.Files.Defs.{bytes, Item}
use sky_net_os.Base.{refl, true, pos, arith, codes, same_text, ◌≡◌, ◌∷◌, [], false, ℕ, List, done}
use sky_net_os.Shell.Run.{Machine}
use sky_net_os.Shell.Parse.{
  sim_load, kill, ipc_send, parse_command, cut_background, parse_text, starts, digit_at,
}
use sky_net_os.Shell.Editor.{edit_lines}
use sky_net_os.Shell.Printed.{show_command, digit, parse_command-show_command}
use sky_net_os.Scheduler.State.{boot}
use sky_net_os.Shell.Saved.{Saved}
use sky_net_os.Memory.Heap.{Heap, block}
use sky_net_os.Files.HeapAllocator.{heap_allocator}

in_background : parse_command [] (codes "sim-load &") ≡ done (sim_load true)
unfolding parse_command cut_background parse_text same_text starts
in_background = refl

-- The pid of a command is its one character: the rest is not read.
first_digit : parse_command [] (codes "kill 12") ≡ done (kill (pos 1))
unfolding parse_command cut_background parse_text same_text starts digit_at
first_digit = refl

kept_lines : (edit_lines (codes "ab" ∷ codes ":wq" ∷ codes "c" ∷ []) (codes "x")).0 ≡ codes "xab\n"
unfolding edit_lines same_text
kept_lines = refl

parse_command-show_command_example :
    parse_command [] (show_command (ipc_send (pos 3) (codes "hi")))
    ≡ done (ipc_send (pos 3) (codes "hi"))
unfolding show_command digit
parse_command-show_command_example =
    parse_command-show_command [] (ipc_send (pos 3) (codes "hi"))
      (omega arith, ((λ e. omega arith), ((λ e. omega arith), tt))) (λ e. omega arith) (omega arith)

-- A heap with two used blocks, at the pointers 12 and 724.
abbrev file_heap : Heap
file_heap = record {
  blocks = block 0 700 false ∷ block 712 100 false ∷ block 824 33553596 true ∷ [];
  heap_lock = false;
}

abbrev no_image : List ℕ → List Item → List ℕ
no_image name items = []

-- A machine with the file "a", which holds "x".
abbrev with_file : Machine heap_allocator no_image
with_file = record {
  sched = boot;
  root = record {
    files =
        record {
          self = 12;
          name = codes "a";
          size = 1;
          contents = bytes 724 (codes "x");
          is_directory = false;
        }
        ∷ [];
    store = file_heap;
  };
  disk = record { request_queue = []; disk_lock = false };
  out = record {
    gui_output_mode = false;
    hooked = false;
    console = record { cursor_pos = 0; video = λ a. 0 };
    term = record { buf = λ row col. 0; cur_row = 0; cur_col = 0; input = [] };
  };
}

abbrev stays : Machine heap_allocator no_image → Effect (Machine heap_allocator no_image)
stays m = ok m
