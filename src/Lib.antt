-- ===== src/Lib.antt =====
-- SkyNetOS: verification of the kernel's own C code.
--
-- The program is a 32-bit teaching kernel. `kernel_main` starts the subsystems and hands over to a
-- shell or a desktop; a timer calls the scheduler. This library models the parts that keep state
-- of their own and states what each of them promises. Paths are from the repository's root.
--
-- The files:
--   Base        shared names, Boolean tests, lists measured by native numbers, signed integers,
--               arrays as functions with `update`, and outcomes.
--   Sync        src/sync.c and src/sync.h: spinlocks and mutexes (`spinlock_t`, `mutex_t`).
--   Scheduler   src/scheduler.c and src/scheduler.h. State: `tcb_t`, the queues and the resources;
--               Tasks: `task_create`, `task_terminate` and the operations on one task; Queues:
--               `schedule`, `task_yield`, `priority_boost`, `system_tick`; Banker:
--               `is_safe_state`, `request_resources`, `release_resources`; Mailbox: `ipc_send`,
--               `ipc_receive` and the mutex of a mailbox. Safe describes safe states without the
--               code. Reach runs sequences of calls.
--   Memory      src/memory_management.c. Pages: the page pool (`allocate_process_memory`,
--               `free_process_memory`); Heap: the block list (`malloc`, `free`).
--   Disk        src/disk_scheduler.c: `submit_disk_request` and the loop of `process_disk_requests`.
--               Sstf says what shortest seek time first means without the code.
--   Files       src/file_system.c on the root directory. Allocator is what it takes from `malloc`
--               and `free`, HeapAllocator the heap of Memory as such an allocator; `err_handler`,
--               which halts the machine, is an effect; Lookup is the directory as a map from names
--               to entries.
--   Text        src/string.c over memory as a byte for each address, and `sanitize_input` of
--               src/security.c. Loops that run to a NUL byte have fuel, and return `none` without
--               one in reach; the theorems give fuel for the string and its NUL byte.
--   Desktop     src/gui.c: Windows has `gui_create_window`, `raise_window`, `window_at` and the hit
--               tests; Terminal has the text buffer (`gui_term_putchar`, `gui_term_print`). The
--               fuel of `gui_term_print` is the length of the text, since each round takes a byte.
--               Font, Draw and Contents have the drawing, up to `gui_full_render`, Keys and Events
--               a round of `gui_event_loop` for each input; what a command of its terminal prints,
--               or that it does not come back, is an input too.
--   Vga         src/vga.c: Pixels has the drawing primitives on a buffer with a byte for each
--               offset, Modes the search for the display and the registers that a mode writes.
--   Io          src/io.c: Screen has `print_char` and the scrolling of the text screen, Print `print`
--               and `print_int`, Keyboard `read_char`, Line `read_line` and `read_line_masked`, Mouse
--               `input_poll`. Input is a list of what the controller sends; a call for which it is
--               too short waits, and its result is `none`. The 820 rounds of the scrolling loop are
--               enough for any 16-bit cursor.
--   Doom        src/doom_port.c: Wad has the file operations, Screen the picture, Keys the keys, the
--               clock and the environment.
--   Security    src/sha3.c (Keccak, Sha3), `hash_password` and `authenticate_user` of src/security.c
--               (Password), `login` of src/kernel.c (Login). A rotation by more than 63, which C
--               leaves undefined, is an argument. The message bounds the rounds of `absorb`; `login`
--               has fuel, a round for each attempt.
--   Shell       src/shell.c: Parse reads a command line, Texts has what commands print, Editor the
--               editor, Run what `handle_command` does on the scheduler, the files and the disk;
--               Printing and Answers relate what it prints to the terminal of the desktop.
--   Kernel      src/kernel.c: Errors has the messages of `err_handler`, Main `kernel_main` up to
--               `run_shell` of src/shell.c, a loop with fuel, a round for each line.
--
-- How code becomes definitions. A file's variables are the fields of a record, an operation is a
-- function from the state to the state with its result. An array is a function that `update`
-- changes; what is read or written out of range is an `Outcome` fault, and so is waiting for a
-- spinlock that nobody gives back, since the kernel runs on one processor without preemption
-- inside these functions. A queue is the list of its used entries. An `int` is an integer without
-- bound: overflow of `int` is undefined in C, and `print_int` of the least `int`, which it negates,
-- is a fault. Unsigned 32-bit arithmetic is written out with `% 2 ^ 32`. A pid of -1 that means nobody is `none`. Console output of the scheduler, the memory
-- and the disk is left out. Files is written over the interface `Allocator` of `malloc` and `free`,
-- whose laws say that the pointers which are handed out are distinct and may be freed. The heap of
-- src/memory_management.c, as Memory models it, is `heap_allocator`, which meets these laws.
--
-- Fuel. The `while` loop of `is_safe_state` runs on `task_count` rounds, since each round that goes
-- on adds to `count`, which the loop compares with `task_count`. The other loops are bounded by
-- constants of the source or run over a list.
--
-- Not modelled: the boot sector and the assembly stubs; port and memory-mapped I/O itself, the
-- serial port and the set-up of the mouse (src/io.c); the banners of src/kernel.c and what
-- `kernel_main` has after the shell, which does not return; src/PureDOOM.h, a third-party program
-- that src/doom_port.c hosts. Parameters stand for what the build decides: the address of
-- `memory_pool`, which the linker chooses, the bytes of a `directory_t`, which the compiler lays
-- out, and the rotations of src/sha3.c that C leaves undefined; and for what the machine holds: the
-- configuration registers, the time stamp counter, and the bytes of the WAD.
pub mod Base
pub mod Sync
pub mod Scheduler
pub mod Memory
pub mod Disk
pub mod Files
pub mod Text
pub mod Vga
pub mod Desktop
pub mod Io
pub mod Security
pub mod Shell
pub mod Kernel
pub mod Doom
