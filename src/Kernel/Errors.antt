-- ===== src/Kernel/Errors.antt =====
-- `err_handler` of src/kernel.c: the message for an error code, in the order of its `switch`. It prints it
-- under a banner and halts the machine.
use sky_net_os.Base.{pos, eqb_ℤ, codes, ℤ, List, ◌∷◌, ◌++◌, [], if◌then◌else◌}
use sky_net_os.Shell.Texts.{Piece, str, num}

unfoldable pub err_message : ℤ → List Piece
err_message code =
    if eqb_ℤ code (pos 1)
    then str (codes "Null Pointer Error - ERR_NULL_POINTER\n") ∷ []
    else if eqb_ℤ code (pos 2)
    then str (codes "Out Of Memory - ERR_OUT_OF_MEMORY\n") ∷ []
    else if eqb_ℤ code (pos 3)
    then str (codes "File Not Found - ERR_FILE_NOT_FOUND\n") ∷ []
    else if eqb_ℤ code (pos 10)
    then str (codes "File Already Exists - ERR_FILE_EXISTS\n") ∷ []
    else if eqb_ℤ code (pos 4)
    then str (codes "Division By Zero - ERR_DIV_BY_ZERO\n") ∷ []
    else if eqb_ℤ code (pos 5)
    then str (codes "Unknown Error - UNKNOWN_ERR\n") ∷ []
    else if eqb_ℤ code (pos 6)
    then str (codes "Unknown Command - UNKNOWN_CMD\n") ∷ []
    else if eqb_ℤ code (pos 7)
    then str (codes "System Crash - ERR_SYS_CRASH\n") ∷ []
    else if eqb_ℤ code (pos 8)
    then str (codes "System Out Of Memory - ERR_SYS_OUT_OF_MEM\n") ∷ []
    else if eqb_ℤ code (pos 101)
    then str (codes "System Shutdown Requested - System_Shutdown\n") ∷ []
    else if eqb_ℤ code (pos 9)
    then str (codes "Simulating Error\n") ∷ []
    else if eqb_ℤ code (pos 0x10)
    then str (codes "CPU Exception: x87 Floating Point (#MF)\n") ∷ []
    else if eqb_ℤ code (pos 0x11)
    then str (codes "CPU Exception: Alignment Check (#AC)\n") ∷ []
    else if eqb_ℤ code (pos 0x12)
    then str (codes "CPU Exception: Machine Check (#MC)\n") ∷ []
    else if eqb_ℤ code (pos 0x13)
    then str (codes "CPU Exception: SIMD Floating Point (#XM/#XF)\n") ∷ []
    else if eqb_ℤ code (pos 0x14)
    then str (codes "CPU Exception: Virtualization (#VE)\n") ∷ []
    else if eqb_ℤ code (pos 0x15)
    then str (codes "CPU Exception: Control Protection (#CP)\n") ∷ []
    else if eqb_ℤ code (pos 0x1C)
    then str (codes "CPU Exception: Hypervisor Injection (#HV)\n") ∷ []
    else if eqb_ℤ code (pos 0x1D)
    then str (codes "CPU Exception: VMM Communication (#VC)\n") ∷ []
    else if eqb_ℤ code (pos 0x1E)
    then str (codes "CPU Exception: Security Exception (#SX)\n") ∷ []
    else str (codes "Unhandled Error Code: ") ∷ num code ∷ str (codes "\n") ∷ []

-- All that `err_handler` prints after its banner, before it halts.
unfoldable pub err_report : ℤ → List Piece
err_report code = err_message code ++ str (codes "error logged...") ∷ []

-- It powers the machine off for `System_Shutdown`, and halts the processor for the other codes.
pub data Ending : Type 0 where
  power_off halt : Ending

unfoldable pub err_handler : ℤ → List Piece × Ending
err_handler code = (err_report code, (if eqb_ℤ code (pos 101) then power_off else halt))
