-- ===== src/Security/Login.antt =====
-- `login` of src/kernel.c, over the characters that are typed.
use sky_net_os.Base.{zero, suc, none, some, codes, ℕ, Option, List, if◌then◌else◌}
use sky_net_os.Io.Screen.{Console}
use sky_net_os.Io.Print.{print_from}
use sky_net_os.Io.Line.{read_line, read_line_masked}
use sky_net_os.Security.Password.{authenticate_user, max_username_len, max_password_len}

-- The user name and the password that were read last, the characters that are left, and the console.
abbrev pub Session : Type 0
Session = List ℕ × List ℕ × List ℕ × Console

abbrev pub and_then {ℓ κ} : {A : Type ℓ} {B : Type κ} → Option A → (A → Option B) → Option B
and_then none f = none
and_then (some a) f = f a

unfoldable pub say : List ℕ → Console → Console
say text s = print_from 0 text s

-- The two prompts and what is typed at them.
unfoldable pub ask : List ℕ → Console → Option Session
ask chars s = and_then (read_line max_username_len chars (say (codes "Username: ") s)) (λ name.
    and_then (read_line_masked max_password_len name.1 (say (codes "Password: ") name.2))
      (λ pass. some (name.0, pass.0, pass.1, pass.2)))

-- The loop, at most `fuel` rounds; `none` where it still waits for characters or goes on.
unfoldable pub login : (ℕ → ℕ → ℕ) → ℕ → List ℕ → Console → Option Session
login wide zero chars s = none
login wide (suc fuel) chars s = and_then (ask chars s) (λ (name, pass, rest, t).
    let again = login wide fuel rest (say (codes "Authentication Failed. Try again.\n") t) in
    if authenticate_user wide name pass
    then some (name, pass, rest, say (codes "Authentication Successful!\n") t)
    else again)
