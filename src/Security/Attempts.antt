-- ===== src/Security/Attempts.antt =====
-- Who gets past `login` of src/kernel.c, and that the right password does.
-- A login that ends has the user name and the password that `authenticate_user` accepts.
use sky_net_os.Io.Typing.{read_line-Printable}
use sky_net_os.Base.{
  zero, suc, inl, inr, true, none, some, sym, subst, length, Bool-cases, arith, if-true, if-false,
  codes, ℕ, Option, List, ◌-◌, ◌<◌, ◌≡◌, ◌∷◌, ◌++◌, [], if◌then◌else◌, refl, false, ap, Bool, ◌∙◌,
}
use sky_net_os.Security.Login.{Session, login, ask, and_then, say}
use sky_net_os.Io.Screen.{Console}
use sky_net_os.Io.Lines.{Printable, text_of}
use sky_net_os.Io.Line.{Line, read_line_masked, read_line}
use sky_net_os.Security.Password.{authenticate_user, max_username_len, max_password_len}
use sky_net_os.Security.Digest.{authenticate_user-sha3_256}

abbrev pub Accepted : (ℕ → ℕ → ℕ) → Option Session → Type 0
Accepted wide none = Unit
Accepted wide (some (name, pass, rest, s)) = authenticate_user wide name pass ≡ true

Accepted-if :
    (wide : ℕ → ℕ → ℕ) (name pass rest : List ℕ) (s : Console) (again : Option Session)
    → Accepted wide again
    → Accepted wide (if authenticate_user wide name pass then some (name, pass, rest, s) else again)
Accepted-if wide name pass rest s again h = elim (Bool-cases (authenticate_user wide name pass)) [
  | inl ok ↦ subst (Accepted wide) (sym (if-true _ again ok)) ok
  | inr wrong ↦ subst (Accepted wide) (sym (if-false (some (name, pass, rest, s)) again wrong)) h
]

Accepted-and_then :
    (wide : ℕ → ℕ → ℕ) (o : Option Session) (f : Session → Option Session)
    → ((r : Session) → Accepted wide (f r))
    → Accepted wide (and_then o f)
Accepted-and_then wide none f h = tt
Accepted-and_then wide (some r) f h = h r

-- The login loop ends with a user name and a password that authenticate_user accepts, or it goes on,
-- whatever is typed.
pub login-Accepted :
    (wide : ℕ → ℕ → ℕ) (fuel : ℕ) (chars : List ℕ) (s : Console)
    → Accepted wide (login wide fuel chars s)
unfolding login
login-Accepted wide zero chars s = tt
login-Accepted wide (suc fuel) chars s =
    Accepted-and_then wide (ask chars s) _ (λ (name, pass, rest, t).
      Accepted-if wide name pass rest _ _ (login-Accepted wide fuel rest _))

-- A pair of texts that fit their buffers.
abbrev pub IsAttempt : List ℕ × List ℕ → Type 0
IsAttempt (name, pass) =
    Printable name
    × (length name < max_username_len - 1)
    × Printable pass
    × (length pass < max_password_len - 1)

abbrev pub AllAttempts : List (List ℕ × List ℕ) → Type 0
AllAttempts [] = Unit
AllAttempts (a ∷ l) = IsAttempt a × AllAttempts l

-- The characters that are typed for an attempt, and for a list of them.
abbrev pub attempt : List ℕ × List ℕ → List ℕ → List ℕ
attempt (name, pass) rest = name ++ 10 ∷ (pass ++ 10 ∷ rest)

unfoldable pub attempts : List (List ℕ × List ℕ) → List ℕ → List ℕ
attempts [] rest = rest
attempts (a ∷ l) rest = attempt a (attempts l rest)

some-inj : {p q : List ℕ × List ℕ} → some p ≡ some q → p ≡ q
some-inj {p} {q} h = ap (from_some p) h
  where
    from_some : List ℕ × List ℕ → Option (List ℕ × List ℕ) → List ℕ × List ℕ
    from_some d none = d
    from_some d (some x) = x

text_of-some :
    (o : Option Line) (line chars : List ℕ)
    → text_of o ≡ some (line, chars)
    → (s : Console) × (o ≡ some (line, chars, s))
text_of-some none line chars h = ground arith
text_of-some (some (l, c, s)) line chars h =
    (s, ap (λ (p : List ℕ × List ℕ). some (p.0, p.1, s)) (some-inj h))

-- What `ask` does after each of its reads.
abbrev after_pass : List ℕ → Line → Option Session
after_pass name (pass, rest, t) = some (name, pass, rest, t)

abbrev after_name : Line → Option Session
after_name (name, chars, t) =
    and_then (read_line_masked max_password_len chars (say (codes "Password: ") t))
      (after_pass name)

-- The two prompts read an attempt.
ask_lem :
    (name pass rest : List ℕ) (s : Console)
    → IsAttempt (name, pass)
    → (t : Console) × (ask (attempt (name, pass) rest) s ≡ some (name, pass, rest, t))
unfolding ask
ask_lem name pass rest s (shown, fits, printable, short) =
    let at_name = say (codes "Username: ") s in
    let (t, e) =
      text_of-some (read_line max_username_len (name ++ 10 ∷ (pass ++ 10 ∷ rest)) at_name) name
        (pass ++ 10 ∷ rest)
        (read_line-Printable max_username_len name (pass ++ 10 ∷ rest) at_name shown fits).0 in
    let at_pass = say (codes "Password: ") t in
    let (u, f) =
      text_of-some (read_line_masked max_password_len (pass ++ 10 ∷ rest) at_pass) pass rest
        (read_line-Printable max_password_len pass rest at_pass printable short).1 in
    (u, ap (λ o. and_then o after_name) e ∙ ap (λ o. and_then o (after_pass name)) f)

-- What `login` does after `ask`.
abbrev after_ask : (ℕ → ℕ → ℕ) → ℕ → Session → Option Session
after_ask wide fuel (name, pass, rest, t) =
    if authenticate_user wide name pass
    then some (name, pass, rest, say (codes "Authentication Successful!\n") t)
    else login wide fuel rest (say (codes "Authentication Failed. Try again.\n") t)

-- The call does not go on.
abbrev pub Returned : Option Session → Type 0
Returned o = (r : Session) × (o ≡ some r)

Returned-if :
    (b : Bool) (r : Session) (o : Option Session) → Returned o → Returned (if b then some r else o)
Returned-if true r o h = (r, refl)
Returned-if false r o h = h

admin-IsAttempt : IsAttempt (codes "admin", codes "skynet")
admin-IsAttempt = (
  (
    omega arith,
    omega arith,
    (
      omega arith,
      omega arith,
      (omega arith, omega arith, (omega arith, omega arith, (omega arith, omega arith, tt))),
    ),
  ),
  omega arith,
  (
    omega arith,
    omega arith,
    (
      omega arith,
      omega arith,
      (
        omega arith,
        omega arith,
        (omega arith, omega arith, (omega arith, omega arith, (omega arith, omega arith, tt))),
      ),
    ),
  ),
  omega arith,
)

-- The login loop ends, once the user name admin and the stored password have been typed after any
-- number of attempts that fit the buffers, where the fuel is above their number.
pub login-attempts :
    (wide : ℕ → ℕ → ℕ) (fuel : ℕ) (l : List (List ℕ × List ℕ)) (rest : List ℕ) (s : Console)
    → AllAttempts l
    → length l < fuel
    → Returned (login wide fuel (attempts l (attempt (codes "admin", codes "skynet") rest)) s)
unfolding login attempts
login-attempts wide zero l rest s all enough = absurd (omega arith)
login-attempts wide (suc fuel) [] rest s all enough =
    let (t, e) = ask_lem (codes "admin") (codes "skynet") rest s admin-IsAttempt in
    let right = (authenticate_user-sha3_256 wide (codes "admin") (codes "skynet")).1 (refl, refl) in
    (
      _,
      ap (λ o. and_then o (after_ask wide fuel)) e
          ∙ if-true _ (login wide fuel rest (say (codes "Authentication Failed. Try again.\n") t))
              right,
    )
login-attempts wide (suc fuel) ((name, pass) ∷ l) rest s (first, others) enough =
    let later = attempts l (attempt (codes "admin", codes "skynet") rest) in
    let (t, e) = ask_lem name pass later s first in
    let again =
      login-attempts wide fuel l rest (say (codes "Authentication Failed. Try again.\n") t) others
        (omega arith) in
    subst Returned (sym (ap (λ o. and_then o (after_ask wide fuel)) e))
      (Returned-if (authenticate_user wide name pass) _ _ again)
