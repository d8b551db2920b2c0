-- ===== src/Security/Digest.antt =====
-- A digest is 32 bytes, its hexadecimal text determines it, and so `authenticate_user` of
-- src/security.c compares digests.
use sky_net_os.Base.{
  zero, suc, refl, true, ap₂, subst, length, ltb, arith, codes, ℕ, Bool, List, ◌+◌, ◌-◌, ◌*◌, ◌/◌,
  ◌%◌, ◌^◌, ◌<◌, ◌≡◌, ◌↔◌, ◌∷◌, ◌++◌, ◌&&◌, ◌==◌, [], if◌then◌else◌, ==_iff, sym, ap, same_text,
  same_text-eq, same_text_refl, ◌∙◌,
}
use native.Mathlib.Decide.{ℕ_discrete}
use sky_net_os.Security.Sha3.{squeeze_lane, squeeze, sha3_256}
use sky_net_os.Security.Password.{
  hex_char, hex_text, hash_password, authenticate_user, max_password_len,
}
use sky_net_os.Security.Keccak.{lane}

-- Every number of the list is a byte.
abbrev pub AllBytes : List ℕ → Type 0
AllBytes [] = Unit
AllBytes (b ∷ l) = (b < 256) × AllBytes l

AllBytes-append : (l m : List ℕ) → AllBytes l → AllBytes m → AllBytes (l ++ m)
AllBytes-append [] m h k = k
AllBytes-append (b ∷ l) m (low, h) k = (low, AllBytes-append l m h k)

byte_below : (x : ℕ) → x % 2 ^ 8 < 256
byte_below x = omega arith

squeeze_lane-AllBytes : (n j x : ℕ) → AllBytes (squeeze_lane n j x)
unfolding squeeze_lane
squeeze_lane-AllBytes zero j x = tt
squeeze_lane-AllBytes (suc n) j x =
    (byte_below (x / 2 ^ (8 * j)), squeeze_lane-AllBytes n (j + 1) x)

squeeze-AllBytes : (n i : ℕ) (st : List ℕ) → AllBytes (squeeze n i st)
unfolding squeeze
squeeze-AllBytes zero i st = tt
squeeze-AllBytes (suc n) i st =
    AllBytes-append (squeeze_lane 8 0 (lane st i)) (squeeze n (i + 1) st)
      (squeeze_lane-AllBytes 8 0 (lane st i)) (squeeze-AllBytes n (i + 1) st)

-- The number of a hexadecimal digit in lower case.
unfoldable pub hex_value : ℕ → ℕ
hex_value c = if ltb c 58 then c - 48 else c - 87

all_below : ℕ → (ℕ → Bool) → Bool
all_below zero f = true
all_below (suc n) f = f n && all_below n f

all_below_lem : (k : ℕ) (f : ℕ → Bool) (n : ℕ) → all_below k f ≡ true → n < k → f n ≡ true
unfolding all_below
all_below_lem zero f n h lt = absurd (omega arith)
all_below_lem (suc k) f n h lt = elim (ℕ_discrete k n) [
  | yes e ↦ subst (λ i. f i ≡ true) e (ground arith)
  | no ne ↦ let rest : all_below k f ≡ true = ground arith in all_below_lem k f n rest (omega arith)
]

all_digits : all_below 16 (λ n. hex_value (hex_char n) == n) ≡ true
unfolding all_below hex_value hex_char
all_digits = refl

hex_value-hex_char : (x : ℕ) → x < 16 → hex_value (hex_char x) ≡ x
hex_value-hex_char x low =
    let checked = all_below_lem 16 (λ n. hex_value (hex_char n) == n) x all_digits low in
    (==_iff (hex_value (hex_char x)) x).0 checked

-- A hexadecimal text as the bytes that it stands for.
unfoldable pub unhex : List ℕ → List ℕ
unhex [] = []
unhex (a ∷ []) = []
unhex (a ∷ b ∷ l) = (hex_value a * 2 ^ 4 + hex_value b) ∷ unhex l

unhex-hex_text : (raw : List ℕ) → AllBytes raw → unhex (hex_text raw) ≡ raw
unfolding unhex hex_text
unhex-hex_text [] h = refl
unhex-hex_text (b ∷ raw) (low, h) =
    let high = hex_value-hex_char (b / 2 ^ 4) (omega arith) in
    let rest = hex_value-hex_char (b % 2 ^ 4) (omega arith) in
    let byte : hex_value (hex_char (b / 2 ^ 4)) * 2 ^ 4 + hex_value (hex_char (b % 2 ^ 4)) ≡ b =
      omega arith in
    ap₂ (λ x l. x ∷ l) byte (unhex-hex_text raw h)

sha3_256-AllBytes : (wide : ℕ → ℕ → ℕ) (msg : List ℕ) → AllBytes (sha3_256 wide msg)
unfolding sha3_256
sha3_256-AllBytes wide msg = squeeze-AllBytes 4 0 _

length-hex_text : (raw : List ℕ) → length (hex_text raw) ≡ 2 * length raw
unfolding hex_text
length-hex_text [] = refl
length-hex_text (b ∷ raw) = let rest = length-hex_text raw in omega arith

length-sha3_256 : (wide : ℕ → ℕ → ℕ) (msg : List ℕ) → length (sha3_256 wide msg) ≡ 32
unfolding sha3_256 squeeze squeeze_lane
length-sha3_256 wide msg = refl

-- The digest of a password can be read back from its hexadecimal text, which has 64 characters.
pub unhex-hash_password :
    (wide : ℕ → ℕ → ℕ) (password : List ℕ)
    → (unhex (hash_password wide password max_password_len []) ≡ sha3_256 wide password)
      × (length (hash_password wide password max_password_len []) ≡ 64)
unfolding hash_password
unhex-hash_password wide password = (
  unhex-hex_text (sha3_256 wide password) (sha3_256-AllBytes wide password),
  length-hex_text (sha3_256 wide password) ∙ ap (λ n. 2 * n) (length-sha3_256 wide password),
)

both_true : {a b : Bool} → (a && b) ≡ true → (a ≡ true) × (b ≡ true)
both_true {a} {b} h = (ground arith, ground arith)

-- authenticate_user accepts exactly the user name admin with a password whose digest is that of the
-- stored password, whatever the machine does for a rotation by more than 63.
pub authenticate_user-sha3_256 :
    (wide : ℕ → ℕ → ℕ) (username password : List ℕ)
    → (authenticate_user wide username password ≡ true)
      ↔ ((username ≡ codes "admin") × (sha3_256 wide password ≡ sha3_256 wide (codes "skynet")))
unfolding authenticate_user hash_password
authenticate_user-sha3_256 wide username password =
    let hashed = unhex-hash_password wide password in
    let stored = unhex-hash_password wide (codes "skynet") in
    (
      (λ h.
          let both = both_true h in
          (
            same_text-eq username (codes "admin") both.0,
            sym hashed.0 ∙ ap unhex (same_text-eq _ _ both.1) ∙ stored.0,
          )),
      (λ (u, p).
          ap₂ (λ a b. a && b)
            (ap (λ t. same_text t (codes "admin")) u ∙ same_text_refl (codes "admin"))
            (ap
                (λ d.
                  same_text (hex_text d) (hash_password wide (codes "skynet") max_password_len []))
                p
              ∙ same_text_refl (hash_password wide (codes "skynet") max_password_len []))),
    )
