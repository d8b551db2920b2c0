-- ===== src/Security/Password.antt =====
-- `hash_password` and `authenticate_user` of src/security.c, for the texts of their C strings.
use sky_net_os.Base.{
  get_or, ltb, codes, same_text, ℕ, Bool, List, ◌/◌, ◌%◌, ◌^◌, ◌∷◌, ◌&&◌, [], if◌then◌else◌,
}
use sky_net_os.Security.Sha3.{sha3_256}

abbrev pub max_username_len : ℕ
max_username_len = 32

abbrev pub max_password_len : ℕ
max_password_len = 65

-- `hex_chars[x]`
unfoldable pub hex_char : ℕ → ℕ
hex_char x = get_or (codes "0123456789abcdef") x 0

unfoldable pub hex_text : List ℕ → List ℕ
hex_text [] = []
hex_text (b ∷ raw) = hex_char (b / 2 ^ 4) ∷ hex_char (b % 2 ^ 4) ∷ hex_text raw

-- The text in `hash` afterwards; `old` is what it held.
unfoldable pub hash_password : (ℕ → ℕ → ℕ) → List ℕ → ℕ → List ℕ → List ℕ
hash_password wide password max_len old =
    if ltb max_len 65 then old else hex_text (sha3_256 wide password)

unfoldable pub authenticate_user : (ℕ → ℕ → ℕ) → List ℕ → List ℕ → Bool
authenticate_user wide username password =
    let stored_hash = hash_password wide (codes "skynet") max_password_len [] in
    let input_hash = hash_password wide password max_password_len [] in
    same_text username (codes "admin") && same_text input_hash stored_hash
