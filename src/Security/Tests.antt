-- ===== src/Security/Tests.antt =====
-- Runs of the login on small inputs.
use sky_net_os.Base.{refl, true, length, get_or, arith, codes, ℕ, ◌≡◌, ◌↔◌, ◌∷◌, []}
use sky_net_os.Security.Keccak.{rotl64}
use sky_net_os.Security.Password.{
  hex_text, authenticate_user, hex_char, hash_password, max_password_len,
}
use sky_net_os.Security.Sha3.{pad, sha3_256}
use sky_net_os.Security.Digest.{unhex, authenticate_user-sha3_256, unhex-hash_password}
use sky_net_os.Io.Screen.{Console}
use sky_net_os.Security.Attempts.{Returned, attempts, attempt, login-attempts}
use sky_net_os.Security.Login.{login}

abbrev zeros : ℕ → ℕ → ℕ
zeros x y = 0

rotated : rotl64 zeros 0x8000000000000001 1 ≡ 3
unfolding rotl64
rotated = refl

hexed : hex_text (0xA5 ∷ 0x0F ∷ []) ≡ codes "a50f"
unfolding hex_text hex_char
hexed = refl

padded : get_or (pad (1 ∷ 2 ∷ [])) 2 0 ≡ 6
unfolding pad
padded = refl

unhex-hash_password_example :
    (unhex (hash_password zeros (codes "pw") max_password_len []) ≡ sha3_256 zeros (codes "pw"))
    × (length (hash_password zeros (codes "pw") max_password_len []) ≡ 64)
unhex-hash_password_example = unhex-hash_password zeros (codes "pw")

authenticate_user-sha3_256_example :
    (authenticate_user zeros (codes "root") (codes "pw") ≡ true) ↔ (
      (codes "root" ≡ codes "admin")
      × (sha3_256 zeros (codes "pw") ≡ sha3_256 zeros (codes "skynet")))
authenticate_user-sha3_256_example = authenticate_user-sha3_256 zeros (codes "root") (codes "pw")

abbrev console : Console
console = record { cursor_pos = 0; video = λ a. 0 }

login-attempts_example : Returned (
    login zeros 2
      (attempts ((codes "a", codes "b") ∷ []) (attempt (codes "admin", codes "skynet") []))
      console)
login-attempts_example =
    login-attempts zeros 2 ((codes "a", codes "b") ∷ []) [] console
      (
        ((omega arith, omega arith, tt), omega arith, (omega arith, omega arith, tt), omega arith),
        tt,
      )
      (omega arith)
