-- ===== src/Security/Keccak.antt =====
-- The permutation `keccakf` of src/sha3.c. The state is the list of its 25 lanes, 64 bits each.
use sky_net_os.Base.{
  zero, suc, set, get_or, take, drop, ltb, ℕ, List, ◌+◌, ◌-◌, ◌*◌, ◌/◌, ◌%◌, ◌^◌, ◌∷◌, [],
  if◌then◌else◌,
}
use Prim.Native.Nat.{bit_and, bit_or, bit_xor}

abbrev pub Lanes : Type 0
Lanes = List ℕ

unfoldable pub keccakf_rndc : List ℕ
keccakf_rndc =
    0x0000000000000001 ∷ 0x0000000000008082 ∷ 0x000000008000808a ∷ 0x0000000080008000
    ∷ 0x000000000000808b ∷ 0x0000000080000001 ∷ 0x0000000080008081 ∷ 0x8000000000008009
    ∷ 0x000000000000008a ∷ 0x0000000000000088 ∷ 0x0000000080008009 ∷ 0x000000008000000a
    ∷ 0x000000008000808b ∷ 0x800000000000008b ∷ 0x8000000000008089 ∷ 0x8000000000008003
    ∷ 0x8000000000008002 ∷ 0x8000000000000080 ∷ 0x000000000000800a ∷ 0x800000008000000a
    ∷ 0x8000000080008081 ∷ 0x8000000000008080 ∷ 0x0000000080000001 ∷ 0x8000000080008008 ∷ []

unfoldable pub keccakf_rotc : List ℕ
keccakf_rotc =
    1 ∷ 3 ∷ 6 ∷ 10 ∷ 15 ∷ 21 ∷ 28 ∷ 36 ∷ 45 ∷ 55 ∷ 2 ∷ 14 ∷ 27 ∷ 44 ∷ 65 ∷ 8 ∷ 25 ∷ 43 ∷ 62 ∷ 18
    ∷ 39 ∷ 61 ∷ 20 ∷ 44 ∷ []

unfoldable pub keccakf_piln : List ℕ
keccakf_piln =
    10 ∷ 7 ∷ 11 ∷ 17 ∷ 18 ∷ 3 ∷ 5 ∷ 16 ∷ 8 ∷ 21 ∷ 24 ∷ 4 ∷ 15 ∷ 23 ∷ 19 ∷ 13 ∷ 12 ∷ 2 ∷ 20 ∷ 14 ∷ 22
    ∷ 9 ∷ 6 ∷ 1 ∷ []

-- The lane at an index, which the code keeps in range.
abbrev pub lane : Lanes → ℕ → ℕ
lane st i = get_or st i 0

-- `st[i] ^= x`
unfoldable pub xor_at : ℕ → ℕ → Lanes → Lanes
xor_at i x st = set st i (bit_xor (lane st i) x)

-- A rotation by 64 or more shifts by more than the width, which C leaves undefined: what the compiled
-- program makes of it is the argument `wide`.
unfoldable pub rotl64 : (ℕ → ℕ → ℕ) → ℕ → ℕ → ℕ
rotl64 wide x y = if ltb y 64 then bit_or (x * 2 ^ y % 2 ^ 64) (x / 2 ^ (64 - y)) else wide x y

unfoldable pub parity : Lanes → ℕ → ℕ
parity st i =
    bit_xor
      (bit_xor (bit_xor (bit_xor (lane st i) (lane st (i + 5))) (lane st (i + 10)))
        (lane st (i + 15)))
      (lane st (i + 20))

-- `for (j = 0; j < 25; j += 5) st[j + i] ^= t`, with `n` rounds left.
unfoldable pub theta_column : ℕ → ℕ → ℕ → ℕ → Lanes → Lanes
theta_column zero j i t st = st
theta_column (suc n) j i t st = theta_column n (j + 5) i t (xor_at (j + i) t st)

-- The second loop of the theta step, with `n` rounds left.
unfoldable pub theta_columns : (ℕ → ℕ → ℕ) → ℕ → ℕ → List ℕ → Lanes → Lanes
theta_columns wide zero i bc st = st
theta_columns wide (suc n) i bc st =
    let t = bit_xor (lane bc ((i + 4) % 5)) (rotl64 wide (lane bc ((i + 1) % 5)) 1) in
    theta_columns wide n (i + 1) bc (theta_column 5 0 i t st)

unfoldable pub theta : (ℕ → ℕ → ℕ) → Lanes → Lanes
theta wide st =
    theta_columns wide 5 0
      (parity st 0 ∷ parity st 1 ∷ parity st 2 ∷ parity st 3 ∷ parity st 4 ∷ []) st

-- The rho and pi steps, over the rest of the two tables.
unfoldable pub rho_pi : (ℕ → ℕ → ℕ) → List ℕ → List ℕ → ℕ → Lanes → Lanes
rho_pi wide [] rotc t st = st
rho_pi wide (j ∷ piln) [] t st = st
rho_pi wide (j ∷ piln) (y ∷ rotc) t st =
    rho_pi wide piln rotc (lane st j) (set st j (rotl64 wide t y))

-- The inner loop of the chi step, with `n` rounds left.
unfoldable pub chi_row : ℕ → ℕ → ℕ → List ℕ → Lanes → Lanes
chi_row zero i j bc st = st
chi_row (suc n) i j bc st =
    chi_row n (i + 1) j bc
      (xor_at (j + i) (bit_and (2 ^ 64 - 1 - lane bc ((i + 1) % 5)) (lane bc ((i + 2) % 5))) st)

unfoldable pub chi : ℕ → ℕ → Lanes → Lanes
chi zero j st = st
chi (suc n) j st = chi n (j + 5) (chi_row 5 0 j (take 5 (drop j st)) st)

unfoldable pub keccak_round : (ℕ → ℕ → ℕ) → ℕ → Lanes → Lanes
keccak_round wide rndc st =
    let mixed = theta wide st in
    xor_at 0 rndc (chi 5 0 (rho_pi wide keccakf_piln keccakf_rotc (lane mixed 1) mixed))

unfoldable pub keccak_rounds : (ℕ → ℕ → ℕ) → List ℕ → Lanes → Lanes
keccak_rounds wide [] st = st
keccak_rounds wide (c ∷ l) st = keccak_rounds wide l (keccak_round wide c st)

unfoldable pub keccakf : (ℕ → ℕ → ℕ) → Lanes → Lanes
keccakf wide st = keccak_rounds wide keccakf_rndc st
