-- ===== src/Security/Sha3.antt =====
-- `sha3_256` of src/sha3.c, for a message as the list of its bytes.
use sky_net_os.Base.{
  zero, suc, length, set, get_or, drop, replicate, leb, ℕ, List, ◌+◌, ◌-◌, ◌*◌, ◌/◌, ◌%◌, ◌^◌, ◌∷◌,
  ◌++◌, [], if◌then◌else◌,
}
use Prim.Native.Nat.{bit_or}
use sky_net_os.Security.Keccak.{Lanes, keccakf, xor_at, lane}

abbrev pub sha3_256_rate : ℕ
sha3_256_rate = 136

-- The loop that puts eight bytes into a lane, with `n` rounds left.
unfoldable pub lane_from : ℕ → ℕ → List ℕ → ℕ → ℕ
lane_from zero j msg acc = acc
lane_from (suc n) j msg acc = lane_from n (j + 1) msg (bit_or acc (get_or msg j 0 * 2 ^ (8 * j)))

-- The loop over the lanes of a block, with `n` rounds left.
unfoldable pub absorb_block : ℕ → ℕ → List ℕ → Lanes → Lanes
absorb_block zero i msg st = st
absorb_block (suc n) i msg st =
    absorb_block n (i + 1) msg (xor_at i (lane_from 8 0 (drop (i * 8) msg) 0) st)

-- The absorb phase, at most `fuel` blocks: what is left of the message, and the state.
unfoldable pub absorb : (ℕ → ℕ → ℕ) → ℕ → List ℕ → Lanes → List ℕ × Lanes
absorb wide zero msg st = (msg, st)
absorb wide (suc fuel) msg st =
    let rest =
      absorb wide fuel (drop sha3_256_rate msg) (keccakf wide (absorb_block 17 0 msg st)) in
    if leb sha3_256_rate (length msg) then rest else (msg, st)

-- `temp` with the rest of the message and the padding.
unfoldable pub pad : List ℕ → List ℕ
pad msg =
    let temp = set (msg ++ replicate (sha3_256_rate - length msg) 0) (length msg) 0x06 in
    set temp (sha3_256_rate - 1) (bit_or (get_or temp (sha3_256_rate - 1) 0) 0x80)

-- The bytes of a lane, with `n` rounds left.
unfoldable pub squeeze_lane : ℕ → ℕ → ℕ → List ℕ
squeeze_lane zero j x = []
squeeze_lane (suc n) j x = (x / 2 ^ (8 * j) % 2 ^ 8) ∷ squeeze_lane n (j + 1) x

unfoldable pub squeeze : ℕ → ℕ → Lanes → List ℕ
squeeze zero i st = []
squeeze (suc n) i st = squeeze_lane 8 0 (lane st i) ++ squeeze n (i + 1) st

-- The message has at most `length msg` blocks.
unfoldable pub sha3_256 : (ℕ → ℕ → ℕ) → List ℕ → List ℕ
sha3_256 wide msg =
    let absorbed = absorb wide (length msg) msg (replicate 25 0) in
    squeeze 4 0 (keccakf wide (absorb_block 17 0 (pad absorbed.0) absorbed.1))
