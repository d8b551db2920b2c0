-- ===== src/Io/Mouse.antt =====
-- The mouse packets of `input_poll` in src/io.c. The two bytes that it reads from the controller, the
-- status and the byte of input, are arguments.
use sky_net_os.Base.{
  pos, not, update, ℕ, ℤ, Bool, ◌/◌, ◌%◌, ◌^◌, ◌||◌, ◌==◌, ◌-ℤ◌, if◌then◌else◌, sub_ℕ,
}

-- `mouse_cycle` and `mouse_packet`.
pub record Mouse : Type 0 where
  pub mouse_cycle : ℕ
  pub mouse_packet : ℕ → ℕ

-- What `input_poll` returns, with what it has stored through its pointers.
pub data Input : Type 0 where
  input_none : Input
  input_keyboard : ℕ → Input
  input_mouse : ℤ → ℤ → ℕ → Input

-- The test `x & (1 << k)`.
abbrev pub bit_set : ℕ → ℕ → Bool
bit_set k x = x / 2 ^ k % 2 == 1

-- A byte of movement with its sign bit: `d |= 0xFFFFFF00`.
unfoldable pub movement : Bool → ℕ → ℤ
movement negative d = if negative then sub_ℕ d 256 else pos d

-- The third byte of a packet.
unfoldable pub finish_packet : ℕ → ℕ → ℕ → Input
finish_packet first second third =
    let overflow = bit_set 6 first || bit_set 7 first in
    let dx = if overflow then pos 0 else movement (bit_set 4 first) second in
    let dy = if overflow then pos 0 else movement (bit_set 5 first) third in
    input_mouse dx (pos 0 -ℤ dy) (first % 8)

unfoldable pub mouse_byte : ℕ → Mouse → Input × Mouse
mouse_byte byte m =
    let stored : ℕ → ℕ → Mouse =
      λ k cycle. record { mouse_cycle = cycle; mouse_packet = update m.mouse_packet k byte } in
    if m.mouse_cycle == 0
    then (input_none, (if bit_set 3 byte then stored 0 1 else m))
    else if m.mouse_cycle == 1
    then (input_none, stored 1 2)
    else if m.mouse_cycle == 2
    then (finish_packet (m.mouse_packet 0) (m.mouse_packet 1) byte, stored 2 0)
    else (input_none, m)

unfoldable pub input_poll : ℕ → ℕ → Mouse → Input × Mouse
input_poll status byte m =
    if not (bit_set 0 status)
    then (input_none, m)
    else if bit_set 5 status
    then mouse_byte byte m
    else (input_keyboard byte, m)
