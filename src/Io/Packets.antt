-- ===== src/Io/Packets.antt =====
-- The mouse protocol of `input_poll` in src/io.c.
-- A mouse's byte for a movement from -256 to 255.
use sky_net_os.Base.{
  pos, negsuc, pos_part, neg_part, ℕ, ℤ, Bool, ◌+◌, ◌-◌, ◌*◌, ◌<◌, ◌≡◌, ◌==◌, ◌-ℤ◌, suc, refl, true,
  false, sym, ap, ap₂, subst, arith, update, if-true, if-false, ◌/◌, ◌%◌, ◌∙◌, ◌||◌, sub_ℕ,
}
use sky_net_os.Io.Mouse.{
  movement, finish_packet, input_poll, input_mouse, mouse_byte, Mouse, input_none, bit_set, Input,
}

abbrev pub low_byte : ℤ → ℕ
low_byte (pos n) = n
low_byte (negsuc n) = 255 - n

-- Its sign bit.
abbrev pub sign_bit : ℤ → ℕ
sign_bit (pos n) = 0
sign_bit (negsuc n) = 1

-- A movement that the 9 bits of a packet can hold.
abbrev pub InRange : ℤ → Type 0
InRange z = pos_part z + neg_part z < 256

-- The first byte of a packet: the buttons, the sync bit and the signs.
abbrev pub head_byte : ℕ → ℤ → ℤ → ℕ
head_byte buttons dx dy = buttons + 8 + 16 * sign_bit dx + 32 * sign_bit dy

below_zero : (n : ℕ) → 0 + suc n < 256 → sub_ℕ (255 - n) 256 ≡ negsuc n
below_zero n low = ground arith

movement_lem : (z : ℤ) (b : Bool) → InRange z → b ≡ (sign_bit z == 1) → movement b (low_byte z) ≡ z
unfolding movement
movement_lem (pos n) b low e = if-false {b = b} _ _ e
movement_lem (negsuc n) b low e = if-true {b = b} _ _ e ∙ below_zero n low

-- The status byte of the controller for a byte of the mouse.
abbrev pub aux_status : ℕ
aux_status = 0x21

abbrev head : ℕ → ℕ → ℕ → ℕ
head buttons sx sy = buttons + 8 + 16 * sx + 32 * sy

head_bits :
    (buttons sx sy : ℕ)
    → buttons < 8
    → sx < 2
    → sy < 2
    → (head buttons sx sy % 8 ≡ buttons)
      × (head buttons sx sy / 8 % 2 ≡ 1)
      × (head buttons sx sy / 16 % 2 ≡ sx)
      × (head buttons sx sy / 32 % 2 ≡ sy)
      × (head buttons sx sy / 64 % 2 ≡ 0)
      × (head buttons sx sy / 128 % 2 ≡ 0)
head_bits buttons sx sy few x y =
    (omega arith, omega arith, omega arith, omega arith, omega arith, omega arith)

sign_bit-below : (z : ℤ) → sign_bit z < 2
sign_bit-below (pos n) = omega arith
sign_bit-below (negsuc n) = omega arith

input_mouse_same :
    {a b c d : ℤ} {k l : ℕ}
    → a ≡ b
    → c ≡ d
    → k ≡ l
    → input_mouse a (pos 0 -ℤ c) k ≡ input_mouse b (pos 0 -ℤ d) l
input_mouse_same {a} {b} {c} {d} {k} {l} e f g =
    ap₂ (λ x z. input_mouse x (pos 0 -ℤ c) z) e g ∙ ap (λ y. input_mouse b (pos 0 -ℤ y) l) f

finish_packet_lem :
    (dx dy : ℤ) (buttons : ℕ)
    → InRange dx
    → InRange dy
    → buttons < 8
    → finish_packet (head_byte buttons dx dy) (low_byte dx) (low_byte dy)
      ≡ input_mouse dx (pos 0 -ℤ dy) buttons
unfolding finish_packet
finish_packet_lem dx dy buttons wide tall few =
    let bits =
      head_bits buttons (sign_bit dx) (sign_bit dy) few (sign_bit-below dx) (sign_bit-below dy) in
    let kept : (bit_set 6 (head_byte buttons dx dy) || bit_set 7 (head_byte buttons dx dy))
        ≡ false =
      ap₂ (λ a b. (a == 1) || (b == 1)) bits.4 bits.5 in
    let right = movement_lem dx _ wide (ap (λ a. a == 1) bits.2) in
    let up = movement_lem dy _ tall (ap (λ a. a == 1) bits.3) in
    input_mouse_same (if-false (pos 0) _ kept ∙ right) (if-false (pos 0) _ kept ∙ up) bits.0

mouse_byte-head :
    (byte : ℕ) (m : Mouse)
    → m.mouse_cycle ≡ 0
    → bit_set 3 byte ≡ true
    → mouse_byte byte m
      ≡ (input_none, record { mouse_cycle = 1; mouse_packet = update m.mouse_packet 0 byte })
unfolding mouse_byte
mouse_byte-head byte m start sync =
    let zero_cycle : (m.mouse_cycle == 0) ≡ true = ground arith in
    if-true _ _ zero_cycle ∙ ap (λ (t : Mouse). (input_none, t)) (if-true _ m sync)

-- The three bytes that a mouse sends for a movement of (dx, dy), up being positive, and its buttons: the
-- first two polls report nothing and the third one the movement, with y down, and the buttons; the next
-- packet starts then.
pub input_poll-head_byte :
    (dx dy : ℤ) (buttons : ℕ) (m : Mouse)
    → m.mouse_cycle ≡ 0
    → InRange dx
    → InRange dy
    → buttons < 8
    → (let first = input_poll aux_status (head_byte buttons dx dy) m in
        let second = input_poll aux_status (low_byte dx) first.1 in
        let third = input_poll aux_status (low_byte dy) second.1 in
        (first.0 ≡ input_none)
        × (second.0 ≡ input_none)
        × (third.0 ≡ input_mouse dx (pos 0 -ℤ dy) buttons)
        × (third.1.mouse_cycle ≡ 0))
unfolding input_poll mouse_byte
input_poll-head_byte dx dy buttons m start wide tall few =
    let bits =
      head_bits buttons (sign_bit dx) (sign_bit dy) few (sign_bit-below dx) (sign_bit-below dy) in
    let begun = mouse_byte-head (head_byte buttons dx dy) m start (ap (λ a. a == 1) bits.1) in
    subst
      (λ (r : Input × Mouse).
        (r.0 ≡ input_none)
        × ((mouse_byte (low_byte dx) r.1).0 ≡ input_none)
        × ((mouse_byte (low_byte dy) (mouse_byte (low_byte dx) r.1).1).0
            ≡ input_mouse dx (pos 0 -ℤ dy) buttons)
        × ((mouse_byte (low_byte dy) (mouse_byte (low_byte dx) r.1).1).1.mouse_cycle ≡ 0))
      (sym begun) (refl, refl, finish_packet_lem dx dy buttons wide tall few, refl)
