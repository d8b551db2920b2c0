-- ===== src/Vga/Modes.antt =====
-- The display modes of src/vga.c: the search of the PCI bus for the display, and the registers that
-- are written. The value of a configuration register is the argument `config`, by its address.
use sky_net_os.Base.{
  zero, suc, none, some, arith, ℕ, Bool, Option, List, ◌+◌, ◌*◌, ◌/◌, ◌%◌, ◌^◌, ◌<◌, ◌≡◌, ◌∷◌, ◌&&◌,
  ◌==◌, [], if◌then◌else◌,
}
use sky_net_os.Vga.Pixels.{vga_width, vga_height}

-- The fields of the address do not overlap, so that their `|` is a sum.
unfoldable pub pci_address : ℕ → ℕ → ℕ → ℕ → ℕ
pci_address bus slot func offset =
    2 ^ 31 + bus * 2 ^ 16 + slot * 2 ^ 11 + func * 2 ^ 8 + offset / 4 * 4

unfoldable pub pci_config_read : (ℕ → ℕ) → ℕ → ℕ → ℕ → ℕ → ℕ
pci_config_read config bus slot func offset = config (pci_address bus slot func offset) % 2 ^ 32

unfoldable pub is_bochs : (ℕ → ℕ) → ℕ → ℕ → Bool
is_bochs config bus slot =
    let id = pci_config_read config bus slot 0 0 in
    id % 2 ^ 16 == 0x1234 && id / 2 ^ 16 % 2 ^ 16 == 0x1111

-- The loop over the slots of a bus, `n` of them from `slot` on.
unfoldable pub find_slot : (ℕ → ℕ) → ℕ → ℕ → ℕ → Option ℕ
find_slot config bus zero slot = none
find_slot config bus (suc n) slot =
    let rest = find_slot config bus n (slot + 1) in
    if is_bochs config bus slot
    then some (pci_config_read config bus slot 0 0x10 / 16 * 16)
    else rest

-- The loop over the buses, `n` of them from `bus` on.
unfoldable pub find_bus : (ℕ → ℕ) → ℕ → ℕ → Option ℕ
find_bus config zero bus = none
find_bus config (suc n) bus =
    let rest = find_bus config n (bus + 1) in
    elim (find_slot config bus 32 0) [ none ↦ rest | some bar ↦ some bar ]

unfoldable pub find_bochs_vga_lfb : (ℕ → ℕ) → ℕ
find_bochs_vga_lfb config = elim (find_bus config 256 0) [ none ↦ 0xE0000000 | some bar ↦ bar ]

-- A call of `bga_write_register`: the index and the value.
abbrev pub Write : Type 0
Write = ℕ × ℕ

-- The address of the frame buffer and the writes, for a depth of `bpp` bits.
unfoldable pub set_mode : (ℕ → ℕ) → ℕ → ℕ × List Write
set_mode config bpp = (
  find_bochs_vga_lfb config,
  (4, 0) ∷ (1, vga_width) ∷ (2, vga_height) ∷ (3, bpp) ∷ (4, 0x41) ∷ [],
)

unfoldable pub vga_set_mode_13h : (ℕ → ℕ) → ℕ × List Write
vga_set_mode_13h config = set_mode config 8

unfoldable pub vga_set_mode_32bpp : (ℕ → ℕ) → ℕ × List Write
vga_set_mode_32bpp config = set_mode config 32

unfoldable pub vga_set_text_mode : List Write
vga_set_text_mode = (4, 0) ∷ []

-- Different devices have different addresses, in the 32 bits of the register.
pub pci_address_injective :
    (bus slot bus' slot' offset : ℕ)
    → bus < 256
    → slot < 32
    → bus' < 256
    → slot' < 32
    → offset < 256
    → (pci_address bus slot 0 offset < 2 ^ 32)
      × (pci_address bus slot 0 offset ≡ pci_address bus' slot' 0 offset
          → (bus ≡ bus') × (slot ≡ slot'))
unfolding pci_address
pci_address_injective bus slot bus' slot' offset b s b' s' o =
    (omega arith, λ e. (omega arith, omega arith))
