-- ===== src/Doom/Keys.antt =====
-- The keys, the clock and the environment that src/doom_port.c gives to PureDOOM. The time stamp
-- counter is an argument.
use sky_net_os.Base.{
  none, some, leb, codes, same_text, ℕ, Bool, Option, List, ◌+◌, ◌*◌, ◌/◌, ◌%◌, ◌^◌, ◌≤◌, ◌<◌, ◌==◌,
  if◌then◌else◌, arith,
}

-- The `doom_key_t` that the port uses.
pub data DoomKey : Type 0 where
  up_arrow left_arrow down_arrow right_arrow ctrl space escape enter unknown : DoomKey

unfoldable pub translate_key : ℕ → DoomKey
translate_key scancode =
    if scancode == 0x11
    then up_arrow
    else if scancode == 0x1E
    then left_arrow
    else if scancode == 0x1F
    then down_arrow
    else if scancode == 0x20
    then right_arrow
    else if scancode == 0x1D
    then ctrl
    else if scancode == 0x39
    then space
    else if scancode == 0x01
    then escape
    else if scancode == 0x1C
    then enter
    else unknown

-- `doom_key_down` and `doom_key_up`.
pub data KeyCall : Type 0 where
  key_down key_up : DoomKey → KeyCall

unfoldable pub key_call : Bool → DoomKey → Option KeyCall
key_call release unknown = none
key_call release key = some (if release then key_up key else key_down key)

-- What the loop of `run_doom` does with a scan code.
unfoldable pub on_scancode : ℕ → Option KeyCall
on_scancode scancode = key_call (leb 0x80 scancode) (translate_key (scancode % 0x80))

-- `my_doom_gettime`: the seconds and the microseconds, in `uint32_t`.
unfoldable pub my_doom_gettime : ℕ → ℕ × ℕ
my_doom_gettime tsc =
    let tsc_shifted = tsc / 2 ^ 20 % 2 ^ 32 in
    (tsc_shifted / 953, tsc_shifted % 953 * 1000000 % 2 ^ 32 / 953)

unfoldable pub my_doom_getenv : List ℕ → Option (List ℕ)
my_doom_getenv var =
    if same_text var (codes "HOME")
    then some (codes "/")
    else if same_text var (codes "DOOMWADDIR")
    then some (codes "/")
    else none

-- The time of a shifted counter, in microseconds.
microseconds : ℕ → ℕ
microseconds t = t / 953 * 1000000 + t % 953 * 1000000 % 2 ^ 32 / 953

ticks_below : (t : ℕ) → t % 953 * 1000000 % 2 ^ 32 / 953 < 1000000
ticks_below t = omega arith

microseconds_monotone : (t u : ℕ) → t ≤ u → microseconds t ≤ microseconds u
unfolding microseconds
microseconds_monotone t u le = omega arith

-- For two readings of a counter below 2 ^ 52, `my_doom_gettime` never gives the later one the earlier
-- time, and its microseconds are below a second.
pub my_doom_gettime_monotone :
    (tsc later : ℕ)
    → tsc ≤ later
    → later < 2 ^ 52
    → ((my_doom_gettime tsc).0 * 1000000 + (my_doom_gettime tsc).1
        ≤ (my_doom_gettime later).0 * 1000000 + (my_doom_gettime later).1)
      × ((my_doom_gettime tsc).1 < 1000000)
unfolding my_doom_gettime microseconds
my_doom_gettime_monotone tsc later le small = (
  microseconds_monotone (tsc / 2 ^ 20 % 2 ^ 32) (later / 2 ^ 20 % 2 ^ 32) (omega arith),
  ticks_below (tsc / 2 ^ 20 % 2 ^ 32),
)
