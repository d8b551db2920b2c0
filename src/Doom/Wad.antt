-- ===== src/Doom/Wad.antt =====
-- The file operations of src/doom_port.c over the one WAD file, whose bytes are an argument. The
-- state is `doom_wad_offset`; the handle is not used by the code. A sum of two `int`s is exact here
-- (its overflow is undefined in C); the conversions between `int` and `uint32_t` are written out.
use sky_net_os.Base.{
  none, some, pos, negsuc, length, take, drop, ltb, leb, ltb_ℤ, leb_ℤ, pos_part, codes, same_text,
  ℕ, ℤ, Bool, Option, List, ◌+◌, ◌-◌, ◌%◌, ◌^◌, ◌&&◌, ◌||◌, ◌+ℤ◌, [], if◌then◌else◌,
}

-- The conversion of an `int` to `uint32_t`.
unfoldable pub u32_of : ℤ → ℕ
u32_of (pos n) = n % 2 ^ 32
u32_of (negsuc n) = 2 ^ 32 - 1 - n % 2 ^ 32

-- The conversion of a `uint32_t` to `int`, in two's complement.
unfoldable pub int_of : ℕ → ℤ
int_of n = if ltb n (2 ^ 31) then pos n else negsuc (2 ^ 32 - 1 - n)

-- `wad_size`; a difference of addresses.
unfoldable pub wad_size : List ℕ → ℕ
wad_size wad = length wad % 2 ^ 32

-- `name` ends with `end` for the last 9 of its characters.
unfoldable pub is_wad : List ℕ → Bool
is_wad name =
    let end = drop (length name - 9) name in
    leb 9 (length name) && (same_text end (codes "doom1.wad") || same_text end (codes "DOOM1.WAD"))

-- The handle 1, or `none` for the null pointer; and `doom_wad_offset`.
unfoldable pub my_doom_open_file : List ℕ → ℤ → Option ℕ × ℤ
my_doom_open_file filename offset = if is_wad filename then (some 1, pos 0) else (none, offset)

-- `my_doom_read_file` returns the count, the bytes of `buf` and the offset.
abbrev pub Read : Type 0
Read = ℤ × List ℕ × ℤ

-- The part after the count is cut down.
unfoldable pub read_count : List ℕ → ℤ → ℤ → Read
read_count wad offset count =
    if leb_ℤ count (pos 0)
    then (pos 0, [], offset)
    else (count, take (pos_part count) (drop (pos_part offset) wad), offset +ℤ count)

unfoldable pub my_doom_read_file : List ℕ → ℤ → ℤ → Read
my_doom_read_file wad offset count =
    let left = int_of ((wad_size wad + 2 ^ 32 - u32_of offset) % 2 ^ 32) in
    read_count wad offset (if ltb (wad_size wad) (u32_of (offset +ℤ count)) then left else count)

unfoldable pub my_doom_write_file : List ℕ → ℤ → ℤ
my_doom_write_file buf count = count

pub data DoomSeek : Type 0 where
  doom_seek_cur doom_seek_end doom_seek_set : DoomSeek

unfoldable pub seek_target : List ℕ → ℤ → ℤ → DoomSeek → ℤ
seek_target wad at offset doom_seek_set = offset
seek_target wad at offset doom_seek_cur = at +ℤ offset
seek_target wad at offset doom_seek_end = int_of ((wad_size wad + u32_of offset) % 2 ^ 32)

-- The two guards at the end of `my_doom_seek_file`; the second compares as `uint32_t`.
unfoldable pub clamp_offset : List ℕ → ℤ → ℤ
clamp_offset wad z =
    let low = if ltb_ℤ z (pos 0) then pos 0 else z in
    if ltb (wad_size wad) (u32_of low) then int_of (wad_size wad) else low

unfoldable pub my_doom_seek_file : List ℕ → ℤ → ℤ → DoomSeek → ℤ
my_doom_seek_file wad at offset origin = clamp_offset wad (seek_target wad at offset origin)

unfoldable pub my_doom_tell_file : ℤ → ℤ
my_doom_tell_file offset = offset

unfoldable pub my_doom_eof_file : List ℕ → ℤ → Bool
my_doom_eof_file wad offset = leb (wad_size wad) (u32_of offset)
