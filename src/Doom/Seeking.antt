-- ===== src/Doom/Seeking.antt =====
-- Where a seek of src/doom_port.c leaves the offset of the WAD.
use sky_net_os.Base.{
  pos, negsuc, length, min, ℕ, ℤ, List, ◌-◌, ◌^◌, ◌<◌, ◌≡◌, ◌+ℤ◌, ◌≤ℤ◌, ◌<ℤ◌, ap, arith, int_laws,
  ◌+◌, ◌%◌, ◌∙◌,
}
use sky_net_os.Doom.Wad.{
  doom_seek_set, doom_seek_cur, doom_seek_end, DoomSeek, clamp_offset, my_doom_seek_file, u32_of,
  seek_target, int_of, wad_size,
}

-- The origin that a seek counts from, in a WAD of `size` bytes with the offset `at`.
abbrev pub origin_of : ℕ → ℤ → DoomSeek → ℤ
origin_of size at doom_seek_set = pos 0
origin_of size at doom_seek_cur = at
origin_of size at doom_seek_end = pos size

-- The nearest of the numbers from 0 to `size`.
abbrev pub nearest : ℕ → ℤ → ℤ
nearest size (pos n) = pos (min n size)
nearest size (negsuc n) = pos 0

clamp-nearest :
    (wad : List ℕ) (z : ℤ)
    → length wad < 2 ^ 31
    → z <ℤ pos (2 ^ 31)
    → clamp_offset wad z ≡ nearest (length wad) z
unfolding clamp_offset u32_of int_of wad_size
clamp-nearest wad z small fits = ground arith

end_target :
    (wad : List ℕ) (offset : ℤ)
    → length wad < 2 ^ 31
    → negsuc (2 ^ 31 - 1) ≤ℤ offset
    → offset <ℤ pos (2 ^ 31)
    → pos (length wad) +ℤ offset <ℤ pos (2 ^ 31)
    → int_of ((wad_size wad + u32_of offset) % 2 ^ 32) ≡ pos (length wad) +ℤ offset
unfolding u32_of int_of wad_size ◌+ℤ◌
end_target wad (pos n) small low high fits = ground arith
end_target wad (negsuc n) small low high fits = ground arith

-- A seek leaves the offset at the place of the WAD that is nearest to the origin plus the given offset;
-- the WAD is shorter than 2 ^ 31 bytes, and their sum is an `int`.
pub my_doom_seek_file-nearest :
    (wad : List ℕ) (at offset : ℤ) (origin : DoomSeek)
    → length wad < 2 ^ 31
    → negsuc (2 ^ 31 - 1) ≤ℤ offset
    → offset <ℤ pos (2 ^ 31)
    → origin_of (length wad) at origin +ℤ offset <ℤ pos (2 ^ 31)
    → my_doom_seek_file wad at offset origin
      ≡ nearest (length wad) (origin_of (length wad) at origin +ℤ offset)
unfolding my_doom_seek_file seek_target
my_doom_seek_file-nearest wad at offset doom_seek_set small low high fits =
    clamp-nearest wad offset small high ∙ ap (nearest (length wad)) (omega int_laws)
my_doom_seek_file-nearest wad at offset doom_seek_cur small low high fits =
    clamp-nearest wad (at +ℤ offset) small fits
my_doom_seek_file-nearest wad at offset doom_seek_end small low high fits =
    ap (clamp_offset wad) (end_target wad offset small low high fits)
    ∙ clamp-nearest wad (pos (length wad) +ℤ offset) small fits
