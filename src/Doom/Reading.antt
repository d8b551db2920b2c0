-- ===== src/Doom/Reading.antt =====
-- The reads of src/doom_port.c return the WAD's bytes in order, and its offset stays in the WAD.
use native.Mathlib.Numerals.{unary_clauses}
use sky_net_os.Base.{
  pos, length, take, drop, min, ℕ, List, ◌+◌, ◌-◌, ◌^◌, ◌≤◌, ◌<◌, ◌≡◌, zero, suc, refl, inl, inr,
  false, sym, ap, ap₂, negsuc, length-drop, Bool-cases, ltb, arith, int_laws, if-true, if-false,
  ◌%◌, ◌∙◌, ◌∷◌, ◌+ℤ◌, [], lt→ltb, ltb→lt, leb_ℤ, ◌++◌,
}
use sky_net_os.Doom.Wad.{wad_size, read_count, my_doom_read_file, u32_of, int_of, Read}

wad_size_small : (wad : List ℕ) → length wad < 2 ^ 31 → wad_size wad ≡ length wad
unfolding wad_size
wad_size_small wad small = ground arith

u32_of_small : (n : ℕ) → n < 2 ^ 32 → u32_of (pos n) ≡ n
unfolding u32_of
u32_of_small n small = ground arith

int_of_small : (n : ℕ) → n < 2 ^ 31 → int_of n ≡ pos n
unfolding int_of
int_of_small n small = if-true (pos n) (negsuc (2 ^ 32 - 1 - n)) (lt→ltb n (2 ^ 31) small)

-- The result of a read: the count, the bytes and the offset.
abbrev pub got : ℕ → List ℕ → ℕ → Read
got count bytes offset = (pos count, bytes, pos offset)

read_count_lem :
    (wad : List ℕ) (k n : ℕ)
    → n ≤ length wad - k
    → read_count wad (pos k) (pos n) ≡ got n (take n (drop k wad)) (k + n)
unfolding read_count
read_count_lem wad k zero fits = ap (got 0 []) (omega arith)
read_count_lem wad k (suc n) fits =
    let sum : pos k +ℤ pos (suc n) ≡ pos (k + suc n) = omega int_laws in
    if-false {b = leb_ℤ (pos (suc n)) (pos 0)} (pos 0, [], pos k) _ (ground arith)
    ∙ ap (λ z. (pos (suc n), take (suc n) (drop k wad), z)) sum

take_none : (n : ℕ) → take {A = ℕ} n [] ≡ []
take_none zero = refl
take_none (suc n) = refl

take_all : (n : ℕ) (l : List ℕ) → length l ≤ n → take n l ≡ l
take_all n [] fits = take_none n
take_all zero (c ∷ l) fits = absurd (omega arith)
take_all (suc n) (c ∷ l) fits = ap (λ r. c ∷ r) (take_all n l (omega arith))

rest_mod : (s u l k : ℕ) → s ≡ l → u ≡ k → l < 2 ^ 31 → k ≤ l → (s + 2 ^ 32 - u) % 2 ^ 32 ≡ l - k
rest_mod s u l k size at small low = omega arith

le_of : (s u l m : ℕ) → s ≡ l → u ≡ m → ltb s u ≡ false → m ≤ l
le_of s u l m size reach inside = ground arith

more_of : (s u l m : ℕ) → s ≡ l → u ≡ m → s < u → l < m
more_of s u l m size reach lt = omega arith

min_left : (a b : ℕ) → a ≤ b → a ≡ min a b
min_left a b le = ground arith

cut_short :
    (wad : List ℕ) (k n : ℕ)
    → length wad - k ≤ n
    → got (length wad - k) (take (length wad - k) (drop k wad)) (k + (length wad - k))
      ≡ got (min n (length wad - k)) (take n (drop k wad)) (k + min n (length wad - k))
cut_short wad k n le =
    let left = length-drop k wad in
    let both : take (length wad - k) (drop k wad) ≡ take n (drop k wad) =
      take_all _ (drop k wad) (omega arith) ∙ sym (take_all n (drop k wad) (omega arith)) in
    let count : length wad - k ≡ min n (length wad - k) = ground arith in
    ap₂ (λ c l. got c l (k + c)) count both

what_is_left :
    (wad : List ℕ) (k : ℕ)
    → length wad < 2 ^ 31
    → k ≤ length wad
    → int_of ((wad_size wad + 2 ^ 32 - u32_of (pos k)) % 2 ^ 32) ≡ pos (length wad - k)
what_is_left wad k small low =
    let size = wad_size_small wad small in
    let at = u32_of_small k (omega arith) in
    let left : (wad_size wad + 2 ^ 32 - u32_of (pos k)) % 2 ^ 32 ≡ length wad - k =
      rest_mod _ _ _ _ size at small low in
    ap int_of left ∙ int_of_small (length wad - k) (omega arith)

-- A read of `n` bytes at the offset `k` of the WAD gives the next `n` bytes of it, or all that are left
-- where they are fewer; it returns their number and moves the offset by it. The WAD is shorter than
-- 2 ^ 31 bytes and so is `k + n`.
pub my_doom_read_file-take :
    (wad : List ℕ) (k n : ℕ)
    → length wad < 2 ^ 31
    → k ≤ length wad
    → k + n < 2 ^ 31
    → my_doom_read_file wad (pos k) (pos n)
      ≡ got (min n (length wad - k)) (take n (drop k wad)) (k + min n (length wad - k))
unfolding my_doom_read_file
my_doom_read_file-take wad k n small low fits =
    let size = wad_size_small wad small in
    let sum : pos k +ℤ pos n ≡ pos (k + n) = omega int_laws in
    let reach : u32_of (pos k +ℤ pos n) ≡ k + n =
      ap u32_of sum ∙ u32_of_small (k + n) (omega arith) in
    elim (Bool-cases (ltb (wad_size wad) (u32_of (pos k +ℤ pos n)))) [
      | inl beyond ↦
          let more : length wad < k + n =
            more_of _ _ _ _ size reach (ltb→lt (wad_size wad) (u32_of (pos k +ℤ pos n)) beyond) in
          ap (read_count wad (pos k)) (if-true _ (pos n) beyond ∙ what_is_left wad k small low)
          ∙ read_count_lem wad k (length wad - k) (omega arith)
          ∙ cut_short wad k n (omega arith)
      | inr inside ↦
          let less : k + n ≤ length wad =
            le_of (wad_size wad) (u32_of (pos k +ℤ pos n)) (length wad) (k + n) size reach inside in
          ap (read_count wad (pos k))
            (if-false (int_of ((wad_size wad + 2 ^ 32 - u32_of (pos k)) % 2 ^ 32)) (pos n) inside)
          ∙ read_count_lem wad k n (omega arith)
          ∙ ap (λ c. got c (take n (drop k wad)) (k + c))
              (min_left n (length wad - k) (omega arith))
    ]

take_sum : (m n : ℕ) (l : List ℕ) → take (m + n) l ≡ take m l ++ take n (drop m l)
take_sum zero n l = let e : 0 + n ≡ n = omega arith in ap (λ k. take k l) e
take_sum (suc m) n [] = take_none (suc m + n) ∙ sym (take_none n)
take_sum (suc m) n (c ∷ l) =
    let e : suc m + n ≡ suc (m + n) = omega arith in
    ap (λ k. take k (c ∷ l)) e ∙ ap (λ r. c ∷ r) (take_sum m n l)

drop_none : (n : ℕ) → drop {A = ℕ} n [] ≡ []
drop_none zero = refl
drop_none (suc n) = refl

drop_sum : (m n : ℕ) (l : List ℕ) → drop (m + n) l ≡ drop n (drop m l)
drop_sum zero n l = let e : 0 + n ≡ n = omega arith in ap (λ k. drop k l) e
drop_sum (suc m) n [] = drop_none (suc m + n) ∙ sym (drop_none n)
drop_sum (suc m) n (c ∷ l) =
    let e : suc m + n ≡ suc (m + n) = omega arith in ap (λ k. drop k (c ∷ l)) e ∙ drop_sum m n l

-- Nothing is left after the end.
drop_upto : (m : ℕ) (l : List ℕ) → drop (min m (length l)) l ≡ drop m l
drop_upto zero l = simp unary_clauses refl
drop_upto (suc m) [] = drop_none (min (suc m) 0)
drop_upto (suc m) (c ∷ l) = simp unary_clauses (drop_upto m l)

drop_read : (wad : List ℕ) (k m : ℕ) → drop (k + min m (length wad - k)) wad ≡ drop m (drop k wad)
drop_read wad k m =
    drop_sum k (min m (length wad - k)) wad
    ∙ ap (λ c. drop (min m c) (drop k wad)) (sym (length-drop k wad))
    ∙ drop_upto m (drop k wad)

below_end : (l k m : ℕ) → k ≤ l → k + min m (l - k) ≤ l
below_end l k m low = ground arith

below_sum : (l k m n : ℕ) → k + m + n < 2 ^ 31 → k + min m (l - k) + n < 2 ^ 31
below_sum l k m n fits = ground arith

same_end :
    (l k m n : ℕ)
    → k ≤ l
    → k + min m (l - k) + min n (l - (k + min m (l - k))) ≡ k + min (m + n) (l - k)
same_end l k m n low = ground arith

-- Two reads one after the other, of `m` and then `n` bytes, give the bytes of one read of `m + n` bytes
-- and leave the offset where it leaves it.
pub my_doom_read_file_twice :
    (wad : List ℕ) (k m n : ℕ)
    → length wad < 2 ^ 31
    → k ≤ length wad
    → k + m + n < 2 ^ 31
    → (let first = my_doom_read_file wad (pos k) (pos m) in
        let second = my_doom_read_file wad first.2 (pos n) in
        let both = my_doom_read_file wad (pos k) (pos (m + n)) in
        (first.1 ++ second.1 ≡ both.1) × (second.2 ≡ both.2))
my_doom_read_file_twice wad k m n small low fits =
    let c = min m (length wad - k) in
    let first = my_doom_read_file-take wad k m small low (omega arith) in
    let second =
      ap (λ (r : Read). my_doom_read_file wad r.2 (pos n)) first
      ∙ my_doom_read_file-take wad (k + c) n small (below_end (length wad) k m low)
          (below_sum (length wad) k m n fits) in
    let both = my_doom_read_file-take wad k (m + n) small low (omega arith) in
    let bytes : take m (drop k wad) ++ take n (drop (k + c) wad) ≡ take (m + n) (drop k wad) =
      ap (λ l. take m (drop k wad) ++ take n l) (drop_read wad k m)
      ∙ sym (take_sum m n (drop k wad)) in
    (
      ap₂ (λ (r s : Read). r.1 ++ s.1) first second ∙ bytes ∙ sym (ap (λ (r : Read). r.1) both),
      ap (λ (r : Read). r.2) second
          ∙ ap pos (same_end (length wad) k m n low)
          ∙ sym (ap (λ (r : Read). r.2) both),
    )
