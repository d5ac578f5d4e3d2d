-- ===== src/Rounding.antt =====
-- The model of the engine's ROUND, TRUNC, FLOOR and CEIL on a value's decimal string, and the inputs
-- that the binary paths promise to take: `develop_round`, `develop_floor_ceil`, `round_taken`,
-- `floor_ceil_taken`, `below_2_128` of unit/query/numeric_opfunc.exact_paths/test.cpp.
pub mod Cut
pub mod Target
pub mod Round
pub mod Taken
pub mod FloorCeil
use dev4_review_workspace.Prelude.{
  ℕ, zero, suc, ◌+◌, ◌-◌, ◌≤◌, min, List, [], ◌∷◌, ◌++◌, reverse, Bool, true, false, not, ◌&&◌,
  ◌||◌, ◌==◌, leb, ltb, if◌then◌else◌, length, take, drop, get_or, replicate, ℤ, pos, negsuc,
  pos_part, ◌-ℤ◌, ltb_ℤ,
}
use dev4_review_workspace.Decimal.{
  Digits, zero_char, nought, is_nought, dec_strip, dec_cmp, dec_add, dec_pow10, dec_shift,
}
use dev4_review_workspace.Numeric.{Limits, Num, NumOut, empty_out}

-- TWO128, the digits of 2 ^ 128.
abbrev pub two128 : Digits
two128 =
    b'3' ∷ b'4' ∷ b'0' ∷ b'2' ∷ b'8' ∷ b'2' ∷ b'3' ∷ b'6' ∷ b'6' ∷ b'9' ∷ b'2' ∷ b'0' ∷ b'9' ∷ b'3'
    ∷ b'8' ∷ b'4' ∷ b'6' ∷ b'3' ∷ b'4' ∷ b'6' ∷ b'3' ∷ b'3' ∷ b'7' ∷ b'4' ∷ b'6' ∷ b'0' ∷ b'7'
    ∷ b'4' ∷ b'3' ∷ b'1' ∷ b'7' ∷ b'6' ∷ b'8' ∷ b'2' ∷ b'1' ∷ b'1' ∷ b'4' ∷ b'5' ∷ b'6' ∷ []

unfoldable pub below_2_128 : Digits → Bool
unfolding dec_cmp
below_2_128 mag = ltb_ℤ (dec_cmp mag two128) (pos 0)

-- scale - place, of a place at or below the scale.
abbrev pub cleared_of : ℤ → ℤ → ℕ
cleared_of s place = pos_part (s -ℤ place)

-- `n.mag[len - cleared] - '0'` where that digit is, 0 before the first one.
unfoldable pub first_dropped : Digits → ℕ → ℕ
first_dropped mag cleared =
    if leb cleared (length mag) then get_or mag (length mag - cleared) zero_char - zero_char else 0

-- The coefficient with its `cleared` lowest digits set to 0.
unfoldable pub clear_low : Digits → ℕ → Digits
clear_low mag cleared =
    if ltb cleared (length mag)
    then dec_strip (take (length mag - cleared) mag ++ replicate cleared zero_char)
    else nought

-- `m.substr (0, m.size () - 1)`
abbrev pub drop_last : Digits → Digits
drop_last m = take (length m - 1) m

-- The float NUMERIC both functions end with.
abbrev pub float_out : Limits → Num → ℕ → ℤ → Digits → NumOut
float_out k n p s m = record {
  rc = k.no_error;
  er = k.no_error;
  kind = k.numeric_type;
  is_null = false;
  is_float = true;
  neg = n.neg && not (is_nought m);
  p = p;
  s = s;
  mag = m;
}

-- After a round up: a coefficient past the greatest precision gives its last digit to the scale.
unfoldable pub grow : Limits → Num → Digits → NumOut
grow k n m =
    let s = n.s -ℤ pos 1 in
    if ltb k.max_precision (length m)
    then (if ltb_ℤ s k.min_scale
        then record empty_out { rc = k.overflow; er = k.overflow; kind = k.numeric_type }
        else float_out k n k.max_precision s (drop_last m))
    else float_out k n n.p n.s m

unfoldable pub develop_round : Limits → Num → ℤ → Bool → NumOut
develop_round k n place half_up =
    let cleared = cleared_of n.s place in
    let longest = k.twice_precision + (if n.neg then 1 else 0) in
    let m = clear_low n.mag cleared in
    if ltb_ℤ n.s place
    then record (float_out k n n.p n.s n.mag) { is_float = n.is_float; neg = n.neg }
    else if ltb longest cleared
    then float_out k n n.p n.s nought
    else if cleared == 0
    then float_out k n n.p n.s n.mag
    else if half_up && leb 5 (first_dropped n.mag cleared)
    then grow k n (dec_add m (dec_pow10 cleared))
    else float_out k n n.p n.s m

-- The nines that a string ends with.
unfoldable pub leading_nines : Digits → ℕ
leading_nines [] = 0
leading_nines (c ∷ d) = let rest = leading_nines d in if c == b'9' then suc rest else 0

abbrev pub trailing_nines : Digits → ℕ
trailing_nines d = leading_nines (reverse d)

-- Whether a digit other than 0 stands in it.
unfoldable pub has_digit : Digits → Bool
has_digit [] = false
has_digit (c ∷ d) = not (c == zero_char) || has_digit d

-- The digits before the point, and those after it that the string has.
unfoldable pub integral_part : Digits → ℕ → Digits
integral_part mag s = if ltb s (length mag) then take (length mag - s) mag else nought

unfoldable pub fraction_part : Digits → ℕ → Digits
fraction_part mag s = drop (length mag - s) mag

unfoldable pub develop_floor_ceil : Limits → Num → Bool → NumOut
develop_floor_ceil k n is_floor =
    let s0 = pos_part n.s in
    let s_out = if ltb k.max_precision s0 then k.max_precision - 1 else s0 in
    let integral = integral_part n.mag s0 in
    let away = has_digit (fraction_part n.mag s0) && (if is_floor then n.neg else not n.neg) in
    let d = s_out + trailing_nines integral in
    if not (ltb_ℤ (pos 0) n.s)
    then record (float_out k n n.p n.s n.mag) { neg = n.neg }
    else if away
    then float_out k n (if leb n.p d then min (d + 1) k.max_precision else n.p) (pos s_out)
        (dec_shift (dec_add integral (b'1' ∷ [])) s_out)
    else float_out k n n.p (pos s_out)
        (if is_nought integral then nought else dec_shift integral s0)

unfoldable pub round_taken : Num → ℤ → Bool → Bool
round_taken n place half_up =
    let cleared = cleared_of n.s place in
    let len = length n.mag in
    if not (below_2_128 n.mag) || ltb_ℤ n.s (pos 0)
    then false
    else if ltb_ℤ n.s place || ltb_ℤ place (n.s -ℤ pos 38)
    then true
    else if not half_up || cleared == 0 || ltb len cleared
    then true
    else if ltb (first_dropped n.mag cleared) 5
    then true
    else below_2_128 (dec_add (clear_low n.mag cleared) (dec_pow10 cleared))

unfoldable pub floor_ceil_taken : Limits → Num → Bool → Bool
floor_ceil_taken k n is_floor =
    if not (below_2_128 n.mag) || ltb_ℤ n.s (pos 1) || ltb_ℤ (pos 38) n.s
    then false
    else below_2_128 (develop_floor_ceil k n is_floor).mag
