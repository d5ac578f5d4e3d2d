-- ===== src/Tests/Numeric.antt =====
-- NUMERIC values and their rounding at concrete inputs.
use dev4_review_workspace.Prelude.{
  ◌≤◌, ◌≡◌, refl, subst, true, false, not, ◌&&◌, arith, ltb, length, pos, negsuc, ◌-ℤ◌, ltb_ℤ,
  neg_ℤ,
}
use dev4_review_workspace.Decimal.{text, dec_strip, dec_strip_trailing, dec_add, dec_pow10}
use dev4_review_workspace.Decimal.Value.{value}
use dev4_review_workspace.Numeric.{Limits, Num, NumOut, num_of, magnitude_order, exact_order}
use dev4_review_workspace.Numeric.Order.{
  IsNum, num_of-IsNum, signed_at, order_ℤ, exact_order-order_ℤ, exact_order-swap, exact_order_trans,
}
use dev4_review_workspace.Rounding.{
  first_dropped, clear_low, grow, cleared_of, develop_round, develop_floor_ceil, round_taken,
}
use dev4_review_workspace.Rounding.Round.{IsLimits, Rounds, develop_round-Rounds}
use dev4_review_workspace.Rounding.Round.Bounds.{length-develop_round}
use dev4_review_workspace.Rounding.Target.{rounded}
use dev4_review_workspace.Rounding.Taken.{u128_mod, round_taken-eq}
use dev4_review_workspace.Rounding.FloorCeil.{integral_of, Whole, develop_floor_ceil-Whole}

-- The limits that the comments of the test file state.
abbrev pub limits : Limits
limits = record {
  buf_size = 17;
  max_precision = 40;
  twice_precision = 80;
  min_scale = negsuc 213;
  max_scale = pos 252;
  no_error = pos 0;
  overflow = negsuc 492;
  numeric_type = pos 22;
}

limits-IsLimits : IsLimits limits
limits-IsLimits = record { some_precision = omega arith; room = omega arith }

-- 12.50
abbrev pub plus : Num
plus = record {
  mag = text "1250";
  p = 4;
  s = pos 2;
  neg = false;
  is_float = true;
  sign = pos 1;
  exp10 = pos 2;
  digits = text "125";
}

plus-num_of : num_of (text "1250") 4 (pos 2) false true ≡ plus
unfolding num_of dec_strip dec_strip_trailing ◌-ℤ◌
plus-num_of = refl

pub plus-IsNum : IsNum plus
plus-IsNum =
    subst IsNum plus-num_of
      (num_of-IsNum (text "1250") 4 (pos 2) false true (omega arith) (omega arith))

-- -12.5
abbrev pub minus : Num
minus = record {
  mag = text "125";
  p = 3;
  s = pos 1;
  neg = true;
  is_float = false;
  sign = negsuc 0;
  exp10 = pos 2;
  digits = text "125";
}

minus-num_of : num_of (text "125") 3 (pos 1) true false ≡ minus
unfolding num_of dec_strip dec_strip_trailing ◌-ℤ◌
minus-num_of = refl

pub minus-IsNum : IsNum minus
minus-IsNum =
    subst IsNum minus-num_of
      (num_of-IsNum (text "125") 3 (pos 1) true false (omega arith) (omega arith))

-- 13
abbrev pub whole : Num
whole = record {
  mag = text "13";
  p = 2;
  s = pos 0;
  neg = false;
  is_float = true;
  sign = pos 1;
  exp10 = pos 2;
  digits = text "13";
}

whole-num_of : num_of (text "13") 2 (pos 0) false true ≡ whole
unfolding num_of dec_strip dec_strip_trailing ◌-ℤ◌
whole-num_of = refl

pub whole-IsNum : IsNum whole
whole-IsNum =
    subst IsNum whole-num_of
      (num_of-IsNum (text "13") 2 (pos 0) false true (omega arith) (omega arith))

-- forty nines at scale 3
abbrev pub nines : Num
nines = record {
  mag = text "9999999999999999999999999999999999999999";
  p = 40;
  s = pos 3;
  neg = false;
  is_float = true;
  sign = pos 1;
  exp10 = pos 37;
  digits = text "9999999999999999999999999999999999999999";
}

nines-num_of :
    num_of (text "9999999999999999999999999999999999999999") 40 (pos 3) false true ≡ nines
unfolding num_of dec_strip dec_strip_trailing ◌-ℤ◌
nines-num_of = refl

pub nines-IsNum : IsNum nines
nines-IsNum = subst IsNum nines-num_of (
    num_of-IsNum (text "9999999999999999999999999999999999999999") 40 (pos 3) false true
      (omega arith) (omega arith))

exact_order-order_ℤ_example :
    exact_order minus plus ≡ order_ℤ (signed_at (pos 2) minus) (signed_at (pos 2) plus)
exact_order-order_ℤ_example =
    exact_order-order_ℤ (pos 2) minus plus minus-IsNum plus-IsNum (omega arith) (omega arith)

exact_order-swap_example : exact_order whole plus ≡ neg_ℤ (exact_order plus whole)
exact_order-swap_example = exact_order-swap plus whole plus-IsNum whole-IsNum

ordered : (exact_order minus plus ≡ negsuc 0) × (exact_order plus whole ≡ negsuc 0)
unfolding exact_order magnitude_order
ordered = (refl, refl)

exact_order_trans_example : exact_order minus whole ≡ negsuc 0
exact_order_trans_example =
    exact_order_trans minus plus whole minus-IsNum plus-IsNum whole-IsNum ordered.0 ordered.1

-- ROUND of forty nines at their last digit gives 10 ^ 39 at scale 2.
grown : NumOut
grown = develop_round limits nines (pos 2) true

grown_scale : (grown.s ≡ pos 2) × (length grown.mag ≡ 40)
unfolding grown develop_round first_dropped clear_low grow dec_strip dec_add dec_pow10 ◌-ℤ◌
grown_scale = (refl, refl)

develop_round-Rounds_example :
    Rounds limits nines (cleared_of nines.s (pos 2)) true (develop_round limits nines (pos 2) true)
develop_round-Rounds_example =
    develop_round-Rounds limits nines (pos 2) true limits-IsLimits nines-IsNum (omega arith)
      (omega arith)

length-develop_round_example : length (develop_round limits nines (pos 2) true).mag ≤ 40
length-develop_round_example =
    length-develop_round limits nines (pos 2) true limits-IsLimits nines-IsNum (omega arith)

round_taken-eq_example : round_taken plus (pos 1) true ≡ (
    not (ltb_ℤ plus.s (pos 0))
    && ltb (value plus.mag) u128_mod
    && ltb (rounded true (cleared_of plus.s (pos 1)) (value plus.mag)) u128_mod)
round_taken-eq_example = round_taken-eq plus plus-IsNum (pos 1) true (omega arith)

develop_floor_ceil-Whole_example :
    Whole limits minus
      (integral_of true true (value minus.mag) 10)
      1
      3
      (develop_floor_ceil limits minus true)
unfolding value dev4_review_workspace.Rounding.leading_nines
    dev4_review_workspace.Rounding.integral_part
develop_floor_ceil-Whole_example =
    develop_floor_ceil-Whole limits minus true minus-IsNum (omega arith) (omega arith)
