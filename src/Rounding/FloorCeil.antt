-- ===== src/Rounding/FloorCeil.antt =====
-- `develop_floor_ceil` of unit/query/numeric_opfunc.exact_paths/test.cpp and the whole units of a value.
use mathlib.Core.Path.{ap₂}
use dev4_review_workspace.Prelude.{
  ℕ, zero, suc, ◌+◌, ◌-◌, ◌*◌, ◌/◌, ◌%◌, ◌^◌, ◌≤◌, ◌<◌, ◌≡◌, refl, sym, ap, ◌∙◌, inl, inr, Bool,
  true, false, not, ◌&&◌, ◌||◌, [], ◌∷◌, arith, ltb, leb, min, ◌==◌, if◌then◌else◌, ltb→lt,
  Bool-cases, length, take, All, pos, pos_part, ◌<ℤ◌, ltb_ℤ,
}
use native.Mathlib.Nat.{mod-eq-sub-div-mul}
use dev4_review_workspace.Decimal.{Digits, zero_char, nought, is_nought, dec_add, dec_shift}
use dev4_review_workspace.Decimal.Value.{
  IsDigit, IsCanonical, value, value-cons, value_single, value-append_zeros, pow_pos,
}
use dev4_review_workspace.Decimal.Strip.{IsCanonical-All, canonical_length}
use dev4_review_workspace.Decimal.Add.{value-dec_add, dec_add-IsCanonical}
use dev4_review_workspace.Numeric.{Limits, Num, NumOut}
use dev4_review_workspace.Numeric.Order.{IsNum, nought_value, padded-IsCanonical}
use dev4_review_workspace.Rounding.{
  float_out, trailing_nines, has_digit, integral_part, fraction_part, develop_floor_ceil,
}
use dev4_review_workspace.Rounding.Cut.{
  high, low, value_cut, value-high, low-All, value_empty, length-high,
}
use dev4_review_workspace.Rounding.Round.{IsCanonical-take}

-- The signed value of the result, rounded toward minus infinity or plus infinity: `v` units of
-- which `u` make one, negative when `neg`; the magnitude grows when the fraction points away.
abbrev pub integral_of : Bool → Bool → ℕ → ℕ → ℕ
integral_of is_floor neg v u =
    if (ltb 0 (v % u)) && (if is_floor then neg else not neg) then v / u + 1 else v / u

has_digit-value : (d : Digits) → All IsDigit d → has_digit d ≡ ltb 0 (value d)
unfolding has_digit
has_digit-value [] h = unfold value in refl
has_digit-value (c ∷ d) (hc, h) =
    rw (value-cons c d, has_digit-value d h)
      (leading c (10 ^ length d) (value d) hc.0 (pow_pos (length d)))
  where
    lead : (x p v : ℕ) → 0 < p → 0 < x → 0 < x * p + v
    lead x p v h k = grind arith

    leading :
        (c p v : ℕ)
        → zero_char ≤ c
        → 0 < p
        → (not (c == zero_char) || ltb 0 v) ≡ ltb 0 ((c - zero_char) * p + v)
    leading c p v h k = ground (arith, lead (c - zero_char) p v k)

value-integral_part :
    (mag : Digits) (s : ℕ) → All IsDigit mag → value (integral_part mag s) ≡ value mag / 10 ^ s
unfolding integral_part high
value-integral_part mag s h = elim (Bool-cases (ltb s (length mag))) [
  | inl inside ↦ rw inside (sym (value-high mag s h))
  | inr outside ↦
      rw (outside, value-high mag s h, value_empty (high mag s) (ground (arith, length-high mag s)))
        (value_single zero_char)
]

integral_part-IsCanonical :
    (mag : Digits) (s : ℕ) → IsCanonical mag → IsCanonical (integral_part mag s)
unfolding integral_part
integral_part-IsCanonical mag s c = elim (Bool-cases (ltb s (length mag))) [
  | inl inside ↦
      rw inside
        (canonical_prefix mag (length mag - s) c (omega (arith, ltb→lt s (length mag) inside)))
  | inr outside ↦ rw outside (omega arith)
]
  where
    canonical_prefix : (d : Digits) (j : ℕ) → IsCanonical d → 0 < j → IsCanonical (take j d)
    canonical_prefix [] j c h = absurd c
    canonical_prefix (x ∷ []) zero c h = absurd (omega arith)
    canonical_prefix (x ∷ []) (suc zero) c h = c
    canonical_prefix (x ∷ []) (suc (suc j)) c h = c
    canonical_prefix (x ∷ y ∷ d) j c h = IsCanonical-take x y d j c h

value-fraction_part :
    (mag : Digits) (s : ℕ) → All IsDigit mag → value (fraction_part mag s) ≡ value mag % 10 ^ s
unfolding fraction_part low
value-fraction_part mag s h = sym (
    mod-eq-sub-div-mul (value mag) (10 ^ s)
    ∙ rw (value-high mag s h) (omega (arith, value_cut mag s)))

value-dec_shift : (d : Digits) (k : ℕ) → IsCanonical d → value (dec_shift d k) ≡ value d * 10 ^ k
unfolding dec_shift
value-dec_shift d k c = elim (Bool-cases (is_nought d)) [
  | inl z ↦ rw (z, nought_value d c z) (omega arith)
  | inr n ↦ rw n (value-append_zeros d k)
]

dec_shift-IsCanonical : (d : Digits) (k : ℕ) → IsCanonical d → IsCanonical (dec_shift d k)
unfolding dec_shift
dec_shift-IsCanonical d k c = elim (Bool-cases (is_nought d)) [
  | inl z ↦ rw z c
  | inr n ↦ rw n (padded-IsCanonical d k c n)
]

-- The scale of a result: the value's, or one less than the greatest precision past it.
abbrev pub scale_out : Limits → ℕ → ℕ
scale_out k s = if ltb k.max_precision s then k.max_precision - 1 else s

-- Whether the fraction of a value points away from zero in the direction of the rounding.
abbrev pub is_away : Bool → Bool → ℕ → ℕ → Bool
is_away is_floor neg v u = ltb 0 (v % u) && (if is_floor then neg else not neg)

-- The precision of a result: the value's, unless the units grow and the scale and the nines that the
-- units end with (`d`) take all of it; then a digit more than those, up to the greatest precision.
abbrev pub precision_out : Limits → Num → Bool → ℕ → ℕ
precision_out k n away d =
    if away && not (ltb d n.p)
    then (if ltb d k.max_precision then suc d else k.max_precision)
    else n.p

-- A float NUMERIC of scale `s` and precision `p` whose value is `units` whole units, with the sign of
-- `n`.
pub record Whole (k : Limits) (n : Num) (units s p : ℕ) (o : NumOut) : Type 0 where
  pub succeeds : o.rc ≡ k.no_error
  pub no_error_set : o.er ≡ k.no_error
  pub numeric : o.kind ≡ k.numeric_type
  pub floating : o.is_float ≡ true
  pub scale : o.s ≡ pos s
  pub precision : o.p ≡ p
  pub negative : o.neg ≡ (n.neg && not (is_nought o.mag))
  pub canonical : IsCanonical o.mag
  pub whole_units : value o.mag ≡ units * 10 ^ s

float_out-Whole :
    (k : Limits) (n : Num) (p q : ℕ) (m : Digits) (units s : ℕ)
    → IsCanonical m
    → value m ≡ units * 10 ^ s
    → p ≡ q
    → Whole k n units s q (float_out k n p (pos s) m)
float_out-Whole k n p q m units s c e same = record {
  succeeds = refl;
  no_error_set = refl;
  numeric = refl;
  floating = refl;
  scale = refl;
  precision = same;
  negative = refl;
  canonical = c;
  whole_units = e;
}

module _ (k : Limits) (n : Num) (is_floor : Bool) (num : IsNum n) where
  scale : ℕ
  scale = pos_part n.s

  integral : Digits
  integral = integral_part n.mag (pos_part n.s)

  integral-IsCanonical : IsCanonical integral
  unfolding integral
  integral-IsCanonical = integral_part-IsCanonical n.mag (pos_part n.s) num.canonical

  value-integral : value integral ≡ value n.mag / 10 ^ pos_part n.s
  unfolding integral
  value-integral = value-integral_part n.mag (pos_part n.s) (IsCanonical-All n.mag num.canonical)

  away_test :
      has_digit (fraction_part n.mag (pos_part n.s)) ≡ ltb 0 (value n.mag % 10 ^ pos_part n.s)
  away_test =
      has_digit-value (fraction_part n.mag (pos_part n.s)) fraction-All
      ∙ ap (ltb 0) (value-fraction_part n.mag (pos_part n.s) digits)
    where
      digits : All IsDigit n.mag
      digits = IsCanonical-All n.mag num.canonical

      fraction-All : All IsDigit (fraction_part n.mag (pos_part n.s))
      fraction-All = unfold fraction_part low in low-All n.mag (pos_part n.s) digits

  -- Away from zero the units grow by one.
  away_value :
      (s : ℕ)
      → value (dec_shift (dec_add integral (b'1' ∷ [])) s)
        ≡ (value n.mag / 10 ^ pos_part n.s + 1) * 10 ^ s
  away_value s =
      value-dec_shift (dec_add integral (b'1' ∷ [])) s
        (dec_add-IsCanonical integral (b'1' ∷ []) (canonical_length integral integral-IsCanonical))
      ∙ ap (λ t. t * 10 ^ s)
          (value-dec_add integral (b'1' ∷ []) ∙ ap₂ ◌+◌ value-integral (value_single b'1'))

  toward : Digits
  toward = if is_nought integral then nought else dec_shift integral (pos_part n.s)

  toward-IsCanonical : IsCanonical toward
  unfolding toward
  toward-IsCanonical = elim (Bool-cases (is_nought integral)) [
    | inl z ↦ rw z (omega arith)
    | inr z ↦ rw z (dec_shift-IsCanonical integral (pos_part n.s) integral-IsCanonical)
  ]

  -- A scale past the greatest precision leaves no digit before the point.
  toward-value :
      length n.mag ≤ k.max_precision
      → value toward ≡ value n.mag / 10 ^ pos_part n.s * 10 ^ scale_out k (pos_part n.s)
  unfolding toward
  toward-value fits = elim (Bool-cases (is_nought integral)) [
    | inl z ↦
        rw (z, ← value-integral, nought_value integral integral-IsCanonical z)
          (value_single zero_char ∙ omega arith)
    | inr z ↦
        rw (z, within z, ← value-integral)
          (value-dec_shift integral (pos_part n.s) integral-IsCanonical)
  ]
    where
      inside :
          (b : Bool)
          → is_nought (if b then take (length n.mag - pos_part n.s) n.mag else nought) ≡ false
          → b ≡ true
      inside true e = refl
      inside false e = cc

      within : is_nought integral ≡ false → ltb k.max_precision (pos_part n.s) ≡ false
      within z =
          let less =
            ltb→lt (pos_part n.s) (length n.mag) (inside _ (unfold integral integral_part in z)) in
          ground arith

  -- For a well-formed value of a positive scale and a coefficient within the greatest precision:
  -- FLOOR and CEIL give a float NUMERIC of the whole units below the value, or above it, at its
  -- scale (past the greatest precision, one less than that) and its precision (where the units grow and
  -- it is not past the scale and the nines that the units end with, a digit more than those, up to the
  -- greatest precision).
  pub develop_floor_ceil-Whole :
      pos 0 <ℤ n.s
      → length n.mag ≤ k.max_precision
      → Whole k n
          (integral_of is_floor n.neg (value n.mag) (10 ^ pos_part n.s))
          (scale_out k (pos_part n.s))
          (precision_out k n
            (is_away is_floor n.neg (value n.mag) (10 ^ pos_part n.s))
            (scale_out k (pos_part n.s) + trailing_nines (integral_part n.mag (pos_part n.s))))
          (develop_floor_ceil k n is_floor)
  unfolding develop_floor_ceil integral toward
  develop_floor_ceil-Whole scaled fits =
      let test : ltb_ℤ (pos 0) n.s ≡ true = ground arith in
      elim (Bool-cases points_away) [
        | inl away ↦
            rw (test, away_test, away)
              (float_out-Whole k n _ _ (dec_shift (dec_add integral (b'1' ∷ [])) s_out) _ s_out
                (dec_shift-IsCanonical _ s_out (
                  dec_add-IsCanonical integral (b'1' ∷ [])
                    (canonical_length integral integral-IsCanonical)))
                (away_value s_out) (grown (s_out + trailing_nines integral)))
        | inr stay ↦
            rw (test, away_test, stay)
              (float_out-Whole k n n.p _ toward _ s_out toward-IsCanonical (toward-value fits) refl)
      ]
    where
      s_out : ℕ
      s_out = scale_out k (pos_part n.s)

      grown :
          (d : ℕ)
          → (if leb n.p d then min (d + 1) k.max_precision else n.p) ≡ precision_out k n true d
      grown d = ground arith

      points_away : Bool
      points_away =
          ltb 0 (value n.mag % 10 ^ pos_part n.s) && (if is_floor then n.neg else not n.neg)
