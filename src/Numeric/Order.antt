-- ===== src/Numeric/Order.antt =====
-- `exact_order` of unit/query/numeric_opfunc.exact_paths/test.cpp and the order of the values.
use dev4_review_workspace.Prelude.{
  ℕ, zero, suc, ◌+◌, ◌*◌, ◌^◌, ◌<◌, ◌≡◌, refl, sym, ap, ◌∙◌, inl, inr, Bool, true, false, [], ◌∷◌,
  ◌++◌, arith, if◌then◌else◌, Bool-cases, length, length-append, replicate, length-replicate, All,
  All-append, All-replicate, ℤ, pos, negsuc, pos_part, neg_part, sub_ℕ, ◌-ℤ◌, ◌≤ℤ◌, ltb_ℤ, neg_ℤ,
  -ℤ_parts,
}
use mathlib.Core.Path.{ap₂}
use dev4_review_workspace.Decimal.{
  Digits, zero_char, is_nought, dec_strip_trailing, compare_text, dec_cmp,
}
use dev4_review_workspace.Decimal.Value.{
  IsDigit, IsCanonical, value, value_single, value-append_zeros, pow_pos,
}
use dev4_review_workspace.Decimal.Strip.{
  dec_strip-IsCanonical_of_pos, IsCanonical-All, canonical_length,
}
use dev4_review_workspace.Decimal.Order.{order_of, dec_cmp-order_of, pow-le-value}
use dev4_review_workspace.Numeric.{Num, num_of, magnitude_order, exact_order}
use dev4_review_workspace.Numeric.Trailing.{
  dec_strip_trailing-append, compare_text-dec_strip_trailing,
}

-- The zeros that bring a coefficient of scale `s` to scale `k`.
abbrev pub zeros_to : ℤ → ℤ → ℕ
zeros_to k s = pos_part (k -ℤ s)

-- The coefficient of the same value at scale `k`.
abbrev pub coefficient_at : ℤ → Num → ℕ
coefficient_at k n = value n.mag * 10 ^ zeros_to k n.s

abbrev pub signed : Bool → ℕ → ℤ
signed neg m = if neg then sub_ℕ 0 m else pos m

abbrev pub signed_at : ℤ → Num → ℤ
signed_at k n = signed n.neg (coefficient_at k n)

abbrev pub order_ℤ : ℤ → ℤ → ℤ
order_ℤ a b = if ltb_ℤ a b then negsuc 0 else if ltb_ℤ b a then pos 1 else pos 0

-- What the fields of `num_of` have in common.
pub record IsNum (n : Num) : Type 0 where
  pub canonical : IsCanonical n.mag
  pub sign_zero : is_nought n.mag ≡ true → (n.sign ≡ pos 0) × (n.neg ≡ false)
  pub sign_plus : is_nought n.mag ≡ false → n.neg ≡ false → n.sign ≡ pos 1
  pub sign_minus : n.neg ≡ true → n.sign ≡ negsuc 0
  pub exponent : n.exp10 ≡ pos (length n.mag) -ℤ n.s
  pub stripped : n.digits ≡ dec_strip_trailing n.mag

pub num_of-IsNum :
    (mag : Digits) (p : ℕ) (s : ℤ) (neg is_float : Bool)
    → All IsDigit mag
    → 0 < length mag
    → IsNum (num_of mag p s neg is_float)
unfolding num_of
num_of-IsNum mag p s neg is_float h l = record {
  canonical = dec_strip-IsCanonical_of_pos mag l h;
  sign_zero = ground arith;
  sign_plus = ground arith;
  sign_minus = ground arith;
  exponent = refl;
  stripped = refl;
}

pub nought_value : (d : Digits) → IsCanonical d → is_nought d ≡ true → value d ≡ 0
nought_value [] c h = absurd c
nought_value (x ∷ []) c h = rw (value_single x) (ground arith)
nought_value (x ∷ y ∷ d) c h = cc

pub nonzero_value : (d : Digits) → IsCanonical d → is_nought d ≡ false → 0 < value d
nonzero_value [] c h = absurd c
nonzero_value (x ∷ []) c h = rw (value_single x) (ground arith)
nonzero_value (x ∷ y ∷ d) c h = omega (arith, pow_pos (length (y ∷ d)), pow-le-value x y d c)

-- A nonzero coefficient with zeros appended is canonical.
pub padded-IsCanonical :
    (d : Digits) (k : ℕ)
    → IsCanonical d
    → is_nought d ≡ false
    → IsCanonical (d ++ replicate k zero_char)
padded-IsCanonical [] k c h = absurd c
padded-IsCanonical (x ∷ []) zero c h = c
padded-IsCanonical (x ∷ []) (suc k) c h =
    (ground arith, (c, All-replicate IsDigit (suc k) zero_char (omega arith)))
padded-IsCanonical (x ∷ y ∷ d) k c h = (
  c.0,
  All-append IsDigit (x ∷ y ∷ d) (replicate k zero_char) c.1
      (All-replicate IsDigit k zero_char (omega arith)),
)

-- The three signs, with the coefficient `c` at the common scale.
data SignOf (n : Num) (c : ℕ) : Type 0 where
  zero_sign : n.sign ≡ pos 0 → n.neg ≡ false → c ≡ 0 → SignOf n c
  plus_sign : n.sign ≡ pos 1 → n.neg ≡ false → is_nought n.mag ≡ false → 0 < c → SignOf n c
  minus_sign : n.sign ≡ negsuc 0 → n.neg ≡ true → is_nought n.mag ≡ false → 0 < c → SignOf n c

zeros_to_parts :
    (k s : ℤ) → s ≤ℤ k → zeros_to k s + pos_part s + neg_part k ≡ pos_part k + neg_part s
unfolding ◌-ℤ◌
zeros_to_parts k s h = ground arith

exponent_parts :
    (n : Num)
    → IsNum n
    → pos_part n.exp10 + pos_part n.s ≡ neg_part n.exp10 + length n.mag + neg_part n.s
exponent_parts n w = rw (w.exponent) (omega (arith, -ℤ_parts (pos (length n.mag)) n.s))

product_pos : (x y : ℕ) → 0 < x → 0 < y → 0 < x * y
product_pos x y h k = grind arith

module _ (k : ℤ) (a b : Num) (na : IsNum a) (nb : IsNum b) (ka : a.s ≤ℤ k) (kb : b.s ≤ℤ k) where
  padded : Num → Digits
  padded n = n.mag ++ replicate (zeros_to k n.s) zero_char

  length-padded : (n : Num) → length (padded n) ≡ length n.mag + zeros_to k n.s
  unfolding padded
  length-padded n =
      length-append n.mag (replicate (zeros_to k n.s) zero_char)
      ∙ ap (λ t. length n.mag + t) (length-replicate (zeros_to k n.s) zero_char)

  value-padded : (n : Num) → value (padded n) ≡ coefficient_at k n
  unfolding padded
  value-padded n = value-append_zeros n.mag (zeros_to k n.s)

  padded-All : (n : Num) → IsNum n → All IsDigit (padded n)
  unfolding padded
  padded-All n w =
      All-append IsDigit n.mag (replicate (zeros_to k n.s) zero_char)
        (IsCanonical-All n.mag w.canonical)
        (All-replicate IsDigit (zeros_to k n.s) zero_char (omega arith))

  digits-padded : (n : Num) → IsNum n → n.digits ≡ dec_strip_trailing (padded n)
  unfolding padded
  digits-padded n w =
      w.stripped
      ∙ sym (dec_strip_trailing-append n.mag (zeros_to k n.s) (canonical_length n.mag w.canonical))

  text_same :
      length (padded a) ≡ length (padded b)
      → compare_text a.digits b.digits ≡ compare_text (padded a) (padded b)
  text_same l =
      ap₂ compare_text (digits-padded a na) (digits-padded b nb)
      ∙ compare_text-dec_strip_trailing (padded a) (padded b) (padded-All a na) (padded-All b nb) l

  magnitude_order-padded : magnitude_order a b ≡ dec_cmp (padded a) (padded b)
  unfolding magnitude_order dec_cmp
  magnitude_order-padded = ground (
    arith,
    text_same,
    length-padded a,
    length-padded b,
    exponent_parts a na,
    exponent_parts b nb,
    zeros_to_parts k a.s ka,
    zeros_to_parts k b.s kb,
  )

  -- On nonzero values the magnitudes are ordered as the coefficients at the common scale.
  magnitude_order-order_of :
      is_nought a.mag ≡ false
      → is_nought b.mag ≡ false
      → magnitude_order a b ≡ order_of (coefficient_at k a) (coefficient_at k b)
  magnitude_order-order_of za zb =
      magnitude_order-padded
      ∙ dec_cmp-order_of (padded a) (padded b)
          (unfold padded in padded-IsCanonical a.mag (zeros_to k a.s) na.canonical za)
          (unfold padded in padded-IsCanonical b.mag (zeros_to k b.s) nb.canonical zb)
      ∙ ap₂ order_of (value-padded a) (value-padded b)

  zero_coefficient : (n : Num) → IsNum n → is_nought n.mag ≡ true → coefficient_at k n ≡ 0
  zero_coefficient n w z = rw (nought_value n.mag w.canonical z) (omega arith)

  positive_coefficient : (n : Num) → IsNum n → is_nought n.mag ≡ false → 0 < coefficient_at k n
  positive_coefficient n w z =
      product_pos (value n.mag) (10 ^ zeros_to k n.s) (nonzero_value n.mag w.canonical z)
        (pow_pos (zeros_to k n.s))

  sign_cases : (n : Num) → IsNum n → SignOf n (coefficient_at k n)
  sign_cases n w = elim (Bool-cases (is_nought n.mag)) [
    | inl z ↦ zero_sign (w.sign_zero z).0 (w.sign_zero z).1 (zero_coefficient n w z)
    | inr z ↦ elim (Bool-cases n.neg) [
      | inl minus ↦ minus_sign (w.sign_minus minus) minus z (positive_coefficient n w z)
      | inr plus ↦ plus_sign (w.sign_plus z plus) plus z (positive_coefficient n w z)
    ]
  ]

  -- Of two well-formed values, `exact_order` answers the order of the integers that they are at
  -- scale k, for any scale k that is not below the scale of either.
  pub exact_order-order_ℤ : exact_order a b ≡ order_ℤ (signed_at k a) (signed_at k b)
  unfolding exact_order
  exact_order-order_ℤ = elim (sign_cases a na) [
    | zero_sign sa ma ca ↦ elim (sign_cases b nb) [
      | zero_sign sb mb cb ↦ ground arith
      | plus_sign sb mb zb cb ↦ ground arith
      | minus_sign sb mb zb cb ↦ ground arith
    ]
    | plus_sign sa ma za ca ↦ elim (sign_cases b nb) [
      | zero_sign sb mb cb ↦ ground arith
      | plus_sign sb mb zb cb ↦ ground (arith, magnitude_order-order_of za zb)
      | minus_sign sb mb zb cb ↦ ground arith
    ]
    | minus_sign sa ma za ca ↦ elim (sign_cases b nb) [
      | zero_sign sb mb cb ↦ ground arith
      | plus_sign sb mb zb cb ↦ ground arith
      | minus_sign sb mb zb cb ↦ ground (arith, magnitude_order-order_of za zb)
    ]
  ]

-- A scale that holds both values.
abbrev common_scale : Num → Num → ℤ
common_scale a b = pos (pos_part a.s + pos_part b.s)

module _ (a b : Num) (na : IsNum a) (nb : IsNum b) where
  -- Of two well-formed values, the comparison the other way round has the opposite answer.
  pub exact_order-swap : exact_order b a ≡ neg_ℤ (exact_order a b)
  unfolding neg_ℤ
  exact_order-swap =
      let k = common_scale a b in
      rw
        (
          exact_order-order_ℤ k b a nb na (omega arith) (omega arith),
          exact_order-order_ℤ k a b na nb (omega arith) (omega arith),
        )
        (opposite (signed_at k a) (signed_at k b))
    where
      opposite : (x y : ℤ) → order_ℤ y x ≡ sub_ℕ (neg_part (order_ℤ x y)) (pos_part (order_ℤ x y))
      opposite x y = ground arith

module _ (a b c : Num) (na : IsNum a) (nb : IsNum b) (nc : IsNum c) where
  -- Of well-formed values: if a is smaller than b and b than c, then a is smaller than c.
  pub exact_order_trans :
      exact_order a b ≡ negsuc 0 → exact_order b c ≡ negsuc 0 → exact_order a c ≡ negsuc 0
  exact_order_trans h k = rw (exact_order-order_ℤ m a c na nc (omega arith) (omega arith)) (
      chain (signed_at m a) (signed_at m b) (signed_at m c)
        (sym (exact_order-order_ℤ m a b na nb (omega arith) (omega arith)) ∙ h)
        (sym (exact_order-order_ℤ m b c nb nc (omega arith) (omega arith)) ∙ k))
    where
      m : ℤ
      m = pos (pos_part a.s + pos_part b.s + pos_part c.s)

      chain : (x y z : ℤ) → order_ℤ x y ≡ negsuc 0 → order_ℤ y z ≡ negsuc 0 → order_ℤ x z ≡ negsuc 0
      chain x y z p q = ground arith
