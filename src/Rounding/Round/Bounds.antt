-- ===== src/Rounding/Round/Bounds.antt =====
-- The number of digits in the results of `develop_round` and `grow`.
use dev4_review_workspace.Prelude.{
  ℕ, zero, suc, ◌+◌, ◌-◌, ◌*◌, ◌^◌, ◌≤◌, ◌<◌, max, ◌≡◌, subst, inl, inr, Bool, true, false, [], ◌∷◌,
  ◌++◌, arith, ltb, leb, ltb→lt, leb→le, Bool-cases, length, length-append, replicate, length-take,
  length-replicate, All, ℤ,
}
use native.Mathlib.Nat.{le_trans}
use dev4_review_workspace.Decimal.{Digits, zero_char, dec_strip, dec_add, dec_pow10}
use dev4_review_workspace.Decimal.Value.{IsDigit, IsCanonical, value, value-lt-pow, pow_pos}
use dev4_review_workspace.Decimal.Strip.{IsCanonical-All, canonical_length}
use dev4_review_workspace.Decimal.Add.{value-dec_add, dec_add-IsCanonical}
use dev4_review_workspace.Decimal.Order.{pow_mono}
use dev4_review_workspace.Numeric.{Limits, Num}
use dev4_review_workspace.Numeric.Order.{IsNum}
use dev4_review_workspace.Rounding.{cleared_of, clear_low, first_dropped, grow, develop_round}
use dev4_review_workspace.Rounding.Cut.{
  high, high-All, length-high, value-high, value-clear_low, clear_low-IsCanonical,
}
use dev4_review_workspace.Rounding.Target.{value-dec_pow10}
use dev4_review_workspace.Rounding.Round.{IsLimits, long_value, first_dropped-past}

pow_add : (a b : ℕ) → 10 ^ (a + b) ≡ 10 ^ a * 10 ^ b
pow_add zero b = rw (sum b) (omega arith)
  where
    sum : (b : ℕ) → 0 + b ≡ b
    sum b = omega arith
pow_add (suc a) b =
    let e : suc a + b ≡ suc (a + b) = omega arith in
    rw e (
      step (10 ^ a) (10 ^ suc a) (10 ^ b) (10 ^ (a + b)) (10 ^ suc (a + b)) (omega arith)
        (omega arith) (pow_add a b))
  where
    step : (x x' y s s' : ℕ) → x' ≡ 10 * x → s' ≡ 10 * s → s ≡ x * y → s' ≡ x' * y
    step x x' y s s' e f g = rw (e, f, g) (omega arith)

short_of_value : (m : Digits) (p : ℕ) → IsCanonical m → value m ≤ 10 ^ p → length m ≤ suc p
short_of_value m p c h = elim (Bool-cases (leb (length m) (suc p))) [
  | inl short ↦ leb→le _ _ short
  | inr long ↦ absurd (
      omega (arith, long_value m (suc p) c (omega arith) (past (length m) (suc p) long), pow_pos p))
]
  where
    past : (x y : ℕ) → leb x y ≡ false → y < x
    past x y e = ground arith

module _ (mag : Digits) (c : ℕ) (digits : All IsDigit mag) (inside : c ≤ length mag) where
  -- Rounding up gives at most the next power of ten.
  round_up_bound : value (dec_add (clear_low mag c) (dec_pow10 c)) ≤ 10 ^ length mag
  round_up_bound =
      rw
        (
          value-dec_add (clear_low mag c) (dec_pow10 c),
          value-clear_low mag c digits,
          value-dec_pow10 c,
          value-high mag c digits,
        )
        (subst (λ t. value (high mag c) * 10 ^ c + 10 ^ c ≤ 10 ^ t) whole
          (rw (pow_add (length mag - c) c) (
            next_unit (value (high mag c)) (10 ^ (length mag - c)) (10 ^ c) (
              subst (λ t. value (high mag c) < 10 ^ t) (length-high mag c)
                (value-lt-pow (high mag c) (high-All mag c digits))))))
    where
      whole : length mag - c + c ≡ length mag
      whole = omega arith

      next_unit : (h a p : ℕ) → h < a → h * p + p ≤ a * p
      next_unit h a p lt = grind arith

length-dec_strip : (d : Digits) → length (dec_strip d) ≤ length d
unfolding dec_strip
length-dec_strip [] = omega arith
length-dec_strip (c ∷ []) = omega arith
length-dec_strip (c ∷ e ∷ d) = ground (arith, length-dec_strip (e ∷ d))

length-clear_low : (mag : Digits) (c : ℕ) → length (clear_low mag c) ≤ max 1 (length mag)
unfolding clear_low high
length-clear_low mag c = elim (Bool-cases (ltb c (length mag))) [
  | inl inside ↦ rw inside (
      omega (
        arith,
        length-dec_strip (high mag c ++ replicate c zero_char),
        length-append (high mag c) (replicate c zero_char),
        length-replicate c zero_char,
        length-high mag c,
        ltb→lt c (length mag) inside,
      ))
  | inr outside ↦ rw outside (omega arith)
]

half_inside : (mag : Digits) (c : ℕ) → leb 5 (first_dropped mag c) ≡ true → c ≤ length mag
half_inside mag c h = elim (Bool-cases (leb c (length mag))) [
  | inl inside ↦ leb→le _ _ inside
  | inr outside ↦
      absurd (omega (arith, first_dropped-past mag c (past c (length mag) outside), leb→le _ _ h))
]
  where
    past : (x y : ℕ) → leb x y ≡ false → y < x
    past x y e = ground arith

length-grow :
    (k : Limits) (n : Num) (m : Digits)
    → IsLimits k
    → length m ≤ suc k.max_precision
    → length (grow k n m).mag ≤ k.max_precision
unfolding grow
length-grow k n m w h = ground (arith, length-take (length m - 1) m)

module _ (k : Limits) (n : Num) (place : ℤ) (half_up : Bool) (w : IsLimits k) (num : IsNum n) where
  rounded_up : Digits
  rounded_up = dec_add (clear_low n.mag (cleared_of n.s place)) (dec_pow10 (cleared_of n.s place))

  length-rounded_up :
      length n.mag ≤ k.max_precision
      → leb 5 (first_dropped n.mag (cleared_of n.s place)) ≡ true
      → length rounded_up ≤ suc k.max_precision
  unfolding rounded_up
  length-rounded_up fits half =
      let c = cleared_of n.s place in
      let digits = IsCanonical-All n.mag num.canonical in
      short_of_value rounded_up k.max_precision
        (dec_add-IsCanonical (clear_low n.mag c) (dec_pow10 c)
          (canonical_length _ (clear_low-IsCanonical n.mag c digits)))
        (le_trans (round_up_bound n.mag c digits (half_inside n.mag c half))
          (pow_mono (length n.mag) k.max_precision fits))

  -- For limits with room and a well-formed value, a coefficient within the greatest precision
  -- stays within it through `develop_round`, whatever the place.
  pub length-develop_round :
      length n.mag ≤ k.max_precision
      → length (develop_round k n place half_up).mag ≤ k.max_precision
  unfolding develop_round rounded_up
  length-develop_round fits = ground (
    arith,
    w.some_precision,
    length-rounded_up fits,
    length-grow k n rounded_up w,
    length-clear_low n.mag (cleared_of n.s place),
  )
