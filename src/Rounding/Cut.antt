-- ===== src/Rounding/Cut.antt =====
-- A coefficient cut before its `c` lowest digits.
use dev4_review_workspace.Prelude.{
  ℕ, zero, suc, ◌+◌, ◌-◌, ◌*◌, ◌/◌, ◌^◌, ◌≤◌, ◌<◌, min, ◌≡◌, refl, sym, ap, ◌∙◌, subst, inl, inr,
  true, false, [], ◌∷◌, ◌++◌, arith, ltb, leb, ltb→lt, leb→le, Bool-cases, length, length-append,
  get_or, take, drop, replicate, take-append-drop, length-take, length-drop, All, All-append,
  All-append_left, All-append_right, All-replicate,
}
use native.Mathlib.Nat.{mul-add-div_right, div-eq_of_lt, add-zero, le_trans}
use dev4_review_workspace.Decimal.{Digits, zero_char}
use dev4_review_workspace.Decimal.Value.{
  IsDigit, IsCanonical, value, value-cons, value-append, value-append_zeros, value-lt-pow,
  value_single,
}
use dev4_review_workspace.Decimal.Strip.{value-dec_strip, dec_strip-IsCanonical_of_pos}
use dev4_review_workspace.Decimal.Order.{pow_mono}
use dev4_review_workspace.Rounding.{clear_low, first_dropped}

pub div_of_cut : (v h p l : ℕ) → v ≡ h * p + l → l < p → v / p ≡ h
div_of_cut v h p l e lt = rw e (
    mul-add-div_right (le_trans (omega arith) lt) h l
    ∙ ap (λ t. h + t) (div-eq_of_lt lt)
    ∙ add-zero h)

pub value_empty : (d : Digits) → length d ≡ 0 → value d ≡ 0
value_empty [] l = unfold value in refl
value_empty (x ∷ d) l = absurd (omega arith)

lt-of-lt_of_le' : {a b c : ℕ} → a < b → b ≤ c → a < c
lt-of-lt_of_le' h k = omega arith

module _ (mag : Digits) (c : ℕ) where
  unfoldable pub high : Digits
  high = take (length mag - c) mag

  unfoldable pub low : Digits
  low = drop (length mag - c) mag

  high-append-low : high ++ low ≡ mag
  unfolding high low
  high-append-low = take-append-drop (length mag - c) mag

  pub length-high : length high ≡ length mag - c
  unfolding high
  length-high = omega (arith, length-take (length mag - c) mag)

  length-low : length low ≡ min c (length mag)
  unfolding low
  length-low = omega (arith, length-drop (length mag - c) mag)

  -- Past the front of the string there is nothing high.
  pub value_cut : value mag ≡ value high * 10 ^ c + value low
  value_cut = elim (Bool-cases (leb c (length mag))) [
    | inl inside ↦
        sym (ap value high-append-low)
        ∙ value-append high low
        ∙ ap (λ t. value high * 10 ^ t + value low) (length-low ∙ ground arith)
    | inr outside ↦
        sym (ap value high-append-low)
        ∙ value-append high low
        ∙ rw (value_empty high (ground (arith, length-high))) (omega arith)
  ]

  module _ (digits : All IsDigit mag) where
    pub high-All : All IsDigit high
    high-All = All-append_left IsDigit high low (subst (All IsDigit) (sym high-append-low) digits)

    pub low-All : All IsDigit low
    low-All = All-append_right IsDigit high low (subst (All IsDigit) (sym high-append-low) digits)

    pub low_bound : value low < 10 ^ c
    low_bound =
        lt-of-lt_of_le' (value-lt-pow low low-All)
          (pow_mono (length low) c (omega (arith, length-low)))

    pub value-high : value mag / 10 ^ c ≡ value high
    value-high = div_of_cut (value mag) (value high) (10 ^ c) (value low) value_cut low_bound

    pub value-clear_low : value (clear_low mag c) ≡ value mag / 10 ^ c * 10 ^ c
    unfolding clear_low high
    value-clear_low = elim (Bool-cases (ltb c (length mag))) [
      | inl inside ↦ rw inside (
          value-dec_strip (high ++ replicate c zero_char)
          ∙ value-append_zeros high c
          ∙ ap (λ t. t * 10 ^ c) (sym value-high))
      | inr outside ↦
          rw (outside, value-high)
            (value_single zero_char
              ∙ rw (value_empty high (ground (arith, length-high))) (omega arith))
    ]

    pub clear_low-IsCanonical : IsCanonical (clear_low mag c)
    unfolding clear_low high
    clear_low-IsCanonical = elim (Bool-cases (ltb c (length mag))) [
      | inl inside ↦ rw inside (
          dec_strip-IsCanonical_of_pos (high ++ replicate c zero_char)
            (omega (
              arith,
              length-append high (replicate c zero_char),
              length-high,
              ltb→lt c (length mag) inside,
            ))
            (All-append IsDigit high (replicate c zero_char) high-All
              (All-replicate IsDigit c zero_char (omega arith))))
      | inr outside ↦ rw outside (omega arith)
    ]

drop_head : (d : Digits) (i x : ℕ) → i < length d → drop i d ≡ get_or d i x ∷ drop (suc i) d
drop_head [] i x h = absurd (omega arith)
drop_head (c ∷ d) zero x h = refl
drop_head (c ∷ d) (suc i) x h = drop_head d i x (omega arith)

get_or-IsDigit : (d : Digits) (i : ℕ) → All IsDigit d → IsDigit (get_or d i zero_char)
get_or-IsDigit [] i h = omega arith
get_or-IsDigit (c ∷ d) zero h = h.0
get_or-IsDigit (c ∷ d) (suc i) h = get_or-IsDigit d i h.1

halves : (x p v : ℕ) → v < p → leb 5 x ≡ leb (5 * p) (x * p + v)
halves x p v h = elim (Bool-cases (leb 5 x)) [
  | inl up ↦ rw up (sym (le_test (5 * p) (x * p + v) (above x p v (leb→le 5 x up))))
  | inr down ↦ rw down (sym (gt_test (5 * p) (x * p + v) (below x p v h (ground arith))))
]
  where
    le_test : (m n : ℕ) → m ≤ n → leb m n ≡ true
    le_test m n h = ground arith

    gt_test : (m n : ℕ) → n < m → leb m n ≡ false
    gt_test m n h = ground arith

    above : (x p v : ℕ) → 5 ≤ x → 5 * p ≤ x * p + v
    above x p v h = grind arith

    below : (x p v : ℕ) → v < p → x < 5 → x * p + v < 5 * p
    below x p v h k = grind arith

module _ (mag : Digits) (c : ℕ) (digits : All IsDigit mag) where
  tail : Digits
  tail = drop (suc (length mag - suc c)) mag

  tail-All : All IsDigit tail
  unfolding tail
  tail-All =
      let i = suc (length mag - suc c) in
      All-append_right IsDigit (take i mag) (drop i mag)
        (subst (All IsDigit) (sym (take-append-drop i mag)) digits)

  length-tail : suc c ≤ length mag → length tail ≡ c
  unfolding tail
  length-tail h = omega (arith, length-drop (suc (length mag - suc c)) mag)

  tail_bound : suc c ≤ length mag → value tail < 10 ^ c
  tail_bound h = subst (λ t. value tail < 10 ^ t) (length-tail h) (value-lt-pow tail tail-All)

  value-low_inside :
      suc c ≤ length mag
      → value (low mag (suc c))
        ≡ (get_or mag (length mag - suc c) zero_char - zero_char) * 10 ^ c + value tail
  unfolding low tail
  value-low_inside h =
      let i = length mag - suc c in
      let x = get_or mag i zero_char in
      ap value (drop_head mag i zero_char (omega arith))
      ∙ value-cons x tail
      ∙ ap (λ t. (x - zero_char) * 10 ^ t + value tail) (length-tail h)

  value-low_outside : length mag ≤ c → value (low mag (suc c)) < 10 ^ c
  value-low_outside h =
      lt-of-lt_of_le' (value-lt-pow (low mag (suc c)) (low-All mag (suc c) digits))
        (pow_mono (length (low mag (suc c))) c (omega (arith, length-low mag (suc c))))

  -- The first digit dropped tells whether at least half a unit is dropped.
  pub first_dropped-half :
      leb 5 (first_dropped mag (suc c)) ≡ leb (5 * 10 ^ c) (value (low mag (suc c)))
  unfolding first_dropped
  first_dropped-half = elim (Bool-cases (leb (suc c) (length mag))) [
    | inl inside ↦
        let h = leb→le (suc c) (length mag) inside in
        let x = get_or mag (length mag - suc c) zero_char - zero_char in
        rw (inside, value-low_inside h) (halves x (10 ^ c) (value tail) (tail_bound h))
    | inr outside ↦ rw outside (ground (arith, value-low_outside))
  ]
