-- ===== src/Rounding/Target.antt =====
-- What ROUND and TRUNC mean on a coefficient: the nearest multiple, halves away from zero, or the
-- multiple below.
use dev4_review_workspace.Prelude.{
  ℕ, zero, suc, ◌+◌, ◌-◌, ◌*◌, ◌/◌, ◌^◌, ◌≤◌, ◌<◌, ◌≡◌, sym, ap, ◌∙◌, Bool, true, false, arith, leb,
  leb→le, replicate, length-replicate, All,
}
use dev4_review_workspace.Decimal.{Digits, zero_char, dec_add, dec_pow10}
use dev4_review_workspace.Decimal.Value.{IsDigit, value, value-cons, value-zeros}
use dev4_review_workspace.Decimal.Add.{value-dec_add}
use dev4_review_workspace.Rounding.{clear_low, first_dropped}
use dev4_review_workspace.Rounding.Cut.{
  high, low, value_cut, low_bound, value-high, value-clear_low, div_of_cut, first_dropped-half,
}

abbrev pub rounded : Bool → ℕ → ℕ → ℕ
rounded half_up zero v = v
rounded false (suc c) v = v / 10 ^ suc c * 10 ^ suc c
rounded true (suc c) v = (v + 5 * 10 ^ c) / 10 ^ suc c * 10 ^ suc c

pub value-dec_pow10 : (c : ℕ) → value (dec_pow10 c) ≡ 10 ^ c
unfolding dec_pow10
value-dec_pow10 c =
    rw (value-cons b'1' (replicate c zero_char), value-zeros c, length-replicate c zero_char)
      (omega arith)

-- `v` is `h` units and a rest `l`, and half a unit is `5 * p`.
round_up_cut :
    (h l p q v : ℕ) → q ≡ 10 * p → v ≡ h * q + l → l < q → 5 * p ≤ l → (v + 5 * p) / q ≡ suc h
round_up_cut h l p q v d e lt half =
    div_of_cut (v + 5 * p) (suc h) q (l + 5 * p - q) (omega (arith, e)) (omega arith)

round_down_cut : (h l p q v : ℕ) → q ≡ 10 * p → v ≡ h * q + l → l < 5 * p → (v + 5 * p) / q ≡ h
round_down_cut h l p q v d e half =
    div_of_cut (v + 5 * p) h q (l + 5 * p) (omega (arith, e)) (omega arith)

module _ (mag : Digits) (c : ℕ) (digits : All IsDigit mag) where
  -- ROUND adds one unit to the cleared coefficient exactly when half a unit or more is dropped.
  pub value_round_up :
      leb 5 (first_dropped mag (suc c)) ≡ true
      → value (dec_add (clear_low mag (suc c)) (dec_pow10 (suc c)))
        ≡ rounded true (suc c) (value mag)
  value_round_up up =
      value-dec_add (clear_low mag (suc c)) (dec_pow10 (suc c))
      ∙ rw
          (
            value-clear_low mag (suc c) digits,
            value-dec_pow10 (suc c),
            value-high mag (suc c) digits,
            round_up_cut (value (high mag (suc c))) (value (low mag (suc c))) (10 ^ c) (10 ^ suc c)
                (value mag) (omega arith) (value_cut mag (suc c)) (low_bound mag (suc c) digits)
                (leb→le _ _ (sym (first_dropped-half mag c digits) ∙ up)),
          )
          (omega arith)

  pub value_round_down :
      leb 5 (first_dropped mag (suc c)) ≡ false
      → value (clear_low mag (suc c)) ≡ rounded true (suc c) (value mag)
  value_round_down down =
      value-clear_low mag (suc c) digits
      ∙ ap (λ t. t * 10 ^ suc c)
          (value-high mag (suc c) digits
            ∙ sym (
                round_down_cut (value (high mag (suc c))) (value (low mag (suc c))) (10 ^ c)
                  (10 ^ suc c) (value mag) (omega arith) (value_cut mag (suc c))
                  (less (5 * 10 ^ c) (value (low mag (suc c)))
                    (sym (first_dropped-half mag c digits) ∙ down))))
    where
      less : (m n : ℕ) → leb m n ≡ false → n < m
      less m n h = ground arith
