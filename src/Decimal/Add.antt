-- ===== src/Decimal/Add.antt =====
-- `dec_add` and the numbers of its operands.
use dev4_review_workspace.Prelude.{
  All-reverse, length, length-reverse, ◌≤◌, ◌<◌, ℕ, zero, suc, ◌+◌, ◌-◌, ◌/◌, ◌≤◌, ◌≡◌, ◌∙◌, [],
  ◌∷◌, reverse, arith, All,
}
use dev4_review_workspace.Decimal.{Digits, zero_char, carry_out, add_loop, dec_add}
use dev4_review_workspace.Decimal.Value.{
  IsDigit, IsCanonical, value, back_value, value-reverse, back_value-reverse,
}
use dev4_review_workspace.Decimal.Strip.{value-dec_strip, dec_strip-IsCanonical_of_pos}

back_value-carry_out : (fuel carry : ℕ) → carry ≤ fuel → back_value (carry_out fuel carry) ≡ carry
unfolding carry_out back_value
back_value-carry_out zero carry h = omega arith
back_value-carry_out (suc fuel) carry h = ground (arith, back_value-carry_out fuel (carry / 10))

-- The characters that the loop pushes spell the sum of the two strings and the carry.
back_value-add_loop :
    (a b : Digits) (carry : ℕ)
    → back_value (add_loop a b carry) ≡ back_value a + back_value b + carry
unfolding add_loop back_value
back_value-add_loop [] [] carry = back_value-carry_out carry carry (omega arith) ∙ omega arith
back_value-add_loop (x ∷ a) [] carry =
    omega (arith, back_value-add_loop a [] ((carry + (x - zero_char)) / 10))
back_value-add_loop [] (y ∷ b) carry =
    omega (arith, back_value-add_loop [] b ((carry + (y - zero_char)) / 10))
back_value-add_loop (x ∷ a) (y ∷ b) carry =
    omega (arith, back_value-add_loop a b ((carry + (x - zero_char) + (y - zero_char)) / 10))

carry_out-All : (fuel carry : ℕ) → All IsDigit (carry_out fuel carry)
unfolding carry_out
carry_out-All zero carry = tt
carry_out-All (suc fuel) carry = ground (arith, carry_out-All fuel (carry / 10))

add_loop-All : (a b : Digits) (carry : ℕ) → All IsDigit (add_loop a b carry)
unfolding add_loop
add_loop-All [] [] carry = carry_out-All carry carry
add_loop-All (x ∷ a) [] carry = (omega arith, add_loop-All a [] _)
add_loop-All [] (y ∷ b) carry = (omega arith, add_loop-All [] b _)
add_loop-All (x ∷ a) (y ∷ b) carry = (omega arith, add_loop-All a b _)

-- The sum of two digit strings spells the sum of the numbers that they spell.
pub value-dec_add : (a b : Digits) → value (dec_add a b) ≡ value a + value b
unfolding dec_add
value-dec_add a b =
    value-dec_strip (reverse (add_loop (reverse a) (reverse b) 0))
    ∙ value-reverse (add_loop (reverse a) (reverse b) 0)
    ∙ back_value-add_loop (reverse a) (reverse b) 0
    ∙ omega (arith, back_value-reverse a, back_value-reverse b)

length-add_loop : (a b : Digits) (carry : ℕ) → length a ≤ length (add_loop a b carry)
unfolding add_loop
length-add_loop [] b carry = omega arith
length-add_loop (x ∷ a) [] carry = omega (arith, length-add_loop a [] _)
length-add_loop (x ∷ a) (y ∷ b) carry = omega (arith, length-add_loop a b _)

pub dec_add-IsCanonical : (a b : Digits) → 0 < length a → IsCanonical (dec_add a b)
unfolding dec_add
dec_add-IsCanonical a b h =
    let loop = add_loop (reverse a) (reverse b) 0 in
    dec_strip-IsCanonical_of_pos (reverse loop)
      (omega
        (arith, length-reverse loop, length-reverse a, length-add_loop (reverse a) (reverse b) 0))
      (All-reverse IsDigit loop (add_loop-All (reverse a) (reverse b) 0))
