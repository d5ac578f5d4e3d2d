-- ===== src/Decimal/Subtract.antt =====
-- `dec_sub` and the numbers of its operands.
use dev4_review_workspace.Prelude.{
  ℕ, zero, suc, ◌+◌, ◌-◌, ◌*◌, ◌^◌, ◌≤◌, ◌<◌, ◌≡◌, refl, ap, ◌∙◌, [], ◌∷◌, reverse, arith, length,
  All, All-reverse, length-reverse,
}
use dev4_review_workspace.Decimal.{Digits, zero_char, sub_digit, sub_borrow, sub_loop, dec_sub}
use dev4_review_workspace.Decimal.Value.{
  IsDigit, IsCanonical, value, back_value, value-reverse, back_value-reverse, value-lt-pow,
}
use dev4_review_workspace.Decimal.Strip.{value-dec_strip, dec_strip-IsCanonical_of_pos}

-- One round is the school method: digit and new borrow account for the two digits and the borrow.
sub_round :
    (x y borrow : ℕ)
    → IsDigit x
    → IsDigit y
    → borrow ≤ 1
    → ((sub_digit x y borrow - zero_char) + (y - zero_char) + borrow
        ≡ (x - zero_char) + 10 * sub_borrow x y borrow)
      × (sub_borrow x y borrow ≤ 1)
      × IsDigit (sub_digit x y borrow)
unfolding sub_digit sub_borrow
sub_round x y borrow hx hy hb = ground arith

-- What is still owed past the end of `a`: the digits of `b` that are not read, and the last borrow.
sub_rest : Digits → Digits → ℕ → ℕ
sub_rest [] ys borrow = back_value ys + borrow
sub_rest (x ∷ xs) [] borrow = sub_rest xs [] (sub_borrow x zero_char borrow)
sub_rest (x ∷ xs) (y ∷ ys) borrow = sub_rest xs ys (sub_borrow x y borrow)

zero_digit : IsDigit zero_char
zero_digit = omega arith

sub_assemble :
    (r x y b c rest xs ys p q k : ℕ)
    → q ≡ 10 * p
    → r + y + b ≡ x + 10 * c
    → rest + ys + c ≡ xs + p * k
    → r + 10 * rest + (y + 10 * ys) + b ≡ x + 10 * xs + q * k
sub_assemble r x y b c rest xs ys p q k e f g = rw e (omega (arith, f, g))

pow_suc : (k : ℕ) → 10 ^ suc k ≡ 10 * 10 ^ k
pow_suc k = omega arith

back_value-sub_loop :
    (a b : Digits) (borrow : ℕ)
    → All IsDigit a
    → All IsDigit b
    → borrow ≤ 1
    → back_value (sub_loop a b borrow) + back_value b + borrow
      ≡ back_value a + 10 ^ length a * sub_rest a b borrow
unfolding sub_loop sub_rest back_value
back_value-sub_loop [] b borrow ha hb h = omega arith
back_value-sub_loop (x ∷ a) [] borrow (hx, ha) hb h =
    let (round, small, _) = sub_round x zero_char borrow hx zero_digit h in
    sub_assemble _ (x - zero_char) 0 borrow _ _ (back_value a) 0 (10 ^ length a) _ _
      (pow_suc (length a)) round
      (back_value-sub_loop a [] (sub_borrow x zero_char borrow) ha tt small)
back_value-sub_loop (x ∷ a) (y ∷ b) borrow (hx, ha) (hy, hb) h =
    let (round, small, _) = sub_round x y borrow hx hy h in
    sub_assemble _ (x - zero_char) (y - zero_char) borrow _ _ (back_value a) (back_value b)
      (10 ^ length a) _ _ (pow_suc (length a)) round
      (back_value-sub_loop a b (sub_borrow x y borrow) ha hb small)

sub_loop-All :
    (a b : Digits) (borrow : ℕ)
    → All IsDigit a
    → All IsDigit b
    → borrow ≤ 1
    → All IsDigit (sub_loop a b borrow)
unfolding sub_loop
sub_loop-All [] b borrow ha hb h = tt
sub_loop-All (x ∷ a) [] borrow (hx, ha) hb h =
    let (_, small, digit) = sub_round x zero_char borrow hx zero_digit h in
    (digit, sub_loop-All a [] _ ha tt small)
sub_loop-All (x ∷ a) (y ∷ b) borrow (hx, ha) (hy, hb) h =
    let (_, small, digit) = sub_round x y borrow hx hy h in (digit, sub_loop-All a b _ ha hb small)

length-sub_loop : (a b : Digits) (borrow : ℕ) → length (sub_loop a b borrow) ≡ length a
unfolding sub_loop
length-sub_loop [] b borrow = refl
length-sub_loop (x ∷ a) [] borrow = ap suc (length-sub_loop a [] _)
length-sub_loop (x ∷ a) (y ∷ b) borrow = ap suc (length-sub_loop a b _)

-- Nothing is owed at the end when the number taken away is not the larger one.
settled : (r p k a b : ℕ) → r < p → b ≤ a → r + b + 0 ≡ a + p * k → r + b ≡ a
settled r p zero a b small le e = omega (arith, e)
settled r p (suc k) a b small le e = absurd (omega (arith, e))

module _ (a b : Digits) (ha : All IsDigit a) (hb : All IsDigit b) where
  borrowed : Digits
  borrowed = sub_loop (reverse a) (reverse b) 0

  borrowed-All : All IsDigit borrowed
  unfolding borrowed
  borrowed-All =
      sub_loop-All (reverse a) (reverse b) 0 (All-reverse IsDigit a ha) (All-reverse IsDigit b hb)
        (omega arith)

  length-borrowed : length (reverse borrowed) ≡ length a
  unfolding borrowed
  length-borrowed =
      length-reverse borrowed ∙ length-sub_loop (reverse a) (reverse b) 0 ∙ length-reverse a

  borrowed-settled : value b ≤ value a → back_value borrowed + value b ≡ value a
  unfolding borrowed
  borrowed-settled le =
      settled (back_value borrowed) (10 ^ length a) (sub_rest (reverse a) (reverse b) 0) (value a)
        (value b)
        (rw (← value-reverse borrowed, ← length-borrowed)
          (value-lt-pow (reverse borrowed) (All-reverse IsDigit borrowed borrowed-All)))
        le balance
    where
      balance :
          back_value borrowed + value b + 0
          ≡ value a + 10 ^ length a * sub_rest (reverse a) (reverse b) 0
      balance =
          rw (← back_value-reverse a, ← back_value-reverse b, ← length-reverse a)
            (back_value-sub_loop (reverse a) (reverse b) 0 (All-reverse IsDigit a ha)
              (All-reverse IsDigit b hb) (omega arith))

  -- The difference of two digit strings, of which the second spells no greater a number, spells the
  -- difference of their numbers.
  pub value-dec_sub : value b ≤ value a → value (dec_sub a b) + value b ≡ value a
  unfolding dec_sub borrowed
  value-dec_sub le =
      rw (value-dec_strip (reverse borrowed), value-reverse borrowed) (borrowed-settled le)

  pub dec_sub-IsCanonical : 0 < length a → IsCanonical (dec_sub a b)
  unfolding dec_sub borrowed
  dec_sub-IsCanonical h =
      dec_strip-IsCanonical_of_pos (reverse borrowed) (rw length-borrowed h)
        (All-reverse IsDigit borrowed borrowed-All)
