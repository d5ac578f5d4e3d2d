-- ===== src/Decimal/Value.antt =====
-- The number that a digit string spells, and the strings that the program calls canonical.
use dev4_review_workspace.Prelude.{
  ℕ, zero, suc, ◌+◌, ◌-◌, ◌*◌, ◌^◌, ◌≤◌, ◌<◌, ◌≡◌, ◌≢◌, refl, sym, ◌∙◌, ap, [], ◌∷◌, ◌++◌, reverse,
  reverse-reverse, reverse-cons, length, replicate, length-replicate, arith, All,
}
use dev4_review_workspace.Decimal.{Digits, zero_char}

abbrev pub IsDigit : ℕ → Type 0
IsDigit c = (zero_char ≤ c) × (c ≤ b'9')

-- A digit string with no leading zero, except "0" itself: what `dec_strip` makes.
abbrev pub IsCanonical : Digits → Type 0
IsCanonical [] = ⊥
IsCanonical (c ∷ []) = IsDigit c
IsCanonical (c ∷ e ∷ d) = (c ≢ zero_char) × All IsDigit (c ∷ e ∷ d)

unfoldable pub value_from : ℕ → Digits → ℕ
value_from n [] = n
value_from n (c ∷ d) = value_from (n * 10 + (c - zero_char)) d

unfoldable pub value : Digits → ℕ
unfolding value_from
value d = value_from 0 d

-- The value of the string read from its back.
unfoldable pub back_value : Digits → ℕ
back_value [] = 0
back_value (c ∷ d) = (c - zero_char) + 10 * back_value d

pow_suc : (k : ℕ) → 10 ^ suc k ≡ 10 * 10 ^ k
pow_suc k = omega arith

horner : (n x p q v : ℕ) → q ≡ 10 * p → (n * 10 + x) * p + v ≡ n * q + ((0 + x) * p + v)
horner n x p q v e = rw e (omega arith)

pub value_from-pow : (n : ℕ) (d : Digits) → value_from n d ≡ n * 10 ^ length d + value d
unfolding value value_from
value_from-pow n [] = omega arith
value_from-pow n (c ∷ d) =
    value_from-pow (n * 10 + (c - zero_char)) d
    ∙ horner n (c - zero_char) (10 ^ length d) _ (value d) (pow_suc (length d))
    ∙ ap (λ t. n * 10 ^ suc (length d) + t) (sym (value_from-pow (0 + (c - zero_char)) d))

pub value-cons : (c : ℕ) (d : Digits) → value (c ∷ d) ≡ (c - zero_char) * 10 ^ length d + value d
unfolding value value_from
value-cons c d = value_from-pow (0 + (c - zero_char)) d ∙ omega arith

pub value_single : (c : ℕ) → value (c ∷ []) ≡ c - zero_char
unfolding value value_from
value_single c = omega arith

value_from-append : (n : ℕ) (a b : Digits) → value_from n (a ++ b) ≡ value_from (value_from n a) b
unfolding value_from
value_from-append n [] b = refl
value_from-append n (c ∷ a) b = value_from-append (n * 10 + (c - zero_char)) a b

pub value-append : (a b : Digits) → value (a ++ b) ≡ value a * 10 ^ length b + value b
unfolding value
value-append a b = value_from-append 0 a b ∙ value_from-pow (value_from 0 a) b

pub value-snoc : (a : Digits) (c : ℕ) → value (a ++ c ∷ []) ≡ value a * 10 + (c - zero_char)
value-snoc a c = omega (arith, value-append a (c ∷ []), value_single c)

pub value-reverse : (d : Digits) → value (reverse d) ≡ back_value d
unfolding value value_from back_value
value-reverse [] = refl
value-reverse (c ∷ d) =
    rw (reverse-cons c d) (omega (arith, value-snoc (reverse d) c, value-reverse d))

pub back_value-reverse : (d : Digits) → back_value (reverse d) ≡ value d
back_value-reverse d = sym (value-reverse (reverse d)) ∙ ap value (reverse-reverse d)

pub value-zeros : (k : ℕ) → value (replicate k zero_char) ≡ 0
unfolding value value_from
value-zeros zero = refl
value-zeros (suc k) = value-zeros k

pub value-append_zeros :
    (d : Digits) (k : ℕ) → value (d ++ replicate k zero_char) ≡ value d * 10 ^ k
value-append_zeros d k =
    value-append d (replicate k zero_char)
    ∙ rw (value-zeros k, length-replicate k zero_char) (omega arith)

digit_bound : (x p q v : ℕ) → q ≡ 10 * p → x ≤ 9 → v < p → x * p + v < q
digit_bound x p q v e h k = rw e (grind arith)

pub value-lt-pow : (d : Digits) → All IsDigit d → value d < 10 ^ length d
value-lt-pow [] h = unfold value value_from in omega arith
value-lt-pow (c ∷ d) (hc, h) = rw (value-cons c d) (
    digit_bound (c - zero_char) (10 ^ length d) _ (value d) (pow_suc (length d)) (omega arith)
      (value-lt-pow d h))

pub pow_pos : (k : ℕ) → 0 < 10 ^ k
pow_pos zero = omega arith
pow_pos (suc k) = omega (arith, pow_pos k)
