-- ===== src/Coefficient/Read.antt =====
-- `buf_to_dec` and the number in the bytes.
use dev4_review_workspace.Prelude.{
  ℕ, zero, suc, ◌+◌, ◌*◌, ◌/◌, ◌%◌, ◌^◌, ◌<◌, ◌≡◌, refl, ap, ◌∙◌, ◌≢◌, true, false, [], ◌∷◌,
  reverse, arith, length, All, All-reverse, length-reverse,
}
use native.Mathlib.Nat.{lt_trans}
use dev4_review_workspace.Decimal.{Digits}
use dev4_review_workspace.Decimal.Value.{IsDigit, IsCanonical, value, back_value, value-reverse}
use dev4_review_workspace.Decimal.Strip.{value-dec_strip, dec_strip-IsCanonical_of_pos}
use dev4_review_workspace.Coefficient.{Buf, div_ten, all_zero, take_digits, buf_to_dec}
use dev4_review_workspace.Coefficient.Write.{buf_value, IsByte}

pow_suc : (k : ℕ) → 256 ^ suc k ≡ 256 * 256 ^ k
pow_suc k = omega arith

length-div_ten : (b : Buf) (rem : ℕ) → length (div_ten b rem).0 ≡ length b
unfolding div_ten
length-div_ten [] rem = refl
length-div_ten (x ∷ b) rem = ap suc (length-div_ten b _)

div_ten-All : (b : Buf) (rem : ℕ) → All IsByte (div_ten b rem).0
unfolding div_ten
div_ten-All [] rem = tt
div_ten-All (x ∷ b) rem = (omega arith, div_ten-All b _)

div_ten-rem : (b : Buf) (rem : ℕ) → rem < 10 → (div_ten b rem).1 < 10
unfolding div_ten
div_ten-rem [] rem h = h
div_ten-rem (x ∷ b) rem h = div_ten-rem b ((rem * 256 + x) % 10) (omega arith)

divide_round :
    (x rem p q w v last : ℕ)
    → q ≡ 256 * p
    → rem < 10
    → x < 256
    → w * 10 + last ≡ (rem * 256 + x) % 10 * p + v
    → ((rem * 256 + x) / 10 % 256 * p + w) * 10 + last ≡ rem * q + (x * p + v)
divide_round x rem p q w v last d hr hx e =
    let y = rem * 256 + x in
    rw d (omega (arith, e, recompose (y / 10 % 256) (y % 10) p y (omega arith)))
  where
    recompose : (a r p y : ℕ) → y ≡ a * 10 + r → a * p * 10 + r * p ≡ y * p
    recompose a r p y e = rw e (omega arith)

buf_value-div_ten :
    (b : Buf) (rem : ℕ)
    → All IsByte b
    → rem < 10
    → buf_value (div_ten b rem).0 * 10 + (div_ten b rem).1 ≡ rem * 256 ^ length b + buf_value b
unfolding div_ten buf_value
buf_value-div_ten [] rem h hr = omega arith
buf_value-div_ten (x ∷ b) rem (hx, h) hr =
    let next = (rem * 256 + x) % 10 in
    rw (length-div_ten b next) (
      divide_round x rem (256 ^ length b) _ (buf_value (div_ten b next).0) (buf_value b)
        (div_ten b next).1 (pow_suc (length b)) hr hx (buf_value-div_ten b next h (omega arith)))

lead_pos : (x p v : ℕ) → 0 < p → x ≢ 0 → 0 < x * p + v
lead_pos x p v h k = grind arith

byte_pow_pos : (k : ℕ) → 0 < 256 ^ k
byte_pow_pos zero = omega arith
byte_pow_pos (suc k) = omega (arith, byte_pow_pos k)

all_zero-true : (b : Buf) → all_zero b ≡ true → buf_value b ≡ 0
unfolding all_zero buf_value
all_zero-true [] h = refl
all_zero-true (x ∷ b) h = ground (arith, all_zero-true b)

all_zero-false : (b : Buf) → all_zero b ≡ false → 0 < buf_value b
unfolding all_zero buf_value
all_zero-false [] h = cc
all_zero-false (x ∷ b) h =
    ground
      (arith, all_zero-false b, lead_pos x (256 ^ length b) (buf_value b) (byte_pow_pos (length b)))

take_digits-All : (fuel : ℕ) (b : Buf) → All IsDigit (take_digits fuel b)
unfolding take_digits
take_digits-All zero b = tt
take_digits-All (suc fuel) b = ground (arith, take_digits-All fuel (div_ten b 0).0, div_ten-rem b 0)

back_value-take_digits :
    (fuel : ℕ) (b : Buf)
    → All IsByte b
    → buf_value b < 10 ^ fuel
    → back_value (take_digits fuel b) ≡ buf_value b
unfolding take_digits back_value
back_value-take_digits zero b h lt = omega arith
back_value-take_digits (suc fuel) b h lt = ground (
  arith,
  buf_value-div_ten b 0 h,
  all_zero-true (div_ten b 0).0,
  div_ten-rem b 0,
  back_value-take_digits fuel (div_ten b 0).0 (div_ten-All b 0),
)

pub buf_value-lt-pow : (b : Buf) → All IsByte b → buf_value b < 256 ^ length b
unfolding buf_value
buf_value-lt-pow [] h = omega arith
buf_value-lt-pow (x ∷ b) (hx, h) =
    bound x (256 ^ length b) (buf_value b) _ (pow_suc (length b)) hx (buf_value-lt-pow b h)
  where
    bound : (x p v q : ℕ) → q ≡ 256 * p → x < 256 → v < p → x * p + v < q
    bound x p v q e h k = rw e (grind arith)

-- 256 ^ n < 10 ^ (3 * n + 1): the rounds given are enough.
enough_rounds : (n : ℕ) → 256 ^ n < 10 ^ suc (3 * n)
enough_rounds zero = omega arith
enough_rounds (suc n) =
    let shape : 3 * suc n ≡ suc (suc (suc (3 * n))) = omega arith in
    rw shape (omega (arith, enough_rounds n))

length-take_digits : (fuel : ℕ) (b : Buf) → 0 < length (take_digits (suc fuel) b)
unfolding take_digits
length-take_digits fuel b = omega arith

module _ (b : Buf) (h : All IsByte b) where
  spelled : Digits
  spelled = take_digits (suc (3 * length b)) b

  -- Of a list of bytes, the string spells the number that the bytes hold: the fuel is enough.
  pub value-buf_to_dec : value (buf_to_dec b) ≡ buf_value b
  unfolding buf_to_dec spelled
  value-buf_to_dec =
      value-dec_strip (reverse spelled)
      ∙ value-reverse spelled
      ∙ back_value-take_digits (suc (3 * length b)) b h
          (lt_trans (buf_value-lt-pow b h) (enough_rounds (length b)))

  pub buf_to_dec-IsCanonical : IsCanonical (buf_to_dec b)
  unfolding buf_to_dec spelled
  buf_to_dec-IsCanonical =
      dec_strip-IsCanonical_of_pos (reverse spelled)
        (rw (length-reverse spelled) (length-take_digits (3 * length b) b))
        (All-reverse IsDigit spelled (take_digits-All (suc (3 * length b)) b))
