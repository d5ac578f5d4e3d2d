-- ===== src/Coefficient/Write.antt =====
-- `dec_to_buf` and the number that the string spells.
use dev4_review_workspace.Prelude.{
  ℕ, zero, suc, ◌+◌, ◌-◌, ◌*◌, ◌/◌, ◌%◌, ◌^◌, ◌≤◌, ◌<◌, ◌≡◌, refl, ap, ◌∙◌, subst, ◌≢◌, ◌⊎◌, inl,
  inr, false, Option, none, some, [], ◌∷◌, arith, ◌==◌, length, replicate, length-replicate, All,
  All-replicate,
}
use native.Mathlib.Nat.{le_trans}
use dev4_review_workspace.Decimal.{Digits, zero_char}
use dev4_review_workspace.Decimal.Value.{value, value_from}
use dev4_review_workspace.Coefficient.{Buf, mul_ten_add, fill, dec_to_buf}

unfoldable pub buf_value : Buf → ℕ
buf_value [] = 0
buf_value (b ∷ bs) = b * 256 ^ length bs + buf_value bs

abbrev pub IsByte : ℕ → Type 0
IsByte b = b < 256

recompose : (q r p x : ℕ) → x ≡ q * 256 + r → r * p + q * (256 * p) ≡ x * p
recompose q r p x e = rw e (omega arith)

byte_round :
    (b over rest p q c v : ℕ)
    → q ≡ 256 * p
    → rest + over * p ≡ v * 10 + c
    → ((b * 10 + over) % 256) * p + rest + (b * 10 + over) / 256 * q ≡ (b * p + v) * 10 + c
byte_round b over rest p q c v d e =
    let x = b * 10 + over in
    rw d (omega (arith, e, recompose (x / 256) (x % 256) p x (omega arith)))

pow_suc : (k : ℕ) → 256 ^ suc k ≡ 256 * 256 ^ k
pow_suc k = omega arith

pub length-mul_ten_add : (buf : Buf) (c : ℕ) → length (mul_ten_add buf c).0 ≡ length buf
unfolding mul_ten_add
length-mul_ten_add [] c = refl
length-mul_ten_add (b ∷ bs) c = ap suc (length-mul_ten_add bs c)

pub buf_value-mul_ten_add :
    (buf : Buf) (c : ℕ)
    → buf_value (mul_ten_add buf c).0 + (mul_ten_add buf c).1 * 256 ^ length buf
      ≡ buf_value buf * 10 + c
unfolding mul_ten_add buf_value
buf_value-mul_ten_add [] c = omega arith
buf_value-mul_ten_add (b ∷ bs) c = rw (length-mul_ten_add bs c) (
    byte_round b (mul_ten_add bs c).1 (buf_value (mul_ten_add bs c).0) (256 ^ length bs) _ c
      (buf_value bs) (pow_suc (length bs)) (buf_value-mul_ten_add bs c))

pub mul_ten_add-All : (buf : Buf) (c : ℕ) → All IsByte (mul_ten_add buf c).0
unfolding mul_ten_add
mul_ten_add-All [] c = tt
mul_ten_add-All (b ∷ bs) c = (omega arith, mul_ten_add-All bs c)

-- The number, if it fits the bytes; a refusal only of one that does not.
abbrev pub Holds : ℕ → ℕ → Option Buf → Type 0
Holds size v none = 256 ^ size ≤ v
Holds size v (some r) = (buf_value r ≡ v) × (length r ≡ size) × All IsByte r

le-value_from : (n : ℕ) (d : Digits) → n ≤ value_from n d
unfolding value_from
le-value_from n [] = omega arith
le-value_from n (c ∷ d) = omega (arith, le-value_from (n * 10 + (c - zero_char)) d)

fits_or_not : (r carry p m : ℕ) → r + carry * p ≡ m → (carry ≡ 0) × (r ≡ m) ⊎ (carry ≢ 0) × (p ≤ m)
fits_or_not r zero p m e = inl (refl, omega (arith, e))
fits_or_not r (suc carry) p m e = inr (omega arith, grind (arith, e))

nonzero_test : (n : ℕ) → n ≢ 0 → (n == 0) ≡ false
nonzero_test n h = ground arith

fill-Holds :
    (size : ℕ) (buf : Buf) (d : Digits)
    → length buf ≡ size
    → All IsByte buf
    → Holds size (value_from (buf_value buf) d) (fill buf d)
unfolding fill value_from
fill-Holds size buf [] l h = (refl, l, h)
fill-Holds size buf (ch ∷ d) l h =
    let c = ch - zero_char in
    let next = mul_ten_add buf c in
    elim (fits_or_not (buf_value next.0) next.1 (256 ^ length buf) _
      (buf_value-mul_ten_add buf c)) [
        | inl (done, same) ↦
            rw (done, ← same)
              (fill-Holds size next.0 d (length-mul_ten_add buf c ∙ l) (mul_ten_add-All buf c))
        | inr (over, more) ↦
            rw (nonzero_test next.1 over)
              (le_trans (rw l at more) (le-value_from (buf_value buf * 10 + c) d))
      ]

buf_value-zeros : (k : ℕ) → buf_value (replicate k 0) ≡ 0
unfolding buf_value
buf_value-zeros zero = refl
buf_value-zeros (suc k) = omega (arith, buf_value-zeros k)

-- For every string: the buffer that `dec_to_buf` answers has `size` bytes and spells the
-- number, and it answers false only for a number of 256 ^ size or more.
pub dec_to_buf-Holds : (size : ℕ) (d : Digits) → Holds size (value d) (dec_to_buf size d)
unfolding dec_to_buf value
dec_to_buf-Holds size d =
    subst (λ t. Holds size (value_from t d) (fill (replicate size 0) d)) (buf_value-zeros size)
      (fill-Holds size (replicate size 0) d (length-replicate size 0)
        (All-replicate IsByte size 0 (omega arith)))
