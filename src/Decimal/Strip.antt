-- ===== src/Decimal/Strip.antt =====
-- `dec_strip`: the number and the form of its result.
use dev4_review_workspace.Prelude.{
  ℕ, ◌≡◌, ◌<◌, length, refl, inl, inr, [], ◌∷◌, arith, All, ◌==◌, Bool-cases,
}
use dev4_review_workspace.Decimal.{Digits, zero_char, dec_strip}
use dev4_review_workspace.Decimal.Value.{IsDigit, IsCanonical, value}

value_zero_cons : (d : Digits) → value (zero_char ∷ d) ≡ value d
unfolding value
value_zero_cons d = refl

pub value-dec_strip : (d : Digits) → value (dec_strip d) ≡ value d
unfolding dec_strip
value-dec_strip [] = refl
value-dec_strip (c ∷ []) = refl
value-dec_strip (c ∷ e ∷ d) = ground (arith, value-dec_strip (e ∷ d), value_zero_cons (e ∷ d))

pub dec_strip-IsCanonical :
    (c : ℕ) (d : Digits) → All IsDigit (c ∷ d) → IsCanonical (dec_strip (c ∷ d))
unfolding dec_strip
dec_strip-IsCanonical c [] h = h.0
dec_strip-IsCanonical c (e ∷ d) h = elim (Bool-cases (c == zero_char)) [
  | inl z ↦ rw z (dec_strip-IsCanonical e d h.1)
  | inr n ↦ rw n ((ground arith), h)
]

pub dec_strip-of_canonical : (d : Digits) → IsCanonical d → dec_strip d ≡ d
unfolding dec_strip
dec_strip-of_canonical [] h = absurd h
dec_strip-of_canonical (c ∷ []) h = refl
dec_strip-of_canonical (c ∷ e ∷ d) h = ground arith

pub dec_strip-All : (d : Digits) → All IsDigit d → All IsDigit (dec_strip d)
unfolding dec_strip
dec_strip-All [] h = tt
dec_strip-All (c ∷ []) h = h
dec_strip-All (c ∷ e ∷ d) h = ground (arith, dec_strip-All (e ∷ d) h.1)

pub IsCanonical-All : (d : Digits) → IsCanonical d → All IsDigit d
IsCanonical-All [] h = absurd h
IsCanonical-All (c ∷ []) h = (h, tt)
IsCanonical-All (c ∷ e ∷ d) h = h.1

pub dec_strip-IsCanonical_of_pos :
    (d : Digits) → 0 < length d → All IsDigit d → IsCanonical (dec_strip d)
dec_strip-IsCanonical_of_pos [] p h = absurd (omega arith)
dec_strip-IsCanonical_of_pos (c ∷ d) p h = dec_strip-IsCanonical c d h

pub canonical_length : (d : Digits) → IsCanonical d → 0 < length d
canonical_length [] h = absurd h
canonical_length (c ∷ d) h = omega arith
