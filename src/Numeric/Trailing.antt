-- ===== src/Numeric/Trailing.antt =====
-- The order of digits without trailing zeros, and of digits padded to one length.
use dev4_review_workspace.Prelude.{
  ℕ, zero, suc, ◌+◌, ◌-◌, ◌*◌, ◌^◌, ◌<◌, ◌≡◌, refl, sym, ap, ◌∙◌, inl, inr, Bool, true, false, ◌&&◌,
  [], ◌∷◌, ◌++◌, reverse, reverse-cons, reverse-append, arith, ◌==◌, if◌then◌else◌, Bool-cases,
  length, replicate, All, length-reverse, pos, negsuc,
}
use dev4_review_workspace.Decimal.{Digits, zero_char, dec_strip, dec_strip_trailing, compare_text}
use dev4_review_workspace.Decimal.Value.{IsDigit, value, value-cons, pow_pos}
use dev4_review_workspace.Decimal.Order.{order_of_lt, order_of_gt, compare_text-order_of}

-- Whether all characters are '0'.
all_noughts : Digits → Bool
all_noughts [] = true
all_noughts (c ∷ d) = c == zero_char && all_noughts d

dec_strip-snoc :
    (r : Digits) (c : ℕ)
    → dec_strip (r ++ c ∷ []) ≡ (if all_noughts r then c ∷ [] else dec_strip r ++ c ∷ [])
unfolding dec_strip all_noughts
dec_strip-snoc [] c = refl
dec_strip-snoc (x ∷ []) c = ground arith
dec_strip-snoc (x ∷ y ∷ r) c = ground (arith, dec_strip-snoc (y ∷ r) c)

all_noughts-append : (a b : Digits) → all_noughts (a ++ b) ≡ (all_noughts a && all_noughts b)
unfolding all_noughts
all_noughts-append [] b = refl
all_noughts-append (x ∷ a) b = ground (arith, all_noughts-append a b)

all_noughts-reverse : (a : Digits) → all_noughts (reverse a) ≡ all_noughts a
unfolding all_noughts
all_noughts-reverse [] = refl
all_noughts-reverse (x ∷ a) =
    rw (reverse-cons x a)
      (ground (arith, all_noughts-append (reverse a) (x ∷ []), all_noughts-reverse a))

-- The loop from the back, read from the front.
dec_strip_trailing-cons :
    (c : ℕ) (d : Digits)
    → dec_strip_trailing (c ∷ d) ≡ (if all_noughts d then c ∷ [] else c ∷ dec_strip_trailing d)
unfolding dec_strip_trailing
dec_strip_trailing-cons c d = elim (Bool-cases (all_noughts d)) [
  | inl z ↦ rw (reverse-cons c d, dec_strip-snoc (reverse d) c, all_noughts-reverse d, z)
  | inr n ↦
      rw (reverse-cons c d, dec_strip-snoc (reverse d) c, all_noughts-reverse d, n)
        (reverse-append (dec_strip (reverse d)) (c ∷ []))
]

reverse-zeros : (k : ℕ) → reverse (replicate k zero_char) ≡ replicate k zero_char
reverse-zeros zero = refl
reverse-zeros (suc k) =
    reverse-cons zero_char (replicate k zero_char)
    ∙ ap (λ t. t ++ zero_char ∷ []) (reverse-zeros k)
    ∙ shift k
  where
    shift : (k : ℕ) → replicate k zero_char ++ zero_char ∷ [] ≡ zero_char ∷ replicate k zero_char
    shift zero = refl
    shift (suc k) = ap (◌∷◌ zero_char) (shift k)

dec_strip-zeros :
    (k : ℕ) (r : Digits) → 0 < length r → dec_strip (replicate k zero_char ++ r) ≡ dec_strip r
unfolding dec_strip
dec_strip-zeros zero r h = refl
dec_strip-zeros (suc zero) [] h = absurd (omega arith)
dec_strip-zeros (suc zero) (x ∷ r) h = refl
dec_strip-zeros (suc (suc k)) r h = dec_strip-zeros (suc k) r h

pub dec_strip_trailing-append :
    (a : Digits) (k : ℕ)
    → 0 < length a
    → dec_strip_trailing (a ++ replicate k zero_char) ≡ dec_strip_trailing a
unfolding dec_strip_trailing
dec_strip_trailing-append a k h = rw (
  reverse-append a (replicate k zero_char),
  reverse-zeros k,
  dec_strip-zeros k (reverse a) (rw (length-reverse a) h),
)

value-all_noughts : (d : Digits) → all_noughts d ≡ true → value d ≡ 0
unfolding all_noughts
value-all_noughts [] h = unfold value in refl
value-all_noughts (c ∷ d) h =
    rw (value-cons c d, first, value-all_noughts d (ground arith)) (omega arith)
  where
    first : c - zero_char ≡ 0
    first = ground arith

value_pos : (d : Digits) → All IsDigit d → all_noughts d ≡ false → 0 < value d
unfolding all_noughts
value_pos [] h n = cc
value_pos (c ∷ d) (hc, h) n = rw (value-cons c d) (elim (Bool-cases (all_noughts d)) [
  | inl z ↦ lead (c - zero_char) (10 ^ length d) (value d) (pow_pos (length d)) (ground arith)
  | inr m ↦ omega (arith, value_pos d h m)
])
  where
    lead : (x p v : ℕ) → 0 < p → 0 < x → 0 < x * p + v
    lead x p v h k = grind arith

compare_text_self : (a : Digits) → compare_text a a ≡ pos 0
unfolding compare_text
compare_text_self [] = refl
compare_text_self (x ∷ a) = ground (arith, compare_text_self a)

compare_text-cons_self : (x : ℕ) (a b : Digits) → compare_text (x ∷ a) (x ∷ b) ≡ compare_text a b
unfolding compare_text
compare_text-cons_self x a b = ground arith

noughts_eq :
    (a b : Digits) → length a ≡ length b → all_noughts a ≡ true → all_noughts b ≡ true → a ≡ b
unfolding all_noughts
noughts_eq [] [] l ha hb = refl
noughts_eq [] (y ∷ b) l ha hb = absurd (omega arith)
noughts_eq (x ∷ a) [] l ha hb = absurd (omega arith)
noughts_eq (x ∷ a) (y ∷ b) l ha hb = ground (arith, noughts_eq a b)

trailing-cons-shape :
    (c : ℕ) (d : Digits) → (e : ℕ) × (r : Digits) × (dec_strip_trailing (c ∷ d) ≡ e ∷ r)
trailing-cons-shape c d = elim (Bool-cases (all_noughts d)) [
  | inl z ↦ (c, [], dec_strip_trailing-cons c d ∙ rw z)
  | inr n ↦ (c, dec_strip_trailing d, dec_strip_trailing-cons c d ∙ rw n)
]

-- Nothing but zeros is left of `a`: it is below every `b` of its length with another digit.
noughts_below :
    (a b : Digits)
    → All IsDigit a
    → All IsDigit b
    → length a ≡ length b
    → all_noughts a ≡ true
    → all_noughts b ≡ false
    → (compare_text a b ≡ negsuc 0) × (compare_text b a ≡ pos 1)
noughts_below a b ha hb l za nb =
    let less : value a < value b = rw (value-all_noughts a za) (value_pos b hb nb) in
    (
      compare_text-order_of a b ha hb l ∙ order_of_lt (value a) (value b) less,
      compare_text-order_of b a hb ha (sym l) ∙ order_of_gt (value b) (value a) less,
    )

nil_below :
    (b : Digits)
    → all_noughts b ≡ false
    → (compare_text [] (dec_strip_trailing b) ≡ negsuc 0)
      × (compare_text (dec_strip_trailing b) [] ≡ pos 1)
unfolding all_noughts compare_text
nil_below [] n = cc
nil_below (c ∷ d) n = let (e, r, shape) = trailing-cons-shape c d in (rw shape, rw shape)

step_eq :
    (x y : ℕ) (a b a' b' : Digits)
    → compare_text a b ≡ compare_text a' b'
    → compare_text (x ∷ a) (y ∷ b) ≡ compare_text (x ∷ a') (y ∷ b')
unfolding compare_text
step_eq x y a b a' b' e = ground arith

pub compare_text-dec_strip_trailing :
    (a b : Digits)
    → All IsDigit a
    → All IsDigit b
    → length a ≡ length b
    → compare_text (dec_strip_trailing a) (dec_strip_trailing b) ≡ compare_text a b
unfolding compare_text
compare_text-dec_strip_trailing [] [] ha hb l = unfold dec_strip_trailing in refl
compare_text-dec_strip_trailing [] (y ∷ b) ha hb l = absurd (omega arith)
compare_text-dec_strip_trailing (x ∷ a) [] ha hb l = absurd (omega arith)
compare_text-dec_strip_trailing (x ∷ a) (y ∷ b) (hx, ha) (hy, hb) l =
    let same : length a ≡ length b = omega arith in
    elim (Bool-cases (all_noughts a)) [
      | inl za ↦ elim (Bool-cases (all_noughts b)) [
        | inl zb ↦
            rw (dec_strip_trailing-cons x a, dec_strip_trailing-cons y b, za, zb)
              (step_eq x y [] [] a b (sym (compare_text_self a) ∙ rw (noughts_eq a b same za zb)))
        | inr nb ↦
            rw (dec_strip_trailing-cons x a, dec_strip_trailing-cons y b, za, nb)
              (step_eq x y [] (dec_strip_trailing b) a b
                ((nil_below b nb).0 ∙ sym (noughts_below a b ha hb same za nb).0))
      ]
      | inr na ↦ elim (Bool-cases (all_noughts b)) [
        | inl zb ↦
            rw (dec_strip_trailing-cons x a, dec_strip_trailing-cons y b, na, zb)
              (step_eq x y (dec_strip_trailing a) [] a b
                ((nil_below a na).1 ∙ sym (noughts_below b a hb ha (sym same) zb na).1))
        | inr nb ↦
            rw (dec_strip_trailing-cons x a, dec_strip_trailing-cons y b, na, nb)
              (step_eq x y (dec_strip_trailing a) (dec_strip_trailing b) a b
                (compare_text-dec_strip_trailing a b ha hb same))
      ]
    ]
