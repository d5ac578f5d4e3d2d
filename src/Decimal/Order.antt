-- ===== src/Decimal/Order.antt =====
-- `dec_cmp` and the order of the numbers.
use dev4_review_workspace.Prelude.{
  ℕ, zero, suc, ◌+◌, ◌-◌, ◌*◌, ◌^◌, ◌≤◌, ◌<◌, ◌≡◌, refl, sym, ◌∙◌, [], ◌∷◌, arith, ltb,
  if◌then◌else◌, length, All, ℤ, pos, negsuc,
}
use dev4_review_workspace.Decimal.{Digits, zero_char, compare_text, dec_cmp}
use dev4_review_workspace.Decimal.Value.{
  IsDigit, IsCanonical, value, value-cons, value-lt-pow, pow_pos,
}
use dev4_review_workspace.Decimal.Strip.{IsCanonical-All}

-- -1, 0 or 1, as the comparisons of the program answer.
abbrev pub order_of : ℕ → ℕ → ℤ
order_of m n = if ltb m n then negsuc 0 else if ltb n m then pos 1 else pos 0

pub order_of_lt : (m n : ℕ) → m < n → order_of m n ≡ negsuc 0
order_of_lt m n h = ground arith

pub order_of_gt : (m n : ℕ) → n < m → order_of m n ≡ pos 1
order_of_gt m n h = ground arith

pub order_of_eq : (m n : ℕ) → order_of m n ≡ pos 0 → m ≡ n
order_of_eq m n h = ground arith

pub order_of_self : (m : ℕ) → order_of m m ≡ pos 0
order_of_self m = ground arith

leading_digit : (x y p v w : ℕ) → v < p → x < y → x * p + v < y * p + w
leading_digit x y p v w h k = grind arith

order_of-add_left : (k m n : ℕ) → order_of (k + m) (k + n) ≡ order_of m n
order_of-add_left k m n = ground arith

text_step :
    (x y p v w : ℕ)
    → zero_char ≤ x
    → zero_char ≤ y
    → v < p
    → w < p
    → (if ltb x y then negsuc 0 else if ltb y x then pos 1 else order_of v w)
      ≡ order_of ((x - zero_char) * p + v) ((y - zero_char) * p + w)
text_step x y p v w hx hy hv hw = ground (
  arith,
  leading_digit (x - zero_char) (y - zero_char) p v w hv,
  leading_digit (y - zero_char) (x - zero_char) p w v hw,
  order_of-add_left ((x - zero_char) * p) v w,
)

-- Of two digit strings of one length the smaller text is the smaller number.
pub compare_text-order_of :
    (a b : Digits)
    → All IsDigit a
    → All IsDigit b
    → length a ≡ length b
    → compare_text a b ≡ order_of (value a) (value b)
unfolding compare_text
compare_text-order_of [] [] ha hb e = sym (order_of_self (value []))
compare_text-order_of [] (y ∷ b) ha hb e = absurd (omega arith)
compare_text-order_of (x ∷ a) [] ha hb e = absurd (omega arith)
compare_text-order_of (x ∷ a) (y ∷ b) (hx, ha) (hy, hb) e =
    let same : length b ≡ length a = omega arith in
    rw (compare_text-order_of a b ha hb (sym same), value-cons x a, value-cons y b, same)
      (text_step x y (10 ^ length a) (value a) (value b) hx.0 hy.0 (value-lt-pow a ha)
        (rw same at (value-lt-pow b hb)))

leading_nonzero : (x p v : ℕ) → 0 < x → p ≤ x * p + v
leading_nonzero x p v h = grind arith

pub pow-le-value :
    (c e : ℕ) (d : Digits) → IsCanonical (c ∷ e ∷ d) → 10 ^ length (e ∷ d) ≤ value (c ∷ e ∷ d)
pow-le-value c e d h =
    rw (value-cons c (e ∷ d)) (leading_nonzero (c - zero_char) _ (value (e ∷ d)) (ground arith))

pub pow_mono : (m n : ℕ) → m ≤ n → 10 ^ m ≤ 10 ^ n
pow_mono zero n h = pow_pos n
pow_mono (suc m) zero h = absurd (omega arith)
pow_mono (suc m) (suc n) h = omega (arith, pow_mono m n (omega arith))

-- A longer canonical string is a larger number.
pub shorter-lt :
    (a b : Digits) → IsCanonical a → IsCanonical b → length a < length b → value a < value b
shorter-lt a [] ha hb h = absurd hb
shorter-lt [] (c ∷ []) ha hb h = absurd ha
shorter-lt (x ∷ a) (c ∷ []) ha hb h = absurd (omega arith)
shorter-lt a (c ∷ e ∷ b) ha hb h = omega (
  arith,
  value-lt-pow a (IsCanonical-All a ha),
  pow_mono (length a) (length (e ∷ b)) (omega arith),
  pow-le-value c e b hb,
)

-- On canonical strings `dec_cmp` answers the order of the numbers, with 0 for equal ones only.
pub dec_cmp-order_of :
    (a b : Digits) → IsCanonical a → IsCanonical b → dec_cmp a b ≡ order_of (value a) (value b)
unfolding dec_cmp
dec_cmp-order_of a b ha hb = ground (
  arith,
  shorter-lt a b ha hb,
  shorter-lt b a hb ha,
  compare_text-order_of a b (IsCanonical-All a ha) (IsCanonical-All b hb),
)

same_char : (x y : ℕ) → zero_char ≤ x → zero_char ≤ y → x - zero_char ≡ y - zero_char → x ≡ y
same_char x y hx hy e = omega arith

digit_split : (x y p v w : ℕ) → v < p → w < p → x * p + v ≡ y * p + w → (x ≡ y) × (v ≡ w)
digit_split x y p v w hv hw e =
    let not_less = λ (h : x < y). leading_digit x y p v w hv h in
    let not_more = λ (h : y < x). leading_digit y x p w v hw h in ground arith

-- Digit strings of one length that spell one number are one string.
pub value-injective :
    (a b : Digits) → All IsDigit a → All IsDigit b → length a ≡ length b → value a ≡ value b → a ≡ b
value-injective [] [] ha hb l e = refl
value-injective [] (y ∷ b) ha hb l e = absurd (omega arith)
value-injective (x ∷ a) [] ha hb l e = absurd (omega arith)
value-injective (x ∷ a) (y ∷ b) (hx, ha) (hy, hb) l e =
    let same : length b ≡ length a = omega arith in
    let (first, rest) =
      digit_split (x - zero_char) (y - zero_char) (10 ^ length a) (value a) (value b)
        (value-lt-pow a ha) (rw same at (value-lt-pow b hb))
        (sym (value-cons x a) ∙ e ∙ value-cons y b ∙ rw same) in
    cc (same_char x y hx.0 hy.0 first, value-injective a b ha hb (sym same) rest)

-- A number has one canonical string.
pub canonical_unique : (a b : Digits) → IsCanonical a → IsCanonical b → value a ≡ value b → a ≡ b
canonical_unique a b ha hb e =
    value-injective a b (IsCanonical-All a ha) (IsCanonical-All b hb) same e
  where
    same : length a ≡ length b
    same = ground (arith, shorter-lt a b ha hb, shorter-lt b a hb ha)
