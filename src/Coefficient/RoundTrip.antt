-- ===== src/Coefficient/RoundTrip.antt =====
-- Writing a string and reading the bytes back, and the other way round.
use dev4_review_workspace.Prelude.{
  ℕ, ◌+◌, ◌*◌, ◌^◌, ◌<◌, ◌≡◌, refl, sym, ap, ◌∙◌, subst, Option, none, some, [], ◌∷◌, arith, length,
  All,
}
use dev4_review_workspace.Decimal.{Digits, dec_strip}
use dev4_review_workspace.Decimal.Value.{IsDigit, value}
use dev4_review_workspace.Decimal.Strip.{value-dec_strip, dec_strip-IsCanonical_of_pos}
use dev4_review_workspace.Decimal.Order.{canonical_unique}
use dev4_review_workspace.Coefficient.{Buf, dec_to_buf, buf_to_dec}
use dev4_review_workspace.Coefficient.Write.{buf_value, IsByte, Holds, dec_to_buf-Holds}
use dev4_review_workspace.Coefficient.Read.{
  buf_value-lt-pow, value-buf_to_dec, buf_to_dec-IsCanonical,
}

-- `dec_to_buf-Holds` at an answer that is known.
Holds-at :
    (size v : ℕ) (r : Option Buf) (buf : Buf)
    → r ≡ some buf
    → Holds size v r
    → Holds size v (some buf)
Holds-at size v r buf e h = subst (Holds size v) e h

-- A string of digits whose number was written is read back without its leading zeros.
pub buf_to_dec-dec_to_buf :
    (size : ℕ) (d : Digits) (buf : Buf)
    → All IsDigit d
    → 0 < length d
    → dec_to_buf size d ≡ some buf
    → buf_to_dec buf ≡ dec_strip d
buf_to_dec-dec_to_buf size d buf digits some_digit written =
    let (same, _, bytes) =
      Holds-at size (value d) (dec_to_buf size d) buf written (dec_to_buf-Holds size d) in
    canonical_unique (buf_to_dec buf) (dec_strip d) (buf_to_dec-IsCanonical buf bytes)
      (dec_strip-IsCanonical_of_pos d some_digit digits)
      (value-buf_to_dec buf bytes ∙ same ∙ sym (value-dec_strip d))

leading_byte : (x y p v w : ℕ) → v < p → x < y → x * p + v < y * p + w
leading_byte x y p v w h k = grind arith

byte_split : (x y p v w : ℕ) → v < p → w < p → x * p + v ≡ y * p + w → (x ≡ y) × (v ≡ w)
byte_split x y p v w hv hw e =
    let not_less = λ (h : x < y). leading_byte x y p v w hv h in
    let not_more = λ (h : y < x). leading_byte y x p w v hw h in ground arith

buf_value-injective :
    (a b : Buf)
    → All IsByte a
    → All IsByte b
    → length a ≡ length b
    → buf_value a ≡ buf_value b
    → a ≡ b
unfolding buf_value
buf_value-injective [] [] ha hb l e = refl
buf_value-injective [] (y ∷ b) ha hb l e = absurd (omega arith)
buf_value-injective (x ∷ a) [] ha hb l e = absurd (omega arith)
buf_value-injective (x ∷ a) (y ∷ b) (hx, ha) (hy, hb) l e =
    let same : length b ≡ length a = omega arith in
    let (first, rest) =
      byte_split x y (256 ^ length a) (buf_value a) (buf_value b) (buf_value-lt-pow a ha)
        (rw same at (buf_value-lt-pow b hb)) (e ∙ rw same) in
    cc (first, buf_value-injective a b ha hb (sym same) rest)

rewritten :
    (buf : Buf) (r : Option Buf)
    → All IsByte buf
    → Holds (length buf) (buf_value buf) r
    → r ≡ some buf
rewritten buf none h k = absurd (omega (arith, k, buf_value-lt-pow buf h))
rewritten buf (some r) h (same, size, bytes) = ap some (buf_value-injective r buf bytes h size same)

-- Every buffer of bytes is written back from the string that it reads as.
pub dec_to_buf-buf_to_dec :
    (buf : Buf) → All IsByte buf → dec_to_buf (length buf) (buf_to_dec buf) ≡ some buf
dec_to_buf-buf_to_dec buf h = rewritten buf _ h (
    subst (λ v. Holds (length buf) v (dec_to_buf (length buf) (buf_to_dec buf)))
      (value-buf_to_dec buf h) (dec_to_buf-Holds (length buf) (buf_to_dec buf)))
