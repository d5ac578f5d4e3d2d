-- ===== src/Coefficient.antt =====
-- `dec_to_buf` and `buf_to_dec` of unit/query/numeric_opfunc.exact_paths/test.cpp: the big-endian
-- bytes of a NUMERIC's magnitude and its decimal string. `size` is DB_NUMERIC_BUF_SIZE, which the
-- engine's headers fix; it is an argument here.
pub mod Write
pub mod Read
pub mod RoundTrip
use dev4_review_workspace.Prelude.{
  ℕ, zero, suc, ◌+◌, ◌-◌, ◌*◌, ◌/◌, ◌%◌, List, [], ◌∷◌, Option, none, some, Bool, true, ◌&&◌, ◌==◌,
  if◌then◌else◌, length, replicate, reverse,
}
use dev4_review_workspace.Decimal.{Digits, zero_char, dec_strip}

abbrev pub Buf : Type 0
Buf = List ℕ

-- `buf = buf * 10 + carry`, from the last byte to the first; the second part is the carry left.
unfoldable pub mul_ten_add : Buf → ℕ → Buf × ℕ
mul_ten_add [] carry = ([], carry)
mul_ten_add (b ∷ bs) carry =
    let (done, over) = mul_ten_add bs carry in let x = b * 10 + over in (x % 256 ∷ done, x / 256)

-- The loop over the characters; `none` is the return of false, which its callers refuse.
unfoldable pub fill : Buf → Digits → Option Buf
unfolding mul_ten_add
fill buf [] = some buf
fill buf (ch ∷ d) =
    let (next, carry) = mul_ten_add buf (ch - zero_char) in
    let rest = fill next d in if carry == 0 then rest else none

unfoldable pub dec_to_buf : ℕ → Digits → Option Buf
unfolding fill
dec_to_buf size d = fill (replicate size 0) d

-- `b / 10` from the first byte to the last, and the remainder.
unfoldable pub div_ten : Buf → ℕ → Buf × ℕ
div_ten [] rem = ([], rem)
div_ten (b ∷ bs) rem =
    let x = rem * 256 + b in let (done, last) = div_ten bs (x % 10) in ((x / 10) % 256 ∷ done, last)

unfoldable pub all_zero : Buf → Bool
all_zero [] = true
all_zero (b ∷ bs) = (b == 0) && all_zero bs

-- The do-while loop; the result is `r` before `std::reverse`.
unfoldable pub take_digits : ℕ → Buf → Digits
unfolding div_ten all_zero
take_digits zero b = []
take_digits (suc fuel) b =
    let (next, rem) = div_ten b 0 in
    let rest = take_digits fuel next in (zero_char + rem) ∷ (if all_zero next then [] else rest)

-- Three digits a byte are rounds enough, and one is made of an empty buffer.
unfoldable pub buf_to_dec : Buf → Digits
unfolding take_digits dec_strip
buf_to_dec b = dec_strip (reverse (take_digits (suc (3 * length b)) b))
