-- ===== src/Decimal.antt =====
-- The decimal-string arithmetic of unit/query/numeric_opfunc.exact_paths/test.cpp (`dec_strip` to
-- `dec_shift`): a std::string of digit characters is the list of its character codes, most
-- significant first. A loop that walks a string from its back is a recursion on the reversed list.
pub mod Value
pub mod Strip
pub mod Add
pub mod Order
pub mod Subtract
use Prim.Native.Char.{code}
use Prim.Native.String.{String}
use dev4_review_workspace.Prelude.{
  ℕ, zero, suc, ◌+◌, ◌-◌, ◌/◌, ◌%◌, List, [], ◌∷◌, ◌++◌, reverse, ℤ, pos, negsuc, ltb, ◌==◌,
  if◌then◌else◌, length, replicate, Bool, false,
}

abbrev pub Digits : Type 0
Digits = List ℕ

-- The characters of a literal.
abbrev pub text : String → Digits
text String.[] = []
text (String.◌∷◌ c s) = code c ∷ text s

abbrev pub zero_char : ℕ
zero_char = b'0'

abbrev pub nought : Digits
nought = zero_char ∷ []

-- `while (i + 1 < d.size () && d[i] == '0') i++`
unfoldable pub dec_strip : Digits → Digits
dec_strip [] = []
dec_strip (c ∷ []) = c ∷ []
dec_strip (c ∷ e ∷ d) = let rest = dec_strip (e ∷ d) in if c == zero_char then rest else c ∷ e ∷ d

-- the same loop from the back: `while (n > 1 && d[n - 1] == '0') n--`
unfoldable pub dec_strip_trailing : Digits → Digits
unfolding dec_strip
dec_strip_trailing d = reverse (dec_strip (reverse d))

-- std::string::compare: the first character that differs, else the shorter string, is the smaller.
unfoldable pub compare_text : Digits → Digits → ℤ
compare_text [] [] = pos 0
compare_text [] (y ∷ ys) = negsuc 0
compare_text (x ∷ xs) [] = pos 1
compare_text (x ∷ xs) (y ∷ ys) =
    let rest = compare_text xs ys in if ltb x y then negsuc 0 else if ltb y x then pos 1 else rest

unfoldable pub dec_cmp : Digits → Digits → ℤ
unfolding compare_text
dec_cmp a b =
    if length a == length b
    then compare_text a b
    else if ltb (length a) (length b)
    then negsuc 0
    else pos 1

-- The rounds that only the carry keeps going. A carry falls in each, so it is fuel enough.
unfoldable pub carry_out : ℕ → ℕ → Digits
carry_out zero carry = []
carry_out (suc fuel) carry =
    let rest = carry_out fuel (carry / 10) in
    if carry == 0 then [] else (zero_char + carry % 10) ∷ rest

-- The loop of `dec_add` over the reversed operands; the result is `r` before `std::reverse`.
unfoldable pub add_loop : Digits → Digits → ℕ → Digits
unfolding carry_out
add_loop [] [] carry = carry_out carry carry
add_loop (x ∷ xs) [] carry =
    let s = carry + (x - zero_char) in (zero_char + s % 10) ∷ add_loop xs [] (s / 10)
add_loop [] (y ∷ ys) carry =
    let s = carry + (y - zero_char) in (zero_char + s % 10) ∷ add_loop [] ys (s / 10)
add_loop (x ∷ xs) (y ∷ ys) carry =
    let s = carry + (x - zero_char) + (y - zero_char) in
    (zero_char + s % 10) ∷ add_loop xs ys (s / 10)

unfoldable pub dec_add : Digits → Digits → Digits
unfolding add_loop dec_strip
dec_add a b = dec_strip (reverse (add_loop (reverse a) (reverse b) 0))

-- One round of `dec_sub`: the digit and the next borrow. `s = x - borrow - y` is at least -10 for
-- digits, so `s + 10` is a natural number and `s < 0` is `x < borrow + y`.
unfoldable pub sub_digit : ℕ → ℕ → ℕ → ℕ
sub_digit x y borrow = zero_char + ((x - zero_char) + 10 - (borrow + (y - zero_char))) % 10

unfoldable pub sub_borrow : ℕ → ℕ → ℕ → ℕ
sub_borrow x y borrow = if ltb (x - zero_char) (borrow + (y - zero_char)) then 1 else 0

-- Digits of `b` past the end of `a` are not read.
unfoldable pub sub_loop : Digits → Digits → ℕ → Digits
unfolding sub_digit sub_borrow
sub_loop [] ys borrow = []
sub_loop (x ∷ xs) [] borrow =
    sub_digit x zero_char borrow ∷ sub_loop xs [] (sub_borrow x zero_char borrow)
sub_loop (x ∷ xs) (y ∷ ys) borrow = sub_digit x y borrow ∷ sub_loop xs ys (sub_borrow x y borrow)

unfoldable pub dec_sub : Digits → Digits → Digits
unfolding sub_loop dec_strip
dec_sub a b = dec_strip (reverse (sub_loop (reverse a) (reverse b) 0))

unfoldable pub dec_pow10 : ℕ → Digits
dec_pow10 k = b'1' ∷ replicate k zero_char

-- `d == "0"`
abbrev pub is_nought : Digits → Bool
is_nought [] = false
is_nought (c ∷ []) = c == zero_char
is_nought (c ∷ e ∷ d) = false

unfoldable pub dec_shift : Digits → ℕ → Digits
dec_shift d k = if is_nought d then d else d ++ replicate k zero_char
