-- ===== src/Tests/Decimal.antt =====
-- Decimal strings and coefficient buffers at concrete inputs.
use dev4_review_workspace.Prelude.{◌+◌, ◌≡◌, refl, none, some, [], ◌∷◌, arith, length}
use dev4_review_workspace.Decimal.{
  text, dec_strip, dec_strip_trailing, dec_cmp, dec_add, dec_sub, dec_shift, dec_pow10,
}
use dev4_review_workspace.Decimal.Value.{value}
use dev4_review_workspace.Decimal.Add.{value-dec_add}
use dev4_review_workspace.Decimal.Subtract.{value-dec_sub}
use dev4_review_workspace.Decimal.Order.{order_of, dec_cmp-order_of}
use dev4_review_workspace.Coefficient.{Buf, dec_to_buf, buf_to_dec}
use dev4_review_workspace.Coefficient.Write.{buf_value, Holds, dec_to_buf-Holds}
use dev4_review_workspace.Coefficient.Read.{value-buf_to_dec}
use dev4_review_workspace.Coefficient.RoundTrip.{buf_to_dec-dec_to_buf, dec_to_buf-buf_to_dec}

sums :
    (dec_add (text "999") (text "1") ≡ text "1000")
    × (dec_sub (text "1000") (text "1") ≡ text "999")
    × (dec_strip_trailing (text "12300") ≡ text "123")
    × (dec_shift (text "12") 3 ≡ text "12000")
    × (dec_pow10 4 ≡ text "10000")
unfolding dec_add dec_sub dec_strip_trailing dec_shift dec_pow10
sums = (refl, refl, refl, refl, refl)

abbrev one_two_three_four : Buf
one_two_three_four = 4 ∷ 210 ∷ []

bytes :
    (dec_to_buf 2 (text "1234") ≡ some one_two_three_four) × (dec_to_buf 2 (text "65536") ≡ none)
unfolding dec_to_buf
bytes = (refl, refl)

value-dec_add_example :
    value (dec_add (text "95") (text "7")) ≡ value (text "95") + value (text "7")
value-dec_add_example = value-dec_add (text "95") (text "7")

value-dec_sub_example :
    value (dec_sub (text "100") (text "7")) + value (text "7") ≡ value (text "100")
unfolding value
value-dec_sub_example =
    value-dec_sub (text "100") (text "7") (omega arith) (omega arith) (omega arith)

dec_cmp-order_of_example :
    dec_cmp (text "99") (text "100") ≡ order_of (value (text "99")) (value (text "100"))
dec_cmp-order_of_example = dec_cmp-order_of (text "99") (text "100") (omega arith) (omega arith)

dec_to_buf-Holds_example : Holds 2 (value (text "1234")) (dec_to_buf 2 (text "1234"))
dec_to_buf-Holds_example = dec_to_buf-Holds 2 (text "1234")

value-buf_to_dec_example : value (buf_to_dec one_two_three_four) ≡ buf_value one_two_three_four
value-buf_to_dec_example = value-buf_to_dec one_two_three_four (omega arith)

written : dec_to_buf 2 (text "01234") ≡ some one_two_three_four
unfolding dec_to_buf
written = refl

buf_to_dec-dec_to_buf_example : buf_to_dec one_two_three_four ≡ dec_strip (text "01234")
buf_to_dec-dec_to_buf_example =
    buf_to_dec-dec_to_buf 2 (text "01234") one_two_three_four (omega arith) (omega arith) written

dec_to_buf-buf_to_dec_example :
    dec_to_buf (length one_two_three_four) (buf_to_dec one_two_three_four) ≡ some one_two_three_four
dec_to_buf-buf_to_dec_example = dec_to_buf-buf_to_dec one_two_three_four (omega arith)
