-- ===== src/Numeric/Grids.antt =====
-- The grids of inputs in unit/query/numeric_opfunc.exact_paths/test.cpp: `compare_coefficients`,
-- `compare_scales`, `compare_grid`, `round_grid` and `int_numeric_grid`. The static vector that the
-- first call fills is the value of the call.
use dev4_review_workspace.Prelude.{
  true, Option, some, List, [], ◌∷◌, length, ℤ, pos, negsuc, ℕ, map, ltb, if◌then◌else◌, ◌++◌,
}
use dev4_review_workspace.Decimal.{dec_add, dec_sub, dec_shift, is_nought, Digits, text}
use dev4_review_workspace.Numeric.{Engine, Num, add_forms, ◌>>=◌}

abbrev pub two127 : Digits
two127 = text "170141183460469231731687303715884105728"

abbrev pub compare_coefficients : List Digits
compare_coefficients =
    text "0"
    ∷ text "1"
    ∷ text "4"
    ∷ text "5"
    ∷ text "9"
    ∷ text "15"
    ∷ text "99"
    ∷ text "12345"
    ∷ text "9223372036854775807"
    ∷ text "9223372036854775808"
    ∷ text "18446744073709551615"
    ∷ text "10000000000000000000"
    ∷ text "34028236692093846346"
    ∷ text "34028236692093846347"
    ∷ two127
    ∷ text "340282366920938463463374607431768211455"
    ∷ text "340282366920938463463374607431768211456"
    ∷ text "99999999999999999999999999999999999999"
    ∷ text "100000000000000000000000000000000000000"
    ∷ text "9999999999999999999999999999999999999999"
    ∷ []

abbrev pub compare_scales : List ℤ
compare_scales =
    pos 0
    ∷ pos 1
    ∷ pos 2
    ∷ pos 19
    ∷ pos 20
    ∷ pos 38
    ∷ pos 39
    ∷ pos 40
    ∷ pos 252
    ∷ negsuc 0
    ∷ negsuc 18
    ∷ negsuc 213
    ∷ []

abbrev pub round_coefficients : List Digits
round_coefficients =
    text "0"
    ∷ text "1"
    ∷ text "4"
    ∷ text "5"
    ∷ text "9"
    ∷ text "14"
    ∷ text "15"
    ∷ text "25"
    ∷ text "45"
    ∷ text "49"
    ∷ text "50"
    ∷ text "55"
    ∷ text "94"
    ∷ text "95"
    ∷ text "99"
    ∷ text "149"
    ∷ text "150"
    ∷ text "994"
    ∷ text "995"
    ∷ text "999"
    ∷ text "12345"
    ∷ text "99999"
    ∷ text "9223372036854775807"
    ∷ text "999999999999999999999"
    ∷ text "99999999999999999999999999999999999999"
    ∷ two127
    ∷ text "340282366920938463463374607431768211455"
    ∷ text "340282366920938463463374607431768211449"
    ∷ text "339999999999999999999999999999999999999"
    ∷ text "340282366920938463463374607431768211456"
    ∷ text "999999999999999999999999999999999999999"
    ∷ text "9999999999999999999999999999999999999999"
    ∷ []

abbrev pub round_scales : List ℤ
round_scales =
    pos 0
    ∷ pos 1
    ∷ pos 2
    ∷ pos 3
    ∷ pos 5
    ∷ pos 19
    ∷ pos 20
    ∷ pos 37
    ∷ pos 38
    ∷ pos 39
    ∷ pos 40
    ∷ pos 41
    ∷ pos 100
    ∷ pos 252
    ∷ negsuc 0
    ∷ negsuc 2
    ∷ negsuc 212
    ∷ negsuc 213
    ∷ []

module _ (e : Engine) where
  -- The inner loop, over the scales
  unfoldable pub scale_loop :
      List (Num × e.DbValue) → Digits → List ℤ → Option (List (Num × e.DbValue))
  scale_loop g c [] = some g
  scale_loop g c (s ∷ ss) = add_forms e g c s true >>= λ h. scale_loop h c ss

  -- The outer loop, over the coefficients
  unfoldable pub grid_loop :
      List (Num × e.DbValue) → List Digits → List ℤ → Option (List (Num × e.DbValue))
  unfolding scale_loop
  grid_loop g [] ss = some g
  grid_loop g (c ∷ cs) ss = scale_loop g c ss >>= λ h. grid_loop h cs ss

  unfoldable pub compare_grid : Option (List (Num × e.DbValue))
  unfolding grid_loop
  compare_grid = grid_loop [] compare_coefficients compare_scales

  unfoldable pub round_grid : Option (List (Num × e.DbValue))
  unfolding grid_loop
  round_grid = grid_loop [] round_coefficients round_scales

abbrev pub int_magnitudes : List Digits
int_magnitudes =
    text "0"
    ∷ text "1"
    ∷ text "7"
    ∷ text "32767"
    ∷ text "32768"
    ∷ text "2147483647"
    ∷ text "2147483648"
    ∷ text "9223372036854775807"
    ∷ text "9223372036854775808"
    ∷ text "9223372036854775806"
    ∷ text "1000000000000000000"
    ∷ text "1844674407370955161"
    ∷ text "3402823669209384634"
    ∷ text "3402823669209384635"
    ∷ []

-- The last lines of `int_numeric_grid`: coefficients with their scales
abbrev pub edge_pairs : List (Digits × ℤ)
edge_pairs =
    (text "99999999999999999999999999999999999999", pos 0)
    ∷ (text "99999999999999999999999999999999999999", pos 38)
    ∷ (text "5", pos 1)
    ∷ (text "1", negsuc 18)
    ∷ (text "9", negsuc 17)
    ∷ (text "92233720368547758", negsuc 1)
    ∷ (text "922337203685477581", negsuc 0)
    ∷ (text "922337203685477580", negsuc 0)
    ∷ (text "1", pos 252)
    ∷ (text "9999999999999999999999999999999999999999", negsuc 213)
    ∷ (text "9999999999999999999999999999999999999999", pos 21)
    ∷ []

abbrev pub at_scales : List Digits → List ℤ → List (Digits × ℤ)
at_scales cs [] = []
at_scales cs (s ∷ ss) = map (λ c. (c, s)) cs ++ at_scales cs ss

module _ (e : Engine) where
  -- A magnitude at one scale, and one unit of its last digit above and below it
  unfoldable pub around : List (Num × e.DbValue) → Digits → ℕ → Option (List (Num × e.DbValue))
  around g m s =
      let eq = dec_shift m s in
      if ltb e.limits.max_precision (length eq)
      then some g
      else (add_forms e g eq (pos s) true >>= λ a.
          add_forms e a (dec_add eq (text "1")) (pos s) true >>= λ b.
          if is_nought eq then some b else add_forms e b (dec_sub eq (text "1")) (pos s) true)

  unfoldable pub around_scales :
      List (Num × e.DbValue) → Digits → List ℕ → Option (List (Num × e.DbValue))
  unfolding around
  around_scales g m [] = some g
  around_scales g m (s ∷ ss) = around g m s >>= λ h. around_scales h m ss

  unfoldable pub around_all : List (Num × e.DbValue) → List Digits → Option (List (Num × e.DbValue))
  unfolding around_scales
  around_all g [] = some g
  around_all g (m ∷ ms) = around_scales g m (0 ∷ 1 ∷ 19 ∷ 20 ∷ 38 ∷ []) >>= λ h. around_all h ms

  unfoldable pub pair_loop :
      List (Num × e.DbValue) → List (Digits × ℤ) → Option (List (Num × e.DbValue))
  pair_loop g [] = some g
  pair_loop g ((c, s) ∷ ps) = add_forms e g c s true >>= λ h. pair_loop h ps

  unfoldable pub int_numeric_grid : Option (List (Num × e.DbValue))
  unfolding around_all pair_loop
  int_numeric_grid = around_all [] int_magnitudes >>= λ g. pair_loop g (
      at_scales
        (text "340282366920938463463374607431768211455"
          ∷ text "340282366920938463463374607431768211456"
          ∷ [])
        (pos 0 ∷ pos 1 ∷ pos 18 ∷ pos 19 ∷ pos 20 ∷ pos 21 ∷ pos 38 ∷ pos 39 ∷ [])
      ++ edge_pairs)
