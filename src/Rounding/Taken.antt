-- ===== src/Rounding/Taken.antt =====
-- `round_taken` of unit/query/numeric_opfunc.exact_paths/test.cpp and the bound of a 128-bit coefficient.
use dev4_review_workspace.Prelude.{
  ℕ, zero, suc, ◌+◌, ◌*◌, ◌/◌, ◌^◌, ◌≤◌, ◌<◌, ◌≡◌, refl, sym, ap, ◌∙◌, inl, inr, Bool, true, false,
  not, ◌&&◌, ◌||◌, arith, ltb, leb, ◌==◌, if◌then◌else◌, ltb→lt, tests, Bool-cases, length, All, ℤ,
  pos, ◌-ℤ◌, ◌≤ℤ◌, ltb_ℤ,
}
use native.Mathlib.Nat.{div-mul-le_self, div-eq_of_lt}
use dev4_review_workspace.Decimal.{Digits, dec_add, dec_pow10}
use dev4_review_workspace.Decimal.Value.{IsDigit, IsCanonical, value, value_from}
use dev4_review_workspace.Decimal.Strip.{IsCanonical-All, canonical_length}
use dev4_review_workspace.Decimal.Add.{dec_add-IsCanonical}
use dev4_review_workspace.Decimal.Order.{order_of, dec_cmp-order_of, pow_mono}
use dev4_review_workspace.Numeric.{Num}
use dev4_review_workspace.Numeric.Order.{IsNum}
use dev4_review_workspace.Rounding.{
  two128, below_2_128, cleared_of, clear_low, first_dropped, round_taken,
}
use dev4_review_workspace.Rounding.Cut.{clear_low-IsCanonical, value-clear_low}
use dev4_review_workspace.Rounding.Target.{rounded, value_round_up, value_round_down}
use dev4_review_workspace.Rounding.Round.{first_dropped-past, suc_test}

two128-IsCanonical : IsCanonical two128
two128-IsCanonical = omega arith

value-two128 : value two128 ≡ 2 ^ 128
unfolding value value_from
value-two128 = refl

abbrev pub u128_mod : ℕ
u128_mod = 2 ^ 128

below_order : (m n : ℕ) → ltb_ℤ (order_of m n) (pos 0) ≡ ltb m n
below_order m n = ground arith

pub below_2_128-ltb : (m : Digits) → IsCanonical m → below_2_128 m ≡ ltb (value m) u128_mod
unfolding below_2_128
below_2_128-ltb m c =
    rw (dec_cmp-order_of m two128 c two128-IsCanonical, value-two128)
      (below_order (value m) u128_mod)

-- Below half of the unit nothing is left.
small_rounds_to_zero : (half_up : Bool) (c v : ℕ) → v < 5 * 10 ^ c → rounded half_up (suc c) v ≡ 0
small_rounds_to_zero true c v h =
    let e : (v + 5 * 10 ^ c) / 10 ^ suc c ≡ 0 = div-eq_of_lt (omega arith) in rw e (omega arith)
small_rounds_to_zero false c v h =
    let e : v / 10 ^ suc c ≡ 0 = div-eq_of_lt (omega arith) in rw e (omega arith)

truncated-le : (c v : ℕ) → rounded false c v ≤ v
truncated-le zero v = omega arith
truncated-le (suc c) v = div-mul-le_self v (10 ^ suc c)

module _ (n : Num) (num : IsNum n) (c : ℕ) where
  digits : All IsDigit n.mag
  digits = IsCanonical-All n.mag num.canonical

  up : Digits
  up = dec_add (clear_low n.mag (suc c)) (dec_pow10 (suc c))

  up-ltb :
      leb 5 (first_dropped n.mag (suc c)) ≡ true
      → below_2_128 up ≡ ltb (rounded true (suc c) (value n.mag)) u128_mod
  unfolding up
  up-ltb half =
      below_2_128-ltb up (
        dec_add-IsCanonical (clear_low n.mag (suc c)) (dec_pow10 (suc c))
          (canonical_length _ (clear_low-IsCanonical n.mag (suc c) digits)))
      ∙ ap (λ t. ltb t u128_mod) (value_round_up n.mag c digits half)

  down-le :
      leb 5 (first_dropped n.mag (suc c)) ≡ false → rounded true (suc c) (value n.mag) ≤ value n.mag
  down-le less =
      rw (sym (value_round_down n.mag c digits less), value-clear_low n.mag (suc c) digits)
        (div-mul-le_self (value n.mag) (10 ^ suc c))

-- A drop of more than 38 digits leaves nothing of a coefficient below 2 ^ 128.
far_place : (half_up : Bool) (c v : ℕ) → 38 ≤ c → v < u128_mod → rounded half_up (suc c) v ≡ 0
far_place half_up c v h lt = small_rounds_to_zero half_up c v (omega (arith, pow_mono 38 c h))

lt_test : (m n : ℕ) → m < n → ltb m n ≡ true
lt_test m n h = ground arith

either_way : (b : Bool) → (if b then true else true) ≡ true
either_way true = refl
either_way false = refl

-- The place is more than 38 below the scale exactly when more than 38 digits are dropped.
far_test :
    (s place : ℤ) → ltb_ℤ s place ≡ false → ltb_ℤ place (s -ℤ pos 38) ≡ ltb 38 (cleared_of s place)
unfolding ◌-ℤ◌
far_test s place h = ground arith

module _ (n : Num) (num : IsNum n) (place : ℤ) (half_up : Bool) where
  -- What is asked once the operand fits: the last tests of `round_taken`.
  abbrev last_tests : ℕ → Bool
  last_tests c =
      if ltb 38 c
      then true
      else if not half_up || c == 0 || ltb (length n.mag) c
      then true
      else if ltb (first_dropped n.mag c) 5
      then true
      else below_2_128 (dec_add (clear_low n.mag c) (dec_pow10 c))

  last_tests-ltb :
      (c : ℕ)
      → value n.mag < u128_mod
      → last_tests c ≡ ltb (rounded half_up c (value n.mag)) u128_mod
  unfolding up
  last_tests-ltb zero fits = ground (arith, lt_test (value n.mag) u128_mod fits)
  last_tests-ltb (suc c) fits = elim (Bool-cases (ltb 38 (suc c))) [
    | inl far ↦
        rw (far, far_place half_up c (value n.mag) (omega (arith, ltb→lt 38 (suc c) far)) fits)
    | inr near ↦ rw near (elim (Bool-cases half_up) [
      | inr trunc ↦
          rw trunc (sym (lt_test _ u128_mod (le-lt (truncated-le (suc c) (value n.mag)) fits)))
      | inl away ↦
          rw (away, suc_test c)
            (elim (Bool-cases (leb 5 (first_dropped n.mag (suc c)))) [
              | inl half ↦ rw (inside half, lt_of_le_test half) (up-ltb n num c half)
              | inr less ↦
                  rw (ge_of_lt_test less, either_way (ltb (length n.mag) (suc c)))
                    (sym (lt_test _ u128_mod (le-lt (down-le n num c less) fits)))
            ])
    ])
  ]
    where
      le-lt : {x y z : ℕ} → x ≤ y → y < z → x < z
      le-lt h k = omega arith

      inside : leb 5 (first_dropped n.mag (suc c)) ≡ true → ltb (length n.mag) (suc c) ≡ false
      inside half = ground (arith, first_dropped-past n.mag (suc c))

      lt_of_le_test :
          leb 5 (first_dropped n.mag (suc c)) ≡ true → ltb (first_dropped n.mag (suc c)) 5 ≡ false
      lt_of_le_test h = ground arith

      ge_of_lt_test :
          leb 5 (first_dropped n.mag (suc c)) ≡ false → ltb (first_dropped n.mag (suc c)) 5 ≡ true
      ge_of_lt_test h = ground arith

  -- For a well-formed value and a place no greater than its scale, `round_taken` holds exactly
  -- when the scale is 0 or more and the coefficient and the rounded coefficient are below 2 ^
  -- 128.
  pub round_taken-eq :
      place ≤ℤ n.s
      → round_taken n place half_up ≡ (
          not (ltb_ℤ n.s (pos 0))
          && ltb (value n.mag) u128_mod
          && ltb (rounded half_up (cleared_of n.s place) (value n.mag)) u128_mod)
  unfolding round_taken
  round_taken-eq below =
      let c = cleared_of n.s place in
      let place_ok : ltb_ℤ n.s place ≡ false = ground arith in
      rw (below_2_128-ltb n.mag num.canonical, place_ok, far_test n.s place place_ok)
        (gather (ltb (value n.mag) u128_mod) (ltb_ℤ n.s (pos 0)) (last_tests c) _
          (λ fits. last_tests-ltb c (ltb→lt _ _ fits)))
    where
      gather :
          (fits negative tests target : Bool)
          → (fits ≡ true → tests ≡ target)
          → (if not fits || negative then false else tests) ≡ (not negative && fits && target)
      gather true true tests target h = refl
      gather true false tests target h = h refl
      gather false true tests target h = refl
      gather false false tests target h = refl
