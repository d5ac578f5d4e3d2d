-- ===== src/Rounding/Round.antt =====
-- `develop_round` of unit/query/numeric_opfunc.exact_paths/test.cpp and the target of ROUND and TRUNC.
pub mod Bounds
use dev4_review_workspace.Prelude.{
  ℕ, zero, suc, ◌+◌, ◌-◌, ◌*◌, ◌/◌, ◌%◌, ◌^◌, ◌≤◌, ◌<◌, min, max, ◌≡◌, refl, sym, ap, ◌∙◌, subst,
  ◌≢◌, ◌↔◌, ◌⊎◌, inl, inr, Bool, true, false, not, ◌&&◌, ◌||◌, Option, none, some, List, [], ◌∷◌,
  ◌++◌, map, reverse, foldl, reverse-cons, reverse-append, reverse-reverse, append-nil,
  append_assoc, arith, dec_lt, dec_le, ℕ_discrete, ltb, leb, ◌==◌, if◌then◌else◌, ltb→lt, lt→ltb,
  leb→le, ==_iff, tests, Bool-cases, Option-cases, length, get_elem?, set, length-append, get_or,
  take, drop, replicate, take-append-drop, length-take, length-drop, length-replicate, length-map,
  length-set, All, All-append, All-append_left, All-append_right, All-reverse, All-replicate,
  length-reverse, ℤ, pos, negsuc, pos_part, neg_part, sub_ℕ, ◌+ℤ◌, ◌-ℤ◌, ◌≤ℤ◌, ◌<ℤ◌, ltb_ℤ, eqb_ℤ,
  neg_ℤ, +ℤ_parts, -ℤ_parts, eq_of_parts, int_laws,
}
use native.Mathlib.Nat.{le_trans}
use dev4_review_workspace.Decimal.{Digits, zero_char, nought, is_nought, dec_add, dec_pow10}
use dev4_review_workspace.Decimal.Value.{IsDigit, IsCanonical, value, value_single}
use dev4_review_workspace.Decimal.Strip.{IsCanonical-All, canonical_length}
use dev4_review_workspace.Decimal.Add.{dec_add-IsCanonical}
use dev4_review_workspace.Decimal.Order.{pow-le-value, pow_mono}
use dev4_review_workspace.Numeric.{Limits, Num, NumOut, empty_out}
use dev4_review_workspace.Numeric.Order.{IsNum, zeros_to}
use dev4_review_workspace.Rounding.{
  cleared_of, clear_low, first_dropped, drop_last, float_out, grow, develop_round,
}
use dev4_review_workspace.Rounding.Cut.{high, value-high, value-clear_low, clear_low-IsCanonical}
use dev4_review_workspace.Rounding.Target.{rounded, value_round_up, value_round_down}

-- What the engine's constants have in common.
pub record IsLimits (k : Limits) : Type 0 where
  pub some_precision : 0 < k.max_precision
  pub room : k.max_precision ≤ k.twice_precision

-- `o` is a float NUMERIC that stands for `target` units of the scale of `n`, with the sign of `n`.
pub record Exact (k : Limits) (n : Num) (target : ℕ) (o : NumOut) : Type 0 where
  pub succeeds : o.rc ≡ k.no_error
  pub no_error_set : o.er ≡ k.no_error
  pub numeric : o.kind ≡ k.numeric_type
  pub floating : o.is_float ≡ true
  pub not_null : o.is_null ≡ false
  pub canonical : IsCanonical o.mag
  pub negative : o.neg ≡ (n.neg && not (is_nought o.mag))
  pub scale_le : o.s ≤ℤ n.s
  pub same_value : value o.mag * 10 ^ zeros_to n.s o.s ≡ target

-- The overflow error, of a coefficient of more digits than the greatest precision where the scale
-- cannot fall.
pub record Refused (k : Limits) (n : Num) (target : ℕ) (o : NumOut) : Type 0 where
  pub fails : o.rc ≡ k.overflow
  pub error_set : o.er ≡ k.overflow
  pub too_long : 10 ^ k.max_precision ≤ target
  pub lowest_scale : n.s -ℤ pos 1 <ℤ k.min_scale

zeros_to_self : (s : ℤ) → zeros_to s s ≡ 0
unfolding ◌-ℤ◌
zeros_to_self s = ground arith

zeros_to_less : (s : ℤ) → zeros_to s (s -ℤ pos 1) ≡ 1
unfolding ◌-ℤ◌
zeros_to_less s = ground arith

less-le : (s : ℤ) → s -ℤ pos 1 ≤ℤ s
unfolding ◌-ℤ◌
less-le s = ground arith

float_out-Exact :
    (k : Limits) (n : Num) (p : ℕ) (m : Digits) (target : ℕ)
    → IsCanonical m
    → value m ≡ target
    → Exact k n target (float_out k n p n.s m)
float_out-Exact k n p m target c e = record {
  succeeds = refl;
  no_error_set = refl;
  numeric = refl;
  floating = refl;
  not_null = refl;
  canonical = c;
  negative = refl;
  scale_le = omega arith;
  same_value = rw (zeros_to_self n.s) (omega (arith, e));
}

pub IsCanonical-take :
    (x y : ℕ) (d : Digits) (j : ℕ)
    → IsCanonical (x ∷ y ∷ d)
    → 0 < j
    → IsCanonical (take j (x ∷ y ∷ d))
IsCanonical-take x y d zero c h = absurd (omega arith)
IsCanonical-take x y d (suc zero) c h = c.1.0
IsCanonical-take x y d (suc (suc j)) c h = (
  c.0,
  All-append_left IsDigit (take (suc (suc j)) (x ∷ y ∷ d)) (drop (suc (suc j)) (x ∷ y ∷ d))
      (subst (All IsDigit) (sym (take-append-drop (suc (suc j)) (x ∷ y ∷ d))) c.1),
)

drop_last-IsCanonical : (m : Digits) → IsCanonical m → 1 < length m → IsCanonical (drop_last m)
drop_last-IsCanonical [] c h = absurd c
drop_last-IsCanonical (x ∷ []) c h = absurd (omega arith)
drop_last-IsCanonical (x ∷ y ∷ d) c h =
    IsCanonical-take x y d (length (x ∷ y ∷ d) - 1) c (omega arith)

long_value : (m : Digits) (p : ℕ) → IsCanonical m → 0 < p → p < length m → 10 ^ p ≤ value m
long_value [] p c h l = absurd c
long_value (x ∷ []) p c h l = absurd (omega arith)
long_value (x ∷ y ∷ d) p c h l =
    le_trans (pow_mono p (length (y ∷ d)) (omega arith)) (pow-le-value x y d c)

value-drop_last : (m : Digits) (q : ℕ) → All IsDigit m → value m ≡ 10 * q → value (drop_last m) ≡ q
value-drop_last m q h e = unfold high in sym (value-high m 1 h) ∙ rw e (omega arith)

-- Giving a last digit 0 to the scale keeps the value.
grow_sound :
    (k : Limits) (n : Num) (m : Digits) (q : ℕ)
    → IsLimits k
    → IsCanonical m
    → value m ≡ 10 * q
    → Exact k n (value m) (grow k n m) ⊎ Refused k n (value m) (grow k n m)
unfolding grow
grow_sound k n m q w c e = elim (Bool-cases (ltb k.max_precision (length m))) [
  | inl long ↦ elim (Bool-cases (ltb_ℤ (n.s -ℤ pos 1) k.min_scale)) [
    | inl lowest ↦
        rw (long, lowest)
          (inr (record {
            fails = refl;
            error_set = refl;
            too_long = long_value m k.max_precision c w.some_precision (ltb→lt _ _ long);
            lowest_scale = ltb→lt _ _ lowest;
          }))
    | inr room ↦
        rw (long, room)
          (inl (record {
            succeeds = refl;
            no_error_set = refl;
            numeric = refl;
            floating = refl;
            not_null = refl;
            canonical =
                drop_last-IsCanonical m c (omega (arith, w.some_precision, ltb→lt _ _ long));
            negative = refl;
            scale_le = less-le n.s;
            same_value =
                rw (zeros_to_less n.s, value-drop_last m q (IsCanonical-All m c) e)
                  (omega (arith, e));
          }))
  ]
  | inr short ↦ rw short (inl (float_out-Exact k n n.p m (value m) c refl))
]

pub first_dropped-past : (mag : Digits) (c : ℕ) → length mag < c → first_dropped mag c ≡ 0
unfolding first_dropped
first_dropped-past mag c h = ground arith

clear_low-past : (mag : Digits) (c : ℕ) → length mag ≤ c → clear_low mag c ≡ nought
unfolding clear_low
clear_low-past mag c h = ground arith

value-nought : value nought ≡ 0
value-nought = value_single zero_char

-- Digits dropped past the front of the string leave nothing, ROUND or TRUNC.
nothing_left :
    (mag : Digits) (c : ℕ) (half_up : Bool)
    → All IsDigit mag
    → length mag < suc c
    → value nought ≡ rounded half_up (suc c) (value mag)
nothing_left mag c half_up h past =
    elim half_up as (λ b. value nought ≡ rounded b (suc c) (value mag)) [
      | true ↦
          sym (ap value (clear_low-past mag (suc c) (omega arith)))
          ∙ value_round_down mag c h (rw (first_dropped-past mag (suc c) past))
      | false ↦
          sym (ap value (clear_low-past mag (suc c) (omega arith))) ∙ value-clear_low mag (suc c) h
    ]

-- A result of `develop_round`, against ROUND or TRUNC to the place.
abbrev pub Rounds : Limits → Num → ℕ → Bool → NumOut → Type 0
Rounds k n c half_up o =
    Exact k n (rounded half_up c (value n.mag)) o ⊎ Refused k n (rounded half_up c (value n.mag)) o

-- A multiple of 10 ^ (c + 1) is ten times a number.
ten_times : (x c : ℕ) → x * 10 ^ suc c ≡ 10 * (x * 10 ^ c)
ten_times x c = factor x (10 ^ c) (10 ^ suc c) (omega arith)
  where
    factor : (x p q : ℕ) → q ≡ 10 * p → x * q ≡ 10 * (x * p)
    factor x p q e = rw e (omega arith)

pub suc_test : (c : ℕ) → (suc c == 0) ≡ false
suc_test c = ground arith

never : (m : ℕ) → ltb m 0 ≡ false
never m = ground arith

module _ (k : Limits) (n : Num) (place : ℤ) (half_up : Bool) where
  abbrev longest : ℕ
  longest = k.twice_precision + (if n.neg then 1 else 0)

  module _ (w : IsLimits k) (num : IsNum n) where
    digits : All IsDigit n.mag
    digits = IsCanonical-All n.mag num.canonical

    cleared_exact :
        (c : ℕ)
        → value (clear_low n.mag (suc c)) ≡ rounded half_up (suc c) (value n.mag)
        → Rounds k n (suc c) half_up (float_out k n n.p n.s (clear_low n.mag (suc c)))
    cleared_exact c e =
        inl (float_out-Exact k n n.p _ _ (clear_low-IsCanonical n.mag (suc c) digits) e)

    carried :
        (c : ℕ)
        → half_up ≡ true
        → leb 5 (first_dropped n.mag (suc c)) ≡ true
        → Rounds k n
            (suc c)
            half_up
            (grow k n (dec_add (clear_low n.mag (suc c)) (dec_pow10 (suc c))))
    carried c up half =
        let m = dec_add (clear_low n.mag (suc c)) (dec_pow10 (suc c)) in
        let e = value_round_up n.mag c digits half in
        rw (up, ← e)
          (grow_sound k n m _ w
            (dec_add-IsCanonical (clear_low n.mag (suc c)) (dec_pow10 (suc c))
              (canonical_length _ (clear_low-IsCanonical n.mag (suc c) digits)))
            (e ∙ ten_times ((value n.mag + 5 * 10 ^ c) / 10 ^ suc c) c))

    round_at :
        (c : ℕ)
        → cleared_of n.s place ≡ c
        → ltb_ℤ n.s place ≡ false
        → length n.mag ≤ k.twice_precision
        → Rounds k n c half_up (develop_round k n place half_up)
    unfolding develop_round
    round_at zero e below fits =
        rw (below, e, never longest) (inl (float_out-Exact k n n.p n.mag _ num.canonical refl))
    round_at (suc c) e below fits = elim (Bool-cases (ltb longest (suc c))) [
      | inl past ↦
          rw (below, e, past)
            (inl (
              float_out-Exact k n n.p nought _ (omega arith)
                (nothing_left n.mag c half_up digits (omega (arith, ltb→lt longest (suc c) past)))))
      | inr inside ↦ elim (Bool-cases half_up) [
        | inr trunc ↦
            rw (below, e, inside, suc_test c, trunc)
              (rw trunc at (cleared_exact c (rw trunc (value-clear_low n.mag (suc c) digits))))
        | inl up ↦ elim (Bool-cases (leb 5 (first_dropped n.mag (suc c)))) [
          | inl half ↦ rw (below, e, inside, suc_test c, up, half) (rw up at (carried c up half))
          | inr less ↦
              rw (below, e, inside, suc_test c, up, less)
                (rw up at (cleared_exact c (rw up (value_round_down n.mag c digits less))))
        ]
      ]
    ]

    -- For limits with room, a well-formed value, a place at or below its scale and a coefficient
    -- within `twice_precision`: ROUND and TRUNC give a float NUMERIC of the exact target, or the
    -- overflow error of a round up that has no scale left to give.
    pub develop_round-Rounds :
        place ≤ℤ n.s
        → length n.mag ≤ k.twice_precision
        → Rounds k n (cleared_of n.s place) half_up (develop_round k n place half_up)
    develop_round-Rounds below fits = round_at (cleared_of n.s place) refl (ground arith) fits

    -- A place past the scale leaves the value as it is.
    pub develop_round_past_scale :
        n.s <ℤ place
        → develop_round k n place half_up
          ≡ record (float_out k n n.p n.s n.mag) { is_float = n.is_float; neg = n.neg }
    unfolding develop_round
    develop_round_past_scale past = rw (lt→ltb _ _ past)
