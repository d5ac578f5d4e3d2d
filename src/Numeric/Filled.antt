-- ===== src/Numeric/Filled.antt =====
-- The grids `compare_grid` and `round_grid` of unit/query/numeric_opfunc.exact_paths/test.cpp: their
-- loops end without a failure, and the values that they reach.
use dev4_review_workspace.Prelude.{
  ℕ, ◌^◌, ◌≤◌, ◌<◌, max, ◌≡◌, ap, inl, inr, true, false, Option, none, some, List, [], ◌∷◌, ◌++◌,
  arith, leb, ◌==◌, Bool-cases, length, All, ℤ, pos, negsuc, ◌≤ℤ◌,
}
use dev4_review_workspace.Decimal.{zero_char, Digits, dec_strip}
use dev4_review_workspace.Decimal.Order.{pow_mono}
use dev4_review_workspace.Decimal.Value.{IsDigit, value, value-lt-pow}
use dev4_review_workspace.Numeric.{
  Engine, Num, num_of, make_num, push_form, sign_forms, add_forms, ◌>>=◌,
}
use dev4_review_workspace.Numeric.Order.{IsNum}
use dev4_review_workspace.Numeric.Outcome.{Laws, read_out-make_num}
use dev4_review_workspace.Numeric.Forms.{IsForm, MadeOf, make_num-IsForm, add_forms-Made}
use dev4_review_workspace.Numeric.Grids.{
  compare_coefficients, compare_scales, round_coefficients, round_scales, scale_loop, grid_loop,
  compare_grid, round_grid,
}
use dev4_review_workspace.Numeric.Coverage.{
  Some, Some-append_left, Some-last, All-both, IfMade, bind-IfMade, both-IfMade, column_forms,
  column_forms-keeps, sign_forms-keeps, scale_loop-keeps, grid_loop-keeps,
}

-- A coefficient of a grid: digits, at most forty
abbrev pub IsShort : Digits → Type 0
IsShort c = All IsDigit c × ((0 < length c) × (length c ≤ 40))

-- A scale that the engine has, of those from -214 to 252
abbrev pub IsScale : ℤ → Type 0
IsScale s = (negsuc 213 ≤ℤ s) × (s ≤ℤ pos 252)

-- A value of a grid: its keys are those of its number, and the engine reads its sign and precision.
pub record IsRead (e : Engine) (f : Num × e.DbValue) : Type 0 where
  pub num : IsNum f.0
  pub read_precision : e.precision f.1 ≡ f.0.p
  pub read_sign : e.negative f.1 ≡ f.0.neg

-- The float form of a coefficient at a scale
pub record IsFloatForm (e : Engine) (c : Digits) (s : ℤ) (f : Num × e.DbValue) : Type 0 where
  pub form : IsForm e c s f
  pub floating : f.0.is_float ≡ true

-- The grid was made, it has no other values than those that are read, and it has the float form of each
-- coefficient at each scale.
abbrev pub Fills : (e : Engine) → List Digits → List ℤ → Option (List (Num × e.DbValue)) → Type 0
Fills e cs ss none = ⊥
Fills e cs ss (some out) =
    All (IsRead e) out × All (λ c. All (λ s. Some (IsFloatForm e c s) out) ss) cs

length-dec_strip : (d : Digits) → length (dec_strip d) ≤ length d
unfolding dec_strip
length-dec_strip [] = omega arith
length-dec_strip (c ∷ []) = omega arith
length-dec_strip (c ∷ x ∷ d) = elim (Bool-cases (c == zero_char)) [
  | inl z ↦ rw z (omega (arith, length-dec_strip (x ∷ d)))
  | inr n ↦ rw n (omega arith)
]

module _ (e : Engine) (laws : Laws e) (columns : 40 ≤ e.limits.max_precision)
    (room : 10 ^ 40 ≤ 256 ^ e.limits.buf_size) (least : e.limits.min_scale ≤ℤ negsuc 213)
    (most : pos 252 ≤ℤ e.limits.max_scale) where
  short_fits : (c : Digits) → IsShort c → value c < 256 ^ e.limits.buf_size
  short_fits c (d, (_, l)) =
      let v = value-lt-pow c d in let m = pow_mono (length c) 40 l in omega (arith, v, m, room)

  low : (s : ℤ) → IsScale s → e.limits.min_scale ≤ℤ s
  low s (h, _) = ground (arith, h, least)

  high : (s : ℤ) → IsScale s → s ≤ℤ e.limits.max_scale
  high s (_, h) = ground (arith, h, most)

  -- The loops end without a failure.
  Made-then :
      (m : Option (List (Num × e.DbValue)))
      (f : List (Num × e.DbValue) → Option (List (Num × e.DbValue)))
      → MadeOf e (IsRead e) m
      → ((out : List (Num × e.DbValue)) → All (IsRead e) out → MadeOf e (IsRead e) (f out))
      → MadeOf e (IsRead e) (m >>= f)
  Made-then none f h k = h
  Made-then (some out) f h k = k out h

  IsForm-IsRead : (c : Digits) (s : ℤ) (f : Num × e.DbValue) → IsForm e c s f → IsRead e f
  IsForm-IsRead c s f h = record {
    num = h.num;
    read_precision = h.read_precision;
    read_sign = h.read_sign;
  }

  scale_loop-Made :
      (g : List (Num × e.DbValue)) (c : Digits) (ss : List ℤ)
      → IsShort c
      → All IsScale ss
      → All (IsRead e) g
      → MadeOf e (IsRead e) (scale_loop e g c ss)
  unfolding scale_loop
  scale_loop-Made g c [] h hs all = all
  scale_loop-Made g c (s ∷ ss) h (r, hs) all =
      Made-then (add_forms e g c s true) (λ out. scale_loop e out c ss)
        (add_forms-Made e laws c s h.0 h.1.0 (short_fits c h) (low s r) (high s r) (IsRead e)
          (IsForm-IsRead c s) (omega (arith, columns)) true g all)
        (λ out all_out. scale_loop-Made out c ss h hs all_out)

  grid_loop-Made :
      (g : List (Num × e.DbValue)) (cs : List Digits) (ss : List ℤ)
      → All IsShort cs
      → All IsScale ss
      → All (IsRead e) g
      → MadeOf e (IsRead e) (grid_loop e g cs ss)
  unfolding grid_loop
  grid_loop-Made g [] ss h hs all = all
  grid_loop-Made g (c ∷ cs) ss (hc, h) hs all =
      Made-then (scale_loop e g c ss) (λ out. grid_loop e out cs ss)
        (scale_loop-Made g c ss hc hs all) (λ out all_out. grid_loop-Made out cs ss h hs all_out)

  -- The float form is the first that is added.
  module _ (c : Digits) (s : ℤ) (short : IsShort c) (range : IsScale s) where
    abbrev Has : List (Num × e.DbValue) → Type 0
    Has = Some (IsFloatForm e c s)

    digit_count : ℕ
    digit_count = length (dec_strip c)

    float_form :
        (f : Num × e.DbValue) × (make_num e c (max 1 (length (dec_strip c))) s false true ≡ some f)
        × IsFloatForm e c s f
    unfolding num_of
    float_form =
        let fits = length-dec_strip c in
        let (f, made, form) =
          make_num-IsForm e laws c s short.0 short.1.0 (short_fits c short) (low s range)
            (high s range) (max 1 (length (dec_strip c))) false true (omega arith)
            (omega (arith, fits, short.1.1, columns)) (omega arith) in
        let (keys, _) =
          read_out-make_num e laws c (max 1 (length (dec_strip c))) s false true f.0 f.1 short.0
            short.1.0 made in
        (f, made, record { form = form; floating = ap (λ n. n.is_float) keys })

    float_first :
        (out : List (Num × e.DbValue))
        → IfMade e Has (
            push_form e
              (leb (length (dec_strip c)) e.limits.max_precision)
              c
              (max 1 (length (dec_strip c)))
              s
              false
              true
              out)
    float_first out =
        let fits = length-dec_strip c in
        let (f, made, form) = float_form in
        let within : leb (length (dec_strip c)) e.limits.max_precision ≡ true =
          ground (arith, fits, short.1.1, columns) in
        rw (within, made) (Some-last (IsFloatForm e c s) out f form)

    sign_forms-Has : (out : List (Num × e.DbValue)) → IfMade e Has (sign_forms e c s false out)
    unfolding sign_forms
    sign_forms-Has out =
        bind-IfMade e Has Has
          (push_form e (leb (length (dec_strip c)) e.limits.max_precision) c
            (max 1 (length (dec_strip c))) s false true out)
          (column_forms e c s false) (float_first out)
          (column_forms-keeps e Has (Some-append_left (IsFloatForm e c s)) c s false)

    add_forms-Has : (out : List (Num × e.DbValue)) → IfMade e Has (add_forms e out c s true)
    unfolding add_forms
    add_forms-Has out =
        bind-IfMade e Has Has (sign_forms e c s false out) _ (sign_forms-Has out)
          (sign_forms-keeps e Has (Some-append_left (IsFloatForm e c s)) c s true)

  scale_loop-Has :
      (c : Digits) (ss : List ℤ) (g : List (Num × e.DbValue))
      → IsShort c
      → All IsScale ss
      → IfMade e (λ out. All (λ s. Some (IsFloatForm e c s) out) ss) (scale_loop e g c ss)
  unfolding scale_loop
  scale_loop-Has c [] g h hs = tt
  scale_loop-Has c (s ∷ ss) g h (r, hs) =
      bind-IfMade e (Has c s h r) (λ out. All (λ t. Some (IsFloatForm e c t) out) (s ∷ ss))
        (add_forms e g c s true) (λ out. scale_loop e out c ss) (add_forms-Has c s h r g)
        (λ out has.
          both-IfMade e (Has c s h r) (λ o. All (λ t. Some (IsFloatForm e c t) o) ss)
            (scale_loop e out c ss)
            (scale_loop-keeps e (Has c s h r) (Some-append_left (IsFloatForm e c s)) c ss out has)
            (scale_loop-Has c ss out h hs))

  grid_loop-Has :
      (cs : List Digits) (ss : List ℤ) (g : List (Num × e.DbValue))
      → All IsShort cs
      → All IsScale ss
      → IfMade e
          (λ out. All (λ c. All (λ s. Some (IsFloatForm e c s) out) ss) cs)
          (grid_loop e g cs ss)
  unfolding grid_loop
  grid_loop-Has [] ss g h hs = tt
  grid_loop-Has (c ∷ cs) ss g (hc, h) hs =
      bind-IfMade e K (λ out. All (λ c. All (λ s. Some (IsFloatForm e c s) out) ss) (c ∷ cs))
        (scale_loop e g c ss) (λ out. grid_loop e out cs ss) (scale_loop-Has c ss g hc hs)
        (λ out has.
          both-IfMade e K (λ o. All (λ c. All (λ s. Some (IsFloatForm e c s) o) ss) cs)
            (grid_loop e out cs ss) (grid_loop-keeps e K K_grows cs ss out has)
            (grid_loop-Has cs ss out h hs))
    where
      K : List (Num × e.DbValue) → Type 0
      K out = All (λ s. Some (IsFloatForm e c s) out) ss

      K_grows : (xs ys : List (Num × e.DbValue)) → K xs → K (xs ++ ys)
      K_grows xs ys h =
          All-both (λ s. Some (IsFloatForm e c s) xs) (λ s. Some (IsFloatForm e c s) (xs ++ ys)) ss
            (λ s k. Some-append_left (IsFloatForm e c s) xs ys k) h

  both_ways :
      (cs : List Digits) (ss : List ℤ) (r : Option (List (Num × e.DbValue)))
      → MadeOf e (IsRead e) r
      → IfMade e (λ out. All (λ c. All (λ s. Some (IsFloatForm e c s) out) ss) cs) r
      → Fills e cs ss r
  both_ways cs ss none h k = h
  both_ways cs ss (some out) h k = (h, k)

  round_coefficients-IsShort : All IsShort round_coefficients
  round_coefficients-IsShort = omega arith

  compare_coefficients-IsShort : All IsShort compare_coefficients
  compare_coefficients-IsShort = omega arith

  round_scales-IsScale : All IsScale round_scales
  round_scales-IsScale = omega arith

  compare_scales-IsScale : All IsScale compare_scales
  compare_scales-IsScale = omega arith

  -- For an engine that keeps its laws, allows 40 digits, has a buffer for forty and the scales from -214
  -- to 252: the grid of ROUND inputs is made without a failure, the keys of each value are well formed
  -- and the engine reads back their precision and sign, and each coefficient at each scale has its
  -- float form in the grid.
  pub round_grid-Fills : Fills e round_coefficients round_scales (round_grid e)
  unfolding round_grid
  round_grid-Fills =
      both_ways round_coefficients round_scales (grid_loop e [] round_coefficients round_scales)
        (grid_loop-Made [] round_coefficients round_scales round_coefficients-IsShort
          round_scales-IsScale tt)
        (grid_loop-Has round_coefficients round_scales [] round_coefficients-IsShort
          round_scales-IsScale)

  -- The same of the grid of the comparisons: for an engine that keeps its laws, allows 40 digits, has a
  -- buffer for forty and the scales from -214 to 252, it is made without a failure, the keys of each
  -- value are well formed and the engine reads back their precision and sign, and each coefficient at
  -- each scale has its float form in the grid.
  pub compare_grid-Fills : Fills e compare_coefficients compare_scales (compare_grid e)
  unfolding compare_grid
  compare_grid-Fills =
      both_ways compare_coefficients compare_scales
        (grid_loop e [] compare_coefficients compare_scales)
        (grid_loop-Made [] compare_coefficients compare_scales compare_coefficients-IsShort
          compare_scales-IsScale tt)
        (grid_loop-Has compare_coefficients compare_scales [] compare_coefficients-IsShort
          compare_scales-IsScale)
