-- ===== src/Numeric.antt =====
-- NUMERIC values as unit/query/numeric_opfunc.exact_paths/test.cpp describes them: `numv` with the
-- oracle's keys, `make_num`, `add_forms`, `exact_order`, `num_out`, `read_out`, `same_out`.
-- The fields of text for reports (`name`) are left out. A REQUIRE that fails ends the test case: it
-- is `none`.
pub mod Trailing
pub mod Order
pub mod Forms
pub mod Outcome
pub mod Grids
pub mod Coverage
pub mod Filled
use dev4_review_workspace.Prelude.{
  ◌||◌, ℕ, ◌+◌, ◌^◌, max, List, [], ◌∷◌, ◌++◌, Option, none, some, Bool, true, false, not, ◌&&◌,
  ◌==◌, leb, ltb, if◌then◌else◌, length, ℤ, pos, negsuc, pos_part, ◌-ℤ◌, ltb_ℤ, eqb_ℤ, neg_ℤ,
}
use dev4_review_workspace.Decimal.{
  Digits, nought, is_nought, dec_strip, dec_strip_trailing, compare_text, dec_cmp,
}
use dev4_review_workspace.Coefficient.{Buf, dec_to_buf, buf_to_dec}

-- Constants that the engine's headers fix.
pub record Limits : Type 0 where
  -- DB_NUMERIC_BUF_SIZE, DB_MAX_NUMERIC_PRECISION, TWICE_NUM_MAX_PREC
  pub buf_size : ℕ
  pub max_precision : ℕ
  pub twice_precision : ℕ
  -- DB_MIN_NUMERIC_SCALE
  pub min_scale : ℤ
  pub max_scale : ℤ
  -- NO_ERROR, ER_IT_DATA_OVERFLOW, DB_TYPE_NUMERIC
  pub no_error : ℤ
  pub overflow : ℤ
  pub numeric_type : ℤ

-- The engine's NUMERIC constructor and readers of a DB_VALUE.
pub record Engine : Type 1 where
  pub limits : Limits
  pub DbValue : Type 0
  -- db_make_numeric; `none` is an error code or an error id
  pub make_numeric : Buf → ℕ → ℤ → Bool → Bool → Option DbValue
  -- db_get_numeric_precision_and_scale: precision, scale and whether it is a float NUMERIC
  pub precision : DbValue → ℕ
  pub scale : DbValue → ℤ
  pub floating : DbValue → Bool
  -- DB_VALUE_DOMAIN_TYPE, DB_IS_NULL, DB_VALUE_NUMERIC_IS_VALUE_NEGATIVE, db_locate_numeric
  pub type_of : DbValue → ℤ
  pub null : DbValue → Bool
  pub negative : DbValue → Bool
  pub magnitude : DbValue → Buf

-- The keys of `numv`; `exp10` is digits - scale, so the value is 0.d1d2.. × 10 ^ exp10.
pub record Num : Type 0 where
  pub mag : Digits
  pub p : ℕ
  pub s : ℤ
  pub neg : Bool
  pub is_float : Bool
  pub sign : ℤ
  pub exp10 : ℤ
  pub digits : Digits

-- What `make_num` fills in of itself.
unfoldable pub num_of : Digits → ℕ → ℤ → Bool → Bool → Num
num_of mag_in p s neg is_float =
    let mag = dec_strip mag_in in
    let signed = neg && not (is_nought mag) in
    record {
      mag = mag;
      p = p;
      s = s;
      neg = signed;
      is_float = is_float;
      sign = if is_nought mag then pos 0 else if signed then negsuc 0 else pos 1;
      exp10 = pos (length mag) -ℤ s;
      digits = dec_strip_trailing mag;
    }

infixl 5 ◌>>=◌ ◌>>◌
abbrev pub ◌>>=◌ {ℓ κ} : {A : Type ℓ} {B : Type κ} → Option A → (A → Option B) → Option B
none >>= f = none
some a >>= f = f a

abbrev pub ◌>>◌ {ℓ} : {B : Type ℓ} → Option (Unit {0}) → Option B → Option B
m >> k = m >>= λ _. k

abbrev pub require : Bool → Option (Unit {0})
require true = some tt
require false = none

abbrev pub bool_eq : Bool → Bool → Bool
bool_eq true b = b
bool_eq false b = not b

module _ (e : Engine) where
  -- `numv` with its DB_VALUE `v`.
  abbrev pub Numv : Type 0
  Numv = Num × e.DbValue

  unfoldable pub make_num : Digits → ℕ → ℤ → Bool → Bool → Option (Num × e.DbValue)
  unfolding num_of
  make_num mag_in p s neg is_float = do
    let n = num_of mag_in p s neg is_float
    buf ← dec_to_buf e.limits.buf_size n.mag
    v ← e.make_numeric buf p s n.neg is_float
    require (e.precision v == p && eqb_ℤ (e.scale v) s && bool_eq (e.floating v) is_float)
    some (n, v)

  -- `if (test) out.push_back (make_num (...))`
  abbrev pub push_form :
      Bool → Digits → ℕ → ℤ → Bool → Bool → List (Num × e.DbValue) → Option (List (Num × e.DbValue))
  push_form test mag p s neg is_float out =
      if test then (make_num mag p s neg is_float >>= λ n. some (out ++ n ∷ [])) else some out

  -- The forms of one sign.
  unfoldable pub sign_forms :
      Digits → ℤ → Bool → List (Num × e.DbValue) → Option (List (Num × e.DbValue))
  unfolding make_num
  sign_forms mag s neg out =
      let digits = length (dec_strip mag) in
      let p_min = max (max digits (pos_part s)) 1 in
      let scaled = not (ltb_ℤ s (pos 0)) in
      if neg && is_nought (dec_strip mag) then some out else (do
        a ← push_form (leb digits e.limits.max_precision) mag (max 1 digits) s neg true out
        b ← push_form (scaled && leb p_min 38) mag p_min s neg false a
        push_form (scaled && not (ltb_ℤ (pos 38) s) && leb digits 38 && not (p_min == 38)) mag 38 s
            neg false b)

  unfoldable pub add_forms :
      List (Num × e.DbValue) → Digits → ℤ → Bool → Option (List (Num × e.DbValue))
  unfolding sign_forms
  add_forms out mag s both_signs = do
    plain ← sign_forms mag s false out
    if both_signs then sign_forms mag s true plain else some plain

-- `c` of `exact_order`: the larger exponent, else the larger text of digits.
unfoldable pub magnitude_order : Num → Num → ℤ
unfolding compare_text
magnitude_order a b =
    if eqb_ℤ a.exp10 b.exp10
    then compare_text a.digits b.digits
    else if ltb_ℤ a.exp10 b.exp10
    then negsuc 0
    else pos 1

unfoldable pub exact_order : Num → Num → ℤ
unfolding neg_ℤ
exact_order a b =
    if not (eqb_ℤ a.sign b.sign)
    then (if ltb_ℤ a.sign b.sign then negsuc 0 else pos 1)
    else if eqb_ℤ a.sign (pos 0)
    then pos 0
    else if ltb_ℤ a.sign (pos 0)
    then neg_ℤ (magnitude_order a b)
    else magnitude_order a b

-- What an operation answered.
pub record NumOut : Type 0 where
  pub rc : ℤ
  pub er : ℤ
  pub kind : ℤ
  pub is_null : Bool
  pub is_float : Bool
  pub neg : Bool
  pub p : ℕ
  pub s : ℤ
  pub mag : Digits

-- `num_out o {}`
abbrev pub empty_out : NumOut
empty_out = record {
  rc = pos 0;
  er = pos 0;
  kind = pos 0;
  is_null = false;
  is_float = false;
  neg = false;
  p = 0;
  s = pos 0;
  mag = [];
}

module _ (e : Engine) where
  unfoldable pub read_out : ℤ → ℤ → e.DbValue → NumOut
  read_out rc er r =
      let o = record empty_out { rc = rc; er = er } in
      let typed = record o { kind = e.type_of r; is_null = e.null r } in
      if not (eqb_ℤ rc e.limits.no_error)
      then o
      else if not (eqb_ℤ (e.type_of r) e.limits.numeric_type) || e.null r
      then typed
      else record typed {
        p = e.precision r;
        s = e.scale r;
        is_float = e.floating r;
        neg = e.negative r;
        mag = buf_to_dec (e.magnitude r);
      }

-- std::string's `==`
unfoldable pub text_eq : Digits → Digits → Bool
text_eq [] [] = true
text_eq [] (y ∷ b) = false
text_eq (x ∷ a) [] = false
text_eq (x ∷ a) (y ∷ b) = x == y && text_eq a b

unfoldable pub same_out : Limits → NumOut → NumOut → Bool
unfolding text_eq
same_out k a b =
    if not (eqb_ℤ a.rc b.rc) || not (eqb_ℤ a.er b.er)
    then false
    else if not (eqb_ℤ a.rc k.no_error)
    then true
    else eqb_ℤ a.kind b.kind
      && bool_eq a.is_null b.is_null
      && bool_eq a.is_float b.is_float
      && bool_eq a.neg b.neg
      && a.p == b.p
      && eqb_ℤ a.s b.s
      && text_eq a.mag b.mag
