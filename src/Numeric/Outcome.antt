-- ===== src/Numeric/Outcome.antt =====
-- `same_out` and `read_out` of unit/query/numeric_opfunc.exact_paths/test.cpp, and the laws of the engine.
use dev4_review_workspace.Prelude.{
  ℕ, ◌≤◌, ◌<◌, ◌≡◌, refl, sym, ◌∙◌, subst, ◌↔◌, Bool, true, false, not, ◌&&◌, ◌||◌, Option, none,
  some, [], ◌∷◌, arith, ◌==◌, if◌then◌else◌, ==_iff, length, All, ℤ, ◌≤ℤ◌, eqb_ℤ, eq_of_parts,
}
use dev4_review_workspace.Decimal.{Digits}
use dev4_review_workspace.Decimal.Value.{IsDigit, IsCanonical}
use dev4_review_workspace.Decimal.Strip.{
  dec_strip-IsCanonical_of_pos, dec_strip-of_canonical, IsCanonical-All, canonical_length,
}
use dev4_review_workspace.Coefficient.{Buf, dec_to_buf, buf_to_dec}
use dev4_review_workspace.Coefficient.RoundTrip.{buf_to_dec-dec_to_buf}
use dev4_review_workspace.Numeric.{
  Limits, Engine, Num, NumOut, num_of, make_num, read_out, text_eq, same_out, bool_eq, require,
  ◌>>=◌,
}

text_eq_iff : (a b : Digits) → (text_eq a b ≡ true) ↔ (a ≡ b)
unfolding text_eq
text_eq_iff a b = (forward a b, λ h. subst (λ c. text_eq a c ≡ true) h (self a))
  where
    self : (a : Digits) → text_eq a a ≡ true
    self [] = refl
    self (x ∷ a) = ground (arith, self a)

    forward : (a b : Digits) → text_eq a b ≡ true → a ≡ b
    forward [] [] h = refl
    forward [] (y ∷ b) h = cc
    forward (x ∷ a) [] h = cc
    forward (x ∷ a) (y ∷ b) h = ground (arith, forward a b)

pub bool_eq_iff : (a b : Bool) → (bool_eq a b ≡ true) ↔ (a ≡ b)
bool_eq_iff a b = ground arith

eqb_ℤ_eq : (a b : ℤ) → eqb_ℤ a b ≡ true → a ≡ b
eqb_ℤ_eq a b h = eq_of_parts a b (ground arith)

pub eqb_ℤ_self : (a : ℤ) → eqb_ℤ a a ≡ true
eqb_ℤ_self a = ground arith

and_split : (x y : Bool) → (x && y) ≡ true → (x ≡ true) × (y ≡ true)
and_split true y h = (refl, h)
and_split false y h = cc

-- The tests of `same_out`, apart from what they compare.
code_tests :
    (rc er done rest : Bool)
    → (if not rc || not er then false else if not done then true else rest) ≡ true
    → (rc ≡ true) × (er ≡ true) × (done ≡ true → rest ≡ true)
code_tests false er done rest h = cc
code_tests true false done rest h = cc
code_tests true true false rest h = (refl, refl, λ e. cc)
code_tests true true true rest h = (refl, refl, λ e. h)

same_fields :
    (a b : NumOut)
    → a.rc ≡ b.rc
    → a.er ≡ b.er
    → (eqb_ℤ a.kind b.kind
        && bool_eq a.is_null b.is_null
        && bool_eq a.is_float b.is_float
        && bool_eq a.neg b.neg
        && a.p == b.p
        && eqb_ℤ a.s b.s
        && text_eq a.mag b.mag)
      ≡ true
    → a ≡ b
same_fields a b rc er h0 =
    let (h1, mag) = and_split _ (text_eq a.mag b.mag) h0 in
    let (h2, s) = and_split _ (eqb_ℤ a.s b.s) h1 in
    let (h3, p) = and_split _ (a.p == b.p) h2 in
    let (h4, neg) = and_split _ (bool_eq a.neg b.neg) h3 in
    let (h5, floating) = and_split _ (bool_eq a.is_float b.is_float) h4 in
    let (kind, null) = and_split _ (bool_eq a.is_null b.is_null) h5 in
    cc (
      rc,
      er,
      eqb_ℤ_eq a.kind b.kind kind,
      (bool_eq_iff a.is_null b.is_null).0 null,
      (bool_eq_iff a.is_float b.is_float).0 floating,
      (bool_eq_iff a.neg b.neg).0 neg,
      (==_iff a.p b.p).0 p,
      eqb_ℤ_eq a.s b.s s,
      (text_eq_iff a.mag b.mag).0 mag,
    )

-- Two answers that `same_out` finds the same, of which the first is a success, agree in every field.
pub same_out_sound : (k : Limits) (a b : NumOut) → same_out k a b ≡ true → a.rc ≡ k.no_error → a ≡ b
unfolding same_out
same_out_sound k a b h done =
    let (rc, er, rest) =
      code_tests (eqb_ℤ a.rc b.rc) (eqb_ℤ a.er b.er) (eqb_ℤ a.rc k.no_error) _ h in
    same_fields a b (eqb_ℤ_eq a.rc b.rc rc) (eqb_ℤ_eq a.er b.er er)
      (rest (subst (λ t. eqb_ℤ a.rc t ≡ true) done (eqb_ℤ_self a.rc)))

-- What the engine's headers say of its NUMERIC constructor and readers.
pub record Laws (e : Engine) : Type 0 where
  -- a buffer of the full size, a precision from 1 to the greatest and a scale from the least to the
  -- greatest are taken
  pub accepts :
      (buf : Buf) (p : ℕ) (s : ℤ) (neg is_float : Bool)
      → length buf ≡ e.limits.buf_size
      → 0 < p
      → p ≤ e.limits.max_precision
      → e.limits.min_scale ≤ℤ s
      → s ≤ℤ e.limits.max_scale
      → (v : e.DbValue) × (e.make_numeric buf p s neg is_float ≡ some v)
  -- the readers give back what the constructor took
  pub reads :
      (buf : Buf) (p : ℕ) (s : ℤ) (neg is_float : Bool) (v : e.DbValue)
      → e.make_numeric buf p s neg is_float ≡ some v
      → (e.precision v ≡ p)
        × (e.scale v ≡ s)
        × (e.floating v ≡ is_float)
        × (e.type_of v ≡ e.limits.numeric_type)
        × (e.null v ≡ false)
        × (e.negative v ≡ neg)
        × (e.magnitude v ≡ buf)

-- The answer that `read_out` should give for a value with these keys.
abbrev pub expected_out : Limits → Num → NumOut
expected_out k n = record {
  rc = k.no_error;
  er = k.no_error;
  kind = k.numeric_type;
  is_null = false;
  is_float = n.is_float;
  neg = n.neg;
  p = n.p;
  s = n.s;
  mag = n.mag;
}

>>=-eq-some :
    {A B : Type 0} (m : Option A) (f : A → Option B) {b : B}
    → (m >>= f) ≡ some b
    → (a : A) × (m ≡ some a) × (f a ≡ some b)
>>=-eq-some none f h = cc
>>=-eq-some (some a) f h = (a, refl, h)

require_then :
    {B : Type 0} (test : Bool) (m : Option B) {b : B}
    → (require test >>= λ _. m) ≡ some b
    → m ≡ some b
require_then true m h = h
require_then false m h = cc

module _ (e : Engine) (laws : Laws e) (n : Num) (canonical : IsCanonical n.mag) (v : e.DbValue)
    (buf : Buf) where
  -- A value that was made from the keys is read back as them.
  read_back :
      dec_to_buf e.limits.buf_size n.mag ≡ some buf
      → e.make_numeric buf n.p n.s n.neg n.is_float ≡ some v
      → read_out e e.limits.no_error e.limits.no_error v ≡ expected_out e.limits n
  unfolding read_out
  read_back written made =
      let (p, s, fl, kind, null, neg, mag) = laws.reads buf n.p n.s n.neg n.is_float v made in
      let digits : buf_to_dec buf ≡ n.mag =
        buf_to_dec-dec_to_buf e.limits.buf_size n.mag buf (IsCanonical-All n.mag canonical)
          (canonical_length n.mag canonical) written
        ∙ dec_strip-of_canonical n.mag canonical in
      rw (
        eqb_ℤ_self e.limits.no_error,
        kind,
        eqb_ℤ_self e.limits.numeric_type,
        null,
        p,
        s,
        fl,
        neg,
        mag,
        digits,
      )

-- For an engine that keeps its laws and a non-empty digit string: what `make_num` made, read
-- with `read_out`, gives the keys that `make_num` filled in.
pub read_out-make_num :
    (e : Engine) (laws : Laws e) (mag : Digits) (p : ℕ) (s : ℤ) (neg is_float : Bool) (n : Num)
    (v : e.DbValue)
    → All IsDigit mag
    → 0 < length mag
    → make_num e mag p s neg is_float ≡ some (n, v)
    → (n ≡ num_of mag p s neg is_float)
      × (read_out e e.limits.no_error e.limits.no_error v ≡ expected_out e.limits n)
unfolding make_num num_of
read_out-make_num e laws mag p s neg is_float n v h l made =
    let m = num_of mag p s neg is_float in
    let (buf, written, made1) = >>=-eq-some (dec_to_buf e.limits.buf_size m.mag) _ made in
    let (w, built, made2) = >>=-eq-some (e.make_numeric buf p s m.neg is_float) _ made1 in
    let pair =
      require_then (e.precision w == p && eqb_ℤ (e.scale w) s && bool_eq (e.floating w) is_float)
        (some (m, w)) made2 in
    let same_n : m ≡ n = cc in
    let same_v : w ≡ v = cc in
    let back = read_back e laws m (dec_strip-IsCanonical_of_pos mag l h) w buf written built in
    (
      sym same_n,
      subst (λ x. read_out e e.limits.no_error e.limits.no_error x ≡ expected_out e.limits n) same_v
          (subst (λ y. read_out e e.limits.no_error e.limits.no_error w ≡ expected_out e.limits y)
            same_n back),
    )
