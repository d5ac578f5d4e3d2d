-- ===== src/Numeric/Forms.antt =====
-- The forms of a coefficient that `add_forms` of unit/query/numeric_opfunc.exact_paths/test.cpp adds.
use dev4_review_workspace.Prelude.{
  ℕ, ◌^◌, ◌≤◌, ◌<◌, max, ◌≡◌, refl, subst, inl, inr, Bool, true, false, not, ◌&&◌, Option, none,
  some, List, [], ◌∷◌, arith, leb, ◌==◌, ==_iff, Bool-cases, length, All, All-append, ℤ, pos,
  pos_part, ◌≤ℤ◌, ltb_ℤ,
}
use dev4_review_workspace.Decimal.{Digits, is_nought, dec_strip}
use dev4_review_workspace.Decimal.Value.{IsDigit, value}
use dev4_review_workspace.Decimal.Strip.{value-dec_strip}
use dev4_review_workspace.Coefficient.{Buf, dec_to_buf}
use dev4_review_workspace.Coefficient.Write.{Holds, dec_to_buf-Holds}
use dev4_review_workspace.Numeric.{
  Engine, Num, num_of, make_num, push_form, sign_forms, add_forms, ◌>>=◌,
}
use dev4_review_workspace.Numeric.Order.{IsNum, num_of-IsNum}
use dev4_review_workspace.Numeric.Outcome.{Laws, eqb_ℤ_self, bool_eq_iff}

-- A form of the coefficient `mag` at scale `s`: its digits, within its precision, which the engine
-- allows and reads back.
pub record IsForm (e : Engine) (mag : Digits) (s : ℤ) (f : Num × e.DbValue) : Type 0 where
  pub num : IsNum f.0
  pub same_mag : f.0.mag ≡ dec_strip mag
  pub same_scale : f.0.s ≡ s
  pub precise : length f.0.mag ≤ f.0.p
  pub allowed : (0 < f.0.p) × (f.0.p ≤ e.limits.max_precision)
  pub read_precision : e.precision f.1 ≡ f.0.p
  pub read_sign : e.negative f.1 ≡ f.0.neg

-- The forms were made, and P holds of each.
abbrev pub MadeOf :
    (e : Engine) → (Num × e.DbValue → Type 0) → Option (List (Num × e.DbValue)) → Type 0
MadeOf e P none = ⊥
MadeOf e P (some out) = All P out

module _ (e : Engine) (laws : Laws e) (mag : Digits) (s : ℤ) (digits : All IsDigit mag)
    (nonempty : 0 < length mag) (fits : value mag < 256 ^ e.limits.buf_size)
    (low : e.limits.min_scale ≤ℤ s) (high : s ≤ℤ e.limits.max_scale) where
  written :
      (buf : Buf) × (dec_to_buf e.limits.buf_size (dec_strip mag) ≡ some buf)
      × (length buf ≡ e.limits.buf_size)
  written = find (dec_to_buf e.limits.buf_size (dec_strip mag)) refl
    where
      holds :
          Holds e.limits.buf_size
            (value (dec_strip mag))
            (dec_to_buf e.limits.buf_size (dec_strip mag))
      holds = dec_to_buf-Holds e.limits.buf_size (dec_strip mag)

      find :
          (r : Option Buf)
          → dec_to_buf e.limits.buf_size (dec_strip mag) ≡ r
          → (buf : Buf) × (r ≡ some buf) × (length buf ≡ e.limits.buf_size)
      find none q = absurd (
          omega (
            arith,
            subst (Holds e.limits.buf_size (value (dec_strip mag))) q holds,
            value-dec_strip mag,
            fits,
          ))
      find (some buf) q =
          (buf, refl, (subst (Holds e.limits.buf_size (value (dec_strip mag))) q holds).1)

  pub make_num-IsForm :
      (p : ℕ) (neg is_float : Bool)
      → 0 < p
      → p ≤ e.limits.max_precision
      → length (dec_strip mag) ≤ p
      → (f : Num × e.DbValue) × (make_num e mag p s neg is_float ≡ some f) × IsForm e mag s f
  unfolding make_num num_of
  make_num-IsForm p neg is_float pos_p small_p long =
      let n = num_of mag p s neg is_float in
      let (buf, wrote, size) = written in
      let (v, built) = laws.accepts buf p s n.neg is_float size pos_p small_p low high in
      let (rp, rs, rf, _, _, rn, _) = laws.reads buf p s n.neg is_float v built in
      (
        (n, v),
        rw (
          wrote,
          built,
          rp,
          rs,
          rf,
          (==_iff p p).1 refl,
          eqb_ℤ_self s,
          (bool_eq_iff is_float is_float).1 refl,
        ),
        record {
          num = num_of-IsNum mag p s neg is_float digits nonempty;
          same_mag = refl;
          same_scale = refl;
          precise = long;
          allowed = (pos_p, small_p);
          read_precision = rp;
          read_sign = rn;
        },
      )

  module _ (P : Num × e.DbValue → Type 0)
      (holds : (f : Num × e.DbValue) → IsForm e mag s f → P f) where
    push_form-Made :
        (test : Bool) (p : ℕ) (neg is_float : Bool) (out : List (Num × e.DbValue))
        → (test ≡ true → (0 < p) × (p ≤ e.limits.max_precision) × (length (dec_strip mag) ≤ p))
        → All P out
        → MadeOf e P (push_form e test mag p s neg is_float out)
    push_form-Made false p neg is_float out h all = all
    push_form-Made true p neg is_float out h all =
        let (pos_p, small_p, long) = h refl in
        let (f, made, form) = make_num-IsForm p neg is_float pos_p small_p long in
        rw made (All-append P out (f ∷ []) all (holds f form, tt))

    Made-bind :
        (m : Option (List (Num × e.DbValue)))
        (f : List (Num × e.DbValue) → Option (List (Num × e.DbValue)))
        → MadeOf e P m
        → ((out : List (Num × e.DbValue)) → All P out → MadeOf e P (f out))
        → MadeOf e P (m >>= f)
    Made-bind none f h k = h
    Made-bind (some out) f h k = k out h

    module _ (columns : 38 ≤ e.limits.max_precision) where
      sign_forms-Made :
          (neg : Bool) (out : List (Num × e.DbValue))
          → All P out
          → MadeOf e P (sign_forms e mag s neg out)
      unfolding sign_forms
      sign_forms-Made neg out all = elim (Bool-cases (neg && is_nought (dec_strip mag))) [
        | inl skip ↦ rw skip all
        | inr go ↦ rw go (
            Made-bind _ _
              (push_form-Made (leb digit_count e.limits.max_precision) (max 1 digit_count) neg true
                out (λ h. ground arith) all)
              λ a all_a.
                Made-bind _ _
                  (push_form-Made (scaled && leb p_min 38) p_min neg false a (λ h. ground arith)
                    all_a)
                  λ b all_b.
                    push_form-Made
                      (scaled && not (ltb_ℤ (pos 38) s) && leb digit_count 38 && not (p_min == 38))
                      38 neg false b (λ h. ground arith) all_b)
      ]
        where
          digit_count : ℕ
          digit_count = length (dec_strip mag)

          p_min : ℕ
          p_min = max (max digit_count (pos_part s)) 1

          scaled : Bool
          scaled = not (ltb_ℤ s (pos 0))

      -- For an engine that keeps its laws and allows 38 digits, a non-empty digit string whose number
      -- fits the buffer, and a scale from the least to the greatest: `add_forms` succeeds, and what holds of the forms that are there already
      -- and of each form of the coefficient holds of all that it leaves.
      pub add_forms-Made :
          (both_signs : Bool) (out : List (Num × e.DbValue))
          → All P out
          → MadeOf e P (add_forms e out mag s both_signs)
      unfolding add_forms
      add_forms-Made true out all =
          Made-bind (sign_forms e mag s false out) _ (sign_forms-Made false out all)
            (sign_forms-Made true)
      add_forms-Made false out all =
          Made-bind (sign_forms e mag s false out) _ (sign_forms-Made false out all) (λ o h. h)
