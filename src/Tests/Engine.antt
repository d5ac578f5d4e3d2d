-- ===== src/Tests/Engine.antt =====
-- An engine whose DB_VALUE is the record of its fields, and NUMERIC values made and read by it.
use dev4_review_workspace.Prelude.{
  ℕ, ◌≡◌, refl, sym, ap, Bool, true, false, some, [], ◌∷◌, ◌++◌, arith, replicate, ℤ, pos,
}
use dev4_review_workspace.Tests.Numeric.{limits}
use dev4_review_workspace.Decimal.Value.{value, value_from}
use dev4_review_workspace.Decimal.{text, dec_strip}
use dev4_review_workspace.Coefficient.{Buf, dec_to_buf}
use dev4_review_workspace.Numeric.{
  Engine, NumOut, num_of, make_num, read_out, same_out, text_eq, add_forms, empty_out,
}
use dev4_review_workspace.Numeric.Outcome.{Laws, expected_out, read_out-make_num, same_out_sound}
use dev4_review_workspace.Numeric.Grids.{
  compare_coefficients, compare_scales, round_coefficients, round_scales, compare_grid, round_grid,
}
use dev4_review_workspace.Numeric.Filled.{Fills, round_grid-Fills, compare_grid-Fills}
use dev4_review_workspace.Numeric.Forms.{IsForm, MadeOf, add_forms-Made}

record Stored : Type 0 where
  buf : Buf
  p : ℕ
  s : ℤ
  neg : Bool
  is_float : Bool

abbrev engine : Engine
engine = record {
  limits = limits;
  DbValue = Stored;
  make_numeric = λ buf p s neg is_float.
      some (record { buf = buf; p = p; s = s; neg = neg; is_float = is_float });
  precision = λ v. v.p;
  scale = λ v. v.s;
  floating = λ v. v.is_float;
  type_of = λ v. pos 22;
  null = λ v. false;
  negative = λ v. v.neg;
  magnitude = λ v. v.buf;
}

stored_inj : {a b : Stored} → some a ≡ some b → a ≡ b
stored_inj e = cc

engine-Laws : Laws engine
engine-Laws = record {
  accepts = λ buf p s neg is_float h k l a b.
      (record { buf = buf; p = p; s = s; neg = neg; is_float = is_float }, refl);
  reads = λ buf p s neg is_float v h.
      let e = sym (stored_inj h) in
      (
        ap (λ x. x.p) e,
        ap (λ x. x.s) e,
        ap (λ x. x.is_float) e,
        refl,
        refl,
        ap (λ x. x.neg) e,
        ap (λ x. x.buf) e,
      );
}

value-text : value (text "125") ≡ 125
unfolding value value_from
value-text = refl

add_forms-Made_example :
    MadeOf engine
      (IsForm engine (text "125") (pos 1))
      (add_forms engine [] (text "125") (pos 1) true)
add_forms-Made_example =
    add_forms-Made engine engine-Laws (text "125") (pos 1) (omega arith) (omega arith)
      (rw value-text (omega arith)) (ground arith) (ground arith)
      (IsForm engine (text "125") (pos 1)) (λ f h. h) (omega arith) true [] tt

-- -12.5, as the engine stores it
abbrev stored : Stored
stored = record {
  buf = replicate 16 0 ++ (125 ∷ []);
  p = 3;
  s = pos 1;
  neg = true;
  is_float = true;
}

stored-made :
    make_num engine (text "125") 3 (pos 1) true true
    ≡ some (num_of (text "125") 3 (pos 1) true true, stored)
unfolding make_num num_of dec_to_buf dec_strip
stored-made = refl

read_out-make_num_example :
    (num_of (text "125") 3 (pos 1) true true ≡ num_of (text "125") 3 (pos 1) true true)
    × (read_out engine (pos 0) (pos 0) stored
        ≡ expected_out limits (num_of (text "125") 3 (pos 1) true true))
read_out-make_num_example =
    read_out-make_num engine engine-Laws (text "125") 3 (pos 1) true true
      (num_of (text "125") 3 (pos 1) true true) stored (omega arith) (omega arith) stored-made

abbrev answer : NumOut
answer = record empty_out { kind = pos 22; p = 3; s = pos 1; mag = text "125" }

answer-same : same_out limits answer answer ≡ true
unfolding same_out text_eq
answer-same = refl

same_out_sound_example : answer ≡ answer
same_out_sound_example = same_out_sound limits answer answer answer-same refl

round_grid-Fills_example : Fills engine round_coefficients round_scales (round_grid engine)
round_grid-Fills_example =
    round_grid-Fills engine engine-Laws (omega arith) (omega arith) (ground arith) (ground arith)

compare_grid-Fills_example : Fills engine compare_coefficients compare_scales (compare_grid engine)
compare_grid-Fills_example =
    compare_grid-Fills engine engine-Laws (omega arith) (omega arith) (ground arith) (ground arith)
