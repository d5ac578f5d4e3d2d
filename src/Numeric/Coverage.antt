-- ===== src/Numeric/Coverage.antt =====
-- The steps of the grid loops of unit/query/numeric_opfunc.exact_paths/test.cpp only add values: what
-- they keep of a grid.
use dev4_review_workspace.Prelude.{
  ℕ, max, ◌⊎◌, inl, inr, Bool, true, false, not, ◌&&◌, Option, none, some, List, [], ◌∷◌, ◌++◌, leb,
  ◌==◌, Bool-cases, length, All, ℤ, pos, pos_part, ltb_ℤ,
}
use dev4_review_workspace.Decimal.{Digits, dec_strip, is_nought}
use dev4_review_workspace.Numeric.{Engine, Num, make_num, push_form, sign_forms, add_forms, ◌>>=◌}
use dev4_review_workspace.Numeric.Grids.{scale_loop, grid_loop}

-- P holds of an element of the list.
unfoldable pub Some : {A : Type 0} → (A → Type 0) → List A → Type 0
Some P [] = ⊥
Some P (x ∷ xs) = P x ⊎ Some P xs

pub Some-append_left :
    {A : Type 0} (P : A → Type 0) (xs ys : List A) → Some P xs → Some P (xs ++ ys)
unfolding Some
Some-append_left P [] ys h = absurd h
Some-append_left P (x ∷ xs) ys (inl p) = inl p
Some-append_left P (x ∷ xs) ys (inr h) = inr (Some-append_left P xs ys h)

pub Some-last : {A : Type 0} (P : A → Type 0) (xs : List A) (x : A) → P x → Some P (xs ++ (x ∷ []))
unfolding Some
Some-last P [] x p = inl p
Some-last P (y ∷ xs) x p = inr (Some-last P xs x p)

pub All-both :
    {A : Type 0} (P Q : A → Type 0) (xs : List A) → ((x : A) → P x → Q x) → All P xs → All Q xs
All-both P Q [] f h = tt
All-both P Q (x ∷ xs) f (p, h) = (f x p, All-both P Q xs f h)

module _ (e : Engine) where
  -- K holds of the forms that were made, if they were.
  abbrev pub IfMade : (List (Num × e.DbValue) → Type 0) → Option (List (Num × e.DbValue)) → Type 0
  IfMade K none = Unit
  IfMade K (some out) = K out

  pub bind-IfMade :
      (K L : List (Num × e.DbValue) → Type 0) (m : Option (List (Num × e.DbValue)))
      (f : List (Num × e.DbValue) → Option (List (Num × e.DbValue)))
      → IfMade K m
      → ((out : List (Num × e.DbValue)) → K out → IfMade L (f out))
      → IfMade L (m >>= f)
  bind-IfMade K L none f h k = tt
  bind-IfMade K L (some out) f h k = k out h

  pub both-IfMade :
      (K L : List (Num × e.DbValue) → Type 0) (m : Option (List (Num × e.DbValue)))
      → IfMade K m
      → IfMade L m
      → IfMade (λ out. K out × L out) m
  both-IfMade K L none h k = tt
  both-IfMade K L (some out) h k = (h, k)

  -- The forms of one sign after the float one: the two with a column's precision.
  abbrev pub column_forms :
      Digits → ℤ → Bool → List (Num × e.DbValue) → Option (List (Num × e.DbValue))
  column_forms mag s neg a =
      let digit_count = length (dec_strip mag) in
      let p_min = max (max digit_count (pos_part s)) 1 in
      let scaled = not (ltb_ℤ s (pos 0)) in
      push_form e (scaled && leb p_min 38) mag p_min s neg false a >>= λ b.
      push_form e (scaled && not (ltb_ℤ (pos 38) s) && leb digit_count 38 && not (p_min == 38)) mag
        38 s neg false b

  -- What holds of a list and of each longer one is kept by the steps that add forms.
  module _ (K : List (Num × e.DbValue) → Type 0)
      (grows : (xs ys : List (Num × e.DbValue)) → K xs → K (xs ++ ys)) where
    push_form-keeps :
        (test : Bool) (mag : Digits) (p : ℕ) (s : ℤ) (neg is_float : Bool)
        (out : List (Num × e.DbValue))
        → K out
        → IfMade K (push_form e test mag p s neg is_float out)
    push_form-keeps false mag p s neg is_float out h = h
    push_form-keeps true mag p s neg is_float out h = pushed (make_num e mag p s neg is_float)
      where
        pushed : (m : Option (Num × e.DbValue)) → IfMade K (m >>= λ n. some (out ++ (n ∷ [])))
        pushed none = tt
        pushed (some n) = grows out (n ∷ []) h

    pub column_forms-keeps :
        (mag : Digits) (s : ℤ) (neg : Bool) (out : List (Num × e.DbValue))
        → K out
        → IfMade K (column_forms mag s neg out)
    column_forms-keeps mag s neg out h =
        bind-IfMade K K (push_form e (scaled && leb p_min 38) mag p_min s neg false out)
          (λ b. push_form e wide mag 38 s neg false b)
          (push_form-keeps (scaled && leb p_min 38) mag p_min s neg false out h)
          (push_form-keeps wide mag 38 s neg false)
      where
        p_min : ℕ
        p_min = max (max (length (dec_strip mag)) (pos_part s)) 1

        scaled : Bool
        scaled = not (ltb_ℤ s (pos 0))

        wide : Bool
        wide =
            scaled && not (ltb_ℤ (pos 38) s) && leb (length (dec_strip mag)) 38 && not (p_min == 38)

    pub sign_forms-keeps :
        (mag : Digits) (s : ℤ) (neg : Bool) (out : List (Num × e.DbValue))
        → K out
        → IfMade K (sign_forms e mag s neg out)
    unfolding sign_forms
    sign_forms-keeps mag s neg out h = elim (Bool-cases (neg && is_nought (dec_strip mag))) [
      | inl skip ↦ rw skip h
      | inr go ↦ rw go (
          bind-IfMade K K
            (push_form e (leb (length (dec_strip mag)) e.limits.max_precision) mag
              (max 1 (length (dec_strip mag))) s neg true out)
            (column_forms mag s neg)
            (push_form-keeps (leb (length (dec_strip mag)) e.limits.max_precision) mag
              (max 1 (length (dec_strip mag))) s neg true out h)
            (column_forms-keeps mag s neg))
    ]

    add_forms-keeps :
        (mag : Digits) (s : ℤ) (both_signs : Bool) (out : List (Num × e.DbValue))
        → K out
        → IfMade K (add_forms e out mag s both_signs)
    unfolding add_forms
    add_forms-keeps mag s true out h =
        bind-IfMade K K (sign_forms e mag s false out) _ (sign_forms-keeps mag s false out h)
          (sign_forms-keeps mag s true)
    add_forms-keeps mag s false out h =
        bind-IfMade K K (sign_forms e mag s false out) _ (sign_forms-keeps mag s false out h)
          (λ o k. k)

    pub scale_loop-keeps :
        (c : Digits) (ss : List ℤ) (g : List (Num × e.DbValue))
        → K g
        → IfMade K (scale_loop e g c ss)
    unfolding scale_loop
    scale_loop-keeps c [] g h = h
    scale_loop-keeps c (s ∷ ss) g h =
        bind-IfMade K K (add_forms e g c s true) _ (add_forms-keeps c s true g h)
          (scale_loop-keeps c ss)

    pub grid_loop-keeps :
        (cs : List Digits) (ss : List ℤ) (g : List (Num × e.DbValue))
        → K g
        → IfMade K (grid_loop e g cs ss)
    unfolding grid_loop
    grid_loop-keeps [] ss g h = h
    grid_loop-keeps (c ∷ cs) ss g h =
        bind-IfMade K K (scale_loop e g c ss) _ (scale_loop-keeps c ss g h) (grid_loop-keeps cs ss)
