-- ===== src/BloomFilter/Outcomes.antt =====
-- The outcomes that unit/query/query_hash_join.bloom_filter/hooks.cpp hands to the suite, with the
-- stand-ins for those that a revision does not have.
use dev4_review_workspace.Prelude.{
  ◌≡◌, refl, ◌⊎◌, inl, inr, Bool, true, false, not, ◌&&◌, Option, none, some, List, [], ◌∷◌, arith,
  Bool-cases, ℤ, pos, ◌≤ℤ◌, ◌<ℤ◌, eqb_ℤ, eqb_ℤ_iff, elem,
}
use dev4_review_workspace.BloomFilter.{
  Layout, earlier, staged, concurrent, early, is_staged, Macros, or_absent, out_first_late,
  out_off_first_rows, out_ended_first, BloomConsts, unitseam_bloom_consts_of, earlier_not_built,
  earlier_checked, earlier_off_low_skip, earlier_off_failed, absent_first_late,
  absent_off_first_rows, absent_ended_first,
}

unfoldable pub distinct : List ℤ → Bool
distinct [] = true
distinct (x ∷ xs) = not (elem x xs) && distinct xs

-- A value of the enumeration, none where it lacks it, with its stand-in
abbrev Named : Type 0
Named = Option ℤ × ℤ

unfoldable pub add_value : Option ℤ → List ℤ → List ℤ
add_value none xs = xs
add_value (some v) xs = v ∷ xs

unfoldable present : List Named → List ℤ
unfolding add_value
present [] = []
present (p ∷ ps) = add_value p.0 (present ps)

unfoldable stand_ins : List Named → List ℤ
stand_ins [] = []
stand_ins (p ∷ ps) = p.1 ∷ stand_ins ps

unfoldable values : List Named → List ℤ
unfolding or_absent
values [] = []
values (p ∷ ps) = or_absent p.0 p.1 ∷ values ps

elem-values :
    (v : ℤ) (ps : List Named)
    → elem v (values ps) ≡ true
    → (elem v (present ps) ≡ true) ⊎ (elem v (stand_ins ps) ≡ true)
unfolding elem values present stand_ins or_absent add_value
elem-values v [] h = inl h
elem-values v ((none, a) ∷ ps) h = elim (Bool-cases (eqb_ℤ a v)) [
  | inl e ↦ inr (rw (e) refl)
  | inr n ↦ elim (elem-values v ps (ground (arith, h, n))) [
    | inl there ↦ inl there
    | inr there ↦ inr (rw (n) there)
  ]
]
elem-values v ((some x, a) ∷ ps) h = elim (Bool-cases (eqb_ℤ x v)) [
  | inl e ↦ inl (rw (e) refl)
  | inr n ↦ elim (elem-values v ps (ground (arith, h, n))) [
    | inl there ↦ inl (rw (n) there)
    | inr there ↦ inr (ground (arith, there))
  ]
]

-- A stand-in is not among the values there are.
abbrev Apart : List Named → Type 0
Apart ps = (v : ℤ) → elem v (present ps) ≡ true → elem v (stand_ins ps) ≡ true → ⊥

false_of : (b : Bool) → (b ≡ true → ⊥) → b ≡ false
false_of true h = absurd (h refl)
false_of false h = refl

elem_self : (v : ℤ) (xs : List ℤ) → elem v (v ∷ xs) ≡ true
unfolding elem
elem_self v xs = rw ((eqb_ℤ_iff v v).1 refl) refl

elem_later : (v x : ℤ) (xs : List ℤ) → elem v xs ≡ true → elem v (x ∷ xs) ≡ true
unfolding elem
elem_later v x xs h = ground (arith, h)

distinct_parts :
    (x : ℤ) (xs : List ℤ) → distinct (x ∷ xs) ≡ true → (elem x xs ≡ false) × (distinct xs ≡ true)
unfolding distinct
distinct_parts x xs h = elim (Bool-cases (elem x xs)) [
  | inl e ↦ absurd (ground (arith, h, e))
  | inr n ↦ (n, ground (arith, h, n))
]

distinct_cons :
    (x : ℤ) (xs : List ℤ) → elem x xs ≡ false → distinct xs ≡ true → distinct (x ∷ xs) ≡ true
unfolding distinct
distinct_cons x xs n h = rw (n) h

both : (b : Bool) → b ≡ true → b ≡ false → ⊥
both b t f = cc

distinct-values :
    (ps : List Named)
    → distinct (present ps) ≡ true
    → distinct (stand_ins ps) ≡ true
    → Apart ps
    → distinct (values ps) ≡ true
unfolding present stand_ins values or_absent add_value
distinct-values [] p s a = p
distinct-values ((none, x) ∷ ps) p s a =
    let (new, s') = distinct_parts x (stand_ins ps) s in
    let rest = distinct-values ps p s' (λ v i j. a v i (elem_later v x (stand_ins ps) j)) in
    distinct_cons x (values ps)
      (false_of (elem x (values ps)) (λ h. elim (elem-values x ps h) [
        | inl i ↦ a x i (elem_self x (stand_ins ps))
        | inr j ↦ both (elem x (stand_ins ps)) j new
      ]))
      rest
distinct-values ((some y, x) ∷ ps) p s a =
    let (new, s') = distinct_parts x (stand_ins ps) s in
    let (new', p') = distinct_parts y (present ps) p in
    let rest =
      distinct-values ps p' s'
        (λ v i j. a v (elem_later v y (present ps) i) (elem_later v x (stand_ins ps) j)) in
    distinct_cons y (values ps)
      (false_of (elem y (values ps)) (λ h. elim (elem-values y ps h) [
        | inl i ↦ both (elem y (present ps)) i new'
        | inr j ↦ a y (elem_self y (present ps)) (elem_later y x (stand_ins ps) j)
      ]))
      rest

abbrev named :
    Option ℤ → Option ℤ → Option ℤ → Option ℤ → Option ℤ → Option ℤ → Option ℤ → List Named
named a b c d e f g =
    (a, earlier_not_built)
    ∷ (b, earlier_checked)
    ∷ (c, earlier_off_low_skip)
    ∷ (d, earlier_off_failed)
    ∷ (e, absent_first_late)
    ∷ (f, absent_off_first_rows)
    ∷ (g, absent_ended_first)
    ∷ []

-- The members that the enumeration of outcomes has
unfoldable pub enum_values : Macros → List ℤ
unfolding add_value
enum_values m =
    m.not_built
    ∷ m.checked
    ∷ m.off_low_skip
    ∷ m.off_failed
    ∷ add_value m.first_late (add_value m.off_first_rows (add_value m.ended_first []))

unfoldable pub outcomes : BloomConsts → List ℤ
outcomes c =
    c.out_not_built ∷ c.out_checked ∷ c.out_off_low_skip ∷ c.out_off_failed ∷ c.out_first_late
    ∷ c.out_off_first_rows ∷ c.out_ended_first ∷ []

stand_in-negative :
    (v : ℤ)
    → elem v (
        earlier_not_built ∷ earlier_checked ∷ earlier_off_low_skip ∷ earlier_off_failed
        ∷ absent_first_late ∷ absent_off_first_rows ∷ absent_ended_first ∷ [])
      ≡ true
    → v <ℤ pos 0
unfolding elem
stand_in-negative v h = ground (arith, h)

staged_outcomes :
    (m : Macros)
    → distinct (enum_values m) ≡ true
    → ((v : ℤ) → elem v (enum_values m) ≡ true → pos 0 ≤ℤ v)
    → distinct (outcomes (unitseam_bloom_consts_of staged m)) ≡ true
unfolding unitseam_bloom_consts_of is_staged outcomes enum_values out_first_late out_off_first_rows
    out_ended_first present stand_ins values distinct elem
staged_outcomes m d n =
    distinct-values
      (named (some m.not_built) (some m.checked) (some m.off_low_skip) (some m.off_failed)
        m.first_late m.off_first_rows m.ended_first)
      d refl (λ v i j. negative v (n v i) (stand_in-negative v j))
  where
    negative : (v : ℤ) → pos 0 ≤ℤ v → v <ℤ pos 0 → ⊥
    negative v a b = omega (arith, a, b)

-- In each layout the seven outcomes handed to the suite are different from each other, stand-ins
-- included, where the members that the enumeration has are different and not negative.
pub unitseam_bloom_consts_of-distinct :
    (layout : Layout) (m : Macros)
    → distinct (enum_values m) ≡ true
    → ((v : ℤ) → elem v (enum_values m) ≡ true → pos 0 ≤ℤ v)
    → distinct (outcomes (unitseam_bloom_consts_of layout m)) ≡ true
unfolding unitseam_bloom_consts_of is_staged outcomes distinct elem
unitseam_bloom_consts_of-distinct earlier m d n = refl
unitseam_bloom_consts_of-distinct staged m d n = staged_outcomes m d n
unitseam_bloom_consts_of-distinct concurrent m d n = staged_outcomes m d n
unitseam_bloom_consts_of-distinct early m d n = staged_outcomes m d n
