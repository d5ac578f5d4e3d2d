-- ===== src/RuntimeFilter/Held.antt =====
-- What the table of `unitseam_rtf_make` of unit/query/query_hash_join.rtf_clone/hooks.cpp holds after
-- each key.
use dev4_review_workspace.Prelude.{
  ℕ, zero, suc, ◌%◌, ◌^◌, ◌<◌, ◌≡◌, refl, sym, ap, ◌∙◌, subst, ◌≢◌, ◌⊎◌, inl, inr, Bool, true,
  false, Option, none, some, List, [], ◌∷◌, arith, ◌==◌, if◌then◌else◌, ==_iff, Bool-cases, length,
  set, length-set, ℤ, eqb_ℤ, eqb_ℤ_iff, elem,
}
use native.Mathlib.Nat.{mod-lt}
use dev4_review_workspace.Probing.{
  cell, in_use, walk-stops, walk-set, walk_ends, in_use-set, cell-set,
}
use dev4_review_workspace.RuntimeFilter.{Filter, stops_at, search}

-- How many different keys there are
unfoldable pub count_distinct : List ℤ → ℕ
unfolding elem
count_distinct [] = 0
count_distinct (x ∷ xs) = let rest = count_distinct xs in if elem x xs then rest else suc rest

unfoldable pub add_reverse : List ℤ → List ℤ → List ℤ
add_reverse [] seen = seen
add_reverse (k ∷ ks) seen = add_reverse ks (k ∷ seen)

elem_cons : (j k : ℤ) (seen : List ℤ) → elem j (k ∷ seen) ≡ true → (k ≡ j) ⊎ (elem j seen ≡ true)
unfolding elem
elem_cons j k seen h = elim (Bool-cases (eqb_ℤ k j)) [
  | inl e ↦ inl ((eqb_ℤ_iff k j).0 e)
  | inr n ↦ inr (ground (arith, h, n))
]

elem_head : (k : ℤ) (seen : List ℤ) → elem k (k ∷ seen) ≡ true
unfolding elem
elem_head k seen = rw ((eqb_ℤ_iff k k).1 refl) refl

elem_tail : (j k : ℤ) (seen : List ℤ) → elem j seen ≡ true → elem j (k ∷ seen) ≡ true
unfolding elem
elem_tail j k seen h = rw h (ground arith)

pub filled_ne_empty : {A : Type 0} {c : Option A} {a : A} → c ≡ some a → c ≡ none → ⊥
filled_ne_empty e n = cc

module _ (hash : ℤ → ℕ) where
  -- The search for the key ends at a slot that holds it.
  unfoldable pub finds : Filter → ℤ → Bool
  unfolding search
  finds f key = elim (search hash f key) [
    | none ↦ false
    | some s ↦ elim (cell f.table s) [ none ↦ false | some k ↦ eqb_ℤ k key ]
  ]

  -- The table holds exactly the keys seen, each where its search ends.
  pub record Holds (seen : List ℤ) (f : Filter) : Type 0 where
    pub counted : in_use f.table ≡ f.n_keys
    pub distinct : f.n_keys ≡ count_distinct seen
    pub sound : (i : ℕ) (k : ℤ) → cell f.table i ≡ some k → elem k seen ≡ true
    pub complete :
        (k : ℤ)
        → elem k seen ≡ true
        → (s : ℕ) × (search hash f k ≡ some s) × (cell f.table s ≡ some k)

  pub search-stops :
      (f : Filter) (k : ℤ) (s : ℕ)
      → 0 < length f.table
      → search hash f k ≡ some s
      → (s < length f.table) × (stops_at k (cell f.table s) ≡ true)
  unfolding search
  search-stops f k s b e =
      walk-stops (stops_at k) (length f.table) f.table (hash k % length f.table) s
        (mod-lt (hash k) b) e

  -- A slot that stops the search is empty or holds the key.
  pub stopped : (k : ℤ) (c : Option ℤ) → stops_at k c ≡ true → (c ≡ none) ⊎ (c ≡ some k)
  unfolding stops_at
  stopped k none h = inl refl
  stopped k (some j) h = inr (ap some ((eqb_ℤ_iff j k).0 h))

  some_inj : {A : Type 0} {a b : A} → some a ≡ some b → a ≡ b
  some_inj e = cc

  new_sound :
      (seen : List ℤ) (f : Filter) (k : ℤ) (s : ℕ)
      → s < length f.table
      → Holds seen f
      → (i : ℕ) (j : ℤ) → cell (set f.table s (some k)) i ≡ some j
      → elem j (k ∷ seen) ≡ true
  new_sound seen f k s b h i j c = elim (Bool-cases (s == i)) [
    | inl e ↦
        let at : some k ≡ some j = rw (cell-set f.table s i (some k) b, e) at c in
        subst (λ z. elem z (k ∷ seen) ≡ true) (some_inj at) (elem_head k seen)
    | inr n ↦ elem_tail j k seen (h.sound i j (rw (cell-set f.table s i (some k) b, n) at c))
  ]

  new_complete :
      (seen : List ℤ) (f : Filter) (k : ℤ) (s : ℕ)
      → s < length f.table
      → Holds seen f
      → search hash f k ≡ some s
      → cell f.table s ≡ none
      → (j : ℤ) → elem j (k ∷ seen) ≡ true
      → (t : ℕ) × (search hash
            (record f { table = set f.table s (some k); n_keys = suc f.n_keys })
            j
          ≡ some t)
        × (cell (set f.table s (some k)) t ≡ some j)
  unfolding search stops_at
  new_complete seen f k s b h e c j m = elim (elem_cons j k seen m) [
    | inl same ↦
        subst
          (λ z.
            (t : ℕ) × (search hash
                (record f { table = set f.table s (some k); n_keys = suc f.n_keys }) z
              ≡ some t)
            × (cell (set f.table s (some k)) t ≡ some z))
          same
          (
            s,
            moved k s e (λ _. (eqb_ℤ_iff k k).1 refl),
            cell-set f.table s s (some k) b ∙ rw ((==_iff s s).1 refl) refl,
          )
    | inr older ↦
        let (t, e', c') = h.complete j older in
        let apart : s ≢ t =
          λ same. filled_ne_empty c' (subst (λ z. cell f.table z ≡ none) same c) in
        (
          t,
          moved j t e' (λ same. absurd (apart same)),
          elim (Bool-cases (s == t)) [
            | inl same ↦ absurd (apart ((==_iff s t).0 same))
            | inr n ↦ rw (cell-set f.table s t (some k) b, n) c'
          ],
        )
  ]
    where
      moved :
          (q : ℤ) (t : ℕ)
          → search hash f q ≡ some t
          → (s ≡ t → stops_at q (some k) ≡ true)
          → search hash (record f { table = set f.table s (some k); n_keys = suc f.n_keys }) q
            ≡ some t
      moved q t w halts = rw (length-set f.table s (some k)) (
          walk-set (stops_at q) (length f.table) f.table s (hash q % length f.table) t k refl b c w
            halts)

  pub insert_at-new :
      (seen : List ℤ) (f : Filter) (k : ℤ) (s : ℕ)
      → 0 < length f.table
      → Holds seen f
      → search hash f k ≡ some s
      → cell f.table s ≡ none
      → Holds (k ∷ seen) (record f { table = set f.table s (some k); n_keys = suc f.n_keys })
  unfolding count_distinct elem search
  insert_at-new seen f k s b h e c =
      let b' = search-stops f k s b e in
      let fresh : elem k seen ≡ false = elim (Bool-cases (elem k seen)) [
        | inl m ↦
            let (s', e', c') = h.complete k m in
            let same : s ≡ s' = some_inj (sym e ∙ e') in
            absurd (filled_ne_empty c' (subst (λ z. cell f.table z ≡ none) same c))
        | inr n ↦ n
      ] in
      record {
        counted = in_use-set f.table s k b'.0 c ∙ ap suc h.counted;
        distinct = rw fresh (ap suc h.distinct);
        sound = new_sound seen f k s b'.0 h;
        complete = new_complete seen f k s b'.0 h e c;
      }

  pub insert_at-old :
      (seen : List ℤ) (f : Filter) (k : ℤ) → Holds seen f → elem k seen ≡ true → Holds (k ∷ seen) f
  unfolding count_distinct elem
  insert_at-old seen f k h e = record {
    counted = h.counted;
    distinct = rw e h.distinct;
    sound = λ i j c. elem_tail j k seen (h.sound i j c);
    complete = λ j m. h.complete j (elim (elem_cons j k seen m) [
      | inl same ↦ subst (λ z. elem z seen ≡ true) same e
      | inr older ↦ older
    ]);
  }

  pub two_pos : (k : ℕ) → 0 < 2 ^ k
  two_pos zero = omega arith
  two_pos (suc k) = omega (arith, two_pos k)

  pub search_ends :
      (f : Filter) (k : ℤ) → in_use f.table < length f.table → (s : ℕ) × (search hash f k ≡ some s)
  unfolding search stops_at
  search_ends f k u =
      walk_ends (stops_at k) f.table (hash k % length f.table) refl u
        (mod-lt (hash k) (omega arith))
