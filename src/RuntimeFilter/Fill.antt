-- ===== src/RuntimeFilter/Fill.antt =====
-- What `unitseam_rtf_make` of unit/query/query_hash_join.rtf_clone/hooks.cpp leaves in the table.
use dev4_review_workspace.Prelude.{
  ℕ, zero, suc, ◌+◌, ◌*◌, ◌≤◌, ◌<◌, ◌≡◌, refl, ◌∙◌, subst, inl, inr, Bool, true, false, ◌||◌, none,
  some, List, [], ◌∷◌, arith, Bool-cases, Option-cases, length, replicate, length-replicate,
  length-set, ℤ, eqb_ℤ, eqb_ℤ_iff, elem,
}
use dev4_review_workspace.Probing.{cell, in_use}
use dev4_review_workspace.RuntimeFilter.{
  Filter, capacity, search, insert_at, fill_table, empty_filter, unitseam_rtf_make,
}
use dev4_review_workspace.RuntimeFilter.Capacity.{capacity_bounds}
use dev4_review_workspace.RuntimeFilter.Held.{
  count_distinct, add_reverse, filled_ne_empty, finds, Holds, search-stops, stopped, insert_at-new,
  insert_at-old, two_pos, search_ends,
}

module _ (hash : ℤ → ℕ) where
  in_use-replicate : (n : ℕ) → in_use {A = ℤ} (replicate n none) ≡ 0
  unfolding in_use
  in_use-replicate zero = refl
  in_use-replicate (suc n) = in_use-replicate n

  no_cell : (n i : ℕ) → cell {A = ℤ} (replicate n none) i ≡ none
  no_cell zero i = refl
  no_cell (suc n) zero = refl
  no_cell (suc n) (suc i) = no_cell n i

  elem-add_reverse :
      (k : ℤ) (ks seen : List ℤ) → elem k (add_reverse ks seen) ≡ (elem k ks || elem k seen)
  unfolding elem add_reverse
  elem-add_reverse k [] seen = refl
  elem-add_reverse k (x ∷ ks) seen = ground (arith, elem-add_reverse k ks (x ∷ seen))

  elem-reversed : (k : ℤ) (ks : List ℤ) → elem k (add_reverse ks []) ≡ elem k ks
  unfolding elem
  elem-reversed k ks = elem-add_reverse k ks [] ∙ or_false (elem k ks)
    where
      or_false : (b : Bool) → (b || false) ≡ b
      or_false true = refl
      or_false false = refl

  Holds-finds :
      (keys : List ℤ) (f : Filter)
      → Holds hash (add_reverse keys []) f
      → (j : ℤ) → finds hash f j ≡ elem j keys
  unfolding finds
  Holds-finds keys f h j = elim (Bool-cases (elem j keys)) [
    | inl m ↦
        let (s, e, c) = h.complete j (elem-reversed j keys ∙ m) in
        rw (finds, e, c, m) ((eqb_ℤ_iff j j).1 refl)
    | inr n ↦ elim (Option-cases (search hash f j)) [
      | inl e ↦ rw (finds, e, n) refl
      | inr (s, e) ↦ elim (Option-cases (cell f.table s)) [
        | inl c ↦ rw (finds, e, c, n) refl
        | inr (k, c) ↦
            rw (finds, e, c, n)
              (other k j (λ same.
                absent j n (subst (λ z. elem z (add_reverse keys []) ≡ true) same (h.sound s k c))))
      ]
    ]
  ]
    where
      absent : (z : ℤ) → elem z keys ≡ false → elem z (add_reverse keys []) ≡ true → ⊥
      absent z n m = cc (elem-reversed z keys)

      other : (a b : ℤ) → (a ≡ b → ⊥) → eqb_ℤ a b ≡ false
      other a b ne = elim (Bool-cases (eqb_ℤ a b)) [
        | inl same ↦ absurd (ne ((eqb_ℤ_iff a b).0 same))
        | inr n ↦ n
      ]

  insert_at-Holds :
      (seen : List ℤ) (f : Filter) (k : ℤ) (s : ℕ)
      → 0 < length f.table
      → Holds hash seen f
      → search hash f k ≡ some s
      → Holds hash (k ∷ seen) (insert_at f k s)
        × (length (insert_at f k s).table ≡ length f.table)
        × ((insert_at f k s).n_keys ≤ suc f.n_keys)
  unfolding insert_at
  insert_at-Holds seen f k s b h e =
      elim (stopped hash k (cell f.table s) (search-stops hash f k s b e).1) [
        | inl c ↦
            rw (insert_at, c)
              (insert_at-new hash seen f k s b h e c, length-set f.table s (some k), omega arith)
        | inr c ↦
            rw (insert_at, c) (insert_at-old hash seen f k h (h.sound s k c), refl, omega arith)
      ]

  fill_table-Holds :
      (ks seen : List ℤ) (f : Filter)
      → Holds hash seen f
      → f.n_keys + length ks < length f.table
      → (g : Filter) × (fill_table hash f ks ≡ some g)
        × Holds hash (add_reverse ks seen) g
        × (length g.table ≡ length f.table)
        × (g.n_keys ≤ f.n_keys + length ks)
  unfolding fill_table add_reverse
  fill_table-Holds [] seen f h room = (f, refl, h, refl, omega arith)
  fill_table-Holds (k ∷ ks) seen f h room =
      let (s, e) = search_ends hash f k (omega (arith, h.counted)) in
      let (h', l, n) = insert_at-Holds seen f k s (omega arith) h e in
      let (g, filled, hg, lg, ng) =
        fill_table-Holds ks (k ∷ seen) (insert_at f k s) h' (omega arith) in
      (g, rw (fill_table, e) filled, hg, lg ∙ l, omega arith)

  empty-Holds : (n : ℕ) (val_index : ℤ) → Holds hash [] (empty_filter n val_index)
  unfolding empty_filter count_distinct elem
  empty-Holds n val_index = record {
    counted = in_use-replicate n;
    distinct = refl;
    sound = λ i k c. absurd (filled_ne_empty c (no_cell n i));
    complete = λ k m. cc;
  }

  -- For any hash and any keys the fill ends, with a table that is at most half full: a key is found in
  -- it exactly if it is among the keys, and `n_keys` is the number of different keys.
  pub unitseam_rtf_make-finds :
      (keys : List ℤ) (val_index : ℤ)
      → (f : Filter) × (unitseam_rtf_make hash keys val_index ≡ some f)
        × ((k : ℤ) → finds hash f k ≡ elem k keys)
        × (f.n_keys ≡ count_distinct (add_reverse keys []))
        × (f.n_keys * 2 ≤ length f.table)
  unfolding unitseam_rtf_make empty_filter
  unitseam_rtf_make-finds keys val_index =
      let (twice, (k, power)) = capacity_bounds (length keys) in
      let size : length (empty_filter (capacity (length keys)) val_index).table
          ≡ capacity (length keys) =
        length-replicate (capacity (length keys)) none in
      let (f, filled, h, l, n) =
        fill_table-Holds keys [] (empty_filter (capacity (length keys)) val_index)
          (empty-Holds (capacity (length keys)) val_index) (omega (arith, two_pos hash k)) in
      (f, filled, λ j. Holds-finds keys f h j, h.distinct, omega arith)
