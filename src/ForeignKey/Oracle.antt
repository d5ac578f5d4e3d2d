-- ===== src/ForeignKey/Oracle.antt =====
-- What the expected outcome of unit/transaction/locator_sr.check_foreign_key/test.cpp says of the rows.
use dev4_review_workspace.Prelude.{
  ℕ, suc, ◌≡◌, refl, sym, ap, ◌∙◌, subst, ◌≢◌, ◌⊎◌, inl, inr, Bool, true, false, not, ◌&&◌, Option,
  none, some, List, [], ◌∷◌, ◌++◌, arith, ltb, ◌==◌, Bool-cases, Option-cases, length,
  length-append, get_or, ℤ, pos, eqb_ℤ,
}
use dev4_review_workspace.ForeignKey.World.{Oid, Btid, FakeClass, Index, ForeignKey, Codes, World}
use dev4_review_workspace.ForeignKey.Build.{pk_holding_of, has_row}
use dev4_review_workspace.ForeignKey.Fakes.{count_single}
use dev4_review_workspace.ForeignKey.Expect.{
  Expect, Progress, Round, returns, goes_on, is_fk, key_has_null, not_found_round, search_round,
  class_round, parent_of, fk_round, finish, stop, oracle_from, start_progress, oracle, print_key,
}

-- The codes that the engine's headers keep apart
pub record AreApart (codes : Codes) : Type 0 where
  pub fk_invalid-no_error : codes.fk_invalid ≢ codes.no_error
  pub failed-no_error : codes.failed ≢ codes.no_error
  pub search_error-no_error : codes.search_error ≢ codes.no_error

unfoldable pub key_at : World → ℕ → ℤ
key_at w i = get_or w.key_id i (pos 0)

-- The key of index i is in the primary key of class k: of the partition that holds it, if k has some.
unfoldable pub HasRow : World → ℕ → FakeClass → Type 0
unfolding key_at pk_holding_of has_row
HasRow w i k =
    (h : Btid × Oid) × ((pk_holding_of k (key_at w i) ≡ some h)
      × (has_row w.rows h.0.root_pageid (key_at w i) ≡ true))

unfoldable pub LacksRow : World → ℕ → FakeClass → Type 0
unfolding key_at pk_holding_of has_row
LacksRow w i k =
    (h : Btid × Oid)
    → pk_holding_of k (key_at w i) ≡ some h
    → has_row w.rows h.0.root_pageid (key_at w i) ≡ false

-- Index i is a foreign key whose key has no NULL, and k is the class it names.
unfoldable pub Refers : World → ℕ → Index → ForeignKey → FakeClass → Type 0
unfolding is_fk key_has_null parent_of
Refers w i x fk k =
    (is_fk x.type ≡ true) × ((key_has_null w i x ≡ false) × (parent_of w fk ≡ some k))

unfoldable pub IsSatisfied : World → ℕ → Index → ForeignKey → Type 0
unfolding Refers HasRow
IsSatisfied w i x fk = (k : FakeClass) → Refers w i x fk k → HasRow w i k

unfoldable pub IsViolated : World → ℕ → Index → ForeignKey → Type 0
unfolding Refers LacksRow
IsViolated w i x fk = (k : FakeClass) × (Refers w i x fk k × LacksRow w i k)

some_inj : {a b : Btid × Oid} → some a ≡ some b → a ≡ b
some_inj e = cc

class_inj : {a b : FakeClass} → some a ≡ some b → a ≡ b
class_inj e = cc

pub none-some : {a : FakeClass} → none ≡ some a → ⊥
none-some e = cc

searched : Progress → Btid → Oid → Progress
searched p b o = record p { searches = p.searches ++ ((b.root_pageid, o.pageid) ∷ []) }

-- Every index from i on is satisfied, as far as each list goes.
unfoldable pub AllSatisfied : World → ℕ → List Index → List ForeignKey → Type 0
unfolding IsSatisfied
AllSatisfied w i [] fks = Unit
AllSatisfied w i (x ∷ xs) [] = Unit
AllSatisfied w i (x ∷ xs) (fk ∷ fks) = IsSatisfied w i x fk × AllSatisfied w (suc i) xs fks

-- An index from i on is violated.
unfoldable pub SomeViolated : World → ℕ → List Index → List ForeignKey → Type 0
unfolding IsViolated
SomeViolated w i [] fks = ⊥
SomeViolated w i (x ∷ xs) [] = ⊥
SomeViolated w i (x ∷ xs) (fk ∷ fks) = IsViolated w i x fk ⊎ SomeViolated w (suc i) xs fks

-- `Other` holds of each error with which the loop returns, but for the foreign key's own.
pub record Errors (codes : Codes) (Other : ℤ → Type 0) (w : World) : Type 0 where
  pub failed : Other codes.failed
  pub search_fault : Other codes.search_error
  pub read : w.read_error ≢ codes.no_error → Other w.read_error
  pub load :
      (fk : ForeignKey) (k : FakeClass)
      → parent_of w fk ≡ some k
      → k.load_error ≢ codes.no_error
      → Other k.load_error
  pub attr_start :
      (fk : ForeignKey) (k : FakeClass)
      → parent_of w fk ≡ some k
      → k.attr_start_error ≢ codes.no_error
      → Other k.attr_start_error
  pub prune :
      (fk : ForeignKey) (k : FakeClass)
      → parent_of w fk ≡ some k
      → k.prune_error ≢ codes.no_error
      → Other k.prune_error

module _ (codes : Codes) (Other : ℤ → Type 0) where
  -- A round that goes on has `S`, wrote no message and keeps the error code or sets NO_ERROR; one that
  -- returns wrote no message and has another error, or wrote one and has the foreign key's, with `V`.
  unfoldable pub RoundOk : Type 0 → Type 0 → Progress → Round → Type 0
  RoundOk S V p (goes_on q) =
      S × ((q.messages ≡ p.messages) × ((q.err ≡ p.err) ⊎ (q.err ≡ codes.no_error)))
  RoundOk S V p (returns ret q) =
      (Other ret × (q.messages ≡ p.messages))
      ⊎ ((length q.messages ≡ suc (length p.messages)) × ((ret ≡ codes.fk_invalid) × V))

  eqb_ne : (a b : ℤ) → eqb_ℤ a b ≡ false → a ≢ b
  eqb_ne a b h e = ground (arith, h, e)

  module _ (w : World) (errs : Errors codes Other w) (live : w.applier ≡ false) (i : ℕ) (x : Index)
      (fk : ForeignKey) where
    not_found_round-Ok :
        (S V : Type 0) (p : Progress) → V → RoundOk S V p (not_found_round codes w i x fk p)
    unfolding not_found_round RoundOk
    not_found_round-Ok S V p v =
        rw (not_found_round, live)
          (inr (
            omega (arith, length-append p.messages ((fk.fkname, print_key w i x) ∷ [])),
            (refl, v),
          ))

    search_round-Ok :
        (S V : Type 0) (h : Option (Btid × Oid)) (p : Progress)
        → ((t : Btid × Oid) → h ≡ some t → has_row w.rows t.0.root_pageid (key_at w i) ≡ true → S)
        → (((t : Btid × Oid) → h ≡ some t → has_row w.rows t.0.root_pageid (key_at w i) ≡ false)
            → V)
        → RoundOk S V p (search_round codes w i x fk h p)
    unfolding search_round RoundOk key_at searched
    search_round-Ok S V none p s v =
        not_found_round-Ok S V p (v (λ t e. absurd (ground (arith, e))))
    search_round-Ok S V (some (b, o)) p s v =
        elim (Bool-cases
          (length (p.searches ++ ((b.root_pageid, o.pageid) ∷ [])) == w.search_error_at)) [
            | inl e ↦ rw (search_round, e) (inl (errs.search_fault, refl))
            | inr e ↦ elim (Bool-cases (has_row w.rows b.root_pageid (key_at w i))) [
              | inl f ↦ rw (search_round, e, f) (s (b, o) refl f, (refl, inl refl))
              | inr f ↦
                  rw (search_round, e, f)
                    (not_found_round-Ok S V (searched p b o) (
                      v (λ t g.
                        subst (λ t. has_row w.rows t.0.root_pageid (key_at w i) ≡ false)
                          (some_inj g) f)))
            ]
          ]

    RoundOk-err :
        (S V : Type 0) (p : Progress) (r : Round)
        → RoundOk S V (record p { err = codes.no_error }) r
        → RoundOk S V p r
    unfolding RoundOk
    RoundOk-err S V p (goes_on q) (s, (m, inl e)) = (s, (m, inr e))
    RoundOk-err S V p (goes_on q) (s, (m, inr e)) = (s, (m, inr e))
    RoundOk-err S V p (returns ret q) h = h

    -- The search in the primary key that holds the key, whatever of it
    held_round-Ok :
        (k : FakeClass) (h : Option (Btid × Oid)) (p : Progress)
        → pk_holding_of k (key_at w i) ≡ h
        → RoundOk (HasRow w i k) (LacksRow w i k) p (search_round codes w i x fk h p)
    unfolding HasRow LacksRow
    held_round-Ok k h p e =
        search_round-Ok (HasRow w i k) (LacksRow w i k) h p (λ t g f. (t, (e ∙ g, f)))
          (λ all t g. all t (sym e ∙ g))

    whole_held :
        (k : FakeClass) (v : ℤ)
        → (k.has_partition_info && not k.load_unpartitioned) ≡ false
        → pk_holding_of k v ≡ some (k.pk, k.oid)
    unfolding pk_holding_of
    whole_held k v e = rw (pk_holding_of, e) refl

    RoundOk-map :
        (S V S' V' : Type 0) (p : Progress) (r : Round)
        → (S → S')
        → (V → V')
        → RoundOk S V p r
        → RoundOk S' V' p r
    unfolding RoundOk
    RoundOk-map S V S' V' p (goes_on q) f g (s, h) = (f s, h)
    RoundOk-map S V S' V' p (returns ret q) f g (inl e) = inl e
    RoundOk-map S V S' V' p (returns ret q) f g (inr (l, (e, v))) = inr (l, (e, g v))

    held :
        (S V : Type 0) (k : FakeClass)
        → (HasRow w i k → S)
        → (LacksRow w i k → V)
        → (h : Option (Btid × Oid)) (p : Progress) → pk_holding_of k (key_at w i) ≡ h
        → RoundOk S V p (search_round codes w i x fk h p)
    held S V k f g h p e =
        RoundOk-map (HasRow w i k) (LacksRow w i k) S V p (search_round codes w i x fk h p) f g
          (held_round-Ok k h p e)

    class_round-Ok :
        (S V : Type 0) (k : FakeClass) (p : Progress)
        → parent_of w fk ≡ some k
        → (HasRow w i k → S)
        → (LacksRow w i k → V)
        → RoundOk S V p (class_round codes w i x fk k p)
    unfolding class_round key_at RoundOk
    class_round-Ok S V k p at f g = elim (Bool-cases k.get_fails) [
      | inl a ↦ simp (class_round, a) (inl (errs.failed, refl))
      | inr a ↦ elim (Bool-cases k.has_partition_info) [
        | inr b ↦
            simp (class_round, a, b)
              (held S V k f g (some (k.pk, k.oid)) p
                (whole_held k (key_at w i) (ground (arith, b))))
        | inl b ↦ elim (Bool-cases (eqb_ℤ k.load_error codes.no_error)) [
          | inr c ↦
              simp (class_round, a, b, c)
                (inl (errs.load fk k at (eqb_ne k.load_error codes.no_error c), refl))
          | inl c ↦ elim (Bool-cases k.load_unpartitioned) [
            | inl d ↦
                simp (class_round, a, b, c, d)
                  (RoundOk-err S V p _ (
                    held S V k f g (some (k.pk, k.oid)) (record p { err = codes.no_error })
                      (whole_held k (key_at w i) (ground (arith, b, d)))))
            | inr d ↦ elim (Bool-cases (eqb_ℤ k.attr_start_error codes.no_error)) [
              | inr e ↦
                  simp (class_round, a, b, c, d, e)
                    (inl
                      (errs.attr_start fk k at (eqb_ne k.attr_start_error codes.no_error e), refl))
              | inl e ↦ elim (Bool-cases (eqb_ℤ k.prune_error codes.no_error)) [
                | inr h ↦
                    simp (class_round, a, b, c, d, e, h)
                      (inl (errs.prune fk k at (eqb_ne k.prune_error codes.no_error h), refl))
                | inl h ↦
                    simp (class_round, a, b, c, d, e, h)
                      (RoundOk-err S V p _ (
                        held S V k f g (pk_holding_of k (key_at w i))
                          (record p { err = codes.no_error }) refl))
              ]
            ]
          ]
        ]
      ]
    ]

    fk_round_into :
        (S V : Type 0) (p : Progress)
        → (IsSatisfied w i x fk → S)
        → (IsViolated w i x fk → V)
        → RoundOk S V p (fk_round codes w i x fk p)
    unfolding fk_round RoundOk IsSatisfied IsViolated Refers
    fk_round_into S V p f g = elim (Bool-cases (is_fk x.type)) [
      | inr a ↦ rw (fk_round, a) (f (λ k (b, _). absurd (ground (arith, a, b))), (refl, inl refl))
      | inl a ↦ elim (Bool-cases (eqb_ℤ (pos i) w.get_key_fail_at)) [
        | inl b ↦ rw (fk_round, a, b) (inl (errs.failed, refl))
        | inr b ↦ elim (Bool-cases (key_has_null w i x)) [
          | inl c ↦
              rw (fk_round, a, b, c)
                (f (λ k (_, (d, _)). absurd (ground (arith, c, d))), (refl, inl refl))
          | inr c ↦ elim (Option-cases (parent_of w fk)) [
            | inl d ↦
                rw (fk_round, a, b, c, d)
                  (f (λ k (_, (_, e)). absurd (none-some (sym d ∙ e))), (refl, inl refl))
            | inr (k, d) ↦
                rw (fk_round, a, b, c, d)
                  (class_round-Ok S V k p d
                    (λ has. f (λ k' (_, (_, e)). subst (HasRow w i) (class_inj (sym d ∙ e)) has))
                    (λ lacks. g (k, ((a, (c, d)), lacks))))
          ]
        ]
      ]
    ]

    fk_round-Ok :
        (p : Progress)
        → RoundOk (IsSatisfied w i x fk) (IsViolated w i x fk) p (fk_round codes w i x fk p)
    fk_round-Ok p = fk_round_into (IsSatisfied w i x fk) (IsViolated w i x fk) p (λ s. s) (λ v. v)

  -- All satisfied, NO_ERROR and nothing written; or another error and nothing written; or one message, the foreign
  -- key's error and a foreign key that is violated.
  unfoldable pub Outcome : World → ℕ → List Index → List ForeignKey → Expect → Type 0
  unfolding AllSatisfied SomeViolated
  Outcome w i xs fks e =
      (AllSatisfied w i xs fks × ((e.ret ≡ codes.no_error) × (e.messages ≡ [])))
      ⊎ ((Other e.ret × (e.messages ≡ []))
          ⊎ ((length e.messages ≡ 1) × ((e.ret ≡ codes.fk_invalid) × SomeViolated w i xs fks)))

  Outcome-later :
      (w : World) (i : ℕ) (x : Index) (fk : ForeignKey) (xs : List Index) (fks : List ForeignKey)
      (e : Expect)
      → IsSatisfied w i x fk
      → Outcome w (suc i) xs fks e
      → Outcome w i (x ∷ xs) (fk ∷ fks) e
  unfolding Outcome AllSatisfied SomeViolated
  Outcome-later w i x fk xs fks e s (inl (a, m)) = inl ((s, a), m)
  Outcome-later w i x fk xs fks e s (inr (inl f)) = inr (inl f)
  Outcome-later w i x fk xs fks e s (inr (inr (l, (r, v)))) = inr (inr (l, (r, inr v)))

  after_round :
      (w : World) (i : ℕ) (x : Index) (fk : ForeignKey) (xs : List Index) (fks : List ForeignKey)
      (p : Progress)
      → p.messages ≡ []
      → p.err ≡ codes.no_error
      → ((q : Progress)
          → q.messages ≡ []
          → q.err ≡ codes.no_error
          → Outcome w (suc i) xs fks (oracle_from codes w (suc i) xs fks q))
      → (r : Round) → RoundOk (IsSatisfied w i x fk) (IsViolated w i x fk) p r
      → Outcome w i (x ∷ xs) (fk ∷ fks) (elim r [
        | returns ret q ↦ stop codes ret q
        | goes_on q ↦ oracle_from codes w (suc i) xs fks q
      ])
  unfolding RoundOk stop Outcome SomeViolated
  after_round w i x fk xs fks p m n later (goes_on q) (s, (e, inl same)) =
      Outcome-later w i x fk xs fks (oracle_from codes w (suc i) xs fks q) s
        (later q (e ∙ m) (same ∙ n))
  after_round w i x fk xs fks p m n later (goes_on q) (s, (e, inr clear)) =
      Outcome-later w i x fk xs fks (oracle_from codes w (suc i) xs fks q) s (later q (e ∙ m) clear)
  after_round w i x fk xs fks p m n later (returns ret q) (inl (o, e)) = inr (inl (o, e ∙ m))
  after_round w i x fk xs fks p m n later (returns ret q) (inr (l, (r, v))) =
      inr (inr (l ∙ ap (λ ms. suc (length ms)) m, (r, inl v)))

  oracle_from-Outcome :
      (w : World)
      → Errors codes Other w
      → w.applier ≡ false
      → (i : ℕ) (xs : List Index) (fks : List ForeignKey) (p : Progress) → p.messages ≡ []
      → p.err ≡ codes.no_error
      → Outcome w i xs fks (oracle_from codes w i xs fks p)
  unfolding Outcome AllSatisfied SomeViolated oracle_from finish stop RoundOk
  oracle_from-Outcome w errs live i [] fks p m n = inl (tt, (n, m))
  oracle_from-Outcome w errs live i (x ∷ xs) [] p m n = inl (tt, (n, m))
  oracle_from-Outcome w errs live i (x ∷ xs) (fk ∷ fks) p m n =
      after_round w i x fk xs fks p m n (λ q. oracle_from-Outcome w errs live (suc i) xs fks q)
        (fk_round codes w i x fk p) (fk_round-Ok w errs live i x fk p)

  pub oracle-Outcome :
      (w : World)
      → Errors codes Other w
      → w.applier ≡ false
      → Outcome w 0 w.indexes w.fks (oracle codes w)
  unfolding oracle stop start_progress Outcome
  oracle-Outcome w errs live =
      elim (Bool-cases
        (not (eqb_ℤ w.read_error codes.no_error) && ltb 0 (count_single w.indexes))) [
          | inl e ↦
              simp (oracle, e)
                (inr
                  (inl (errs.read (read_fails (eqb_ℤ w.read_error codes.no_error) refl e), refl)))
          | inr e ↦
              simp (oracle, e)
                (oracle_from-Outcome w errs live 0 w.indexes w.fks (start_progress codes) refl refl)
        ]
    where
      read_fails :
          (b : Bool)
          → eqb_ℤ w.read_error codes.no_error ≡ b
          → (not b && ltb 0 (count_single w.indexes)) ≡ true
          → w.read_error ≢ codes.no_error
      read_fails true e h = absurd (ground (arith, h))
      read_fails false e h = eqb_ne w.read_error codes.no_error e
