-- ===== src/ForeignKey/Rows.antt =====
-- The expected outcome of unit/transaction/locator_sr.check_foreign_key/test.cpp against the rows that
-- the script wrote, index by index.
use dev4_review_workspace.Prelude.{
  ℕ, zero, suc, ◌+◌, ◌≡◌, ◌≢◌, refl, subst, ◌⊎◌, inl, inr, Bool, true, false, none, some, List, [],
  ◌∷◌, arith, Option-cases, length, get_elem?, get_or, pos,
}
use dev4_review_workspace.ForeignKey.World.{FakeClass, Index, ForeignKey, Codes, World}
use dev4_review_workspace.ForeignKey.Build.{pk_holding_of, has_row}
use dev4_review_workspace.ForeignKey.Expect.{oracle}
use dev4_review_workspace.ForeignKey.Messages.{Scripted, oracle-AllSatisfied, oracle-messages}
use dev4_review_workspace.ForeignKey.Oracle.{
  AreApart, key_at, HasRow, LacksRow, Refers, IsSatisfied, IsViolated, AllSatisfied, SomeViolated,
}

-- Whether the key of index i is in the primary key of class k: in that of the partition that holds it,
-- if k has partitions.
unfoldable pub row_held : World → ℕ → FakeClass → Bool
row_held w i k =
    let v = get_or w.key_id i (pos 0) in
    elim (pk_holding_of k v) [ none ↦ false | some h ↦ has_row w.rows h.0.root_pageid v ]

held-HasRow : (w : World) (i : ℕ) (k : FakeClass) → HasRow w i k → row_held w i k ≡ true
unfolding row_held HasRow key_at
held-HasRow w i k (h, (e, f)) = rw (row_held, e) f

held-LacksRow : (w : World) (i : ℕ) (k : FakeClass) → LacksRow w i k → row_held w i k ≡ false
unfolding row_held LacksRow key_at
held-LacksRow w i k l = elim (Option-cases (pk_holding_of k (key_at w i))) [
  | inl n ↦ rw (row_held, n) refl
  | inr (h, n) ↦ rw (row_held, n) (l h n)
]

-- Index i is a foreign key whose key has no NULL, its class is in the world, and the key has no row.
pub record Missing (w : World) : Type 0 where
  pub i : ℕ
  pub index : Index
  pub fk : ForeignKey
  pub parent : FakeClass
  pub at : get_elem? w.indexes i ≡ some index
  pub fk_at : get_elem? w.fks i ≡ some fk
  pub refers : Refers w i index fk parent
  pub no_row : row_held w i parent ≡ false

inj : {A : Type 0} {a b : A} → some a ≡ some b → a ≡ b
inj e = cc

module _ (codes : Codes) (apart : AreApart codes) where
  IsSatisfied-at :
      (w : World) (i j : ℕ) (xs : List Index) (fks : List ForeignKey) (x : Index) (fk : ForeignKey)
      → AllSatisfied w i xs fks
      → get_elem? xs j ≡ some x
      → get_elem? fks j ≡ some fk
      → IsSatisfied w (i + j) x fk
  unfolding AllSatisfied
  IsSatisfied-at w i j [] fks x fk a ex ef = absurd (ground (arith, ex))
  IsSatisfied-at w i j (y ∷ xs) [] x fk a ex ef = absurd (ground (arith, ef))
  IsSatisfied-at w i zero (y ∷ xs) (g ∷ fks) x fk (s, a) ex ef =
      subst (λ n. IsSatisfied w n x fk) (omega arith)
        (subst (λ z. IsSatisfied w i z fk) (inj ex) (subst (λ z. IsSatisfied w i y z) (inj ef) s))
  IsSatisfied-at w i (suc j) (y ∷ xs) (g ∷ fks) x fk (s, a) ex ef =
      subst (λ n. IsSatisfied w n x fk) (omega arith)
        (IsSatisfied-at w (suc i) j xs fks x fk a ex ef)

  missing_at :
      (w : World) (i : ℕ) (xs : List Index) (fks : List ForeignKey)
      → SomeViolated w i xs fks
      → (j : ℕ) × ((x : Index) × ((fk : ForeignKey) × ((get_elem? xs j ≡ some x)
              × ((get_elem? fks j ≡ some fk) × IsViolated w (i + j) x fk))))
  unfolding SomeViolated
  missing_at w i [] fks h = absurd h
  missing_at w i (x ∷ xs) [] h = absurd h
  missing_at w i (x ∷ xs) (fk ∷ fks) (inl v) =
      (0, (x, (fk, (refl, (refl, subst (λ n. IsViolated w n x fk) (omega arith) v)))))
  missing_at w i (x ∷ xs) (fk ∷ fks) (inr later) =
      let (j, (y, (g, (ey, (eg, v))))) = missing_at w (suc i) xs fks later in
      (suc j, (y, (g, (ey, (eg, subst (λ n. IsViolated w n y g) (omega arith) v)))))

  -- Without the log applier, when success is expected, an index that is a foreign key, whose key has no
  -- NULL and whose class is in the world, has a row with its key in the primary key that holds it: the
  -- partition's, for a partitioned class.
  pub oracle-row_held :
      (w : World) (i : ℕ) (x : Index) (fk : ForeignKey) (k : FakeClass)
      → w.applier ≡ false
      → (oracle codes w).ret ≡ codes.no_error
      → get_elem? w.indexes i ≡ some x
      → get_elem? w.fks i ≡ some fk
      → Refers w i x fk k
      → row_held w i k ≡ true
  unfolding IsSatisfied
  oracle-row_held w i x fk k live e ex ef r = held-HasRow w i k (
      subst (λ n. HasRow w n k) (omega arith)
        (IsSatisfied-at w 0 i w.indexes w.fks x fk (oracle-AllSatisfied codes apart w live e) ex ef
          k (subst (λ n. Refers w n x fk k) (omega arith) r)))

  -- Without the log applier, and where the errors that the script makes the engine's functions return
  -- are not ER_FK_INVALID: either the result is not ER_FK_INVALID and no message is expected, or it is,
  -- one message is expected, and some foreign key with no NULL in its key lacks its row.
  pub oracle-Missing :
      (w : World)
      → w.applier ≡ false
      → Scripted codes w
      → (((oracle codes w).messages ≡ []) × ((oracle codes w).ret ≢ codes.fk_invalid))
        ⊎ ((length (oracle codes w).messages ≡ 1)
            × (((oracle codes w).ret ≡ codes.fk_invalid) × Missing w))
  unfolding IsViolated
  oracle-Missing w live scripted = elim (oracle-messages codes apart w live scripted) [
    | inl none_written ↦ inl none_written
    | inr (one, (ret, some_violated)) ↦
        let (j, (x, (fk, (ex, (ef, (k, (r, l))))))) =
          missing_at w 0 w.indexes w.fks some_violated in
        inr (
          one,
          (
            ret,
            record {
              i = j;
              index = x;
              fk = fk;
              parent = k;
              at = ex;
              fk_at = ef;
              refers = subst (λ n. Refers w n x fk k) (omega arith) r;
              no_row = held-LacksRow w j k (subst (λ n. LacksRow w n k) (omega arith) l);
            },
          ),
        )
  ]
