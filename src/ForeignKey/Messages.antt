-- ===== src/ForeignKey/Messages.antt =====
-- The result and the messages of the expected outcome in
-- unit/transaction/locator_sr.check_foreign_key/test.cpp, for each return of `oracle`.
use dev4_review_workspace.Prelude.{
  get_elem?, All, ℕ, zero, suc, ◌≡◌, refl, sym, ◌∙◌, subst, ◌≢◌, ◌⊎◌, inl, inr, false, some, List,
  [], ◌∷◌, arith, Option-cases, length,
}
use dev4_review_workspace.ForeignKey.World.{FakeClass, ForeignKey, Codes, World}
use dev4_review_workspace.ForeignKey.Build.{find_class}
use dev4_review_workspace.ForeignKey.Expect.{parent_of, oracle}
use dev4_review_workspace.ForeignKey.Oracle.{
  AreApart, Errors, Outcome, AllSatisfied, SomeViolated, oracle-Outcome, none-some,
}

module _ (codes : Codes) (apart : AreApart codes) where
  -- Without the log applier, an expected success means that each foreign key whose key has no NULL has
  -- a row in the primary key that holds its key: the partition's, for a partitioned parent.
  pub oracle-AllSatisfied :
      (w : World)
      → w.applier ≡ false
      → (oracle codes w).ret ≡ codes.no_error
      → AllSatisfied w 0 w.indexes w.fks
  unfolding Outcome
  oracle-AllSatisfied w live e = elim (oracle-Outcome codes (λ c. c ≢ codes.no_error) w errs live) [
    | inl a ↦ a.0
    | inr b ↦ elim b [
      | inl f ↦ absurd (f.0 e)
      | inr g ↦ absurd (apart.fk_invalid-no_error (sym g.1.0 ∙ e))
    ]
  ]
    where
      errs : Errors codes (λ c. c ≢ codes.no_error) w
      errs = record {
        failed = apart.failed-no_error;
        search_fault = apart.search_error-no_error;
        read = λ n. n;
        load = λ fk k at n. n;
        attr_start = λ fk k at n. n;
        prune = λ fk k at n. n;
      }

-- The errors that the script makes the engine's functions return are not ER_FK_INVALID.
pub record NotInvalid (codes : Codes) (k : FakeClass) : Type 0 where
  pub load : k.load_error ≢ codes.fk_invalid
  pub attr_start : k.attr_start_error ≢ codes.fk_invalid
  pub prune : k.prune_error ≢ codes.fk_invalid

pub record Scripted (codes : Codes) (w : World) : Type 0 where
  pub failed : codes.failed ≢ codes.fk_invalid
  pub search_fault : codes.search_error ≢ codes.fk_invalid
  pub read : w.read_error ≢ codes.fk_invalid
  pub classes : All (NotInvalid codes) w.cls

All-get :
    {A : Type 0} (P : A → Type 0) (xs : List A) (i : ℕ) (x : A)
    → All P xs
    → get_elem? xs i ≡ some x
    → P x
All-get P [] i x all e = absurd (ground (arith, e))
All-get P (y ∷ xs) zero x (h, all) e = subst P (get_inj e) h
  where
    get_inj : {A : Type 0} {a b : A} → some a ≡ some b → a ≡ b
    get_inj e = cc
All-get P (y ∷ xs) (suc i) x (h, all) e = All-get P xs i x all e

module _ (codes : Codes) (apart : AreApart codes) where
  parent_of-NotInvalid :
      (w : World) (fk : ForeignKey) (k : FakeClass)
      → Scripted codes w
      → parent_of w fk ≡ some k
      → NotInvalid codes k
  unfolding parent_of
  parent_of-NotInvalid w fk k s at = elim (Option-cases (find_class w (some fk.ref_class_oid))) [
    | inl n ↦ absurd (none-some (sym (rw (parent_of, n) refl) ∙ at))
    | inr (slot, n) ↦
        All-get (NotInvalid codes) w.cls slot k s.classes (sym (rw (parent_of, n) refl) ∙ at)
  ]

  -- Without the log applier and with other errors than ER_FK_INVALID from the engine's functions: the
  -- result is not ER_FK_INVALID and no message is expected, or it is, with one message and some foreign
  -- key with no NULL in its key that lacks its row.
  pub oracle-messages :
      (w : World)
      → w.applier ≡ false
      → Scripted codes w
      → (((oracle codes w).messages ≡ []) × ((oracle codes w).ret ≢ codes.fk_invalid))
        ⊎ ((length (oracle codes w).messages ≡ 1)
            × (((oracle codes w).ret ≡ codes.fk_invalid) × SomeViolated w 0 w.indexes w.fks))
  unfolding Outcome
  oracle-messages w live s = elim (oracle-Outcome codes (λ c. c ≢ codes.fk_invalid) w errs live) [
    | inl a ↦ inl (a.1.1, λ e. apart.fk_invalid-no_error (sym e ∙ a.1.0))
    | inr b ↦ elim b [ inl f ↦ inl (f.1, f.0) | inr g ↦ inr g ]
  ]
    where
      errs : Errors codes (λ c. c ≢ codes.fk_invalid) w
      errs = record {
        failed = s.failed;
        search_fault = s.search_fault;
        read = λ n. s.read;
        load = λ fk k at n. (parent_of-NotInvalid w fk k s at).load;
        attr_start = λ fk k at n. (parent_of-NotInvalid w fk k s at).attr_start;
        prune = λ fk k at n. (parent_of-NotInvalid w fk k s at).prune;
      }
