-- ===== src/ForeignKey/Classes.antt =====
-- The classes that unit/transaction/locator_sr.check_foreign_key/test.cpp adds to the world
-- (`add_class`, `add_partitioned`, `add_fk`).
-- `ncls` is the length of the list of classes; the array's bound of ten is left to the caller.
use dev4_review_workspace.Prelude.{
  ℕ, zero, suc, ◌+◌, ◌*◌, ◌<◌, ◌≡◌, refl, ap, true, false, none, some, List, [], ◌∷◌, ◌++◌, arith,
  length, get_elem?, ℤ,
}
use dev4_review_workspace.ForeignKey.World.{
  Btid, Text, PartitionType, hash, range, Partition, FakeClass, foreign_key, World, Codes,
}
use dev4_review_workspace.ForeignKey.Build.{mk_oid, mk_btid, add_index, modify}
use dev4_review_workspace.ForeignKey.Held.{IsPartitioned}

module _ (codes : Codes) where
  -- The class c of the world: `W = world ()` has left it empty.
  unfoldable pub new_class : ℕ → FakeClass
  unfolding mk_oid mk_btid
  new_class c = record {
    oid = mk_oid (100 + c);
    has_partition_info = false;
    fcnt = 0;
    get_fails = false;
    pk = mk_btid (500 + c);
    parts = [];
    part_pk = [];
    range_upper = [];
    from_cache = true;
    load_unpartitioned = false;
    load_error = codes.no_error;
    attr_start_error = codes.no_error;
    prune_error = codes.no_error;
  }

  -- The world and the new class's slot
  unfoldable pub add_class : World → ℕ × World
  unfolding new_class
  add_class w = (length w.cls, record w { cls = w.cls ++ (new_class (length w.cls) ∷ []) })

  -- Partitions i to i + n - 1 of class c
  unfoldable pub parts_from : PartitionType → ℕ → ℕ → ℕ → List Partition
  unfolding mk_oid
  parts_from t c i zero = []
  parts_from t c i (suc n) =
      record {
        class_oid = mk_oid (1000 + c * 10 + i);
        hfid = 3000 + c * 10 + i;
        partition_type = t;
      }
      ∷ parts_from t c (suc i) n

  unfoldable pub pks_from : ℕ → ℕ → ℕ → List Btid
  unfolding mk_btid
  pks_from c i zero = []
  pks_from c i (suc n) = mk_btid (5000 + c * 10 + i) ∷ pks_from c (suc i) n

  abbrev pub type_of_ranges : List ℤ → PartitionType
  type_of_ranges [] = hash
  type_of_ranges (u ∷ upper) = range

  -- `parts[0]` is the master, with `part_pk[0]` left empty.
  unfoldable pub partitioned_class : ℕ → ℕ → List ℤ → FakeClass
  unfolding new_class parts_from pks_from mk_btid
  partitioned_class c nparts upper =
      let k = new_class c in
      let t = type_of_ranges upper in
      record k {
        has_partition_info = true;
        parts =
            record { class_oid = k.oid; hfid = 0; partition_type = t } ∷ parts_from t c 1 nparts;
        part_pk = mk_btid 0 ∷ pks_from c 1 nparts;
        range_upper = upper;
      }

  unfoldable pub add_partitioned : World → ℕ → List ℤ → ℕ × World
  unfolding partitioned_class
  add_partitioned w nparts upper = (
    length w.cls,
    record w { cls = w.cls ++ (partitioned_class (length w.cls) nparts upper ∷ []) },
  )

  length-parts_from : (t : PartitionType) (c i n : ℕ) → length (parts_from t c i n) ≡ n
  unfolding parts_from
  length-parts_from t c i zero = refl
  length-parts_from t c i (suc n) = ap suc (length-parts_from t c (suc i) n)

  length-pks_from : (c i n : ℕ) → length (pks_from c i n) ≡ n
  unfolding pks_from
  length-pks_from c i zero = refl
  length-pks_from c i (suc n) = ap suc (length-pks_from c (suc i) n)

  partitioned_class-IsPartitioned :
      (c nparts : ℕ) (upper : List ℤ)
      → 0 < nparts
      → IsPartitioned (partitioned_class c nparts upper)
  unfolding partitioned_class
  partitioned_class-IsPartitioned c n upper h = record {
    has_parts = omega (arith, length-parts_from (type_of_ranges upper) c 1 n);
    same_length =
        omega (arith, length-parts_from (type_of_ranges upper) c 1 n, length-pks_from c 1 n);
  }

  get_elem?-last :
      {A : Type 0} (xs : List A) (a : A) → get_elem? (xs ++ (a ∷ [])) (length xs) ≡ some a
  get_elem?-last [] a = refl
  get_elem?-last (x ∷ xs) a = get_elem?-last xs a

  -- With a partition at least, the slot that `add_partitioned` answers holds a class of that many
  -- partitions and a primary key for each.
  pub add_partitioned-IsPartitioned :
      (w : World) (nparts : ℕ) (upper : List ℤ)
      → 0 < nparts
      → (k : FakeClass) × ((get_elem?
              (add_partitioned w nparts upper).1.cls
              (add_partitioned w nparts upper).0
            ≡ some k)
          × (IsPartitioned k × (length k.parts ≡ suc nparts)))
  unfolding add_partitioned partitioned_class
  add_partitioned-IsPartitioned w n upper h = (
    partitioned_class (length w.cls) n upper,
    (
      get_elem?-last w.cls (partitioned_class (length w.cls) n upper),
      (
        partitioned_class-IsPartitioned (length w.cls) n upper h,
        ap suc (length-parts_from (type_of_ranges upper) (length w.cls) 1 n),
      ),
    ),
  )

-- `ref` is a slot of the world; out of range there is no foreign key to name it.
unfoldable pub add_fk : World → ℕ → Text → ℕ → ℕ × World
unfolding add_index modify
add_fk w ref name n_atts =
    let position = length w.indexes in
    let added = add_index w foreign_key n_atts in
    (
      position,
      elim (get_elem? w.cls ref) [
        | none ↦ added
        | some k ↦ record added {
          fks =
              modify
                (λ fk. record { fkname = name; ref_class_oid = k.oid; ref_class_pk_btid = k.pk })
                position added.fks;
        }
      ],
    )
