-- ===== src/ForeignKey/Build.antt =====
-- World building in unit/transaction/locator_sr.check_foreign_key/test.cpp (`find_class` to `unfix`).
-- A pointer to a class of the world is its slot; a pointer that may be NULL is an Option.
use dev4_review_workspace.Prelude.{
  ℕ, zero, suc, ◌+◌, ◌-◌, ◌%◌, Bool, true, false, not, ◌&&◌, ◌||◌, Option, none, some, List, [],
  ◌∷◌, ◌++◌, ltb, ◌==◌, if◌then◌else◌, length, get_elem?, set, get_or, ℤ, pos, negsuc, ◌+ℤ◌, ltb_ℤ,
  eqb_ℤ,
}
use mathlib.Core.Option
use dev4_review_workspace.ForeignKey.World.{
  Oid, Btid, FakeClass, BtreeType, null, int, KeyRef, caller, attribute, World, oid_eq,
}

-- v[i] of a vector with an update in place; out of range changes nothing
unfoldable pub modify {ℓ} : {A : Type ℓ} → (A → A) → ℕ → List A → List A
modify f i [] = []
modify f zero (x ∷ xs) = f x ∷ xs
modify f (suc i) (x ∷ xs) = x ∷ modify f i xs

unfoldable pub mk_oid : ℕ → Oid
mk_oid page = record { pageid = page }

unfoldable pub mk_btid : ℕ → Btid
mk_btid page = record { root_pageid = page }

unfoldable pub slot_in : List FakeClass → Oid → Option ℕ
unfolding oid_eq
slot_in [] o = none
slot_in (k ∷ ks) o =
    let rest = Option.map suc (slot_in ks o) in if oid_eq k.oid o then some 0 else rest

unfoldable pub find_class : World → Option Oid → Option ℕ
unfolding slot_in
find_class w none = none
find_class w (some o) = slot_in w.cls o

unfoldable pub sum_pins : List FakeClass → ℕ
sum_pins [] = 0
sum_pins (k ∷ ks) = k.fcnt + sum_pins ks

unfoldable pub pins_left : World → ℕ
unfolding sum_pins
pins_left w = sum_pins w.cls

unfoldable pub pctx_live : World → ℤ
pctx_live w = w.pred_live +ℤ w.attr_live +ℤ w.parts_live

unfoldable pub key_ref_eq : KeyRef → KeyRef → Bool
key_ref_eq caller caller = true
key_ref_eq (attribute i) (attribute j) = i == j
key_ref_eq _ _ = false

unfoldable pub is_cur_key : World → KeyRef → Bool
unfolding key_ref_eq
is_cur_key w key = elim w.cur_key [ none ↦ false | some k ↦ key_ref_eq key k ]

-- -999999 for a key that was not read
unfoldable pub key_identity : World → KeyRef → ℤ
unfolding is_cur_key
key_identity w key = elim w.cur_index [
  | none ↦ negsuc 999998
  | some i ↦ if is_cur_key w key then get_or w.key_id i (pos 0) else negsuc 999998
]

-- The loop over `range_upper`, with n partitions left and partition i next.
unfoldable pub range_of : ℕ → ℕ → List ℤ → ℤ → Option ℕ
range_of zero i upper v = none
range_of (suc n) i [] v = none
range_of (suc n) i (u ∷ upper) v =
    let rest = range_of n (suc i) upper v in if ltb_ℤ v u then some i else rest

-- `((v % n) + n) % n`: C++ division truncates, so `v % n` is negative for a negative v.
unfoldable pub hash_of : ℕ → ℤ → ℕ
hash_of n (pos v) = (v % n + n) % n
hash_of n (negsuc v) = (n - suc v % n) % n

-- The partition from 0 that holds v; none is the source's -1.
unfoldable pub partition_of : FakeClass → ℤ → Option ℕ
unfolding hash_of range_of
partition_of k v =
    let n = length k.parts - 1 in
    elim k.range_upper [ [] ↦ some (hash_of n v) | u ∷ upper ↦ range_of n 0 (u ∷ upper) v ]

unfoldable pub add_index : World → BtreeType → ℕ → World
unfolding mk_btid mk_oid
add_index w type n_atts =
    let position = length w.indexes in
    record w {
      indexes =
          w.indexes
          ++ (record { type = type; n_atts = n_atts; btid = mk_btid (700 + position) } ∷ []);
      fks =
          w.fks
          ++ (record { fkname = []; ref_class_oid = mk_oid 0; ref_class_pk_btid = mk_btid 0 } ∷ []);
      attr_val = w.attr_val ++ (null ∷ []);
      key_id = w.key_id ++ (pos 0 ∷ []);
      multi_null = w.multi_null ++ (false ∷ []);
    }

unfoldable pub set_key : World → ℕ → ℤ → World
set_key w i v = record w {
  attr_val = set w.attr_val i (int v);
  key_id = set w.key_id i v;
  multi_null = set w.multi_null i false;
}

unfoldable pub set_null : World → ℕ → World
set_null w i = record w {
  attr_val = set w.attr_val i null;
  key_id = set w.key_id i (negsuc 0);
  multi_null = set w.multi_null i true;
}

-- The primary key that holds v and its class; none for the null BTID and OID. A partition is
-- looked up in `parts` and `part_pk`, which `add_partitioned` fills to one length.
unfoldable pub pk_holding_of : FakeClass → ℤ → Option (Btid × Oid)
unfolding partition_of
pk_holding_of k v =
    if k.has_partition_info && not k.load_unpartitioned
    then elim (partition_of k v) [
      | none ↦ none
      | some p ↦ elim (get_elem? k.parts (suc p)) [
        | none ↦ none
        | some part ↦ Option.map (λ b. (b, part.class_oid)) (get_elem? k.part_pk (suc p))
      ]
    ]
    else some (k.pk, k.oid)

unfoldable pub pk_holding : World → ℕ → ℤ → Option (Btid × Oid)
unfolding pk_holding_of
pk_holding w ref v = elim (get_elem? w.cls ref) [ none ↦ none | some k ↦ pk_holding_of k v ]

-- `rows.insert` and `rows.count`
unfoldable pub has_row : List (ℕ × ℤ) → ℕ → ℤ → Bool
has_row [] page v = false
has_row ((p, x) ∷ rows) page v = p == page && eqb_ℤ x v || has_row rows page v

unfoldable pub add_row : World → ℕ → ℤ → World
unfolding pk_holding
add_row w ref v = elim (pk_holding w ref v) [
  | none ↦ w
  | some (b, _) ↦ record w { rows = (b.root_pageid, v) ∷ w.rows }
]

unfoldable pub pin : FakeClass → FakeClass
pin k = record k { fcnt = suc k.fcnt }

unfoldable pub unpin : FakeClass → FakeClass
unpin k = record k { fcnt = k.fcnt - 1 }

unfoldable pub fcnt_at : World → ℕ → ℕ
fcnt_at w slot = elim (get_elem? w.cls slot) [ none ↦ 0 | some k ↦ k.fcnt ]

-- A slot out of range has the count 0 here, and is refused as in the source.
unfoldable pub unfix : World → Option ℕ → Option ℕ → World
unfolding modify unpin fcnt_at
unfix w (some slot) (some repr) =
    if slot == repr && ltb 0 (fcnt_at w slot)
    then record w { cls = modify unpin slot w.cls }
    else record w { free_errors = suc w.free_errors }
unfix w _ _ = record w { free_errors = suc w.free_errors }
