-- ===== src/ForeignKey/Prune.antt =====
-- The stand-ins of unit/transaction/locator_sr.check_foreign_key/test.cpp for the partition pruning and
-- the B-tree (`partition_init_pruning_context` to `xbtree_find_unique`).
use dev4_review_workspace.Prelude.{
  ℕ, suc, Bool, true, false, not, ◌&&◌, Option, none, some, [], ◌∷◌, ◌++◌, ◌==◌, if◌then◌else◌,
  length, get_elem?, get_or, ℤ, pos, ◌+ℤ◌, ◌-ℤ◌, eqb_ℤ,
}
use dev4_review_workspace.ForeignKey.World.{Oid, Btid, FakeClass, KeyRef, Codes, Pruning, World}
use dev4_review_workspace.ForeignKey.Build.{
  find_class, pctx_live, is_cur_key, key_identity, partition_of, unfix, has_row, fcnt_at,
}
use dev4_review_workspace.ForeignKey.Fakes.{er_set, fix_class}

-- The context's fields that a stand-in reads later
unfoldable pub partition_init_pruning_context : Pruning
partition_init_pruning_context = record {
  root_oid = none;
  partitions = none;
  has_pred = false;
  is_attr_info_inited = false;
  is_from_cache = false;
}

unfoldable pub has_partitions : Pruning → Bool
has_partitions p = elim p.partitions [ none ↦ false | some _ ↦ true ]

unfoldable pub drop_parts : World → Pruning → World
unfolding has_partitions
drop_parts w p =
    if not p.is_from_cache && has_partitions p
    then record w { parts_live = w.parts_live -ℤ pos 1 }
    else w

unfoldable pub drop_pred : World → Pruning → World
drop_pred w p = if p.has_pred then record w { pred_live = w.pred_live -ℤ pos 1 } else w

unfoldable pub unfix_root : World → Option Oid → World
unfolding find_class unfix
unfix_root w root_oid = elim (find_class w root_oid) [
  | none ↦ w
  | some root ↦ unfix w (some root) (some root)
]

unfoldable pub drop_attr : World → Pruning → World
unfolding unfix_root
drop_attr w p =
    if p.is_attr_info_inited
    then record (unfix_root w p.root_oid) { attr_live = w.attr_live -ℤ pos 1 }
    else w

unfoldable pub partition_clear_pruning_context : World → Pruning → Pruning × World
unfolding drop_parts drop_pred drop_attr
partition_clear_pruning_context w p = (
  record p { partitions = none; has_pred = false; is_attr_info_inited = false },
  drop_attr (drop_pred (drop_parts (record w { clear_calls = suc w.clear_calls }) p) p) p,
)

-- The class OID, HFID and BTID that the call leaves in its arguments.
pub record Target : Type 0 where
  pub class_oid : Option Oid
  pub hfid : Option ℕ
  pub btid : Option Btid

pub record Pruned : Type 0 where
  pub ret : ℤ
  pub target : Target
  pub pcontext : Pruning
  pub world : World

-- `pcontext->partitions[pos + 1]` and `part_pk[pos + 1]`; a position out of range leaves the target.
unfoldable pub prune_target : Pruning → FakeClass → Target → ℤ → Target
unfolding partition_of
prune_target p c target v = elim (partition_of c v) [
  | none ↦ record { class_oid = none; hfid = none; btid = none }
  | some at ↦ elim p.partitions [
    | none ↦ target
    | some parts ↦ elim (get_elem? parts (suc at)) [
      | none ↦ target
      | some part ↦ record {
        class_oid = some part.class_oid;
        hfid = some part.hfid;
        btid = get_elem? c.part_pk (suc at);
      }
    ]
  ]
]

-- The root's representation fixed and the context's flag set, at the first call.
unfoldable pub start_attr : World → ℕ → Pruning → Pruning × World
unfolding fix_class
start_attr w root p = if p.is_attr_info_inited then (p, w) else (
  record p { is_attr_info_inited = true },
  record (fix_class w root) { attr_live = w.attr_live +ℤ pos 1 },
)

module _ (codes : Codes) where
  -- `c` is the class found and not `load_unpartitioned`.
  unfoldable pub load_class : World → Option Oid → FakeClass → ℤ × (Pruning × World)
  unfolding er_set partition_clear_pruning_context
  load_class w oid c =
      let p : Pruning = record {
        root_oid = oid;
        partitions = some c.parts;
        has_pred = false;
        is_attr_info_inited = false;
        is_from_cache = c.from_cache;
      } in
      let counted = if c.from_cache then w else record w { parts_live = w.parts_live +ℤ pos 1 } in
      if eqb_ℤ c.load_error codes.no_error
      then (
        codes.no_error,
        (record p { has_pred = true }, record counted { pred_live = w.pred_live +ℤ pos 1 }),
      )
      else (
        c.load_error,
        partition_clear_pruning_context (er_set codes counted c.load_error none) p,
      )

  unfoldable pub partition_load_pruning_context : World → Option Oid → ℤ × (Pruning × World)
  unfolding load_class partition_init_pruning_context find_class
  partition_load_pruning_context w oid =
      let called = record w { load_calls = suc w.load_calls } in
      let unpartitioned = record partition_init_pruning_context { root_oid = oid } in
      elim (find_class w oid) [
        | none ↦ (codes.no_error, (unpartitioned, called))
        | some slot ↦ elim (get_elem? w.cls slot) [
          | none ↦ (codes.no_error, (unpartitioned, called))
          | some c ↦
              if c.load_unpartitioned
              then (codes.no_error, (unpartitioned, called))
              else load_class called oid c
        ]
      ]

  unfoldable pub prune_class : World → ℕ → FakeClass → Pruning → KeyRef → Target → Pruned
  unfolding start_attr prune_target er_set key_identity
  prune_class w root c p key target =
      if not p.is_attr_info_inited && not (eqb_ℤ c.attr_start_error codes.no_error)
      then record {
        ret = c.attr_start_error;
        target = target;
        pcontext = p;
        world = er_set codes w c.attr_start_error none;
      }
      else let started = start_attr w root p in
        if eqb_ℤ c.prune_error codes.no_error
        then record {
          ret = codes.no_error;
          target = prune_target (started.0) c target (key_identity (started.1) key);
          pcontext = started.0;
          world = started.1;
        }
        else record {
          ret = c.prune_error;
          target = target;
          pcontext = started.0;
          world = er_set codes (started.1) c.prune_error none;
        }

  unfoldable pub partition_prune_unique_btid : World → Pruning → KeyRef → Target → Pruned
  unfolding prune_class find_class
  partition_prune_unique_btid w p key target =
      let called = record w {
        prune_calls = suc w.prune_calls;
        prune_in_btid = w.prune_in_btid ++ (target.btid ∷ []);
      } in
      let failed : Pruned = record {
        ret = codes.failed;
        target = target;
        pcontext = p;
        world = called;
      } in
      elim (find_class w p.root_oid) [
        | none ↦ failed
        | some root ↦ elim (get_elem? w.cls root) [
          | none ↦ failed
          | some c ↦ prune_class called root c p key target
        ]
      ]

unfoldable pub btree_multicol_key_has_null : World → KeyRef → Bool × World
unfolding is_cur_key
btree_multicol_key_has_null w key = (
  elim w.cur_index [ none ↦ false | some i ↦ is_cur_key w key && get_or w.multi_null i false ],
  record w { has_null_calls = suc w.has_null_calls },
)

-- BTREE_SEARCH; the OID found is `mk_oid (7000 + key_id)`, a page that the key alone fixes
pub data BtreeSearch : Type 0 where
  error_occurred not_found : BtreeSearch
  found : ℤ → BtreeSearch

module _ (codes : Codes) where
  -- A null BTID has the root page -1, which no row has.
  unfoldable pub row_found : World → Option Btid → ℤ → Bool
  unfolding has_row
  row_found w btid v = elim btid [ none ↦ false | some b ↦ has_row w.rows b.root_pageid v ]

  unfoldable pub xbtree_find_unique :
      World → Option Btid → KeyRef → Option Oid → BtreeSearch × World
  unfolding row_found key_identity is_cur_key pctx_live fcnt_at er_set
  xbtree_find_unique w btid key class_oid =
      let v = key_identity w key in
      let searched = record w {
        searches =
            w.searches
            ++ (record {
              btid = btid;
              class_oid = class_oid;
              key_is_read_key = is_cur_key w key;
              key_id = v;
              own_fixes = pos w.get_ok -ℤ pos w.free_ok;
              pctx_live = pctx_live w;
              child_fcnt = fcnt_at w w.child;
            }
                ∷ []);
      } in
      if length searched.searches == w.search_error_at
      then (error_occurred, er_set codes searched codes.search_error none)
      else (if row_found w btid v then found (pos 7000 +ℤ v) else not_found, searched)
