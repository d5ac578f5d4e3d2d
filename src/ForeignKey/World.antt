-- ===== src/ForeignKey/World.antt =====
-- The types of the scripted engine: `fake_class`, `search_rec`, `world`.
use dev4_review_workspace.Prelude.{ℕ, List, Option, Bool, ◌==◌, ℤ}

-- A std::string, as its character codes.
abbrev pub Text : Type 0
Text = List ℕ

-- OID and BTID as `mk_oid` and `mk_btid` fill them: all but the page is the same in each. The null
-- OID and BTID of the engine are `none`.
pub record Oid : Type 0 where
  pub pageid : ℕ

pub record Btid : Type 0 where
  pub root_pageid : ℕ

pub data PartitionType : Type 0 where
  hash range : PartitionType

-- OR_PARTITION
pub record Partition : Type 0 where
  pub class_oid : Oid
  -- the HFID's file and page
  pub hfid : ℕ
  pub partition_type : PartitionType

pub record FakeClass : Type 0 where
  pub oid : Oid
  pub has_partition_info : Bool
  pub fcnt : ℕ
  pub get_fails : Bool
  pub pk : Btid
  pub parts : List Partition
  pub part_pk : List Btid
  pub range_upper : List ℤ
  pub from_cache : Bool
  pub load_unpartitioned : Bool
  pub load_error : ℤ
  pub attr_start_error : ℤ
  pub prune_error : ℤ

pub data BtreeType : Type 0 where
  foreign_key primary_key unique plain_index : BtreeType

-- OR_INDEX
pub record Index : Type 0 where
  pub type : BtreeType
  pub n_atts : ℕ
  pub btid : Btid

-- OR_FOREIGN_KEY
pub record ForeignKey : Type 0 where
  pub fkname : Text
  pub ref_class_oid : Oid
  pub ref_class_pk_btid : Btid

-- The buffer of a multi-column key: the caller's, or an allocated one.
pub data Buffer : Type 0 where
  stack : Buffer
  heap : ℕ → Buffer

-- DB_VALUE, as far as the script makes one.
pub data DbValue : Type 0 where
  null : DbValue
  int : ℤ → DbValue
  -- a MIDXKEY's buffer (none for NULL), and whether the value owns it
  midxkey : Option Buffer → Bool → DbValue

-- Where a key pointer points: the caller's `dbvalue`, or the attribute cache's value of an index.
pub data KeyRef : Type 0 where
  caller : KeyRef
  attribute : ℕ → KeyRef

-- The error codes and constants that the engine's headers fix.
pub record Codes : Type 0 where
  pub no_error : ℤ
  pub failed : ℤ
  pub unknown_object : ℤ
  pub fk_invalid : ℤ
  -- SEARCH_ERROR
  pub search_error : ℤ
  -- DBVAL_BUFSIZE
  pub bufsize : ℕ

pub record SearchRec : Type 0 where
  pub btid : Option Btid
  pub class_oid : Option Oid
  pub key_is_read_key : Bool
  pub key_id : ℤ
  pub own_fixes : ℤ
  pub pctx_live : ℤ
  pub child_fcnt : ℕ

-- PRUNING_CONTEXT, the fields that the stand-ins touch.
pub record Pruning : Type 0 where
  pub root_oid : Option Oid
  pub partitions : Option (List Partition)
  pub has_pred : Bool
  pub is_attr_info_inited : Bool
  pub is_from_cache : Bool

-- HEAP_CACHE_ATTRINFO: `num_values` is -1 for an empty one.
pub record AttrInfo : Type 0 where
  pub num_values : ℤ
  -- `last_cacheindex`, with `last_classrepr` the representation of that slot or NULL
  pub last_slot : Option ℕ

pub record World : Type 0 where
  pub cls : List FakeClass
  pub child : ℕ
  pub indexes : List Index
  pub fks : List ForeignKey
  pub attr_val : List DbValue
  pub key_id : List ℤ
  pub multi_null : List Bool
  pub rows : List (ℕ × ℤ)
  pub read_error : ℤ
  pub get_key_fail_at : ℤ
  pub applier : Bool
  pub search_error_at : ℕ
  -- ledgers
  pub start_calls : ℕ
  pub read_calls : ℕ
  pub end_calls : ℕ
  pub get_key_calls : ℕ
  pub get_key_dirty : ℕ
  pub has_null_calls : ℕ
  pub get_key_order : List ℕ
  pub cur_index : Option ℕ
  pub cur_key : Option KeyRef
  pub get_calls : ℕ
  pub get_ok : ℕ
  pub free_calls : ℕ
  pub free_ok : ℕ
  pub free_errors : ℕ
  pub load_calls : ℕ
  pub clear_calls : ℕ
  pub prune_calls : ℕ
  pub prune_in_btid : List (Option Btid)
  -- counters that the script may drive below zero
  pub pred_live : ℤ
  pub attr_live : ℤ
  pub parts_live : ℤ
  pub er_ids : List ℤ
  pub fk_msg_name : List Text
  pub fk_msg_value : List Text
  pub last_er : ℤ
  pub valstr_alloc : ℕ
  pub valstr_free : ℕ
  pub valstr_live : List ℕ
  pub clear_value_calls : ℕ
  pub searches : List SearchRec
  pub long_record : Bool
  pub keybuf_alloc : ℕ
  pub keybuf_free : ℕ
  pub keybuf_bad_free : ℕ
  pub keybuf_max_live : ℕ
  pub keybuf_live : List ℕ

unfoldable pub oid_eq : Oid → Oid → Bool
oid_eq a b = a.pageid == b.pageid
