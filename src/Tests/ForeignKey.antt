-- ===== src/Tests/ForeignKey.antt =====
-- The scripted engine and the expected outcome on a small world.
use dev4_review_workspace.Prelude.{
  ◌≢◌, get_elem?, ℕ, ◌<◌, ◌≡◌, refl, ◌⊎◌, true, false, none, some, List, [], ◌∷◌, arith, length, ℤ,
  pos, negsuc,
}
use mathlib.Core.Option
use dev4_review_workspace.Decimal.{text}
use dev4_review_workspace.ForeignKey.World.{
  range, Partition, FakeClass, foreign_key, Index, ForeignKey, heap, null, midxkey, caller, Codes,
  Pruning, World,
}
use dev4_review_workspace.ForeignKey.Build.{pk_holding_of, partition_of}
use dev4_review_workspace.ForeignKey.Fakes.{heap_classrepr_get}
use dev4_review_workspace.ForeignKey.Prune.{Target, prune_target}
use dev4_review_workspace.ForeignKey.Expect.{oracle}
use dev4_review_workspace.ForeignKey.Ledger.{
  Call, print, release, read_key, clear, Accounts, after_calls, after_calls-Accounts,
  read_then_clear, read_then_clear-live,
}
use dev4_review_workspace.ForeignKey.Pins.{
  get_then_free, get_then_free-cls, start_then_end, start_then_end-cls,
}
use dev4_review_workspace.ForeignKey.Held.{
  IsPartitioned, partition_of-lt, prune_target-pk_holding_of,
}
use dev4_review_workspace.ForeignKey.Classes.{add_partitioned, add_partitioned-IsPartitioned}
use dev4_review_workspace.ForeignKey.Rows.{row_held, Missing, oracle-row_held, oracle-Missing}
use dev4_review_workspace.ForeignKey.Expect.{is_fk, key_has_null, parent_of}
use dev4_review_workspace.ForeignKey.Oracle.{AreApart, Refers}
use dev4_review_workspace.ForeignKey.Messages.{NotInvalid, Scripted}

abbrev codes : Codes
codes = record {
  no_error = pos 0;
  failed = negsuc 0;
  unknown_object = negsuc 45;
  fk_invalid = negsuc 921;
  search_error = negsuc 71;
  bufsize = 1024;
}

codes-AreApart : AreApart codes
codes-AreApart = record {
  fk_invalid-no_error = λ e. ground arith;
  failed-no_error = λ e. ground arith;
  search_error-no_error = λ e. ground arith;
}

-- The child, and a parent with two range partitions: below 100 and below 200.
abbrev child : FakeClass
child = record {
  oid = record { pageid = 100 };
  has_partition_info = false;
  fcnt = 0;
  get_fails = false;
  pk = record { root_pageid = 500 };
  parts = [];
  part_pk = [];
  range_upper = [];
  from_cache = true;
  load_unpartitioned = false;
  load_error = pos 0;
  attr_start_error = pos 0;
  prune_error = pos 0;
}

abbrev part : ℕ → ℕ → Partition
part page hfid = record {
  class_oid = record { pageid = page };
  hfid = hfid;
  partition_type = range;
}

abbrev parent : FakeClass
parent = record child {
  oid = record { pageid = 101 };
  has_partition_info = true;
  pk = record { root_pageid = 501 };
  parts = part 101 0 ∷ part 1011 3011 ∷ part 1012 3012 ∷ [];
  part_pk =
      record { root_pageid = 0 }
      ∷ record { root_pageid = 5011 }
      ∷ record { root_pageid = 5012 }
      ∷ [];
  range_upper = pos 100 ∷ pos 200 ∷ [];
}

abbrev two_columns : Index
two_columns = record { type = foreign_key; n_atts = 2; btid = record { root_pageid = 700 } }

abbrev fk : ForeignKey
fk = record {
  fkname = text "fk";
  ref_class_oid = record { pageid = 101 };
  ref_class_pk_btid = record { root_pageid = 501 };
}

-- One foreign key of two columns to the parent; the row 150 is there, the key is the parameter.
abbrev world : ℤ → World
world v = record {
  cls = child ∷ parent ∷ [];
  child = 0;
  indexes = record { type = foreign_key; n_atts = 2; btid = record { root_pageid = 700 } } ∷ [];
  fks =
      record {
        fkname = text "fk";
        ref_class_oid = record { pageid = 101 };
        ref_class_pk_btid = record { root_pageid = 501 };
      }
      ∷ [];
  attr_val = null ∷ [];
  key_id = v ∷ [];
  multi_null = false ∷ [];
  rows = (5012, pos 150) ∷ [];
  read_error = pos 0;
  get_key_fail_at = negsuc 0;
  applier = false;
  search_error_at = 0;
  start_calls = 0;
  read_calls = 0;
  end_calls = 0;
  get_key_calls = 0;
  get_key_dirty = 0;
  has_null_calls = 0;
  get_key_order = [];
  cur_index = none;
  cur_key = none;
  get_calls = 0;
  get_ok = 0;
  free_calls = 0;
  free_ok = 0;
  free_errors = 0;
  load_calls = 0;
  clear_calls = 0;
  prune_calls = 0;
  prune_in_btid = [];
  pred_live = pos 0;
  attr_live = pos 0;
  parts_live = pos 0;
  er_ids = [];
  fk_msg_name = [];
  fk_msg_value = [];
  last_er = pos 0;
  valstr_alloc = 0;
  valstr_free = 0;
  valstr_live = [];
  clear_value_calls = 0;
  searches = [];
  long_record = true;
  keybuf_alloc = 0;
  keybuf_free = 0;
  keybuf_bad_free = 0;
  keybuf_max_live = 0;
  keybuf_live = [];
}

-- A key is read and printed, and both are released, the buffer twice.
abbrev calls : List Call
calls =
    read_key 0 (record { num_values = pos 0; last_slot = some 0 }) null
    ∷ print caller (some (midxkey (some (heap 0)) true))
    ∷ release 0
    ∷ clear (midxkey (some (heap 0)) true)
    ∷ clear (midxkey (some (heap 0)) true)
    ∷ []

world-Accounts : Accounts (world (pos 150))
unfolding Accounts
world-Accounts = (refl, (refl, omega arith))

after_calls-Accounts_example : Accounts (after_calls (world (pos 150)) calls)
after_calls-Accounts_example = after_calls-Accounts (world (pos 150)) calls world-Accounts

read_then_clear-live_example :
    ((read_then_clear (world (pos 150)) 0 two_columns).1.keybuf_live ≡ [])
    × (((read_then_clear (world (pos 150)) 0 two_columns).1.keybuf_bad_free ≡ 0)
        × ((read_then_clear (world (pos 150)) 0 two_columns).0 ≡ null))
read_then_clear-live_example = read_then_clear-live (world (pos 150)) 0 two_columns

parent_gets :
    (heap_classrepr_get codes (world (pos 150)) (some (record { pageid = 101 }))).0 ≡ some 1
unfolding heap_classrepr_get
parent_gets = refl

get_then_free-cls_example :
    ((get_then_free codes (world (pos 150)) (some (record { pageid = 101 })) 1).cls
      ≡ child ∷ parent ∷ [])
    × (((get_then_free codes (world (pos 150)) (some (record { pageid = 101 })) 1).free_errors ≡ 0)
        × (((get_then_free codes (world (pos 150)) (some (record { pageid = 101 })) 1).get_ok ≡ 1)
            × ((get_then_free codes (world (pos 150)) (some (record { pageid = 101 })) 1).free_ok
                ≡ 1)))
get_then_free-cls_example =
    get_then_free-cls codes (world (pos 150)) (some (record { pageid = 101 })) 1 parent_gets

start_then_end-cls_example :
    ((start_then_end codes (world (pos 150)) (some (record { pageid = 100 }))).cls
      ≡ child ∷ parent ∷ [])
    × ((start_then_end codes (world (pos 150)) (some (record { pageid = 100 }))).free_errors ≡ 0)
start_then_end-cls_example =
    start_then_end-cls codes (world (pos 150)) (some (record { pageid = 100 }))

parent-IsPartitioned : IsPartitioned parent
parent-IsPartitioned = record { has_parts = omega arith; same_length = refl }

second : partition_of parent (pos 150) ≡ some 1
unfolding partition_of
second = refl

partition_of-lt_example : 2 < length parent.parts
partition_of-lt_example = partition_of-lt parent (pos 150) 1 parent-IsPartitioned second

abbrev context : Pruning
context = record {
  root_oid = some (record { pageid = 101 });
  partitions = some parent.parts;
  has_pred = true;
  is_attr_info_inited = true;
  is_from_cache = true;
}

abbrev whole_target : Target
whole_target = record {
  class_oid = some (record { pageid = 101 });
  hfid = none;
  btid = some (record { root_pageid = 501 });
}

prune_target-pk_holding_of_example :
    ((prune_target context parent whole_target (pos 150)).btid
      ≡ Option.map (λ h. h.0) (pk_holding_of parent (pos 150)))
    × ((prune_target context parent whole_target (pos 150)).class_oid
        ≡ Option.map (λ h. h.1) (pk_holding_of parent (pos 150)))
prune_target-pk_holding_of_example =
    prune_target-pk_holding_of parent context whole_target (pos 150) parent-IsPartitioned refl refl
      refl

-- The key 150 has its row in the second partition; 50 has none in the first.
satisfied : (oracle codes (world (pos 150))).ret ≡ pos 0
unfolding oracle pk_holding_of
satisfied = refl

violated : (oracle codes (world (pos 50))).ret ≡ negsuc 921
unfolding oracle pk_holding_of
violated = refl

refers : Refers (world (pos 150)) 0 two_columns fk parent
unfolding Refers is_fk key_has_null parent_of
refers = (refl, (refl, refl))

oracle-row_held_example : row_held (world (pos 150)) 0 parent ≡ true
oracle-row_held_example =
    oracle-row_held codes codes-AreApart (world (pos 150)) 0 two_columns fk parent refl satisfied
      refl refl refers

not_invalid :
    (k : FakeClass)
    → k.load_error ≡ pos 0
    → k.attr_start_error ≡ pos 0
    → k.prune_error ≡ pos 0
    → NotInvalid codes k
not_invalid k l a p = record {
  load = λ e. ground (arith, l, e);
  attr_start = λ e. ground (arith, a, e);
  prune = λ e. ground (arith, p, e);
}

world-Scripted : (v : ℤ) → Scripted codes (world v)
world-Scripted v = record {
  failed = λ e. ground arith;
  search_fault = λ e. ground arith;
  read = λ e. ground arith;
  classes = (not_invalid _ refl refl refl, (not_invalid _ refl refl refl, tt));
}

oracle-Missing_example :
    (((oracle codes (world (pos 50))).messages ≡ [])
      × ((oracle codes (world (pos 50))).ret ≢ codes.fk_invalid))
    ⊎ ((length (oracle codes (world (pos 50))).messages ≡ 1)
        × (((oracle codes (world (pos 50))).ret ≡ negsuc 921) × Missing (world (pos 50))))
oracle-Missing_example =
    oracle-Missing codes codes-AreApart (world (pos 50)) refl (world-Scripted (pos 50))

add_partitioned-IsPartitioned_example :
    (k : FakeClass) × ((get_elem?
          (add_partitioned codes (world (pos 150)) 2 (pos 100 ∷ pos 200 ∷ [])).1.cls
          (add_partitioned codes (world (pos 150)) 2 (pos 100 ∷ pos 200 ∷ [])).0
        ≡ some k)
      × (IsPartitioned k × (length k.parts ≡ 3)))
add_partitioned-IsPartitioned_example =
    add_partitioned-IsPartitioned codes (world (pos 150)) 2 (pos 100 ∷ pos 200 ∷ []) (omega arith)
