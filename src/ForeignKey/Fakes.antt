-- ===== src/ForeignKey/Fakes.antt =====
-- The stand-ins of unit/transaction/locator_sr.check_foreign_key/test.cpp for the error manager, the
-- key's print and release and the heap's caches (`er_set` to `heap_classrepr_free`).
-- A pointer from malloc is the number of the allocations before it.
use dev4_review_workspace.Prelude.{
  ℕ, zero, suc, ◌+◌, ◌/◌, ◌%◌, Bool, true, false, not, ◌&&◌, ◌||◌, Option, none, some, List, [],
  ◌∷◌, ◌++◌, ltb, ◌==◌, if◌then◌else◌, length, get_elem?, ℤ, pos, negsuc, eqb_ℤ,
}
use mathlib.Core.Option
use dev4_review_workspace.ForeignKey.World.{
  Oid, Btid, Text, Index, Buffer, stack, heap, DbValue, null, int, midxkey, KeyRef, caller,
  attribute, Codes, AttrInfo, World,
}
use dev4_review_workspace.ForeignKey.Build.{find_class, key_identity, modify, pin, unfix}

module _ (codes : Codes) where
  -- `messages` are the two string arguments, when there are two.
  unfoldable pub er_set : World → ℤ → Option (Text × Text) → World
  er_set w err_id messages =
      let logged = record w { er_ids = w.er_ids ++ (err_id ∷ []); last_er = err_id } in
      elim messages [
        | none ↦ logged
        | some (a1, a2) ↦
            if eqb_ℤ err_id codes.fk_invalid
            then record logged {
              fk_msg_name = w.fk_msg_name ++ (a1 ∷ []);
              fk_msg_value = w.fk_msg_value ++ (a2 ∷ []);
            }
            else logged
      ]

-- std::to_string
unfoldable pub digits_of : ℕ → ℕ → Text
digits_of zero n = []
digits_of (suc fuel) n =
    let rest = digits_of fuel (n / 10) in
    if ltb n 10 then (b'0' + n) ∷ [] else rest ++ ((b'0' + n % 10) ∷ [])

unfoldable pub to_string : ℤ → Text
unfolding digits_of
to_string (pos n) = digits_of (suc n) n
to_string (negsuc n) = b'-' ∷ digits_of (suc (suc n)) (suc n)

unfoldable pub null_text : Text
null_text = b'N' ∷ b'U' ∷ b'L' ∷ b'L' ∷ []

unfoldable pub braced : Text → Text
braced s = b'{' ∷ (s ++ (b'}' ∷ []))

unfoldable pub value_text : World → KeyRef → Option DbValue → Text
unfolding null_text to_string braced key_identity
value_text w key none = null_text
value_text w key (some null) = null_text
value_text w key (some (int v)) = to_string v
value_text w key (some (midxkey _ _)) = braced (to_string (key_identity w key))

-- The pointer and the text; `val` is none for a null pointer.
unfoldable pub pr_valstring : World → KeyRef → Option DbValue → (ℕ × Text) × World
unfolding value_text
pr_valstring w key val = (
  (w.valstr_alloc, value_text w key val),
  record w { valstr_alloc = suc w.valstr_alloc; valstr_live = w.valstr_alloc ∷ w.valstr_live },
)

-- std::set::erase: what is left when one element went, none when none did
unfoldable pub erase : ℕ → List ℕ → Option (List ℕ)
erase p [] = none
erase p (q ∷ live) =
    let rest = Option.map (◌∷◌ q) (erase p live) in if p == q then some live else rest

unfoldable pub private_free : World → ℕ → World
unfolding erase
private_free w ptr = elim (erase ptr w.valstr_live) [
  | none ↦ w
  | some live ↦ record w { valstr_live = live; valstr_free = suc w.valstr_free }
]

unfoldable pub free_key_buffer : World → Buffer → World
unfolding erase
free_key_buffer w stack = record w { keybuf_bad_free = suc w.keybuf_bad_free }
free_key_buffer w (heap p) = elim (erase p w.keybuf_live) [
  | none ↦ record w { keybuf_bad_free = suc w.keybuf_bad_free }
  | some live ↦ record w { keybuf_live = live; keybuf_free = suc w.keybuf_free }
]

unfoldable pub clear_midxkey : World → Option Buffer → Bool → World
unfolding free_key_buffer
clear_midxkey w none need_clear = w
clear_midxkey w (some buf) need_clear = if need_clear then free_key_buffer w buf else w

-- The world and the value that is left; a NULL pointer is not passed.
unfoldable pub pr_clear_value : World → DbValue → DbValue × World
unfolding clear_midxkey
pr_clear_value w null = (null, record w { clear_value_calls = suc w.clear_value_calls })
pr_clear_value w (int v) = (null, record w { clear_value_calls = suc w.clear_value_calls })
pr_clear_value w (midxkey buf need_clear) =
    (null, clear_midxkey (record w { clear_value_calls = suc w.clear_value_calls }) buf need_clear)

unfoldable pub count_single : List Index → ℕ
count_single [] = 0
count_single (x ∷ xs) = let rest = count_single xs in if x.n_atts == 1 then suc rest else rest

unfoldable pub any_multi : List Index → Bool
any_multi [] = false
any_multi (x ∷ xs) = ltb 1 x.n_atts || any_multi xs

-- HEAP_IDX_ELEMENTS_INFO
pub record IdxInfo : Type 0 where
  pub has_single_col : Bool
  pub has_multi_col : Bool
  pub num_btids : ℕ

pub record Started : Type 0 where
  pub ret : ℤ
  pub idx_info : IdxInfo
  pub attr_info : AttrInfo
  pub world : World

-- `n_indexes` of a class's representation: `wire` gives the world's indexes to the child alone.
unfoldable pub indexes_of : World → ℕ → List Index
indexes_of w slot = if slot == w.child then w.indexes else []

unfoldable pub no_attr_info : AttrInfo
no_attr_info = record { num_values = negsuc 0; last_slot = none }

unfoldable pub class_to_get : World → Option Oid → Option ℕ
unfolding find_class
class_to_get w oid = elim (find_class w oid) [
  | none ↦ none
  | some slot ↦ elim (get_elem? w.cls slot) [
    | none ↦ none
    | some c ↦ if c.get_fails then none else some slot
  ]
]

unfoldable pub fix_class : World → ℕ → World
unfolding modify pin
fix_class w slot = record w { cls = modify pin slot w.cls }

unfoldable pub start_indexes : World → ℕ → Started
unfolding indexes_of count_single any_multi no_attr_info fix_class
start_indexes w slot =
    let ixs = indexes_of w slot in
    let nsingle = count_single ixs in
    let info : IdxInfo = record {
      has_single_col = ltb 0 nsingle;
      has_multi_col = any_multi ixs;
      num_btids = length ixs;
    } in
    if not (any_multi ixs) && nsingle == 0
    then record { ret = pos 0; idx_info = info; attr_info = no_attr_info; world = w }
    else record {
      ret = if nsingle == 0 then pos 1 else pos nsingle;
      idx_info = info;
      attr_info = record { num_values = pos nsingle; last_slot = some slot };
      world = fix_class w slot;
    }

module _ (codes : Codes) where
  unfoldable pub heap_attrinfo_start_with_index : World → Option Oid → Started
  unfolding start_indexes class_to_get no_attr_info
  heap_attrinfo_start_with_index w oid =
      let called = record w { start_calls = suc w.start_calls } in
      elim (class_to_get w oid) [
        | none ↦ record {
          ret = codes.failed;
          idx_info = record { has_single_col = false; has_multi_col = false; num_btids = 0 };
          attr_info = no_attr_info;
          world = called;
        }
        | some slot ↦ start_indexes called slot
      ]

  unfoldable pub heap_attrinfo_read_dbvalues : World → ℤ × World
  unfolding er_set
  heap_attrinfo_read_dbvalues w =
      let called = record w { read_calls = suc w.read_calls } in
      if eqb_ℤ w.read_error codes.no_error
      then (codes.no_error, called)
      else (w.read_error, er_set codes called w.read_error none)

  unfoldable pub heap_classrepr_get : World → Option Oid → Option ℕ × World
  unfolding er_set class_to_get fix_class
  heap_classrepr_get w oid =
      let called = record w { get_calls = suc w.get_calls } in
      elim (class_to_get w oid) [
        | none ↦ (none, er_set codes called codes.unknown_object none)
        | some slot ↦ (some slot, record (fix_class called slot) { get_ok = suc w.get_ok })
      ]

unfoldable pub heap_attrinfo_end : World → AttrInfo → AttrInfo × World
unfolding unfix no_attr_info
heap_attrinfo_end w info =
    let called = record w { end_calls = suc w.end_calls } in
    if eqb_ℤ info.num_values (negsuc 0) then (info, called) else elim info.last_slot [
      | none ↦ (no_attr_info, called)
      | some slot ↦ (no_attr_info, unfix called (some slot) (some slot))
    ]

unfoldable pub heap_classrepr_free : World → Option ℕ → Option ℕ → World
unfolding unfix
heap_classrepr_free w repr idx_incache =
    let freed = unfix (record w { free_calls = suc w.free_calls }) idx_incache repr in
    if freed.free_errors == w.free_errors
    then record freed { free_ok = suc freed.free_ok }
    else freed

-- The key's pointer and the value of the caller's `db_value`
pub record KeyRead : Type 0 where
  pub key : Option KeyRef
  pub btid : Option Btid
  pub db_value : DbValue
  pub world : World

unfoldable pub is_null : DbValue → Bool
is_null null = true
is_null _ = false

unfoldable pub alloc_key : World → World
alloc_key w =
    let live = w.keybuf_alloc ∷ w.keybuf_live in
    record w {
      keybuf_live = live;
      keybuf_alloc = suc w.keybuf_alloc;
      keybuf_max_live =
          if ltb w.keybuf_max_live (length live) then length live else w.keybuf_max_live;
    }

unfoldable pub read_index : World → ℕ → Index → DbValue → KeyRead
unfolding alloc_key
read_index w i index db_value =
    let at = record w { cur_index = some i } in
    if ltb 1 index.n_atts
    then if w.long_record
      then record {
        key = some caller;
        btid = some index.btid;
        db_value = midxkey (some (heap w.keybuf_alloc)) true;
        world = record (alloc_key at) { cur_key = some caller };
      }
      else record {
        key = some caller;
        btid = some index.btid;
        db_value = midxkey (some stack) false;
        world = record at { cur_key = some caller };
      }
    else record {
      key = some (attribute i);
      btid = some index.btid;
      db_value = db_value;
      world = record at { cur_key = some (attribute i) };
    }

unfoldable pub count_get_key : World → ℕ → DbValue → World
unfolding is_null
count_get_key w i db_value = record w {
  get_key_calls = suc w.get_key_calls;
  get_key_order = w.get_key_order ++ (i ∷ []);
  get_key_dirty = if is_null db_value then w.get_key_dirty else suc w.get_key_dirty;
}

-- `get_key_fail_at` is an index position, or negative for none. An empty attribute cache has
-- no index.
unfoldable pub heap_attrvalue_get_key : World → ℕ → AttrInfo → DbValue → KeyRead
unfolding read_index count_get_key indexes_of
heap_attrvalue_get_key w i info db_value =
    let counted = count_get_key w i db_value in
    let failed : KeyRead = record {
      key = none;
      btid = none;
      db_value = db_value;
      world = counted;
    } in
    if eqb_ℤ info.num_values (negsuc 0) then failed else elim info.last_slot [
      | none ↦ failed
      | some slot ↦ elim (get_elem? (indexes_of w slot) i) [
        | none ↦ failed
        | some index ↦
            if eqb_ℤ (pos i) w.get_key_fail_at then failed else read_index counted i index db_value
      ]
    ]
