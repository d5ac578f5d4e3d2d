-- ===== src/ForeignKey/Expect.antt =====
-- The expected outcome in unit/transaction/locator_sr.check_foreign_key/test.cpp: `print_key`, `oracle`.
use dev4_review_workspace.Prelude.{
  ℕ, suc, Bool, true, false, not, ◌&&◌, Option, none, some, List, [], ◌∷◌, ◌++◌, ltb, ◌==◌,
  if◌then◌else◌, length, get_elem?, get_or, ℤ, pos, eqb_ℤ,
}
use dev4_review_workspace.ForeignKey.World.{
  Oid, Btid, Text, FakeClass, BtreeType, foreign_key, Index, ForeignKey, null, Codes, World,
}
use dev4_review_workspace.ForeignKey.Build.{find_class, pk_holding_of, has_row}
use dev4_review_workspace.ForeignKey.Fakes.{to_string, braced, is_null, count_single}

-- `msg_name` and `msg_value` side by side; a search is the root page and the class OID's page
pub record Expect : Type 0 where
  pub ret : ℤ
  pub ret_overwritten : Bool
  pub searches : List (ℕ × ℕ)
  pub messages : List (Text × Text)

unfoldable pub print_key : World → ℕ → Index → Text
unfolding to_string braced
print_key w i index =
    let key = get_or w.key_id i (pos 0) in
    if ltb 1 index.n_atts then braced (to_string key) else to_string key

-- The locals of `oracle` between two rounds of its loop
pub record Progress : Type 0 where
  pub err : ℤ
  pub fk_invalid_seen : Bool
  pub searches : List (ℕ × ℕ)
  pub messages : List (Text × Text)

-- A round of the loop returns, or goes on.
pub data Round : Type 0 where
  returns : ℤ → Progress → Round
  goes_on : Progress → Round

unfoldable pub is_fk : BtreeType → Bool
is_fk foreign_key = true
is_fk _ = false

unfoldable pub key_has_null : World → ℕ → Index → Bool
unfolding is_null
key_has_null w i index =
    if ltb 1 index.n_atts then get_or w.multi_null i false else is_null (get_or w.attr_val i null)

-- A foreign key of a class that the world lacks is not written: `add_fk` takes the class's slot.
unfoldable pub parent_of : World → ForeignKey → Option FakeClass
unfolding find_class
parent_of w fk = elim (find_class w (some fk.ref_class_oid)) [
  | none ↦ none
  | some slot ↦ get_elem? w.cls slot
]

module _ (codes : Codes) where
  -- `if (!found)`: the message, and the return unless the log applier goes on
  unfoldable pub not_found_round : World → ℕ → Index → ForeignKey → Progress → Round
  unfolding print_key
  not_found_round w i index fk p =
      let seen : Progress = record p {
        err = codes.fk_invalid;
        fk_invalid_seen = true;
        messages = p.messages ++ ((fk.fkname, print_key w i index) ∷ []);
      } in
      if w.applier then goes_on seen else returns codes.fk_invalid seen

  -- From `bool found = false` to the end of the round; `holder` is none for a null BTID
  unfoldable pub search_round :
      World → ℕ → Index → ForeignKey → Option (Btid × Oid) → Progress → Round
  unfolding not_found_round has_row
  search_round w i index fk none p = not_found_round w i index fk p
  search_round w i index fk (some (b, o)) p =
      let searched : Progress = record p {
        searches = p.searches ++ ((b.root_pageid, o.pageid) ∷ []);
      } in
      if length searched.searches == w.search_error_at
      then returns codes.search_error searched
      else if has_row w.rows b.root_pageid (get_or w.key_id i (pos 0))
      then goes_on searched
      else not_found_round w i index fk searched

  -- `if (k->repr.has_partition_info)`, and what comes before it
  unfoldable pub class_round : World → ℕ → Index → ForeignKey → FakeClass → Progress → Round
  unfolding search_round
  class_round w i index fk k p =
      let holder = pk_holding_of k (get_or w.key_id i (pos 0)) in
      if k.get_fails
      then returns codes.failed p
      else if not k.has_partition_info
      then search_round w i index fk (some (k.pk, k.oid)) p
      else if not (eqb_ℤ k.load_error codes.no_error)
      then returns k.load_error p
      else if k.load_unpartitioned
      then search_round w i index fk (some (k.pk, k.oid)) (record p { err = codes.no_error })
      else if not (eqb_ℤ k.attr_start_error codes.no_error)
      then returns k.attr_start_error (record p { err = codes.no_error })
      else if not (eqb_ℤ k.prune_error codes.no_error)
      then returns k.prune_error (record p { err = codes.no_error })
      else search_round w i index fk holder (record p { err = codes.no_error })

  unfoldable pub fk_round : World → ℕ → Index → ForeignKey → Progress → Round
  unfolding class_round parent_of is_fk key_has_null
  fk_round w i index fk p =
      if not (is_fk index.type)
      then goes_on p
      else if eqb_ℤ (pos i) w.get_key_fail_at
      then returns codes.failed p
      else if key_has_null w i index
      then goes_on p
      else elim (parent_of w fk) [ none ↦ goes_on p | some k ↦ class_round w i index fk k p ]

  unfoldable pub finish : Progress → Expect
  finish p = record {
    ret = p.err;
    ret_overwritten = p.fk_invalid_seen && not (eqb_ℤ p.err codes.fk_invalid);
    searches = p.searches;
    messages = p.messages;
  }

  unfoldable pub stop : ℤ → Progress → Expect
  stop ret p = record {
    ret = ret;
    ret_overwritten = false;
    searches = p.searches;
    messages = p.messages;
  }

  -- The loop from position i on
  unfoldable pub oracle_from : World → ℕ → List Index → List ForeignKey → Progress → Expect
  unfolding fk_round finish stop
  oracle_from w i [] fks p = finish p
  oracle_from w i (index ∷ indexes) [] p = finish p
  oracle_from w i (index ∷ indexes) (fk ∷ fks) p = elim (fk_round w i index fk p) [
    | returns ret q ↦ stop ret q
    | goes_on q ↦ oracle_from w (suc i) indexes fks q
  ]

  unfoldable pub start_progress : Progress
  start_progress = record {
    err = codes.no_error;
    fk_invalid_seen = false;
    searches = [];
    messages = [];
  }

  unfoldable pub oracle : World → Expect
  unfolding oracle_from stop start_progress count_single
  oracle w =
      if not (eqb_ℤ w.read_error codes.no_error) && ltb 0 (count_single w.indexes)
      then stop w.read_error start_progress
      else oracle_from w 0 w.indexes w.fks start_progress
