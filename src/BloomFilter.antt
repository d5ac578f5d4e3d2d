-- ===== src/BloomFilter.antt =====
-- unit/query/query_hash_join.bloom_filter/hooks.cpp: the hooks of the hash join's Bloom filter, for
-- each layout of `struct hjoin_bloom` that they serve. A member that only some layouts have stands in
-- a record of its own, and what the preprocessor or a template decides is a case on the layout.
-- BloomFilter/View and Workers: the views; Owner: the fill, the checks and the counters; Join: the
-- join's own decision; Manager: the set-up of its manager; Early: the check before the projection.
pub mod View
pub mod Workers
pub mod Owner
pub mod Outcomes
pub mod Steps
pub mod Checks
pub mod Freed
pub mod SecondKey
pub mod Mask
pub mod Join
pub mod Manager
pub mod Early
use dev4_review_workspace.Prelude.{
  ℕ, zero, suc, ◌+◌, ◌-◌, ◌*◌, ◌/◌, ◌%◌, ◌^◌, ◌≤◌, ◌<◌, min, max, ◌≡◌, refl, sym, ap, ◌∙◌, subst,
  ◌≢◌, ◌↔◌, ◌⊎◌, inl, inr, Bool, true, false, not, ◌&&◌, ◌||◌, Option, none, some, List, [], ◌∷◌,
  ◌++◌, map, reverse, foldl, reverse-cons, reverse-append, reverse-reverse, append-nil,
  append_assoc, arith, dec_lt, dec_le, ℕ_discrete, ltb, leb, ◌==◌, if◌then◌else◌, ltb→lt, lt→ltb,
  leb→le, ==_iff, tests, Bool-cases, Option-cases, length, get_elem?, set, length-append, get_or,
  take, drop, replicate, take-append-drop, length-take, length-drop, length-replicate, length-map,
  length-set, All, All-append, All-append_left, All-append_right, All-reverse, All-replicate,
  length-reverse, ℤ, pos, negsuc, pos_part, neg_part, sub_ℕ, ◌+ℤ◌, ◌-ℤ◌, ◌≤ℤ◌, ◌<ℤ◌, ltb_ℤ, eqb_ℤ,
  neg_ℤ, +ℤ_parts, -ℤ_parts, eq_of_parts, int_laws, eqb_ℤ_iff,
}

-- UNITSEAM_BLOOM_STAGED, _CONCURRENT and _EARLY: each layout from the second on adds to the one before.
pub data Layout : Type 0 where
  earlier staged concurrent early : Layout

unfoldable pub is_staged : Layout → Bool
is_staged earlier = false
is_staged staged = true
is_staged concurrent = true
is_staged early = true

unfoldable pub is_concurrent : Layout → Bool
is_concurrent earlier = false
is_concurrent staged = false
is_concurrent concurrent = true
is_concurrent early = true

unfoldable pub is_early : Layout → Bool
is_early earlier = false
is_early staged = false
is_early concurrent = false
is_early early = true

-- What the engine's source defines: `none` is a member of the enumeration or a macro that it lacks.
pub record Macros : Type 0 where
  pub waiting : ℤ
  pub ready : ℤ
  pub off : ℤ
  pub not_built : ℤ
  pub checked : ℤ
  pub off_low_skip : ℤ
  pub off_failed : ℤ
  pub min_second_rows : ℤ
  pub first_per_second : ℤ
  pub sample_rows : ℤ
  pub min_skip_percent : ℤ
  pub seen_batch : ℤ
  pub first_late : Option ℤ
  pub off_first_rows : Option ℤ
  pub ended_first : Option ℤ
  pub max_first_rows : Option ℤ

-- UNITSEAM_ABSENT_* and UNITSEAM_EARLIER_*
abbrev pub absent_first_late : ℤ
absent_first_late = negsuc 19

abbrev pub absent_off_first_rows : ℤ
absent_off_first_rows = negsuc 20

abbrev pub absent_ended_first : ℤ
absent_ended_first = negsuc 21

abbrev pub earlier_not_built : ℤ
earlier_not_built = negsuc 9

abbrev pub earlier_checked : ℤ
earlier_checked = negsuc 10

abbrev pub earlier_off_low_skip : ℤ
earlier_off_low_skip = negsuc 11

abbrev pub earlier_off_failed : ℤ
earlier_off_failed = negsuc 12

-- The value of a member of the enumeration where there is one
unfoldable pub or_absent : Option ℤ → ℤ → ℤ
or_absent none absent = absent
or_absent (some value) absent = value

-- unitseam_out_first_late, unitseam_out_off_first_rows, unitseam_out_ended_first
unfoldable pub out_first_late : Macros → ℤ
unfolding or_absent
out_first_late m = or_absent m.first_late absent_first_late

unfoldable pub out_off_first_rows : Macros → ℤ
unfolding or_absent
out_off_first_rows m = or_absent m.off_first_rows absent_off_first_rows

unfoldable pub out_ended_first : Macros → ℤ
unfolding or_absent
out_ended_first m = or_absent m.ended_first absent_ended_first

pub record BloomConsts : Type 0 where
  pub staged : Bool
  pub waiting : ℤ
  pub ready : ℤ
  pub off : ℤ
  pub out_not_built : ℤ
  pub out_checked : ℤ
  pub out_off_low_skip : ℤ
  pub out_off_failed : ℤ
  pub min_second_rows : ℤ
  pub first_per_second : ℤ
  pub sample_rows : ℤ
  pub min_skip_percent : ℤ
  pub seen_batch : ℤ
  pub concurrent : Bool
  pub early : Bool
  pub out_first_late : ℤ
  pub out_off_first_rows : ℤ
  pub out_ended_first : ℤ
  pub max_first_rows : ℤ

unfoldable pub unitseam_bloom_consts_of : Layout → Macros → BloomConsts
unfolding is_staged is_concurrent is_early or_absent out_first_late out_off_first_rows
    out_ended_first
unitseam_bloom_consts_of layout m =
    if is_staged layout
    then record {
      staged = true;
      waiting = m.waiting;
      ready = m.ready;
      off = m.off;
      out_not_built = m.not_built;
      out_checked = m.checked;
      out_off_low_skip = m.off_low_skip;
      out_off_failed = m.off_failed;
      min_second_rows = m.min_second_rows;
      first_per_second = m.first_per_second;
      sample_rows = m.sample_rows;
      min_skip_percent = m.min_skip_percent;
      seen_batch = m.seen_batch;
      concurrent = is_concurrent layout;
      early = is_early layout;
      out_first_late = out_first_late m;
      out_off_first_rows = out_off_first_rows m;
      out_ended_first = out_ended_first m;
      max_first_rows = or_absent m.max_first_rows (pos 10000000);
    }
    else record {
      staged = false;
      waiting = pos 0;
      ready = pos 1;
      off = pos 2;
      out_not_built = earlier_not_built;
      out_checked = earlier_checked;
      out_off_low_skip = earlier_off_low_skip;
      out_off_failed = earlier_off_failed;
      min_second_rows = pos 1;
      first_per_second = pos 0;
      sample_rows = pos 0;
      min_skip_percent = pos 0;
      seen_batch = pos 0;
      concurrent = is_concurrent layout;
      early = is_early layout;
      out_first_late = absent_first_late;
      out_off_first_rows = absent_off_first_rows;
      out_ended_first = absent_ended_first;
      max_first_rows = or_absent m.max_first_rows (pos 10000000);
    }
