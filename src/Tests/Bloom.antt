-- ===== src/Tests/Bloom.antt =====
-- The hooks of the hash join's Bloom filter at concrete inputs.
use dev4_review_workspace.Prelude.{
  ℕ, suc, ◌%◌, ◌≡◌, refl, true, false, not, none, some, arith, ◌==◌, ℤ, pos, negsuc, ◌≤ℤ◌, eqb_ℤ,
  elem,
}
use dev4_review_workspace.BloomFilter.{concurrent, Macros, unitseam_bloom_consts_of}
use dev4_review_workspace.BloomFilter.View.{
  Pointer, Common, Stages, Bloom, earlier_bloom, staged_bloom, concurrent_bloom, early_bloom,
  unitseam_bloom_view_of, layout_of,
}
use dev4_review_workspace.BloomFilter.Outcomes.{
  distinct, enum_values, outcomes, unitseam_bloom_consts_of-distinct,
}
use dev4_review_workspace.BloomFilter.Owner.{
  OwnerEngine, not_checked, set_up_of, in_state, unitseam_bloom_fill_now,
  unitseam_bloom_check_bound,
}
use dev4_review_workspace.BloomFilter.Steps.{FillLaws, first_ended, unitseam_bloom_fill_now-again}
use dev4_review_workspace.BloomFilter.Checks.{
  sees_ready, SameCounters, unitseam_bloom_check_bound-ready, unitseam_bloom_check_bound-counters,
}

abbrev pub macros : Macros
macros = record {
  waiting = pos 0;
  ready = pos 1;
  off = pos 2;
  not_built = pos 0;
  checked = pos 1;
  off_low_skip = pos 2;
  off_failed = pos 3;
  min_second_rows = pos 1000;
  first_per_second = pos 4;
  sample_rows = pos 256;
  min_skip_percent = pos 10;
  seen_batch = pos 64;
  first_late = some (pos 4);
  off_first_rows = none;
  ended_first = some (pos 6);
  max_first_rows = none;
}

small_values : (v : ℤ) → elem v (enum_values macros) ≡ true → pos 0 ≤ℤ v
unfolding elem enum_values
small_values v h = ground (arith, h)

unitseam_bloom_consts_of-distinct_example :
    distinct (outcomes (unitseam_bloom_consts_of concurrent macros)) ≡ true
unfolding distinct elem enum_values
unitseam_bloom_consts_of-distinct_example =
    unitseam_bloom_consts_of-distinct concurrent macros refl small_values

abbrev pub plain : Common
plain = record {
  first_is_outer = true;
  hj_xasl = some 1;
  owner_xasl = some 2;
  owner_thread = some 3;
  bits = some 4;
  row_buf = none;
  key = some 5;
  mask = 1023;
  keys = pos 9;
  tested = pos 6;
  skipped = pos 2;
}

abbrev waiting_stages : Stages
waiting_stages = record {
  set_up = false;
  state = pos 0;
  off_reason = pos 0;
  first_rows = pos 9;
  threshold = pos 3;
  seen = pos 3;
}

abbrev pub ready_stages : Stages
ready_stages = record waiting_stages { set_up = true; state = pos 1 }

unfoldable set_up : Bloom → Bloom
set_up (earlier_bloom built disabled c) = earlier_bloom true disabled c
set_up (staged_bloom s c) = staged_bloom (record s { set_up = true }) c
set_up (concurrent_bloom f s c) = concurrent_bloom f (record s { set_up = true }) c
set_up (early_bloom k f s c) = early_bloom k f (record s { set_up = true }) c

unfoldable make_ready : Bloom → Bloom
make_ready (earlier_bloom built disabled c) = earlier_bloom true disabled c
make_ready (staged_bloom s c) = staged_bloom ready_stages c
make_ready (concurrent_bloom f s c) = concurrent_bloom f ready_stages c
make_ready (early_bloom k f s c) = early_bloom k f ready_stages c

-- The world counts the steps; a row is a number, skipped where it is odd.
abbrev owner : OwnerEngine
owner = record {
  World = ℕ;
  Record = ℕ;
  setup = λ b w. (set_up b, suc w);
  fill = λ b w. (make_ready b, suc w);
  build = λ b w. (set_up b, suc w);
  owner_row = λ b w. not_checked b w;
  ready = λ b w. not_checked b w;
  skip_record = λ b r w. (r % 2 == 1, (b, suc w));
  check = λ b k r w. (false, (r % 2 == 1, (b, suc w)));
  may_contain = λ b h. true;
}

set_up_layout : (b : Bloom) → layout_of (set_up b) ≡ layout_of b
unfolding set_up layout_of
set_up_layout (earlier_bloom built disabled c) = refl
set_up_layout (staged_bloom s c) = refl
set_up_layout (concurrent_bloom f s c) = refl
set_up_layout (early_bloom k f s c) = refl

make_ready_layout : (b : Bloom) → layout_of (make_ready b) ≡ layout_of b
unfolding make_ready layout_of
make_ready_layout (earlier_bloom built disabled c) = refl
make_ready_layout (staged_bloom s c) = refl
make_ready_layout (concurrent_bloom f s c) = refl
make_ready_layout (early_bloom k f s c) = refl

set_up_up : (b : Bloom) → set_up_of (set_up b) ≡ true
unfolding set_up set_up_of
set_up_up (earlier_bloom built disabled c) = refl
set_up_up (staged_bloom s c) = refl
set_up_up (concurrent_bloom f s c) = refl
set_up_up (early_bloom k f s c) = refl

make_ready_up : (b : Bloom) → set_up_of (make_ready b) ≡ true
unfolding make_ready set_up_of
make_ready_up (earlier_bloom built disabled c) = refl
make_ready_up (staged_bloom s c) = refl
make_ready_up (concurrent_bloom f s c) = refl
make_ready_up (early_bloom k f s c) = refl

make_ready_past : (b : Bloom) → in_state (pos 0) (make_ready b) ≡ false
unfolding make_ready in_state
make_ready_past (earlier_bloom built disabled c) = refl
make_ready_past (staged_bloom s c) = refl
make_ready_past (concurrent_bloom f s c) = refl
make_ready_past (early_bloom k f s c) = refl

owner-FillLaws : FillLaws owner macros
owner-FillLaws = record {
  setup_layout = λ b w. set_up_layout b;
  fill_layout = λ b w. make_ready_layout b;
  build_layout = λ b w. set_up_layout b;
  setup_sets_up = λ b w. set_up_up b;
  build_sets_up = λ b w. set_up_up b;
  fill_keeps_set_up = λ b w h. make_ready_up b;
  fill_ends = λ b w h ended. make_ready_past b;
}

abbrev waiting_bloom : Bloom
waiting_bloom = staged_bloom waiting_stages plain

unitseam_bloom_fill_now-again_example :
    unitseam_bloom_fill_now owner macros
      (unitseam_bloom_fill_now owner macros waiting_bloom 0).0
      (unitseam_bloom_fill_now owner macros waiting_bloom 0).1
    ≡ unitseam_bloom_fill_now owner macros waiting_bloom 0
unfolding first_ended
unitseam_bloom_fill_now-again_example =
    unitseam_bloom_fill_now-again owner macros owner-FillLaws waiting_bloom 0 refl

unitseam_bloom_check_bound-ready_example :
    eqb_ℤ
      (unitseam_bloom_check_bound owner macros (some (earlier_bloom true false plain)) 7 0).0
      (negsuc 0)
    ≡ not (sees_ready macros (earlier_bloom true false plain))
unitseam_bloom_check_bound-ready_example =
    unitseam_bloom_check_bound-ready owner macros (earlier_bloom true false plain) 7 0

same_counters :
    (b : Bloom) (k : Pointer) (r w : ℕ) → SameCounters owner macros (owner.check b k r w).1.1.0 b
same_counters b k r w = record { tested = refl; skipped = refl }

unitseam_bloom_check_bound-counters_example :
    ((unitseam_bloom_view_of macros
        (unitseam_bloom_check_bound owner macros
          (some (earlier_bloom true false plain))
          7
          0).1.0).tested
      ≡ (unitseam_bloom_view_of macros (some (earlier_bloom true false plain))).tested)
    × ((unitseam_bloom_view_of macros
          (unitseam_bloom_check_bound owner macros
            (some (earlier_bloom true false plain))
            7
            0).1.0).skipped
        ≡ (unitseam_bloom_view_of macros (some (earlier_bloom true false plain))).skipped)
unitseam_bloom_check_bound-counters_example =
    unitseam_bloom_check_bound-counters owner macros same_counters (earlier_bloom true false plain)
      7 0
