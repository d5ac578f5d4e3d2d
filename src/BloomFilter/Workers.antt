-- ===== src/BloomFilter/Workers.antt =====
-- The statistics of a hash join and a scan worker's view of the shared filter, of
-- unit/query/query_hash_join.bloom_filter/hooks.cpp.
use dev4_review_workspace.Prelude.{
  ℕ, Bool, true, false, Option, none, some, if◌then◌else◌, ℤ, pos, negsuc,
}
use dev4_review_workspace.BloomFilter.{Macros, earlier_checked, earlier_not_built}
use dev4_review_workspace.BloomFilter.View.{Pointer}

-- The members of HASHJOIN_BLOOM_STATS that each layout has, and those of either
pub record Counters : Type 0 where
  pub keys : ℤ
  pub tested : ℤ
  pub skipped : ℤ

pub data Stats : Type 0 where
  earlier_stats : (used : Bool) → Counters → Stats
  staged_stats : (attached : Bool) (state threshold seen : ℤ) → Counters → Stats

pub record StatsView : Type 0 where
  pub staged : Bool
  pub shown : Bool
  pub outcome : ℤ
  pub keys : ℤ
  pub threshold : ℤ
  pub seen : ℤ
  pub tested : ℤ
  pub skipped : ℤ

unfoldable pub unitseam_bloom_stats_of : Stats → StatsView
unitseam_bloom_stats_of (staged_stats attached state threshold seen g) = record {
  staged = true;
  shown = attached;
  outcome = state;
  keys = g.keys;
  threshold = threshold;
  seen = seen;
  tested = g.tested;
  skipped = g.skipped;
}
unitseam_bloom_stats_of (earlier_stats used g) = record {
  staged = false;
  shown = used;
  outcome = if used then earlier_checked else earlier_not_built;
  keys = g.keys;
  threshold = negsuc 0;
  seen = negsuc 0;
  tested = g.tested;
  skipped = g.skipped;
}

abbrev pub stale_counters : Counters
stale_counters = record { keys = pos 5; tested = pos 6; skipped = pos 7 }

unfoldable pub unitseam_bloom_stats_stale : Macros → Stats → Stats
unitseam_bloom_stats_stale m (staged_stats attached state threshold seen g) =
    staged_stats true m.off_low_skip (pos 8) (pos 9) stale_counters
unitseam_bloom_stats_stale m (earlier_stats used g) = earlier_stats true stale_counters

pub record WorkerCommon : Type 0 where
  pub bloom : Pointer
  pub key : Pointer
  pub row_buf : Pointer
  pub row_buf_size : ℤ
  pub disabled : Bool
  pub tested : ℤ
  pub skipped : ℤ

pub record WorkerStages : Type 0 where
  pub ready : Bool
  pub seen_unflushed : ℤ

pub record WorkerKeys : Type 0 where
  pub key_regus : Option (ℕ → Pointer)
  pub key_cast : Pointer

-- `struct hjoin_bloom_worker`, which not every revision has
pub data Worker : Type 0 where
  no_worker_struct : Worker
  earlier_worker : WorkerCommon → Worker
  staged_worker : WorkerStages → WorkerCommon → Worker
  early_worker : WorkerKeys → WorkerStages → WorkerCommon → Worker

pub record WorkerView : Type 0 where
  pub present : Bool
  pub bloom : Pointer
  pub key : Pointer
  pub row_buf : Pointer
  pub row_buf_size : ℤ
  pub disabled : Bool
  pub ready : Bool
  pub seen_unflushed : ℤ
  pub tested : ℤ
  pub skipped : ℤ
  pub key_regu0 : Pointer
  pub key_cast : Pointer

abbrev pub no_worker_view : WorkerView
no_worker_view = record {
  present = false;
  bloom = none;
  key = none;
  row_buf = none;
  row_buf_size = pos 0;
  disabled = false;
  ready = false;
  seen_unflushed = pos 0;
  tested = pos 0;
  skipped = pos 0;
  key_regu0 = none;
  key_cast = none;
}

unfoldable pub worker_common : WorkerCommon → WorkerView → WorkerView
worker_common w v = record v {
  present = true;
  bloom = w.bloom;
  key = w.key;
  row_buf = w.row_buf;
  row_buf_size = w.row_buf_size;
  disabled = w.disabled;
  tested = w.tested;
  skipped = w.skipped;
}

unfoldable pub worker_stages : WorkerStages → WorkerView → WorkerView
worker_stages s v = record v { ready = s.ready; seen_unflushed = s.seen_unflushed }

unfoldable pub key_regu0_of : Option (ℕ → Pointer) → Pointer
key_regu0_of none = none
key_regu0_of (some regus) = regus 0

-- unitseam_worker_view_of, with unitseam_worker_access; none is a NULL worker
unfoldable pub unitseam_worker_view_of : Option Worker → WorkerView
unfolding worker_common worker_stages key_regu0_of
unitseam_worker_view_of none = no_worker_view
unitseam_worker_view_of (some no_worker_struct) = no_worker_view
unitseam_worker_view_of (some (earlier_worker w)) = record (worker_common w no_worker_view) {
  ready = true;
  seen_unflushed = negsuc 0;
}
unitseam_worker_view_of (some (staged_worker s w)) =
    worker_stages s (worker_common w no_worker_view)
unitseam_worker_view_of (some (early_worker k s w)) =
    record (worker_stages s (worker_common w no_worker_view)) {
      key_regu0 = key_regu0_of k.key_regus;
      key_cast = k.key_cast;
    }
