-- ===== src/BloomFilter/View.antt =====
-- The filter, the worker and the statistics as unit/query/query_hash_join.bloom_filter/hooks.cpp
-- reads them for each layout. A pointer is the address it holds, none for NULL.
use dev4_review_workspace.Prelude.{
  ℕ, Bool, true, false, not, ◌&&◌, Option, none, some, if◌then◌else◌, ℤ, pos, negsuc, eqb_ℤ,
}
use dev4_review_workspace.BloomFilter.{
  Layout, earlier, staged, concurrent, early, Macros, earlier_off_failed,
}

abbrev pub Pointer : Type 0
Pointer = Option ℕ

-- The members of `struct hjoin_bloom` that each layout has
pub record Common : Type 0 where
  pub first_is_outer : Bool
  pub hj_xasl : Pointer
  pub owner_xasl : Pointer
  pub owner_thread : Pointer
  pub bits : Pointer
  pub row_buf : Pointer
  pub key : Pointer
  pub mask : ℕ
  pub keys : ℤ
  pub tested : ℤ
  pub skipped : ℤ

-- Those of the staged layout and later ones
pub record Stages : Type 0 where
  pub set_up : Bool
  pub state : ℤ
  pub off_reason : ℤ
  pub first_rows : ℤ
  pub threshold : ℤ
  pub seen : ℤ

pub record FirstInput : Type 0 where
  pub first_xasl : Pointer
  pub first_done : ℤ

-- key_regus is an array of pointers at an address.
pub record EarlyKeys : Type 0 where
  pub key_regus : Option (ℕ × (ℕ → Pointer))
  pub key_cast : Pointer

pub data Bloom : Type 0 where
  earlier_bloom : (built disabled : Bool) → Common → Bloom
  staged_bloom : Stages → Common → Bloom
  concurrent_bloom : FirstInput → Stages → Common → Bloom
  early_bloom : EarlyKeys → FirstInput → Stages → Common → Bloom

unfoldable pub layout_of : Bloom → Layout
layout_of (earlier_bloom built disabled c) = earlier
layout_of (staged_bloom s c) = staged
layout_of (concurrent_bloom f s c) = concurrent
layout_of (early_bloom k f s c) = early

unfoldable pub common : Bloom → Common
common (earlier_bloom built disabled c) = c
common (staged_bloom s c) = c
common (concurrent_bloom f s c) = c
common (early_bloom k f s c) = c

unfoldable pub stages : Bloom → Option Stages
stages (earlier_bloom built disabled c) = none
stages (staged_bloom s c) = some s
stages (concurrent_bloom f s c) = some s
stages (early_bloom k f s c) = some s

-- struct unitseam_bloom_view
pub record BloomView : Type 0 where
  pub present : Bool
  pub staged : Bool
  pub set_up : Bool
  pub state : ℤ
  pub off_reason : ℤ
  pub first_rows : ℤ
  pub threshold : ℤ
  pub seen : ℤ
  pub first_is_outer : Bool
  pub hj_xasl : Pointer
  pub owner_xasl : Pointer
  pub owner_thread : Pointer
  pub bits : Pointer
  pub row_buf : Pointer
  pub key : Pointer
  pub mask : ℕ
  pub keys : ℤ
  pub tested : ℤ
  pub skipped : ℤ
  pub first_xasl : Pointer
  pub first_done : ℤ
  pub key_regus : Pointer
  pub key_cast : Pointer

-- The view after `memset (v, 0, sizeof (*v))`
abbrev pub no_view : BloomView
no_view = record {
  present = false;
  staged = false;
  set_up = false;
  state = pos 0;
  off_reason = pos 0;
  first_rows = pos 0;
  threshold = pos 0;
  seen = pos 0;
  first_is_outer = false;
  hj_xasl = none;
  owner_xasl = none;
  owner_thread = none;
  bits = none;
  row_buf = none;
  key = none;
  mask = 0;
  keys = pos 0;
  tested = pos 0;
  skipped = pos 0;
  first_xasl = none;
  first_done = pos 0;
  key_regus = none;
  key_cast = none;
}

unfoldable pub address : Option (ℕ × (ℕ → Pointer)) → Pointer
address none = none
address (some regus) = some regus.0

unfoldable pub view_first_input : FirstInput → BloomView → BloomView
view_first_input f v = record v { first_xasl = f.first_xasl; first_done = f.first_done }

-- unitseam_view_v5
unfoldable pub unitseam_view_v5 : Bloom → BloomView → BloomView
unfolding address view_first_input
unitseam_view_v5 (earlier_bloom built disabled c) v = record v {
  first_xasl = none;
  first_done = negsuc 0;
  key_regus = none;
  key_cast = none;
}
unitseam_view_v5 (staged_bloom s c) v = record v {
  first_xasl = none;
  first_done = negsuc 0;
  key_regus = none;
  key_cast = none;
}
unitseam_view_v5 (concurrent_bloom f s c) v = record (view_first_input f v) {
  key_regus = none;
  key_cast = none;
}
unitseam_view_v5 (early_bloom k f s c) v = record (view_first_input f v) {
  key_regus = address k.key_regus;
  key_cast = k.key_cast;
}

-- The members between the two branches of the preprocessor and the v5 ones
unfoldable pub view_common : Common → BloomView → BloomView
view_common c v = record v {
  first_is_outer = c.first_is_outer;
  hj_xasl = c.hj_xasl;
  owner_xasl = c.owner_xasl;
  owner_thread = c.owner_thread;
  bits = c.bits;
  row_buf = c.row_buf;
  key = c.key;
  mask = c.mask;
  keys = c.keys;
  tested = c.tested;
  skipped = c.skipped;
}

unfoldable pub view_stages : Macros → Stages → BloomView → BloomView
view_stages m s v = record v {
  staged = true;
  set_up = s.set_up;
  state = s.state;
  off_reason = if eqb_ℤ s.state m.off then s.off_reason else negsuc 0;
  first_rows = s.first_rows;
  threshold = s.threshold;
  seen = s.seen;
}

unfoldable pub view_earlier : Bool → Bool → BloomView → BloomView
view_earlier built disabled v = record v {
  staged = false;
  set_up = built;
  state = if not built then pos 0 else if disabled then pos 2 else pos 1;
  off_reason = if built && disabled then earlier_off_failed else negsuc 0;
  first_rows = negsuc 0;
  threshold = pos 1;
  seen = negsuc 0;
}

-- The branch of the preprocessor that the layout takes
unfoldable pub view_branch : Macros → Bloom → BloomView → BloomView
unfolding view_stages view_earlier
view_branch m (earlier_bloom built disabled c) v = view_earlier built disabled v
view_branch m (staged_bloom s c) v = view_stages m s v
view_branch m (concurrent_bloom f s c) v = view_stages m s v
view_branch m (early_bloom k f s c) v = view_stages m s v

unfoldable pub unitseam_bloom_view_of : Macros → Option Bloom → BloomView
unfolding view_branch view_common unitseam_view_v5 common
unitseam_bloom_view_of m none = no_view
unitseam_bloom_view_of m (some b) =
    unitseam_view_v5 b
      (view_common (common b) (view_branch m b (record no_view { present = true })))
