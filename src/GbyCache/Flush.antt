-- ===== src/GbyCache/Flush.antt =====
-- The flush scenario of unit/query/query_executor.h_gby_flush_replay/hooks.cpp. The engine's functions
-- are a parameter; what they call of the fakes is a list.
use dev4_review_workspace.Prelude.{
  ℕ, zero, suc, ◌+◌, ◌*◌, ◌%◌, Bool, true, false, ◌&&◌, Option, none, some, List, [], ◌∷◌, ◌++◌,
  map, ◌==◌, if◌then◌else◌, length, take, replicate, ℤ, pos, negsuc, eqb_ℤ,
}
use dev4_review_workspace.GbyCache.{Entry, Gby, place}
use dev4_review_workspace.GbyCache.Fakes.{
  max_rows, max_calls, SelArray, caller_sel, other_sel, Batch, fresh, FakeCall, run_calls,
}

-- AGGREGATE_HASH_CONTEXT
pub record Context : Type 0 where
  pub state : ℤ
  pub tuple_count : ℤ
  pub group_count : ℤ
  pub evictions : ℤ

-- What the scenario hands the flush
pub record FlushState : Type 0 where
  pub gby : Gby
  pub ctx : Context
  pub batch : Batch
  pub pend_row : List ℕ
  pub pend_ent : List ℕ
  pub off : Bool
  pub tuple_count : ℕ → ℤ

-- What the flush leaves: its result, `*done`, the state and the calls it made of the fakes
pub record Flushed : Type 0 where
  pub rc : ℤ
  pub done : ℤ
  pub state : FlushState
  pub calls : List FakeCall

pub record FlushEngine : Type 0 where
  -- QEXEC_GBY_CACHE_SIZE and HS_ACCEPT_ALL
  pub size : ℕ
  pub accept_all : ℤ
  -- qexec_gby_pool_reset and qexec_batch_gby_flush over n pending rows
  pub pool_reset : Gby → Gby
  pub flush : FlushState → ℕ → Flushed

-- struct h_flush_result
pub record FlushResult : Type 0 where
  pub done : ℤ
  pub n_calls : ℕ
  pub call_group : List ℤ
  pub call_n : List ℕ
  pub call_sel : List (List ℕ)
  pub n_touch : ℕ
  pub touch_group : List ℤ
  pub off : Bool
  pub dumps : ℕ
  pub syncs : ℕ
  pub tuple_count_after : ℤ
  pub state_after : ℤ
  pub evictions_after : ℤ
  pub n_cached_after : ℕ
  pub value_tuple_count : List ℤ
  pub counts_reset : Bool
  pub sel_restored : Bool

-- The loop over the groups that looks a pointer up: the last of the first ng that it is, or -1
unfoldable pub group_of : ℕ → Option ℕ → ℤ
group_of zero p = negsuc 0
group_of (suc g) none = negsuc 0
group_of (suc g) (some a) = let before = group_of g (some a) in if a == g then pos g else before

-- `st.cache[k].len >= 0 && st.cache[k].count != 0` for no k
unfoldable pub counts_reset : List (Option Entry) → Bool
counts_reset [] = true
counts_reset (none ∷ cache) = counts_reset cache
counts_reset (some e ∷ cache) = eqb_ℤ e.count (pos 0) && counts_reset cache

unfoldable pub is_caller_sel : SelArray → Bool
is_caller_sel caller_sel = true
is_caller_sel (other_sel n) = false

-- 0, 1, ..., n - 1
unfoldable pub below : ℕ → List ℕ
below zero = []
below (suc n) = below n ++ (n ∷ [])

-- The entry of group g, and the pointer that is passed to mht_get
unfoldable pub flush_entry : ℕ → ℕ → Entry
flush_entry g slot = record {
  buffer = 0;
  bytes = g % 256 ∷ [];
  hash = slot;
  len = 1;
  value = g;
  key = some g;
  count = pos 0;
  placed = pos 0;
}

module _ (e : FlushEngine) where
  -- `(37 * g + 5) & (QEXEC_GBY_CACHE_SIZE - 1)`
  unfoldable pub slot_of : ℕ → ℕ
  slot_of g = (37 * g + 5) % e.size

  unfoldable pub empty_flush : Gby
  empty_flush = e.pool_reset record {
    cache = replicate e.size none;
    pool_free = [];
    n_cached = 0;
    batch_slot = λ i. pos 0;
  }

  -- The loop over the first ng groups; none for a pool that is empty
  unfoldable pub fill_groups : ℕ → Option Gby
  unfolding slot_of flush_entry empty_flush
  fill_groups zero = some empty_flush
  fill_groups (suc g) = elim (fill_groups g) [
    | none ↦ none
    | some st ↦ place st (slot_of g) (flush_entry g (slot_of g))
  ]

  unfoldable pub flush_state : List ℕ → List ℕ → ℤ → ℤ → Gby → FlushState
  unfolding slot_of below
  flush_state rows grp tuple_count0 group_count0 st = record {
    gby = st;
    ctx = record {
      state = e.accept_all;
      tuple_count = tuple_count0;
      group_count = group_count0;
      evictions = pos 0;
    };
    batch = record { sel = caller_sel; rows = map (λ t. 1000 + t) (below max_rows); n_sel = 77 };
    pend_row = rows;
    pend_ent = map slot_of grp;
    off = false;
    tuple_count = λ g. pos 0;
  }

  unfoldable pub read_result : ℕ → Flushed → FlushResult
  unfolding group_of counts_reset is_caller_sel below
  read_result ng f =
      let s = run_calls f.calls fresh in
      record {
        done = f.done;
        n_calls = s.n_eval;
        call_group = map (λ v. group_of ng v.acc) s.evals;
        call_n = map (λ v. v.n) s.evals;
        call_sel = map (λ v. v.sel) s.evals;
        n_touch = s.n_get;
        touch_group = map (group_of ng) (take max_calls s.get_keys);
        off = f.state.off;
        dumps = s.n_dump;
        syncs = s.n_sync;
        tuple_count_after = f.state.ctx.tuple_count;
        state_after = f.state.ctx.state;
        evictions_after = f.state.ctx.evictions;
        n_cached_after = f.state.gby.n_cached;
        value_tuple_count = map f.state.tuple_count (below ng);
        counts_reset = counts_reset f.state.gby.cache;
        sel_restored = is_caller_sel f.state.batch.sel && f.state.batch.n_sel == 77;
      }

  -- The result `rc` and `*res`, over the pending rows and their groups
  unfoldable pub h_flush_scenario : List ℕ → List ℕ → ℕ → ℤ → ℤ → Option (ℤ × FlushResult)
  unfolding fill_groups flush_state read_result
  h_flush_scenario rows grp ng tuple_count0 group_count0 = elim (fill_groups ng) [
    | none ↦ none
    | some st ↦
        let f = e.flush (flush_state rows grp tuple_count0 group_count0 st) (length rows) in
        some (f.rc, read_result ng f)
  ]
