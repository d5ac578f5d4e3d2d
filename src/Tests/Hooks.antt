-- ===== src/Tests/Hooks.antt =====
-- The runtime filter, the group cache and the kept trees of the hooks at concrete inputs.
use dev4_review_workspace.Prelude.{
  if◌then◌else◌, ==_iff, ℕ, zero, suc, ◌*◌, ◌/◌, ◌%◌, ◌≤◌, ◌≡◌, refl, Bool, true, false, Option,
  none, some, List, [], ◌∷◌, map, arith, ◌==◌, length, take, ℤ, pos, negsuc, pos_part, elem,
}
use native.Mathlib.Nat.{dvd_refl}
use dev4_review_workspace.RuntimeFilter.{Filter, unitseam_rtf_make}
use dev4_review_workspace.RuntimeFilter.Held.{count_distinct, add_reverse, finds}
use dev4_review_workspace.RuntimeFilter.Fill.{unitseam_rtf_make-finds}
use dev4_review_workspace.GbyCache.{Gby}
use dev4_review_workspace.GbyCache.Evict.{Note, CacheEngine, place_groups, empty_gby}
use dev4_review_workspace.GbyCache.Cluster.{PoolLaws, Cluster, place_groups-Cluster}
use dev4_review_workspace.GbyCache.Fakes.{
  caller_sel, FakeCall, evaluate_call, get_call, dump_call, max_calls,
}
use dev4_review_workspace.GbyCache.Flush.{
  FlushEngine, Flushed, Context, group_of, read_result, fill_groups, empty_flush, flush_state,
}
use dev4_review_workspace.GbyCache.Replay.{evaluations, touches, read_result-calls}
use dev4_review_workspace.GbyCache.Slots.{Filled, fill_groups-Filled}
use dev4_review_workspace.KeptTrees.{base, Engine, unitseam_exec_checkout, unitseam_exec_stale}
use dev4_review_workspace.KeptTrees.Choreography.{split_first, Laws, stale_trees}

abbrev some_keys : List ℤ
some_keys = pos 5 ∷ negsuc 2 ∷ pos 21 ∷ pos 5 ∷ []

unitseam_rtf_make-finds_example :
    (f : Filter) × (unitseam_rtf_make pos_part some_keys (pos 1) ≡ some f)
    × ((k : ℤ) → finds pos_part f k ≡ elem k some_keys)
    × (f.n_keys ≡ count_distinct (add_reverse some_keys []))
    × (f.n_keys * 2 ≤ length f.table)
unitseam_rtf_make-finds_example = unitseam_rtf_make-finds pos_part some_keys (pos 1)

-- The numbers below n, for a pool of n buffers
unfoldable count_up : ℕ → List ℕ
count_up zero = []
count_up (suc n) = n ∷ count_up n

abbrev small_cache : CacheEngine
small_cache = record {
  size = 8;
  evict_note = 32;
  pool_reset = λ st. record st { pool_free = 0 ∷ 1 ∷ 2 ∷ 3 ∷ [] };
  evicted = λ st notes. st;
  find = λ st bytes hash. none;
}

small_cache-PoolLaws : PoolLaws small_cache
unfolding empty_gby
small_cache-PoolLaws = record {
  has_cells = omega arith;
  reset_pool = refl;
  reset_cache = refl;
  reset_count = refl;
}

place_groups-Cluster_example :
    (p : Gby × List Note) × (place_groups small_cache 6 5 3 ≡ some p) × Cluster small_cache 6 5 3 p
place_groups-Cluster_example =
    place_groups-Cluster small_cache small_cache-PoolLaws 6 5 3 (omega arith) (omega arith)
      (omega arith)

abbrev a_context : Context
a_context = record { state = pos 0; tuple_count = pos 7; group_count = pos 2; evictions = pos 0 }

abbrev some_calls : List FakeCall
some_calls =
    evaluate_call (record { sel = caller_sel; rows = 4 ∷ 6 ∷ []; n_sel = 2 }) (some 1)
    ∷ get_call (some 1)
    ∷ dump_call
    ∷ evaluate_call (record { sel = caller_sel; rows = 5 ∷ []; n_sel = 1 }) (some 9)
    ∷ []

abbrev flush_engine : FlushEngine
flush_engine = record {
  size = 64;
  accept_all = pos 0;
  pool_reset = λ st. record st { pool_free = 0 ∷ 1 ∷ 2 ∷ 3 ∷ [] };
  flush = λ st n. record { rc = pos 0; done = pos 1; state = st; calls = some_calls };
}

abbrev full_engine : FlushEngine
full_engine = record flush_engine { pool_reset = λ st. record st { pool_free = count_up 32 } }

abbrev some_flushed : Flushed
some_flushed =
    flush_engine.flush
      (flush_state flush_engine (4 ∷ []) (1 ∷ []) (pos 7) (pos 2) (empty_flush flush_engine)) 1

read_result-calls_example :
    ((read_result flush_engine 2 some_flushed).n_calls ≡ length (evaluations some_calls))
    × ((read_result flush_engine 2 some_flushed).call_group
        ≡ map (λ v. group_of 2 v.acc) (take max_calls (evaluations some_calls)))
    × ((read_result flush_engine 2 some_flushed).call_n
        ≡ map (λ v. v.n) (take max_calls (evaluations some_calls)))
    × ((read_result flush_engine 2 some_flushed).call_sel
        ≡ map (λ v. v.sel) (take max_calls (evaluations some_calls)))
    × ((read_result flush_engine 2 some_flushed).n_touch ≡ length (touches some_calls))
    × ((read_result flush_engine 2 some_flushed).touch_group
        ≡ map (group_of 2) (take max_calls (touches some_calls)))
read_result-calls_example = read_result-calls flush_engine 2 some_flushed

fill_groups-Filled_example :
    (st : Gby) × (fill_groups full_engine 3 ≡ some st) × Filled full_engine (dvd_refl 64) 3 st
unfolding empty_flush count_up
fill_groups-Filled_example =
    fill_groups-Filled full_engine (dvd_refl 64) 3 (omega arith) refl refl refl (omega arith)
      (omega arith)

-- Kept trees as numbers: the name is what the tens say, the text the ones. A tree of another text is
-- closed and leaves the list; a tree whose name has an entry is not put back.
abbrev tree_has_name : ℕ → ℕ → Bool
tree_has_name name s = s / 10 == name

unfoldable taken : ℕ → List ℕ → Option (ℕ × List ℕ) → Option ℕ × List ℕ
taken text w none = (none, w)
taken text w (some p) = if p.0 % 10 == text then (some p.0, p.1) else (none, p.1)

unfoldable moved : ℕ → List ℕ → Option (ℕ × List ℕ) → Option ℕ × List ℕ
moved text w none = (none, w)
moved text w (some p) = if p.0 % 10 == text then (some p.0, p.0 ∷ p.1) else (none, p.1)

unfoldable dropped : List ℕ → Option (ℕ × List ℕ) → List ℕ
dropped w none = w
dropped w (some p) = p.1

unfoldable put_front : ℕ → List ℕ → Option (ℕ × List ℕ) → List ℕ
put_front s w none = s ∷ w
put_front s w (some p) = w

abbrev trees : Engine
trees = record {
  Name = ℕ;
  Session = ℕ;
  World = List ℕ;
  take = λ name text w. taken text w (split_first (tree_has_name name) w);
  put_back = λ s w. put_front s w (split_first (tree_has_name (s / 10)) w);
  lookup = λ name text w. moved text w (split_first (tree_has_name name) w);
  close = λ s w. w;
  remove = λ name w. dropped w (split_first (tree_has_name name) w);
  unlink = λ name w. (none, dropped w (split_first (tree_has_name name) w));
  register = λ owner name s w. (true, s ∷ w);
  kept_trees = λ w. none;
  set_kept_trees = λ s w. [];
}

trees-Laws : Laws trees
unfolding taken moved dropped put_front
trees-Laws = record {
  trees = λ w. w;
  has_name = tree_has_name;
  serves = λ text w s. s % 10 == text;
  take_hit = λ name text w s rest h k. rw (h, k) (refl, refl);
  lookup_hit = λ name text w s rest h k. rw (h, k) (refl, refl);
  put_back_front = λ name s w n h. let same : s / 10 ≡ name = (==_iff _ _).0 n in rw (same, h) refl;
  close_keeps = λ name s w n h. refl;
  remove_hit = λ name w s rest h. rw (h) refl;
}

abbrev three_trees : List ℕ
three_trees = 42 ∷ 51 ∷ 33 ∷ []

stale_trees_example :
    (unitseam_exec_stale trees base 51 5 false
      (unitseam_exec_checkout trees base 5 1 three_trees).1)
    ≡ 42 ∷ 33 ∷ []
unfolding split_first trees-Laws
stale_trees_example =
    stale_trees trees trees-Laws 5 1 three_trees 51 (42 ∷ 33 ∷ []) refl refl refl base false
