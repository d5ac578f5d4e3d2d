-- ===== src/GbyCache/Evict.antt =====
-- The eviction scenario of unit/query/query_executor.gby_cache_evicted/hooks.cpp. The engine's
-- functions are a parameter.
use dev4_review_workspace.Prelude.{
  ℕ, zero, suc, ◌+◌, ◌/◌, ◌%◌, ◌^◌, Bool, true, false, Option, none, some, List, [], ◌∷◌, ◌++◌,
  ◌==◌, if◌then◌else◌, not, ◌||◌, ltb, length, replicate, ℤ, pos, negsuc,
}
use dev4_review_workspace.Probing.{cell, walk}
use dev4_review_workspace.GbyCache.{Entry, Gby, place}

-- `note_val` and `note_slot`: a group and its slot
pub record Note : Type 0 where
  pub group : ℕ
  pub slot : ℕ

pub record CacheEngine : Type 0 where
  -- QEXEC_GBY_CACHE_SIZE, and QEXEC_GBY_EVICT_NOTE, the length of `vals`, `note_val` and `note_slot`
  pub size : ℕ
  pub evict_note : ℕ
  -- qexec_gby_pool_reset, qexec_gby_cache_evicted and qexec_gby_cache_find: the slot that is found
  pub pool_reset : Gby → Gby
  pub evicted : Gby → List Note → Gby
  pub find : Gby → List ℕ → ℕ → Option ℕ

pub record EvictResult : Type 0 where
  pub n_left : ℕ
  pub stale_found : ℕ
  pub stale_slot : ℤ
  pub kept_found : ℕ
  pub pool_balanced : Bool

-- `keep_mask & (1u << i)`, of a 32-bit `unsigned`; the shift is by less than 32.
unfoldable pub keeps : ℕ → ℕ → Bool
keeps keep_mask i = ((keep_mask % 2 ^ 32) / 2 ^ i) % 2 == 1

-- `st.cache[s].len >= 0` ends
unfoldable pub is_free : Option Entry → Bool
is_free none = true
is_free (some e) = false

unfoldable pub group_entry : ℕ → ℕ → Entry
group_entry i home = record {
  buffer = 0;
  bytes = i % 256 ∷ [];
  hash = home;
  len = 1;
  value = i;
  key = none;
  count = pos 0;
  placed = pos 0;
}

-- The note of group i at a slot, if it is to be evicted
unfoldable pub note : ℕ → ℕ → ℕ → List Note → List Note
unfolding keeps
note keep_mask i s notes =
    if keeps keep_mask i then notes else notes ++ (record { group = i; slot = s } ∷ [])

unfoldable pub empty_gby : ℕ → Gby
empty_gby size = record {
  cache = replicate size none;
  pool_free = [];
  n_cached = 0;
  batch_slot = λ i. pos 0;
}

module _ (e : CacheEngine) where
  -- One round of the loop that places the groups: `s` and then the entry. None where group i has no
  -- element of the arrays, or the shift of the mask has no value.
  unfoldable pub place_group : ℕ → ℕ → ℕ → Gby × List Note → Option (Gby × List Note)
  unfolding is_free group_entry note
  place_group home keep_mask i (st, notes) =
      if not (ltb i 32) || not (ltb i e.evict_note)
      then none
      else elim (walk is_free e.size st.cache (home % e.size)) [
        | none ↦ none
        | some s ↦ elim (place st s (group_entry i home)) [
          | none ↦ none
          | some st' ↦ some (st', note keep_mask i s notes)
        ]
      ]

  -- The first n groups, from an empty cache; none for a group past the arrays or the mask, a walk that
  -- does not end or a pool that is empty
  unfoldable pub place_groups : ℕ → ℕ → ℕ → Option (Gby × List Note)
  unfolding place_group empty_gby
  place_groups home keep_mask zero = some (e.pool_reset (empty_gby e.size), [])
  place_groups home keep_mask (suc n) = elim (place_groups home keep_mask n) [
    | none ↦ none
    | some st ↦ place_group home keep_mask n st
  ]

  -- The value of the entry that is found is group i.
  unfoldable pub names_group : Gby → ℕ → ℕ → Bool
  names_group st s i = elim (cell st.cache s) [ none ↦ false | some entry ↦ entry.value == i ]

  unfoldable pub count_found : Gby → ℕ → ℕ → ℕ → EvictResult → EvictResult
  unfolding keeps names_group
  count_found st home keep_mask i r = elim (e.find st (i % 256 ∷ []) home) [
    | none ↦ r
    | some s ↦
        if keeps keep_mask i
        then (if names_group st s i then record r { kept_found = suc r.kept_found } else r)
        else record r { stale_found = suc r.stale_found; stale_slot = pos s }
  ]

  -- The loop that looks the first n groups up
  unfoldable pub find_groups : Gby → ℕ → ℕ → ℕ → EvictResult → EvictResult
  unfolding count_found
  find_groups st home keep_mask zero r = r
  find_groups st home keep_mask (suc n) r =
      count_found st home keep_mask n (find_groups st home keep_mask n r)

  unfoldable pub unitseam_gby_evict_scenario_keep : ℕ → ℕ → ℕ → Option EvictResult
  unfolding place_groups find_groups
  unitseam_gby_evict_scenario_keep n home keep_mask = elim (place_groups home keep_mask n) [
    | none ↦ none
    | some placed ↦
        let st = e.evicted placed.0 placed.1 in
        some (
          find_groups st home keep_mask n record {
            n_left = st.n_cached;
            stale_found = 0;
            stale_slot = negsuc 0;
            kept_found = 0;
            pool_balanced = length st.pool_free + st.n_cached == e.size / 2;
          })
  ]

  unfoldable pub unitseam_gby_evict_scenario : ℕ → ℕ → Option EvictResult
  unfolding unitseam_gby_evict_scenario_keep
  unitseam_gby_evict_scenario n_evict home = unitseam_gby_evict_scenario_keep n_evict home 0
