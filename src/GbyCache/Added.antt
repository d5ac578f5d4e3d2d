-- ===== src/GbyCache/Added.antt =====
-- The two scenarios of unit/query/query_executor.h_gby_flush_replay/hooks.cpp over qexec_gby_cache_add
-- and qexec_gby_cache_find. The engine's functions are a parameter; what they call of the fakes is a
-- list, and the one answer that they read back, of mht_get, is handed over.
use dev4_review_workspace.Prelude.{
  ℕ, zero, suc, ◌-◌, Bool, true, false, ◌&&◌, Option, none, some, List, [], ◌∷◌, ◌==◌, pos, negsuc,
  eqb_ℤ,
}
use dev4_review_workspace.Probing.{cell}
use dev4_review_workspace.GbyCache.{Gby}
use dev4_review_workspace.GbyCache.Fakes.{Fakes, fresh, FakeCall, run_calls}

pub record AddEngine : Type 0 where
  -- `memcpy (key, &v, 4)`, in the byte order of the machine
  pub int_bytes : ℕ → List ℕ
  -- qexec_gby_hash_bytes, qexec_gby_cache_add, _find (the slot of the entry) and _clear
  pub hash_bytes : List ℕ → ℕ
  pub cache_add : Gby → Option ℕ → List ℕ → ℕ → Gby × List FakeCall
  pub cache_find : Gby → List ℕ → ℕ → Option ℕ
  pub cache_clear : Gby → Gby

-- QEXEC_BATCH_GBY after `memset`: no cache yet; each group's batch_slot is -1.
abbrev pub new_gby : Gby
new_gby = record { cache = []; pool_free = []; n_cached = 0; batch_slot = λ i. negsuc 0 }

pub record AddResult : Type 0 where
  pub n_cached : ℕ
  pub found_first : Bool
  pub found_last : Bool
  pub copies : ℕ
  pub frees_key : ℕ
  pub left : Gby

pub record SameGroupResult : Type 0 where
  pub n_cached : ℕ
  pub found_a : Bool
  pub found_b : Bool
  pub slot_is_b : Bool
  pub copies : ℕ
  pub frees_key : ℕ
  pub left : Gby

unfoldable pub is_found : Option ℕ → Bool
is_found none = false
is_found (some s) = true

-- `e != NULL && e->value == &vals[g]`
unfoldable pub names : Gby → Option ℕ → ℕ → Bool
names st none g = false
names st (some s) g = elim (cell st.cache s) [ none ↦ false | some entry ↦ entry.value == g ]

-- `e != NULL && vals[g].batch_slot == (int) (e - st.cache)`
unfoldable pub at_slot : Gby → Option ℕ → ℕ → Bool
at_slot st none g = false
at_slot st (some s) g = eqb_ℤ (st.batch_slot g) (pos s)

module _ (e : AddEngine) where
  unfoldable pub add_key : List ℕ → ℕ → Gby × Fakes → Gby × Fakes
  add_key key g (st, s) =
      let answering : Fakes = record s { get_result = some g } in
      let (st', calls) = e.cache_add st (some g) key (e.hash_bytes key) in
      (st', run_calls calls answering)

  unfoldable pub add_keys : ℕ → Gby × Fakes
  unfolding add_key
  add_keys zero = (new_gby, fresh)
  add_keys (suc i) = add_key (e.int_bytes i) i (add_keys i)

  unfoldable pub find_key : Gby → List ℕ → Option ℕ
  find_key st key = e.cache_find st key (e.hash_bytes key)

  -- For n from 1 to 1024
  unfoldable pub h_cache_add_scenario : ℕ → AddResult
  unfolding add_keys find_key is_found names at_slot
  h_cache_add_scenario n =
      let (st, s) = add_keys n in
      let last = find_key st (e.int_bytes (n - 1)) in
      record {
        n_cached = st.n_cached;
        found_first = is_found (find_key st (e.int_bytes 0));
        found_last = names st last (n - 1) && at_slot st last (n - 1);
        copies = s.n_copy;
        frees_key = s.n_free_key;
        left = e.cache_clear st;
      }

  -- { 'a', 0, 0, 0 } and { 'A', 0, 0, 0 }
  abbrev pub key_a : List ℕ
  key_a = 97 ∷ 0 ∷ 0 ∷ 0 ∷ []

  abbrev pub key_b : List ℕ
  key_b = 65 ∷ 0 ∷ 0 ∷ 0 ∷ []

  unfoldable pub h_cache_same_group_scenario : SameGroupResult
  unfolding add_key find_key names at_slot
  h_cache_same_group_scenario =
      let (st, s) = add_key key_b 0 (add_key key_a 0 (new_gby, fresh)) in
      record {
        n_cached = st.n_cached;
        found_a = names st (find_key st key_a) 0;
        found_b = names st (find_key st key_b) 0;
        slot_is_b = at_slot st (find_key st key_b) 0;
        copies = s.n_copy;
        frees_key = s.n_free_key;
        left = e.cache_clear st;
      }
