-- ===== src/BloomFilter/Early.antt =====
-- The owner's check of a row before its projection, taken apart (`unitseam_bloom_early_key`), and the
-- key columns' regu variables (`unitseam_bloom_key_regu`), of
-- unit/query/query_hash_join.bloom_filter/hooks.cpp.
use dev4_review_workspace.Prelude.{
  ℕ, zero, suc, ◌+◌, ◌%◌, ◌^◌, Bool, true, false, not, ◌||◌, Option, none, some, List, [], ◌∷◌,
  if◌then◌else◌, ℤ, pos, negsuc, eqb_ℤ,
}
use dev4_review_workspace.BloomFilter.{Macros}
use dev4_review_workspace.BloomFilter.View.{
  Pointer, Stages, Bloom, earlier_bloom, staged_bloom, concurrent_bloom, early_bloom,
}

-- The row's values, the key and the list of the key_cast slots, whose first `key_cnt` hold the key's
pub record EarlyEngine : Type 1 where
  pub World : Type 0
  pub Values : Type 0
  pub Slot : Type 0
  -- DB_IS_NULL, and the slot after pr_clear_value and db_make_null
  pub is_null_slot : Slot → Bool
  pub null_slot : Slot
  -- the key_cast slots of the filter, and their write
  pub key_cast : World → List Slot
  pub set_key_cast : List Slot → World → World
  -- hjoin_bloom_fetch_key_values: its error code, 0 for NO_ERROR, and `skip`; it is handed the members
  -- of the filter that it reads and writes, which its state is not among
  pub fetch_key_values : Bloom → Values → World → ℤ × (Bool × World)
  -- qdata_hash_scan_key and hjoin_bloom_key_absent, of the filter's key
  pub hash_key : World → ℕ
  pub key_absent : Bloom → World → Bool
  -- proc.hashjoin.merge_info.ls_column_cnt of the filter's hash join
  pub ls_column_cnt : World → ℕ

pub record EarlyResult : Type 0 where
  pub result : ℤ
  pub hash : ℕ
  pub cast_mask : ℕ
  pub decision : ℤ

-- `*hash = 0; *cast_mask = 0; *decision = -1`, and a result
unfoldable pub early_answer : ℤ → EarlyResult
early_answer result = record { result = result; hash = 0; cast_mask = 0; decision = negsuc 0 }

unfoldable pub is_set : Pointer → Bool
is_set none = false
is_set (some address) = true

-- unitseam_key_regu_impl and unitseam_bloom_key_regu
unfoldable pub regu_at : Option (ℕ × (ℕ → Pointer)) → ℕ → Pointer
regu_at none k = none
regu_at (some regus) k = regus.1 k

unfoldable pub unitseam_bloom_key_regu : Option Bloom → ℕ → Pointer
unfolding regu_at
unitseam_bloom_key_regu none k = none
unitseam_bloom_key_regu (some (earlier_bloom built disabled c)) k = none
unitseam_bloom_key_regu (some (staged_bloom s c)) k = none
unitseam_bloom_key_regu (some (concurrent_bloom f s c)) k = none
unitseam_bloom_key_regu (some (early_bloom keys f s c)) k = regu_at keys.key_regus k

-- The loop over the first `n` slots from the k-th on: `*cast_mask |= 1 << k` where a slot is not NULL.
-- The 32-bit pattern of the `int`: the bit is not yet set, so that `|=` adds it, and what is past the
-- word is lost.
unfoldable pub mask_of {ℓ} : {Slot : Type ℓ} → (Slot → Bool) → ℕ → ℕ → List Slot → ℕ
mask_of is_null_slot zero k slots = 0
mask_of is_null_slot (suc n) k [] = 0
mask_of is_null_slot (suc n) k (s ∷ slots) =
    ((if is_null_slot s then 0 else 2 ^ k) + mask_of is_null_slot n (suc k) slots) % 2 ^ 32

-- The loop that sets the first `n` slots to NULL
unfoldable pub clear_slots {ℓ} : {Slot : Type ℓ} → Slot → ℕ → List Slot → List Slot
clear_slots null zero slots = slots
clear_slots null (suc n) [] = []
clear_slots null (suc n) (s ∷ slots) = null ∷ clear_slots null n slots

module _ (e : EarlyEngine) (m : Macros) where
  unfoldable pub decide : Bloom → Stages → Bool → ℕ → e.World → EarlyResult
  decide b s skip mask w =
      if skip
      then record {
        result = pos 1;
        hash = 0;
        cast_mask = mask;
        decision = if eqb_ℤ s.state m.ready then pos 1 else negsuc 0;
      }
      else record {
        result = pos 0;
        hash = e.hash_key w;
        cast_mask = mask;
        decision =
            if eqb_ℤ s.state m.ready then (if e.key_absent b w then pos 1 else pos 0) else negsuc 0;
      }

  -- A filter that is set up: the loops, the fetch and the decision
  unfoldable pub fetch_and_decide : Bloom → Stages → e.Values → e.World → EarlyResult × e.World
  unfolding decide early_answer mask_of clear_slots
  fetch_and_decide b s vd w =
      let key_cnt = e.ls_column_cnt w in
      let cleared = e.set_key_cast (clear_slots e.null_slot key_cnt (e.key_cast w)) w in
      let (error, (skip, after)) = e.fetch_key_values b vd cleared in
      if eqb_ℤ error (pos 0)
      then (decide b s skip (mask_of e.is_null_slot key_cnt 0 (e.key_cast after)) after, after)
      else (early_answer (negsuc 1), after)

  -- unitseam_early_key_impl; none is a NULL filter.
  unfoldable pub unitseam_early_key_impl : Option Bloom → e.Values → e.World → EarlyResult × e.World
  unfolding fetch_and_decide early_answer is_set
  unitseam_early_key_impl none vd w = (early_answer (negsuc 2), w)
  unitseam_early_key_impl (some (earlier_bloom built disabled c)) vd w =
      (early_answer (negsuc 2), w)
  unitseam_early_key_impl (some (staged_bloom s c)) vd w = (early_answer (negsuc 2), w)
  unitseam_early_key_impl (some (concurrent_bloom f s c)) vd w = (early_answer (negsuc 2), w)
  unitseam_early_key_impl (some (early_bloom keys f s c)) vd w = elim keys.key_regus [
    | none ↦ (early_answer (negsuc 2), w)
    | some regus ↦
        if not s.set_up || not (is_set c.key) || not (is_set keys.key_cast)
        then (early_answer (negsuc 3), w)
        else fetch_and_decide (early_bloom keys f s c) s vd w
  ]

  unfoldable pub unitseam_bloom_early_key :
      Option Bloom → e.Values → e.World → EarlyResult × e.World
  unfolding unitseam_early_key_impl
  unitseam_bloom_early_key b vd w = unitseam_early_key_impl b vd w
