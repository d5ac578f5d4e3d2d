-- ===== src/WorkerCheck.antt =====
-- The hooks of unit/query/px_scan_checker.worker_sp/hooks.cpp: the checks of the parallel scan over the
-- caches that they share. The engine's checks are a parameter; a cache is the list of its entries, and
-- possible_flags is a number.
use dev4_review_workspace.Prelude.{
  ℕ, zero, suc, ◌≡◌, refl, ◌⊎◌, inl, inr, Bool, true, false, List, [], ◌∷◌, if◌then◌else◌, length,
}

-- Whether the revision has CANNOT_RUN_IN_WORKER and the sibling cache, or the fallbacks
pub data CheckRevision : Type 0 where
  without_siblings with_siblings : CheckRevision

-- xasl_check_cache, xasl_processing_set and the two of xasl_sibling_check_cache, as to their keys
pub record Caches (Xasl : Type 0) : Type 0 where
  pub checked : List Xasl
  pub processing : List Xasl
  pub siblings : List Xasl
  pub outptr_siblings : List Xasl

pub record CheckEngine : Type 1 where
  pub Xasl : Type 0
  pub Regu : Type 0
  -- CANNOT_PARALLEL_SCAN, CANNOT_LIST_MERGE, CANNOT_BUILDVALUE_OPT and CANNOT_RUN_IN_WORKER
  pub cannot_parallel_scan : ℕ
  pub cannot_list_merge : ℕ
  pub cannot_buildvalue_opt : ℕ
  pub cannot_run_in_worker : ℕ
  -- check and sibling_check, with or without is_outptr_list
  pub check : Bool → Regu → Caches Xasl → ℕ × Caches Xasl
  pub sibling_check : Bool → Xasl → Caches Xasl → ℕ × Caches Xasl

module _ (e : CheckEngine) where
  unfoldable pub unitseam_px_flag : CheckRevision → ℕ → ℕ
  unitseam_px_flag revision zero = e.cannot_parallel_scan
  unitseam_px_flag revision (suc zero) = e.cannot_list_merge
  unitseam_px_flag revision (suc (suc zero)) = e.cannot_buildvalue_opt
  unitseam_px_flag with_siblings (suc (suc (suc zero))) = e.cannot_run_in_worker
  unitseam_px_flag without_siblings (suc (suc (suc zero))) = 0
  unitseam_px_flag revision (suc (suc (suc (suc n)))) = 0

  unfoldable pub unitseam_px_has_sibling_cache : CheckRevision → Bool
  unitseam_px_has_sibling_cache with_siblings = true
  unitseam_px_has_sibling_cache without_siblings = false

  unfoldable pub unitseam_px_clear_caches : Caches e.Xasl → Caches e.Xasl
  unitseam_px_clear_caches c = record {
    checked = [];
    processing = [];
    siblings = [];
    outptr_siblings = [];
  }

  unfoldable pub unitseam_px_check_regu : e.Regu → Bool → Caches e.Xasl → ℕ × Caches e.Xasl
  unfolding unitseam_px_clear_caches
  unitseam_px_check_regu regu outptr c =
      let (flags, after) = e.check outptr regu (unitseam_px_clear_caches c) in
      (flags, unitseam_px_clear_caches after)

  unfoldable pub unitseam_px_sibling_check : e.Xasl → Bool → Caches e.Xasl → ℕ × Caches e.Xasl
  unfolding unitseam_px_clear_caches
  unitseam_px_sibling_check xasl outptr c = e.sibling_check outptr xasl (unitseam_px_clear_caches c)

  unfoldable pub unitseam_px_sibling_cache_size : Bool → Caches e.Xasl → ℕ
  unitseam_px_sibling_cache_size is_outptr_list c =
      if is_outptr_list then length c.outptr_siblings else length c.siblings

  -- A call of a hook, by what it is given
  unfoldable run_hooks : List (e.Regu ⊎ e.Xasl) → Bool → Caches e.Xasl → Caches e.Xasl
  unfolding unitseam_px_check_regu unitseam_px_sibling_check
  run_hooks [] outptr c = c
  run_hooks (inl regu ∷ calls) outptr c =
      run_hooks calls outptr (unitseam_px_check_regu regu outptr c).1
  run_hooks (inr xasl ∷ calls) outptr c =
      run_hooks calls outptr (unitseam_px_sibling_check xasl outptr c).1

  -- What a hook answers and leaves does not depend on the calls before it.
  check_regu-run_hooks :
      (calls : List (e.Regu ⊎ e.Xasl)) (regu : e.Regu) (outptr : Bool) (c d : Caches e.Xasl)
      → unitseam_px_check_regu regu outptr (run_hooks calls outptr c)
        ≡ unitseam_px_check_regu regu outptr d
  unfolding unitseam_px_check_regu unitseam_px_clear_caches
  check_regu-run_hooks calls regu outptr c d = refl
