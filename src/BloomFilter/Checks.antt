-- ===== src/BloomFilter/Checks.antt =====
-- The decision alone and the row count of unit/query/query_hash_join.bloom_filter/hooks.cpp, against
-- the view that the suite reads.
use dev4_review_workspace.Prelude.{
  ◌≡◌, refl, sym, ◌∙◌, inl, inr, Bool, true, false, not, ◌||◌, some, if◌then◌else◌, Bool-cases, ℤ,
  negsuc, eqb_ℤ,
}
use dev4_review_workspace.BloomFilter.{is_staged, Macros, unitseam_bloom_consts_of}
use dev4_review_workspace.BloomFilter.View.{
  Pointer, Common, Bloom, earlier_bloom, staged_bloom, concurrent_bloom, early_bloom, layout_of,
  common, unitseam_bloom_view_of, view_branch, view_stages, view_earlier, unitseam_view_v5,
  view_common, view_first_input,
}
use dev4_review_workspace.BloomFilter.Owner.{
  OwnerEngine, set_up_of, disabled_of, in_state, with_common, flag, unitseam_bloom_set_seen,
  unitseam_bloom_check_bound, check_staged, check_earlier, restore_counters,
}

-- The row count that is set is the one that the view has, and nothing else of the view changes; the
-- earlier layout's view has -1.
pub unitseam_bloom_set_seen-view :
    (m : Macros) (b : Bloom) (seen : ℤ)
    → unitseam_bloom_view_of m (some (unitseam_bloom_set_seen b seen))
      ≡ (record (unitseam_bloom_view_of m (some b)) {
        seen = if is_staged (layout_of b) then seen else negsuc 0;
      })
unfolding unitseam_bloom_set_seen unitseam_bloom_view_of view_branch view_stages view_earlier
    unitseam_view_v5 view_common view_first_input common is_staged layout_of
unitseam_bloom_set_seen-view m (earlier_bloom built disabled c) seen = refl
unitseam_bloom_set_seen-view m (staged_bloom s c) seen = refl
unitseam_bloom_set_seen-view m (concurrent_bloom f s c) seen = refl
unitseam_bloom_set_seen-view m (early_bloom k f s c) seen = refl

-- The view's state is the one that the constants name READY.
unfoldable pub sees_ready : Macros → Bloom → Bool
sees_ready m b =
    eqb_ℤ (unitseam_bloom_view_of m (some b)).state (unitseam_bloom_consts_of (layout_of b) m).ready

ready_staged :
    (m : Macros) (b : Bloom) → is_staged (layout_of b) ≡ true → sees_ready m b ≡ in_state m.ready b
unfolding sees_ready unitseam_bloom_view_of view_branch view_stages view_earlier unitseam_view_v5
    view_common view_first_input common is_staged layout_of in_state unitseam_bloom_consts_of
ready_staged m (earlier_bloom built disabled c) h = cc
ready_staged m (staged_bloom s c) h = refl
ready_staged m (concurrent_bloom f s c) h = refl
ready_staged m (early_bloom k f s c) h = refl

ready_earlier :
    (m : Macros) (b : Bloom)
    → is_staged (layout_of b) ≡ false
    → sees_ready m b ≡ not (not (set_up_of b) || disabled_of b)
unfolding sees_ready unitseam_bloom_view_of view_branch view_stages view_earlier unitseam_view_v5
    view_common view_first_input common is_staged layout_of set_up_of disabled_of
    unitseam_bloom_consts_of
ready_earlier m (earlier_bloom true true c) h = refl
ready_earlier m (earlier_bloom true false c) h = refl
ready_earlier m (earlier_bloom false d c) h = refl
ready_earlier m (staged_bloom s c) h = cc
ready_earlier m (concurrent_bloom f s c) h = cc
ready_earlier m (early_bloom k f s c) h = cc

answers : (failed skip : Bool) → eqb_ℤ (if failed then negsuc 1 else flag skip) (negsuc 0) ≡ false
unfolding flag
answers true skip = refl
answers false true = refl
answers false false = refl

module _ (e : OwnerEngine) (m : Macros) where
  check_staged-result :
      (b : Bloom) (r : e.Record) (w : e.World)
      → eqb_ℤ (check_staged e m b r w).0 (negsuc 0) ≡ not (in_state m.ready b)
  unfolding check_staged
  check_staged-result b r w = elim (Bool-cases (in_state m.ready b)) [
    | inl e ↦ rw (check_staged, e) (answers _ _)
    | inr n ↦ rw (check_staged, n) refl
  ]

  check_earlier-result :
      (b : Bloom) (r : e.Record) (w : e.World)
      → eqb_ℤ (check_earlier e m b r w).0 (negsuc 0) ≡ (not (set_up_of b) || disabled_of b)
  unfolding check_earlier
  check_earlier-result b r w = elim (Bool-cases (not (set_up_of b) || disabled_of b)) [
    | inl e ↦ rw (check_earlier, e) refl
    | inr n ↦ rw (check_earlier, n) (answers _ _)
  ]

  -- The decision is -1 exactly where the filter is not seen as READY, in each layout.
  pub unitseam_bloom_check_bound-ready :
      (b : Bloom) (r : e.Record) (w : e.World)
      → eqb_ℤ (unitseam_bloom_check_bound e m (some b) r w).0 (negsuc 0) ≡ not (sees_ready m b)
  unfolding unitseam_bloom_check_bound
  unitseam_bloom_check_bound-ready b r w = elim (Bool-cases (is_staged (layout_of b))) [
    | inl s ↦ rw (s, ready_staged m b s) (check_staged-result b r w)
    | inr n ↦ rw (n, ready_earlier m b n) (check_earlier-result b r w ∙ twice _)
  ]
    where
      twice : (b : Bool) → b ≡ not (not b)
      twice true = refl
      twice false = refl

  view_counters :
      (b : Bloom)
      → ((unitseam_bloom_view_of m (some b)).tested ≡ (common b).tested)
        × ((unitseam_bloom_view_of m (some b)).skipped ≡ (common b).skipped)
  unfolding unitseam_bloom_view_of view_branch view_stages view_earlier unitseam_view_v5 view_common
      view_first_input common
  view_counters (earlier_bloom built disabled c) = (refl, refl)
  view_counters (staged_bloom s c) = (refl, refl)
  view_counters (concurrent_bloom f s c) = (refl, refl)
  view_counters (early_bloom k f s c) = (refl, refl)

  restore_counters-counters :
      (c : Common) (b : Bloom)
      → ((common (restore_counters e m c b)).tested ≡ c.tested)
        × ((common (restore_counters e m c b)).skipped ≡ c.skipped)
  unfolding restore_counters with_common common
  restore_counters-counters c (earlier_bloom built disabled c') = (refl, refl)
  restore_counters-counters c (staged_bloom s c') = (refl, refl)
  restore_counters-counters c (concurrent_bloom f s c') = (refl, refl)
  restore_counters-counters c (early_bloom k f s c') = (refl, refl)

  -- The two counters are the same in both filters.
  pub record SameCounters (b c : Bloom) : Type 0 where
    pub tested : (common b).tested ≡ (common c).tested
    pub skipped : (common b).skipped ≡ (common c).skipped

  module _
      (keeps : (b : Bloom) (k : Pointer) (r : e.Record) (w : e.World)
        → SameCounters (e.check b k r w).1.1.0 b) where
    check_staged-counters :
        (b : Bloom) (r : e.Record) (w : e.World) → SameCounters (check_staged e m b r w).1.0 b
    unfolding check_staged
    check_staged-counters b r w = elim (Bool-cases (in_state m.ready b)) [
      | inl h ↦ rw (check_staged, h) (keeps b (common b).key r w)
      | inr n ↦ rw (check_staged, n) (record { tested = refl; skipped = refl })
    ]

    check_earlier-counters :
        (b : Bloom) (r : e.Record) (w : e.World) → SameCounters (check_earlier e m b r w).1.0 b
    unfolding check_earlier
    check_earlier-counters b r w = elim (Bool-cases (not (set_up_of b) || disabled_of b)) [
      | inl h ↦ rw (check_earlier, h) (record { tested = refl; skipped = refl })
      | inr n ↦
          rw (check_earlier, n)
            (record {
              tested = (restore_counters-counters (common b) (e.skip_record b r w).1.0).0;
              skipped = (restore_counters-counters (common b) (e.skip_record b r w).1.0).1;
            })
    ]

    -- The decision alone leaves the two counters of the view as they are, in each layout, where the
    -- engine's hjoin_bloom_check does; what hjoin_bloom_skip_record counts does not matter.
    pub unitseam_bloom_check_bound-counters :
        (b : Bloom) (r : e.Record) (w : e.World)
        → ((unitseam_bloom_view_of m (unitseam_bloom_check_bound e m (some b) r w).1.0).tested
            ≡ (unitseam_bloom_view_of m (some b)).tested)
          × ((unitseam_bloom_view_of m (unitseam_bloom_check_bound e m (some b) r w).1.0).skipped
              ≡ (unitseam_bloom_view_of m (some b)).skipped)
    unfolding unitseam_bloom_check_bound
    unitseam_bloom_check_bound-counters b r w = elim (Bool-cases (is_staged (layout_of b))) [
      | inl s ↦ rw (s) (same (check_staged e m b r w).1.0 b (check_staged-counters b r w))
      | inr n ↦ rw (n) (same (check_earlier e m b r w).1.0 b (check_earlier-counters b r w))
    ]
      where
        same :
            (b c : Bloom)
            → SameCounters b c
            → ((unitseam_bloom_view_of m (some b)).tested
                ≡ (unitseam_bloom_view_of m (some c)).tested)
              × ((unitseam_bloom_view_of m (some b)).skipped
                  ≡ (unitseam_bloom_view_of m (some c)).skipped)
        same b c h = (
          (view_counters b).0 ∙ h.tested ∙ sym (view_counters c).0,
          (view_counters b).1 ∙ h.skipped ∙ sym (view_counters c).1,
        )

-- A filter that the view does not show as OFF has -1 for the reason, in each layout.
pub unitseam_bloom_view_of-off_reason :
    (m : Macros) (b : Bloom)
    → eqb_ℤ (unitseam_bloom_view_of m (some b)).state (unitseam_bloom_consts_of (layout_of b) m).off
      ≡ false
    → (unitseam_bloom_view_of m (some b)).off_reason ≡ negsuc 0
unfolding unitseam_bloom_view_of view_branch view_stages view_earlier unitseam_view_v5 view_common
    view_first_input common is_staged layout_of unitseam_bloom_consts_of
unitseam_bloom_view_of-off_reason m (earlier_bloom true true c) h = cc
unitseam_bloom_view_of-off_reason m (earlier_bloom true false c) h = refl
unitseam_bloom_view_of-off_reason m (earlier_bloom false d c) h = refl
unitseam_bloom_view_of-off_reason m (staged_bloom s c) h = rw (h) refl
unitseam_bloom_view_of-off_reason m (concurrent_bloom f s c) h = rw (h) refl
unitseam_bloom_view_of-off_reason m (early_bloom k f s c) h = rw (h) refl
