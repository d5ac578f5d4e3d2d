-- ===== src/BloomFilter/Steps.antt =====
-- The steps of the fill of unit/query/query_hash_join.bloom_filter/hooks.cpp: the set-up, the build of
-- the earlier layout and the fill of the others.
use dev4_review_workspace.Prelude.{
  not, pos, eqb_ℤ, ◌≡◌, refl, sym, ap, ◌∙◌, subst, ◌⊎◌, inl, inr, Bool, true, false, Bool-cases, ℤ,
}
use dev4_review_workspace.BloomFilter.{
  Layout, earlier, staged, concurrent, early, is_staged, is_concurrent, Macros,
}
use dev4_review_workspace.BloomFilter.View.{
  Bloom, earlier_bloom, staged_bloom, concurrent_bloom, early_bloom, layout_of,
}
use dev4_review_workspace.BloomFilter.Owner.{
  OwnerEngine, set_up_of, in_state, fill_waiting, set_up_first, unitseam_fill_now_impl,
  unitseam_bloom_fill_now,
}

not_both : (l : Layout) → is_staged l ≡ false → is_concurrent l ≡ true → ⊥
unfolding is_staged is_concurrent
not_both earlier n c = cc
not_both staged n c = cc
not_both concurrent n c = cc
not_both early n c = cc

-- The first input is done, where the layout says whether it is.
unfoldable pub first_ended : Bloom → Bool
first_ended (earlier_bloom built disabled c) = true
first_ended (staged_bloom s c) = true
first_ended (concurrent_bloom f s c) = not (eqb_ℤ f.first_done (pos 0))
first_ended (early_bloom k f s c) = not (eqb_ℤ f.first_done (pos 0))

first_ended_of_layout : (b : Bloom) → is_concurrent (layout_of b) ≡ false → first_ended b ≡ true
unfolding is_concurrent layout_of first_ended
first_ended_of_layout (earlier_bloom built disabled c) h = refl
first_ended_of_layout (staged_bloom s c) h = refl
first_ended_of_layout (concurrent_bloom f s c) h = cc
first_ended_of_layout (early_bloom k f s c) h = cc

module _ (e : OwnerEngine) (m : Macros) where
  -- What the engine's functions do, as the comments of hooks.cpp and the case b12_failures of
  -- unit/query/query_hash_join.bloom_filter/test.cpp have it: a set-up, an earlier layout's build and a
  -- fill that fail leave the filter set up too, and turned off.
  pub record FillLaws : Type 0 where
    pub setup_layout : (b : Bloom) (w : e.World) → layout_of (e.setup b w).0 ≡ layout_of b
    pub fill_layout : (b : Bloom) (w : e.World) → layout_of (e.fill b w).0 ≡ layout_of b
    pub build_layout : (b : Bloom) (w : e.World) → layout_of (e.build b w).0 ≡ layout_of b
    pub setup_sets_up : (b : Bloom) (w : e.World) → set_up_of (e.setup b w).0 ≡ true
    pub build_sets_up : (b : Bloom) (w : e.World) → set_up_of (e.build b w).0 ≡ true
    pub fill_keeps_set_up :
        (b : Bloom) (w : e.World) → set_up_of b ≡ true → set_up_of (e.fill b w).0 ≡ true
    -- with the first input done, a fill ends in READY or OFF, of a filter that is set up or of a
    -- concurrent layout, whose fill sets up itself
    pub fill_ends :
        (b : Bloom) (w : e.World)
        → (set_up_of b ≡ true) ⊎ (is_concurrent (layout_of b) ≡ true)
        → first_ended b ≡ true
        → in_state m.waiting (e.fill b w).0 ≡ false

  module _ (laws : FillLaws) where
    -- What the fill leaves in a filter of a layout
    record Done (layout : Layout) (b : Bloom) : Type 0 where
      same_layout : layout_of b ≡ layout
      past_waiting : in_state m.waiting b ≡ false
      is_up : is_concurrent layout ≡ false → set_up_of b ≡ true

    in_state_earlier : (v : ℤ) (b : Bloom) → is_staged (layout_of b) ≡ false → in_state v b ≡ false
    unfolding in_state is_staged layout_of
    in_state_earlier v (earlier_bloom built disabled c) h = refl
    in_state_earlier v (staged_bloom s c) h = cc
    in_state_earlier v (concurrent_bloom f s c) h = cc
    in_state_earlier v (early_bloom k f s c) h = cc

    fill_waiting-Done :
        (layout : Layout) (b : Bloom) (w : e.World)
        → layout_of b ≡ layout
        → (is_concurrent layout ≡ false → set_up_of b ≡ true)
        → first_ended b ≡ true
        → Done layout (fill_waiting e m b w).0
    unfolding fill_waiting
    fill_waiting-Done layout b w l u ended = elim (Bool-cases (in_state m.waiting b)) [
      | inl still ↦
          rw (fill_waiting, still)
            (record {
              same_layout = laws.fill_layout b w ∙ l;
              past_waiting = laws.fill_ends b w (prepared (is_concurrent layout) refl) ended;
              is_up = λ c. laws.fill_keeps_set_up b w (u c);
            })
      | inr past ↦
          rw (fill_waiting, past) (record { same_layout = l; past_waiting = past; is_up = u })
    ]
      where
        prepared :
            (c : Bool)
            → is_concurrent layout ≡ c
            → (set_up_of b ≡ true) ⊎ (is_concurrent (layout_of b) ≡ true)
        prepared true c = inr (ap is_concurrent l ∙ c)
        prepared false c = inl (u c)

    set_up_first-up :
        (b : Bloom) (w : e.World)
        → (layout_of (set_up_first e m b w).0 ≡ layout_of b)
          × (set_up_of (set_up_first e m b w).0 ≡ true)
    unfolding set_up_first
    set_up_first-up b w = elim (Bool-cases (set_up_of b)) [
      | inl up ↦ rw (set_up_first, up) (refl, up)
      | inr down ↦ rw (set_up_first, down) (laws.setup_layout b w, laws.setup_sets_up b w)
    ]

    fill_now-Done :
        (b : Bloom) (w : e.World)
        → first_ended b ≡ true
        → Done (layout_of b) (unitseam_bloom_fill_now e m b w).0
    unfolding unitseam_bloom_fill_now unitseam_fill_now_impl
    fill_now-Done b w ended = elim (Bool-cases (is_staged (layout_of b))) [
      | inl s ↦ elim (Bool-cases (is_concurrent (layout_of b))) [
        | inl c ↦
            rw (s, c)
              (fill_waiting-Done (layout_of b) b w refl
                (λ n. absurd (both (is_concurrent (layout_of b)) c n)) ended)
        | inr n ↦
            rw (s, n)
              (fill_waiting-Done (layout_of b) (set_up_first e m b w).0 (set_up_first e m b w).1
                (set_up_first-up b w).0 (λ _. (set_up_first-up b w).1)
                (first_ended_of_layout (set_up_first e m b w).0
                  (ap is_concurrent (set_up_first-up b w).0 ∙ n)))
      ]
      | inr n ↦ elim (Bool-cases (set_up_of b)) [
        | inl up ↦
            rw (n, up)
              (record {
                same_layout = refl;
                past_waiting = in_state_earlier m.waiting b n;
                is_up = λ _. up;
              })
        | inr down ↦
            rw (n, down)
              (record {
                same_layout = laws.build_layout b w;
                past_waiting =
                    in_state_earlier m.waiting (e.build b w).0
                      (ap is_staged (laws.build_layout b w) ∙ n);
                is_up = λ _. laws.build_sets_up b w;
              })
      ]
    ]
      where
        both : (b : Bool) → b ≡ true → b ≡ false → ⊥
        both b t f = cc

    Done-fill_now :
        (b : Bloom) (w : e.World) → Done (layout_of b) b → unitseam_bloom_fill_now e m b w ≡ (b, w)
    unfolding unitseam_bloom_fill_now unitseam_fill_now_impl fill_waiting set_up_first
    Done-fill_now b w d = elim (Bool-cases (is_staged (layout_of b))) [
      | inl s ↦ elim (Bool-cases (is_concurrent (layout_of b))) [
        | inl c ↦ rw (s, c, fill_waiting, d.past_waiting) refl
        | inr n ↦ rw (s, n, set_up_first, d.is_up n, fill_waiting, d.past_waiting) refl
      ]
      | inr n ↦ elim (Bool-cases (is_concurrent (layout_of b))) [
        | inl c ↦ absurd (not_both (layout_of b) n c)
        | inr k ↦ rw (n, d.is_up k) refl
      ]
    ]

    -- With the first input done, the fill is done once: when it runs again the filter and the state stay
    -- as they are, in each layout and state. The engine's fill is assumed to end in READY or OFF only for
    -- a filter that is set up or that is of a concurrent layout.
    pub unitseam_bloom_fill_now-again :
        (b : Bloom) (w : e.World)
        → first_ended b ≡ true
        → unitseam_bloom_fill_now e m
            (unitseam_bloom_fill_now e m b w).0
            (unitseam_bloom_fill_now e m b w).1
          ≡ unitseam_bloom_fill_now e m b w
    unitseam_bloom_fill_now-again b w ended =
        let d = fill_now-Done b w ended in
        Done-fill_now (unitseam_bloom_fill_now e m b w).0 (unitseam_bloom_fill_now e m b w).1
          (subst (λ l. Done l (unitseam_bloom_fill_now e m b w).0) (sym d.same_layout) d)
