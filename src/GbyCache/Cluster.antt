-- ===== src/GbyCache/Cluster.antt =====
-- What the placing loop of unit/query/query_executor.gby_cache_evicted/hooks.cpp builds: one
-- linear-probe cluster from the home slot on.
use dev4_review_workspace.Prelude.{
  ℕ, zero, suc, ◌+◌, ◌-◌, not, ◌||◌, ◌/◌, ◌%◌, ◌≤◌, ◌<◌, ◌≡◌, refl, sym, ap, ◌∙◌, subst, inl, inr,
  Bool, true, false, Option, none, some, List, [], ◌∷◌, ◌++◌, arith, ltb, ◌==◌, if◌then◌else◌,
  ==_iff, Bool-cases, length, replicate, length-replicate, length-set, pos,
}
use native.Mathlib.Nat.{mod-lt, mod-eq_of_lt, mod-eq-sub-mod, mod-add-mod}
use dev4_review_workspace.Probing.{cell, walk, cell-set}
use dev4_review_workspace.GbyCache.{not, Entry, Gby, place, after_place, top_of, set_batch_slot}
use dev4_review_workspace.GbyCache.Evict.{
  Note, CacheEngine, keeps, is_free, group_entry, note, empty_gby, place_group, place_groups,
}

-- The walk over d cells that do not stop it, to one that does
walk_past :
    {A : Type 0} (stop : Option A → Bool) (fuel : ℕ) (t : List (Option A)) (h d : ℕ)
    → h < length t
    → d < fuel
    → ((j : ℕ) → j < d → stop (cell t ((h + j) % length t)) ≡ false)
    → stop (cell t ((h + d) % length t)) ≡ true
    → walk stop fuel t h ≡ some ((h + d) % length t)
unfolding walk
walk_past stop zero t h d b l p e = absurd (omega arith)
walk_past stop (suc fuel) t h zero b l p e =
    let same : (h + 0) % length t ≡ h = ap (λ n. n % length t) (omega arith) ∙ mod-eq_of_lt b in
    rw (subst (λ z. stop (cell t z) ≡ true) same e) (ap some (sym same))
walk_past stop (suc fuel) t h (suc d) b l p e =
    let moved : (j : ℕ) → (h + suc j) % length t ≡ ((h + 1) % length t + j) % length t =
      λ j. ap (λ n. n % length t) (omega arith) ∙ sym (mod-add-mod (h + 1) (length t) j) in
    let same : (h + 0) % length t ≡ h = ap (λ n. n % length t) (omega arith) ∙ mod-eq_of_lt b in
    rw (subst (λ z. stop (cell t z) ≡ false) same (p 0 (omega arith))) (
      walk_past stop fuel t ((h + 1) % length t) d (mod-lt (h + 1) (omega arith)) (omega arith)
        (λ j k. subst (λ z. stop (cell t z) ≡ false) (moved j) (p (suc j) (omega arith)))
        (subst (λ z. stop (cell t z) ≡ true) (moved d) e)
      ∙ ap some (sym (moved d)))

-- A step of less than the size from a slot, and the wrap at the end
wrap : (m h j : ℕ) → h < m → j < m → (h + j) % m ≡ (if ltb (h + j) m then h + j else h + j - m)
wrap m h j a b = elim (Bool-cases (ltb (h + j) m)) [
  | inl l ↦ rw (l) (mod-eq_of_lt (ground (arith, l)))
  | inr n ↦ rw (n) (mod-eq-sub-mod (ground (arith, n)) ∙ mod-eq_of_lt (ground (arith, n, a, b)))
]

wrap_inj : (m h j d : ℕ) → h < m → j < m → d < m → (h + j) % m ≡ (h + d) % m → j ≡ d
wrap_inj m h j d a b c e =
    let e' : (if ltb (h + j) m then h + j else h + j - m)
        ≡ (if ltb (h + d) m then h + d else h + d - m) =
      sym (wrap m h j a b) ∙ e ∙ wrap m h d a c in
    ground (arith, e', a, b, c)

-- qexec_gby_pool_reset puts every buffer of the pool on the stack, and nothing else changes.
pub record PoolLaws (e : CacheEngine) : Type 0 where
  pub has_cells : 0 < e.size
  pub reset_pool : length (e.pool_reset (empty_gby e.size)).pool_free ≡ e.size / 2
  pub reset_cache : (e.pool_reset (empty_gby e.size)).cache ≡ replicate e.size none
  pub reset_count : (e.pool_reset (empty_gby e.size)).n_cached ≡ 0

module _ (e : CacheEngine) where
  -- The slot d places from the home one
  abbrev pub slot_at : ℕ → ℕ → ℕ
  slot_at home d = (home % e.size + d) % e.size

  -- The groups of the first n that are to be evicted, each with its place in the cluster
  unfoldable pub cluster_notes : ℕ → ℕ → ℕ → List Note
  unfolding keeps
  cluster_notes home keep_mask zero = []
  cluster_notes home keep_mask (suc n) =
      if keeps keep_mask n
      then cluster_notes home keep_mask n
      else cluster_notes home keep_mask n ++ (record { group = n; slot = slot_at home n } ∷ [])

  -- Group j is j places from the home slot, the other cells are empty, each entry has a buffer of the
  -- pool, and the groups that are to be evicted are noted.
  pub record Cluster (home keep_mask n : ℕ) (p : Gby × List Note) : Type 0 where
    pub sized : length p.0.cache ≡ e.size
    pub counted : p.0.n_cached ≡ n
    pub balanced : length p.0.pool_free + n ≡ e.size / 2
    pub held :
        (j : ℕ)
        → j < n
        → (b : ℕ) × (cell p.0.cache (slot_at home j)
            ≡ some (record (group_entry j home) { buffer = b }))
    pub others : (d : ℕ) → n ≤ d → d < e.size → cell p.0.cache (slot_at home d) ≡ none
    pub slots : (j : ℕ) → j < n → p.0.batch_slot j ≡ pos (slot_at home j)
    pub noted : p.1 ≡ cluster_notes home keep_mask n

  no_cell : (n i : ℕ) → cell {A = Entry} (replicate n none) i ≡ none
  no_cell zero i = refl
  no_cell (suc n) zero = refl
  no_cell (suc n) (suc i) = no_cell n i

  -- The loop's walk ends at the first place after the groups that are placed.
  walk-Cluster :
      (home keep_mask n : ℕ) (p : Gby × List Note)
      → n < e.size
      → Cluster home keep_mask n p
      → walk is_free e.size p.0.cache (home % e.size) ≡ some (slot_at home n)
  unfolding is_free
  walk-Cluster home keep_mask n p l c =
      subst (λ m. walk is_free e.size p.0.cache (home % e.size) ≡ some ((home % e.size + n) % m))
        c.sized
        (walk_past is_free e.size p.0.cache (home % e.size) n
          (subst (λ m. home % e.size < m) (sym c.sized) (mod-lt home (omega arith))) l
          (λ j k.
            let (b, at) = c.held j k in
            subst (λ m. is_free (cell p.0.cache ((home % e.size + j) % m)) ≡ false) (sym c.sized)
              (ap is_free at))
          (subst (λ m. is_free (cell p.0.cache ((home % e.size + n) % m)) ≡ true) (sym c.sized)
            (ap is_free (c.others n (omega arith) l))))

  apart : (a b : ℕ) → a ≡ b → (b == a) ≡ false → ⊥
  apart a b h off = cc ((==_iff b a).1 (sym h))

  after_place-Cluster :
      (home keep_mask n b : ℕ) (rest : List ℕ) (p : Gby × List Note)
      → n < e.size
      → p.0.pool_free ≡ b ∷ rest
      → Cluster home keep_mask n p
      → Cluster home keep_mask (suc n) (
        after_place p.0 (slot_at home n) (group_entry n home) b rest,
        note keep_mask n (slot_at home n) p.1,
      )
  unfolding note cluster_notes set_batch_slot group_entry
  after_place-Cluster home keep_mask n b rest p l top c = record {
    sized =
        length-set p.0.cache (slot_at home n) (some (record (group_entry n home) { buffer = b }))
        ∙ c.sized;
    counted = ap suc c.counted;
    balanced = balance (ap length top);
    held = λ j k. elim (Bool-cases (slot_at home n == slot_at home j)) [
      | inl at ↦
          let same : n ≡ j =
            wrap_inj e.size (home % e.size) n j start l (omega arith) ((==_iff _ _).0 at) in
          (
            b,
            cell-set p.0.cache (slot_at home n) (slot_at home j) (entry_of n) inside
                ∙ rw (at) (ap entry_of same),
          )
      | inr off ↦
          let old : j < n = before j k off in
          let (b', at) = c.held j old in
          (
            b',
            cell-set p.0.cache (slot_at home n) (slot_at home j) (entry_of n) inside ∙ rw (off) at,
          )
    ];
    others = λ d k m. elim (Bool-cases (slot_at home n == slot_at home d)) [
      | inl at ↦
          let same : n ≡ d = wrap_inj e.size (home % e.size) n d start l m ((==_iff _ _).0 at) in
          absurd (omega arith)
      | inr off ↦
          cell-set p.0.cache (slot_at home n) (slot_at home d) (entry_of n) inside
          ∙ rw (off) (c.others d (omega arith) m)
    ];
    slots = λ j k. elim (Bool-cases (j == n)) [
      | inl at ↦
          let same : j ≡ n = (==_iff j n).0 at in
          rw (at) (ap (λ z. pos (slot_at home z)) (sym same))
      | inr off ↦ rw (off) (c.slots j (ground (arith, off, k)))
    ];
    noted = rw (c.noted) refl;
  }
    where
      entry_of : ℕ → Option Entry
      entry_of j = some (record (group_entry j home) { buffer = b })

      start : home % e.size < e.size
      start = mod-lt home (omega arith)

      inside : slot_at home n < length p.0.cache
      inside =
          subst (λ m. slot_at home n < m) (sym c.sized) (mod-lt (home % e.size + n) (omega arith))

      before : (j : ℕ) → j < suc n → (slot_at home n == slot_at home j) ≡ false → j < n
      before j k off = elim (Bool-cases (j == n)) [
        | inl at ↦
            absurd
              (apart (slot_at home j) (slot_at home n) (ap (slot_at home) ((==_iff j n).0 at)) off)
        | inr ne ↦ ground (arith, ne, k)
      ]

      balance : length p.0.pool_free ≡ suc (length rest) → length rest + suc n ≡ e.size / 2
      balance h = omega (arith, c.balanced)

  place_group-Cluster :
      (home keep_mask n : ℕ) (p : Gby × List Note)
      → n < e.size
      → n < e.size / 2
      → n < 32
      → n < e.evict_note
      → Cluster home keep_mask n p
      → (q : Gby × List Note) × (place_group e home keep_mask n p ≡ some q)
        × Cluster home keep_mask (suc n) q
  unfolding place_group place
  place_group-Cluster home keep_mask n p l room shift noted c =
      let inside : (not (ltb n 32) || not (ltb n e.evict_note)) ≡ false =
        ground (arith, shift, noted) in
      let (b, rest, top) = top_of p.0.pool_free (omega (arith, c.balanced)) in
      (
        (
          after_place p.0 (slot_at home n) (group_entry n home) b rest,
          note keep_mask n (slot_at home n) p.1,
        ),
        rw (place_group, inside, walk-Cluster home keep_mask n p l c, place, top) refl,
        after_place-Cluster home keep_mask n b rest p l top c,
      )

  module _ (laws : PoolLaws e) where
    -- The loop that places n groups, at most 32, as the arrays have elements and as the pool has
    -- buffers, ends, and leaves them in the cells from the home slot on, in order, the other cells empty, one buffer taken for each, and
    -- the notes for exactly the groups whose bit of the mask is 0.
    pub place_groups-Cluster :
        (home keep_mask n : ℕ)
        → n ≤ e.size / 2
        → n ≤ 32
        → n ≤ e.evict_note
        → (p : Gby × List Note) × (place_groups e home keep_mask n ≡ some p)
          × Cluster home keep_mask n p
    unfolding place_groups cluster_notes
    place_groups-Cluster home keep_mask zero l shift room = (
      (e.pool_reset (empty_gby e.size), []),
      refl,
      record {
        sized = ap length laws.reset_cache ∙ length-replicate e.size none;
        counted = laws.reset_count;
        balanced = omega (arith, laws.reset_pool);
        held = λ j k. absurd (omega arith);
        others = λ d k m. rw (laws.reset_cache) (no_cell e.size (slot_at home d));
        slots = λ j k. absurd (omega arith);
        noted = refl;
      },
    )
    place_groups-Cluster home keep_mask (suc n) l shift room =
        let (p, done, c) =
          place_groups-Cluster home keep_mask n (omega arith) (omega arith) (omega arith) in
        let (q, step, c') =
          place_group-Cluster home keep_mask n p (omega (arith, laws.has_cells)) (omega arith)
            (omega arith) (omega arith) c in
        (q, rw (place_groups, done) step, c')
