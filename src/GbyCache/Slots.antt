-- ===== src/GbyCache/Slots.antt =====
-- The groups' slots in the flush scenario of unit/query/query_executor.h_gby_flush_replay/hooks.cpp.
use dev4_review_workspace.Prelude.{
  ℕ, zero, suc, ◌+◌, ◌*◌, ◌/◌, ◌%◌, ◌≤◌, ◌<◌, ◌≡◌, refl, sym, ap, ◌∙◌, subst, inl, inr, false,
  Option, none, some, List, arith, ltb, ◌==◌, if◌then◌else◌, ==_iff, Bool-cases, length, replicate,
  length-replicate, length-set, pos, negsuc,
}
use native.Mathlib.Nat.{mod-lt, mod-mod_of_dvd}
use Prim.Native.Nat.{◌∣◌}
use dev4_review_workspace.Probing.{cell, cell-set}
use dev4_review_workspace.GbyCache.{Entry, Gby, place, after_place, top_of}
use dev4_review_workspace.GbyCache.Fakes.{max_calls}
use dev4_review_workspace.GbyCache.Flush.{
  FlushEngine, group_of, flush_entry, slot_of, empty_flush, fill_groups,
}

-- Below 64 the number of a group can be read off its slot: 45 * 37 is 1 modulo 64.
inverse : (g : ℕ) → g < 64 → (45 * ((37 * g + 5) % 64) + 31) % 64 ≡ g
inverse g h = omega (arith)

-- The pointer of a group among the first ng is read as that group, and any other as -1.
pub group_of_lem : (ng a : ℕ) → group_of ng (some a) ≡ (if ltb a ng then pos a else negsuc 0)
unfolding group_of
group_of_lem zero a = ground arith
group_of_lem (suc n) a = ground (arith, group_of_lem n a)

module _ (e : FlushEngine) (whole : 64 ∣ e.size) where
  slot_inj : (g h : ℕ) → g < 64 → h < 64 → slot_of e g ≡ slot_of e h → g ≡ h
  unfolding slot_of
  slot_inj g h a b same =
      let low : (37 * g + 5) % 64 ≡ (37 * h + 5) % 64 =
        sym (mod-mod_of_dvd 64 (37 * g + 5) whole)
        ∙ ap (λ z. z % 64) same
        ∙ mod-mod_of_dvd 64 (37 * h + 5) whole in
      sym (inverse g a) ∙ ap (λ z. (45 * z + 31) % 64) low ∙ inverse h b

  -- The first ng groups stand each in its own slot, with a buffer of the pool.
  pub record Filled (ng : ℕ) (st : Gby) : Type 0 where
    pub sized : length st.cache ≡ e.size
    pub counted : st.n_cached ≡ ng
    pub balanced : length st.pool_free + ng ≡ e.size / 2
    pub held :
        (g : ℕ)
        → g < ng
        → (b : ℕ) × (cell st.cache (slot_of e g)
            ≡ some (record (flush_entry g (slot_of e g)) { buffer = b }))

  in_table : (g : ℕ) → 0 < e.size → slot_of e g < e.size
  unfolding slot_of
  in_table g h = mod-lt (37 * g + 5) h

  before : (g j : ℕ) → j < suc g → (slot_of e g == slot_of e j) ≡ false → j < g
  before g j k off = elim (Bool-cases (g == j)) [
    | inl at ↦ absurd (apart (ap (slot_of e) ((==_iff g j).0 at)) off)
    | inr ne ↦ ground (arith, ne, k)
  ]
    where
      apart : {a b : ℕ} → a ≡ b → (a == b) ≡ false → ⊥
      apart same n = cc ((==_iff _ _).1 same)

  place-Filled :
      (g : ℕ) (st : Gby)
      → 0 < e.size
      → g < max_calls
      → g < e.size / 2
      → Filled g st
      → (q : Gby) × (place st (slot_of e g) (flush_entry g (slot_of e g)) ≡ some q)
        × Filled (suc g) q
  unfolding place
  place-Filled g st some_size few room f =
      let (b, rest, top) = top_of st.pool_free (omega (arith, f.balanced)) in
      let entry : Option Entry = some (record (flush_entry g (slot_of e g)) { buffer = b }) in
      let inside : slot_of e g < length st.cache =
        subst (λ m. slot_of e g < m) (sym f.sized) (in_table g some_size) in
      (
        after_place st (slot_of e g) (flush_entry g (slot_of e g)) b rest,
        rw (place, top) refl,
        record {
          sized = length-set st.cache (slot_of e g) entry ∙ f.sized;
          counted = ap suc f.counted;
          balanced = balance rest st.pool_free g (e.size / 2) (ap length top) f.balanced;
          held = λ j k. elim (Bool-cases (slot_of e g == slot_of e j)) [
            | inl at ↦
                let same : g ≡ j =
                  slot_inj g j few (omega arith) ((==_iff (slot_of e g) (slot_of e j)).0 at) in
                (
                  b,
                  cell-set st.cache (slot_of e g) (slot_of e j) entry inside
                      ∙ rw (at) (
                          ap (λ z. some (record (flush_entry z (slot_of e z)) { buffer = b }))
                            same),
                )
            | inr off ↦
                let (b', at) = f.held j (before g j k off) in
                (b', cell-set st.cache (slot_of e g) (slot_of e j) entry inside ∙ rw (off) at)
          ];
        },
      )
    where
      balance :
          (r xs : List ℕ) (g h : ℕ)
          → length xs ≡ suc (length r)
          → length xs + g ≡ h
          → length r + suc g ≡ h
      balance r xs g h l s = omega (arith, l, s)

  -- The loop that fills the cache ends with each of its groups, at most 64 and as many as the pool has
  -- buffers, in a slot of its own, where the cache's size is a multiple of 64 and the reset puts every
  -- buffer on the stack of an empty cache.
  pub fill_groups-Filled :
      (ng : ℕ)
      → 0 < e.size
      → (empty_flush e).cache ≡ replicate e.size none
      → (empty_flush e).n_cached ≡ 0
      → length (empty_flush e).pool_free ≡ e.size / 2
      → ng ≤ max_calls
      → ng ≤ e.size / 2
      → (st : Gby) × (fill_groups e ng ≡ some st) × Filled ng st
  unfolding fill_groups
  fill_groups-Filled zero some_size empty none_cached pool few room = (
    empty_flush e,
    refl,
    record {
      sized = ap length empty ∙ length-replicate e.size none;
      counted = none_cached;
      balanced = omega (arith, pool);
      held = λ g h. absurd (omega arith);
    },
  )
  fill_groups-Filled (suc g) some_size empty none_cached pool few room =
      let (st, done, f) =
        fill_groups-Filled g some_size empty none_cached pool (omega arith) (omega arith) in
      let (q, step, f') = place-Filled g st some_size (omega arith) (omega arith) f in
      (q, rw (fill_groups, done) step, f')
