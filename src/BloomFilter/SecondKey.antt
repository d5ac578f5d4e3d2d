-- ===== src/BloomFilter/SecondKey.antt =====
-- The key of a second row by itself (`unitseam_hj_second_key`) against the join's decision for a pair
-- (`unitseam_hj_join_pair`), of unit/query/query_hash_join.bloom_filter/hooks.cpp.
use dev4_review_workspace.Prelude.{
  ℕ, ◌≡◌, ◌≢◌, refl, sym, ap, ◌∙◌, inl, inr, Bool, true, false, not, ◌&&◌, Option, none, some,
  arith, if◌then◌else◌, Bool-cases, Option-cases, ℤ, pos, negsuc, eqb_ℤ, eqb_ℤ_iff,
}
use dev4_review_workspace.BloomFilter.Join.{
  FetchInfo, Fetched, JoinEngine, Proc, Pair, first_info, second_info, hash_pair, compare_pair,
  judge_pair, fetch_second, fetch_first, unitseam_hj_join_pair, unitseam_hj_second_key,
}
use dev4_review_workspace.BloomFilter.Freed.{held, held_none, held_some}

no_error : (a : ℤ) → eqb_ℤ a (pos 0) ≡ false → a ≡ pos 0 → ⊥
no_error a n z = cc ((eqb_ℤ_iff a (pos 0)).1 z)

-- Two fetches of a row into keys that are allocated, with the same key to compare with, agree where
-- both return NO_ERROR: on the NULL key, and on the hash of a key that is not NULL.
pub record FetchLaws (e : JoinEngine) : Type 0 where
  pub fetch_same :
      (info : FetchInfo e.Input e.Domains) (r : e.Record) (k l c : Option e.Key) (w v : e.World)
      → held k ≡ 1
      → held l ≡ 1
      → (e.fetch_key info r k c w).0.error ≡ pos 0
      → (e.fetch_key info r l c v).0.error ≡ pos 0
      → ((e.fetch_key info r k c w).0.skip ≡ (e.fetch_key info r l c v).0.skip)
        × ((e.fetch_key info r k c w).0.skip ≡ false
            → e.hash_key (e.fetch_key info r k c w).0.key
              ≡ e.hash_key (e.fetch_key info r l c v).0.key)

module _ (e : JoinEngine) (laws : FetchLaws e) where
  -- What the comparison leaves as it was
  compare-second :
      (proc : Proc e) (o : Bool) (r : e.Record) (k1 k2 k3 : Option e.Key) (p : Pair) (w : e.World)
      → ((compare_pair e proc o r k1 k2 k3 p w).0.second_null ≡ p.second_null)
        × ((compare_pair e proc o r k1 k2 k3 p w).0.second_hash ≡ p.second_hash)
  unfolding compare_pair
  compare-second proc o r k1 k2 k3 p w =
      elim (Bool-cases (eqb_ℤ (e.fetch_key (second_info e proc o) r k3 k1 w).0.error (pos 0))) [
        | inl h ↦ rw (compare_pair, h) (refl, refl)
        | inr n ↦ rw (compare_pair, n) (refl, refl)
      ]

  judge-second :
      (proc : Proc e) (o : Bool) (r : e.Record) (k1 k2 k3 : Option e.Key) (n1 n2 : Bool)
      (w : e.World)
      → ((judge_pair e proc o r k1 k2 k3 n1 n2 w).0.second_null ≡ n2)
        × ((judge_pair e proc o r k1 k2 k3 n1 n2 w).0.second_hash
            ≡ (if n2 then 0 else e.hash_key k2))
  unfolding judge_pair hash_pair
  judge-second proc o r k1 k2 k3 true n2 w = (refl, refl)
  judge-second proc o r k1 k2 k3 false true w = (refl, refl)
  judge-second proc o r k1 k2 k3 false false w =
      compare-second proc o r k1 k2 k3 (hash_pair e k1 k2 false false) w

  -- What a fetch of the second row says: the error code 0 or not, the NULL key and the hash
  unfoldable second_of : Fetched e.Key → ℤ × ℕ
  second_of f = (
    if not (eqb_ℤ f.error (pos 0)) then negsuc 0 else if f.skip then pos 1 else pos 0,
    if eqb_ℤ f.error (pos 0) && not f.skip then e.hash_key f.key else 0,
  )

  second_of_ok :
      (f : Fetched e.Key)
      → eqb_ℤ f.error (pos 0) ≡ true
      → second_of f ≡ (if f.skip then pos 1 else pos 0, if f.skip then 0 else e.hash_key f.key)
  unfolding second_of
  second_of_ok f h = elim (Bool-cases f.skip) [ inl t ↦ rw (h, t) refl | inr n ↦ rw (h, n) refl ]

  second_of_same :
      (info : FetchInfo e.Input e.Domains) (r : e.Record) (k l : Option e.Key) (w v : e.World)
      → held k ≡ 1
      → held l ≡ 1
      → (e.fetch_key info r k none w).0.error ≡ pos 0
      → (e.fetch_key info r l none v).0.error ≡ pos 0
      → second_of (e.fetch_key info r k none w).0 ≡ second_of (e.fetch_key info r l none v).0
  unfolding second_of
  second_of_same info r k l w v hk hl ek el =
      let (skip, hash) = laws.fetch_same info r k l none w v hk hl ek el in
      elim (Bool-cases (e.fetch_key info r k none w).0.skip) [
        | inl t ↦ rw (ek, el, ← skip, t) refl
        | inr n ↦ rw (ek, el, ← skip, n, hash n) refl
      ]

  -- A result that is not -1 is of a fetch without an error.
  second_of_error : (f : Fetched e.Key) → (second_of f).0 ≢ negsuc 0 → f.error ≡ pos 0
  unfolding second_of
  second_of_error f h = elim (Bool-cases (eqb_ℤ f.error (pos 0))) [
    | inl t ↦ (eqb_ℤ_iff f.error (pos 0)).0 t
    | inr n ↦ absurd (h (rw (n) refl))
  ]

  pair_second-fetch :
      (proc : Proc e) (o : Bool) (r : e.Record) (k1 k2 k3 : Option e.Key) (n1 : Bool) (w : e.World)
      → (fetch_second e proc o r k1 k2 k3 n1 w).0.error ≡ pos 0
      → ((e.fetch_key (second_info e proc o) r k2 none w).0.error ≡ pos 0)
        × (second_of (e.fetch_key (second_info e proc o) r k2 none w).0 ≡ (
          if (fetch_second e proc o r k1 k2 k3 n1 w).0.second_null then pos 1 else pos 0,
          (fetch_second e proc o r k1 k2 k3 n1 w).0.second_hash,
        ))
  unfolding fetch_second
  pair_second-fetch proc o r k1 k2 k3 n1 w z =
      let f = e.fetch_key (second_info e proc o) r k2 none w in
      elim (Bool-cases (eqb_ℤ (f.0).error (pos 0))) [
        | inl t ↦
            let j = judge-second proc o r k1 (f.0).key k3 n1 (f.0).skip f.1 in
            let null : (fetch_second e proc o r k1 k2 k3 n1 w).0.second_null ≡ (f.0).skip =
              rw (fetch_second, t) j.0 in
            let hash : (fetch_second e proc o r k1 k2 k3 n1 w).0.second_hash
                ≡ (if (f.0).skip then 0 else e.hash_key (f.0).key) =
              rw (fetch_second, t) j.1 in
            ((eqb_ℤ_iff (f.0).error (pos 0)).0 t, rw (null, hash) (second_of_ok f.0 t))
        | inr n ↦
            let failed : (fetch_second e proc o r k1 k2 k3 n1 w).0.error ≡ (f.0).error =
              rw (fetch_second, n) refl in
            absurd (no_error (f.0).error n (sym failed ∙ z))
      ]

  pair-fetch :
      (proc : Proc e) (o : Bool) (r s : e.Record) (k1 k2 k3 : Option e.Key) (w : e.World)
      → (fetch_first e proc o r s k1 k2 k3 w).0.error ≡ pos 0
      → (v : e.World) × (((e.fetch_key (second_info e proc o) s k2 none v).0.error ≡ pos 0)
          × (second_of (e.fetch_key (second_info e proc o) s k2 none v).0 ≡ (
            if (fetch_first e proc o r s k1 k2 k3 w).0.second_null then pos 1 else pos 0,
            (fetch_first e proc o r s k1 k2 k3 w).0.second_hash,
          )))
  unfolding fetch_first
  pair-fetch proc o r s k1 k2 k3 w z =
      let f = e.fetch_key (first_info e proc o) r k1 none w in
      elim (Bool-cases (eqb_ℤ (f.0).error (pos 0))) [
        | inl t ↦
            let later : (fetch_first e proc o r s k1 k2 k3 w).0
                ≡ (fetch_second e proc o s (f.0).key k2 k3 (f.0).skip f.1).0 =
              rw (fetch_first, t) refl in
            (
              f.1,
              rw (later) (
                  pair_second-fetch proc o s (f.0).key k2 k3 (f.0).skip f.1
                    (ap (λ p. p.error) (sym later) ∙ z)),
            )
        | inr n ↦
            let failed : (fetch_first e proc o r s k1 k2 k3 w).0.error ≡ (f.0).error =
              rw (fetch_first, n) refl in
            absurd (no_error (f.0).error n (sym failed ∙ z))
      ]

  -- The result first, and the hash where it is 0
  second_of_rc :
      (f : Fetched e.Key)
      → ◌≡◌ {A = ℤ × ℕ}
          (
            if not (eqb_ℤ f.error (pos 0)) then negsuc 0 else if f.skip then pos 1 else pos 0,
            if eqb_ℤ
                  (if not (eqb_ℤ f.error (pos 0))
                    then negsuc 0
                    else if f.skip
                    then pos 1
                    else pos 0)
                  (pos 0)
                then e.hash_key f.key
                else 0,
          )
          (second_of f)
  unfolding second_of
  second_of_rc f = elim (Bool-cases (eqb_ℤ f.error (pos 0))) [
    | inl t ↦ elim (Bool-cases f.skip) [ inl y ↦ rw (t, y) refl | inr n ↦ rw (t, n) refl ]
    | inr n ↦ rw (n) refl
  ]

  second_key-fetch :
      (proc : Proc e) (o : Bool) (s : e.Record) (w : e.World)
      → held (e.alloc_hscan_key proc.ls_column_cnt w).0 ≡ 1
      → ((unitseam_hj_second_key e proc o s w).0, (unitseam_hj_second_key e proc o s w).1.0)
        ≡ second_of
            (e.fetch_key
              (second_info e proc o)
              s
              (e.alloc_hscan_key proc.ls_column_cnt w).0
              none
              (e.alloc_hscan_key proc.ls_column_cnt w).1).0
  unfolding unitseam_hj_second_key
  second_key-fetch proc o s w h = elim (Option-cases (e.alloc_hscan_key proc.ls_column_cnt w).0) [
    | inl none_left ↦ absurd (omega (arith, h, ap held none_left ∙ held_none e.Key))
    | inr (k, got) ↦
        rw (unitseam_hj_second_key, got)
          (second_of_rc
            (e.fetch_key (second_info e proc o) s (some k) none
              (e.alloc_hscan_key proc.ls_column_cnt w).1).0)
  ]

  -- A result that is not -1 is of a key that was allocated.
  second_key_held :
      (proc : Proc e) (o : Bool) (s : e.Record) (w : e.World)
      → (unitseam_hj_second_key e proc o s w).0 ≢ negsuc 0
      → held (e.alloc_hscan_key proc.ls_column_cnt w).0 ≡ 1
  unfolding unitseam_hj_second_key
  second_key_held proc o s w h = elim (Option-cases (e.alloc_hscan_key proc.ls_column_cnt w).0) [
    | inl none_left ↦ absurd (h (rw (unitseam_hj_second_key, none_left) refl))
    | inr (k, got) ↦ rw (got) (held_some k)
  ]

  -- Where fetches of a row agree, and neither the join's decision for a pair nor the fetch of the second
  -- row by itself returns an error, and the pair's second key is allocated: both say the same of the
  -- second row's key, whether it is NULL, and its hash.
  pub unitseam_hj_second_key-pair :
      (proc : Proc e) (o : Bool) (r s : e.Record) (w v : e.World)
      → held (e.alloc_hscan_key proc.ls_column_cnt (e.alloc_hscan_key proc.ls_column_cnt w).1).0 ≡ 1
      → (unitseam_hj_join_pair e proc o r s w).0.error ≡ pos 0
      → (unitseam_hj_second_key e proc o s v).0 ≢ negsuc 0
      → ((unitseam_hj_second_key e proc o s v).0
          ≡ (if (unitseam_hj_join_pair e proc o r s w).0.second_null then pos 1 else pos 0))
        × ((unitseam_hj_second_key e proc o s v).1.0
            ≡ (unitseam_hj_join_pair e proc o r s w).0.second_hash)
  unfolding unitseam_hj_join_pair
  unitseam_hj_second_key-pair proc o r s w v h z ok =
      let n = proc.ls_column_cnt in
      let a1 = e.alloc_hscan_key n w in
      let a2 = e.alloc_hscan_key n a1.1 in
      let a3 = e.alloc_hscan_key n a2.1 in
      let (u, (no_err, f)) = pair-fetch proc o r s a1.0 a2.0 a3.0 a3.1 z in
      let up = second_key_held proc o s v ok in
      let own = second_key-fetch proc o s v up in
      let own_err = second_of_error _ (λ minus. ok (ap (λ p. p.0) own ∙ minus)) in
      let same =
        own
        ∙ second_of_same (second_info e proc o) s (e.alloc_hscan_key n v).0 a2.0
            (e.alloc_hscan_key n v).1 u up h own_err no_err
        ∙ f in
      (ap (λ p. p.0) same, ap (λ p. p.1) same)
