-- ===== src/BloomFilter/Freed.antt =====
-- The keys that `unitseam_hj_join_pair` and `unitseam_hj_second_key` of
-- unit/query/query_hash_join.bloom_filter/hooks.cpp allocate.
use dev4_review_workspace.Prelude.{
  ℕ, ◌+◌, ◌≤◌, ◌≡◌, refl, ap, ◌∙◌, inl, inr, Bool, true, false, Option, none, some, arith,
  Bool-cases, Option-cases, pos, eqb_ℤ,
}
use dev4_review_workspace.BloomFilter.Join.{
  hash_pair, FetchInfo, JoinEngine, Proc, Pair, first_info, second_info, compare_pair, judge_pair,
  fetch_second, fetch_first, free_keys, unitseam_hj_join_pair, unitseam_hj_second_key,
}

-- Of an allocation, a fetch and a release: `live` counts the keys that are allocated and not freed,
-- and `held` is 1 for a key and 0 for NULL. A fetch writes in place, so that NULL stays NULL.
unfoldable pub held {ℓ} : {Key : Type ℓ} → Option Key → ℕ
held none = 0
held (some k) = 1

pub held_none {ℓ} : (Key : Type ℓ) → held {Key = Key} none ≡ 0
unfolding held
held_none Key = refl

pub held_some {ℓ} : {Key : Type ℓ} (k : Key) → held (some k) ≡ 1
unfolding held
held_some k = refl

pub record KeyLaws (e : JoinEngine) : Type 0 where
  pub live : e.World → ℕ
  pub alloc_live :
      (n : ℕ) (w : e.World)
      → live (e.alloc_hscan_key n w).1 ≡ held (e.alloc_hscan_key n w).0 + live w
  pub free_live :
      (k : Option e.Key) (n : ℕ) (w : e.World)
      → held k ≤ live w
      → held k + live (e.free_hscan_key k n w) ≡ live w
  pub fetch_live :
      (info : FetchInfo e.Input e.Domains) (r : e.Record) (k c : Option e.Key) (w : e.World)
      → live (e.fetch_key info r k c w).1 ≡ live w
  pub fetch_held :
      (info : FetchInfo e.Input e.Domains) (r : e.Record) (k c : Option e.Key) (w : e.World)
      → held (e.fetch_key info r k c w).0.key ≡ held k

module _ (e : JoinEngine) (laws : KeyLaws e) where
  compare-live :
      (proc : Proc e) (o : Bool) (r : e.Record) (k1 k2 k3 : Option e.Key) (p : Pair) (w : e.World)
      → (laws.live (compare_pair e proc o r k1 k2 k3 p w).1.1 ≡ laws.live w)
        × (held (compare_pair e proc o r k1 k2 k3 p w).1.0 ≡ held k3)
  unfolding compare_pair
  compare-live proc o r k1 k2 k3 p w =
      let f = e.fetch_key (second_info e proc o) r k3 k1 w in
      let both : (laws.live f.1 ≡ laws.live w) × (held (f.0).key ≡ held k3) = (
        laws.fetch_live (second_info e proc o) r k3 k1 w,
        laws.fetch_held (second_info e proc o) r k3 k1 w,
      ) in
      elim (Bool-cases (eqb_ℤ (f.0).error (pos 0))) [
        | inl h ↦ rw (compare_pair, h) both
        | inr n ↦ rw (compare_pair, n) both
      ]

  judge-live :
      (proc : Proc e) (o : Bool) (r : e.Record) (k1 k2 k3 : Option e.Key) (n1 n2 : Bool)
      (w : e.World)
      → (laws.live (judge_pair e proc o r k1 k2 k3 n1 n2 w).1.1 ≡ laws.live w)
        × (held (judge_pair e proc o r k1 k2 k3 n1 n2 w).1.0 ≡ held k3)
  unfolding judge_pair
  judge-live proc o r k1 k2 k3 true n2 w = (refl, refl)
  judge-live proc o r k1 k2 k3 false true w = (refl, refl)
  judge-live proc o r k1 k2 k3 false false w =
      compare-live proc o r k1 k2 k3 (hash_pair e k1 k2 false false) w

  second-live :
      (proc : Proc e) (o : Bool) (r : e.Record) (k1 k2 k3 : Option e.Key) (n1 : Bool) (w : e.World)
      → (laws.live (fetch_second e proc o r k1 k2 k3 n1 w).1.1.1 ≡ laws.live w)
        × ((held (fetch_second e proc o r k1 k2 k3 n1 w).1.0 ≡ held k2)
            × (held (fetch_second e proc o r k1 k2 k3 n1 w).1.1.0 ≡ held k3))
  unfolding fetch_second
  second-live proc o r k1 k2 k3 n1 w =
      let f = e.fetch_key (second_info e proc o) r k2 none w in
      let l = laws.fetch_live (second_info e proc o) r k2 none w in
      let h = laws.fetch_held (second_info e proc o) r k2 none w in
      elim (Bool-cases (eqb_ℤ (f.0).error (pos 0))) [
        | inl t ↦
            let j = judge-live proc o r k1 (f.0).key k3 n1 (f.0).skip f.1 in
            rw (fetch_second, t) (j.0 ∙ l, (h, j.1))
        | inr n ↦ rw (fetch_second, n) (l, (h, refl))
      ]

  first-live :
      (proc : Proc e) (o : Bool) (r s : e.Record) (k1 k2 k3 : Option e.Key) (w : e.World)
      → (laws.live (fetch_first e proc o r s k1 k2 k3 w).1.1.1.1 ≡ laws.live w)
        × ((held (fetch_first e proc o r s k1 k2 k3 w).1.0 ≡ held k1)
            × ((held (fetch_first e proc o r s k1 k2 k3 w).1.1.0 ≡ held k2)
                × (held (fetch_first e proc o r s k1 k2 k3 w).1.1.1.0 ≡ held k3)))
  unfolding fetch_first
  first-live proc o r s k1 k2 k3 w =
      let f = e.fetch_key (first_info e proc o) r k1 none w in
      let l = laws.fetch_live (first_info e proc o) r k1 none w in
      let h = laws.fetch_held (first_info e proc o) r k1 none w in
      elim (Bool-cases (eqb_ℤ (f.0).error (pos 0))) [
        | inl t ↦
            let j = second-live proc o s (f.0).key k2 k3 (f.0).skip f.1 in
            rw (fetch_first, t) (j.0 ∙ l, (h, (j.1.0, j.1.1)))
        | inr n ↦ rw (fetch_first, n) (l, (h, (refl, refl)))
      ]

  freed :
      (n : ℕ) (k1 k2 k3 : Option e.Key) (w : e.World)
      → held k1 + held k2 + held k3 ≤ laws.live w
      → held k1 + held k2 + held k3 + laws.live (free_keys e n k1 k2 k3 w) ≡ laws.live w
  unfolding free_keys
  freed n k1 k2 k3 w h =
      let a = laws.free_live k1 n w (omega arith) in
      let b = laws.free_live k2 n (e.free_hscan_key k1 n w) (omega arith) in
      let c = laws.free_live k3 n (e.free_hscan_key k2 n (e.free_hscan_key k1 n w)) (omega arith) in
      omega arith

  -- Whatever the three fetches answer, errors and NULL keys included, every key that is allocated is
  -- freed: as many are live after the call as before it.
  pub unitseam_hj_join_pair-live :
      (proc : Proc e) (o : Bool) (r s : e.Record) (w : e.World)
      → laws.live (unitseam_hj_join_pair e proc o r s w).1 ≡ laws.live w
  unfolding unitseam_hj_join_pair
  unitseam_hj_join_pair-live proc o r s w =
      let n = proc.ls_column_cnt in
      let a1 = e.alloc_hscan_key n w in
      let a2 = e.alloc_hscan_key n a1.1 in
      let a3 = e.alloc_hscan_key n a2.1 in
      let l1 = laws.alloc_live n w in
      let l2 = laws.alloc_live n a1.1 in
      let l3 = laws.alloc_live n a2.1 in
      let f = fetch_first e proc o r s a1.0 a2.0 a3.0 a3.1 in
      let (l, (h1, (h2, h3))) = first-live proc o r s a1.0 a2.0 a3.0 a3.1 in
      let d = freed n (f.1).0 (f.1.1).0 (f.1.1.1).0 (f.1.1.1).1 (omega arith) in omega arith

  -- The key of a row is freed, on each result.
  pub unitseam_hj_second_key-live :
      (proc : Proc e) (o : Bool) (r : e.Record) (w : e.World)
      → laws.live (unitseam_hj_second_key e proc o r w).1.1 ≡ laws.live w
  unfolding unitseam_hj_second_key
  unitseam_hj_second_key-live proc o r w =
      let n = proc.ls_column_cnt in
      let a = e.alloc_hscan_key n w in
      let l = laws.alloc_live n w in
      elim (Option-cases a.0) [
        | inl h ↦
            (let was : held a.0 ≡ 0 = ap held h ∙ held_none e.Key in
              rw (unitseam_hj_second_key, h) (omega arith))
        | inr (k, h) ↦
            let f = e.fetch_key (second_info e proc o) r (some k) none a.1 in
            let fl = laws.fetch_live (second_info e proc o) r (some k) none a.1 in
            let fh = laws.fetch_held (second_info e proc o) r (some k) none a.1 in
            let one : held (some k) ≡ 1 = held_some {Key = e.Key} k in
            let was : held a.0 ≡ 1 = ap held h ∙ one in
            let d = laws.free_live (f.0).key n f.1 (omega arith) in
            rw (unitseam_hj_second_key, h) (omega arith)
      ]
