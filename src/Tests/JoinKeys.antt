-- ===== src/Tests/JoinKeys.antt =====
-- The join's keys and the check before the projection of the Bloom filter's hooks, at concrete inputs.
use dev4_review_workspace.Prelude.{
  negsuc, ◌≢◌, subst, sym, ◌<◌, ◌∙◌, ℕ, suc, ◌+◌, ◌-◌, ◌/◌, ◌%◌, ◌^◌, ◌≤◌, ◌≡◌, refl, ap, true,
  false, not, ◌&&◌, Option, none, some, List, [], ◌∷◌, arith, ltb, ◌==◌, if◌then◌else◌, length, pos,
  ltb_ℤ,
}
use dev4_review_workspace.BloomFilter.View.{Bloom, early_bloom}
use dev4_review_workspace.BloomFilter.Join.{
  Fetched, JoinEngine, Proc, unitseam_hj_join_pair, unitseam_hj_second_key,
}
use dev4_review_workspace.BloomFilter.Freed.{held, KeyLaws, unitseam_hj_join_pair-live}
use dev4_review_workspace.BloomFilter.SecondKey.{FetchLaws, unitseam_hj_second_key-pair}
use dev4_review_workspace.BloomFilter.Early.{EarlyEngine, unitseam_bloom_early_key}
use dev4_review_workspace.BloomFilter.Mask.{bit, is_cast, unitseam_bloom_early_key-cast_mask}
use dev4_review_workspace.Tests.Bloom.{macros, plain, ready_stages}

-- The world is the number of live keys; a row is its key, 0 for NULL.
unfoldable write_key : ℕ → Option ℕ → Option ℕ
write_key r none = none
write_key r (some k) = some r

abbrev fetched : ℕ → Option ℕ → Option ℕ → Fetched ℕ
fetched r k c = record { error = pos 0; skip = r == 0; key = write_key r k }

unfoldable key_number : Option ℕ → ℕ
key_number none = 0
key_number (some k) = k

unfoldable freed_key : Option ℕ → ℕ → ℕ
freed_key none w = w
freed_key (some k) w = w - 1

abbrev join : JoinEngine
join = record {
  World = ℕ;
  Record = ℕ;
  Input = ℕ;
  Domains = ℕ;
  Key = ℕ;
  alloc_hscan_key = λ n w. (some 0, suc w);
  free_hscan_key = λ k n w. freed_key k w;
  fetch_key = λ info r k c w. (fetched r k c, w);
  hash_key = λ k. key_number k % 16;
  key_eq = λ k l. if key_number k == key_number l then pos 1 else pos 0;
}

write_key_held : (r : ℕ) (k : Option ℕ) → held (write_key r k) ≡ held k
unfolding write_key held
write_key_held r none = refl
write_key_held r (some k) = refl

write_key_same : (r : ℕ) (k l : Option ℕ) → held k ≡ held l → write_key r k ≡ write_key r l
unfolding write_key held
write_key_same r none none h = refl
write_key_same r none (some l) h = absurd (omega (arith, h))
write_key_same r (some k) none h = absurd (omega (arith, h))
write_key_same r (some k) (some l) h = refl

freed_key_live : (k : Option ℕ) (w : ℕ) → held k ≤ w → held k + freed_key k w ≡ w
unfolding freed_key held
freed_key_live none w h = omega arith
freed_key_live (some k) w h = omega (arith, h)

alloc_live_lem : (w : ℕ) → suc w ≡ held {Key = ℕ} (some 0) + w
unfolding held
alloc_live_lem w = omega arith

join-KeyLaws : KeyLaws join
join-KeyLaws = record {
  live = λ w. w;
  alloc_live = λ n w. alloc_live_lem w;
  free_live = λ k n w h. freed_key_live k w h;
  fetch_live = λ info r k c w. refl;
  fetch_held = λ info r k c w. write_key_held r k;
}

join-FetchLaws : FetchLaws join
join-FetchLaws = record {
  fetch_same = λ info r k l c w v h g a b.
      (refl, λ _. ap (λ z. key_number z % 16) (write_key_same r k l (h ∙ sym g)));
}

abbrev proc : Proc join
proc = record {
  outer = 1;
  inner = 2;
  coerce_domains = 0;
  need_coerce_domains = false;
  ls_column_cnt = 2;
}

unitseam_hj_join_pair-live_example :
    join-KeyLaws.live (unitseam_hj_join_pair join proc true 40 24 3).1 ≡ join-KeyLaws.live 3
unitseam_hj_join_pair-live_example = unitseam_hj_join_pair-live join join-KeyLaws proc true 40 24 3

found_code : (unitseam_hj_second_key join proc true 24 0).0 ≡ pos 0
unfolding unitseam_hj_second_key
found_code = refl

unitseam_hj_second_key-pair_example :
    ((unitseam_hj_second_key join proc true 24 0).0
      ≡ (if (unitseam_hj_join_pair join proc true 40 24 3).0.second_null then pos 1 else pos 0))
    × ((unitseam_hj_second_key join proc true 24 0).1.0
        ≡ (unitseam_hj_join_pair join proc true 40 24 3).0.second_hash)
unfolding held unitseam_hj_join_pair
unitseam_hj_second_key-pair_example =
    unitseam_hj_second_key-pair join join-FetchLaws proc true 40 24 3 0 refl refl
      (subst (λ z. z ≢ negsuc 0) (sym found_code) (λ e. ground (arith, e)))

-- The world is the key_cast slots, 0 for NULL; a fetch casts the values above 9.
unfoldable cast_values : List ℕ → List ℕ
cast_values [] = []
cast_values (v ∷ vs) = (if ltb 9 v then v else 0) ∷ cast_values vs

abbrev early_engine : EarlyEngine
early_engine = record {
  World = List ℕ;
  Values = List ℕ;
  Slot = ℕ;
  is_null_slot = λ s. s == 0;
  null_slot = 0;
  key_cast = λ w. w;
  set_key_cast = λ s w. s;
  fetch_key_values = λ b vd w. (pos 0, (false, cast_values vd));
  hash_key = λ w. length w;
  key_absent = λ b w. false;
  ls_column_cnt = λ w. 3;
}

abbrev an_early_bloom : Bloom
an_early_bloom =
    early_bloom (record { key_regus = some (8, λ k. some k); key_cast = some 9 })
      (record { first_xasl = some 1; first_done = pos 1 }) ready_stages plain

unitseam_bloom_early_key-cast_mask_example :
    ((unitseam_bloom_early_key early_engine macros
        (some an_early_bloom)
        (12 ∷ 3 ∷ 15 ∷ [])
        []).0.cast_mask
      < 2 ^ 31)
    × (((unitseam_bloom_early_key early_engine macros
              (some an_early_bloom)
              (12 ∷ 3 ∷ 15 ∷ [])
              []).0.cast_mask
            / 2 ^ 2)
          % 2
        ≡ bit (
            not (
              ltb_ℤ
                (unitseam_bloom_early_key early_engine macros
                  (some an_early_bloom)
                  (12 ∷ 3 ∷ 15 ∷ [])
                  []).0.result
                (pos 0))
            && is_cast early_engine.is_null_slot 3
                (unitseam_bloom_early_key early_engine macros
                  (some an_early_bloom)
                  (12 ∷ 3 ∷ 15 ∷ [])
                  []).1
                2))
unitseam_bloom_early_key-cast_mask_example =
    unitseam_bloom_early_key-cast_mask early_engine macros (some an_early_bloom) (12 ∷ 3 ∷ 15 ∷ [])
      [] 2 (omega arith) (omega arith)
