-- ===== src/BloomFilter/Mask.antt =====
-- The mask that `unitseam_bloom_early_key` of unit/query/query_hash_join.bloom_filter/hooks.cpp
-- collects, bit by bit.
use dev4_review_workspace.Prelude.{
  ℕ, zero, suc, ◌+◌, ◌*◌, ◌/◌, ◌%◌, ◌^◌, ◌≡◌, ◌≤◌, ◌<◌, refl, sym, ap, ◌∙◌, inl, inr, Bool, true,
  false, not, ◌&&◌, ◌||◌, Option, none, some, List, [], ◌∷◌, arith, if◌then◌else◌, Bool-cases,
  Option-cases, pos, negsuc, ltb_ℤ, eqb_ℤ,
}
use native.Mathlib.Nat.{mod-eq_of_lt, pow-le-pow_right, zero-div, div-div-eq-div-mul, pow-suc}
use dev4_review_workspace.BloomFilter.{Macros}
use dev4_review_workspace.BloomFilter.View.{
  Stages, Bloom, earlier_bloom, staged_bloom, concurrent_bloom, early_bloom,
}
use dev4_review_workspace.BloomFilter.Early.{
  EarlyEngine, EarlyResult, early_answer, is_set, mask_of, clear_slots, decide, fetch_and_decide,
  unitseam_early_key_impl, unitseam_bloom_early_key,
}

-- The bit of 1 or 0
unfoldable pub bit : Bool → ℕ
bit true = 1
bit false = 0

module _ {ℓ} {Slot : Type ℓ} (is_null_slot : Slot → Bool) where
  -- The sum of the bits, before it is cut to a word
  unfoldable mask_sum : ℕ → ℕ → List Slot → ℕ
  mask_sum zero k slots = 0
  mask_sum (suc n) k [] = 0
  mask_sum (suc n) k (s ∷ slots) = (if is_null_slot s then 0 else 2 ^ k) + mask_sum n (suc k) slots

  mask_sum_small : (n k : ℕ) (slots : List Slot) → n + k ≤ 31 → mask_sum n k slots + 2 ^ k ≤ 2 ^ 31
  unfolding mask_sum
  mask_sum_small zero k slots b =
      omega (arith, pow-le-pow_right {n = 2} (omega arith) {i = k} {j = 31} (omega arith))
  mask_sum_small (suc n) k [] b =
      omega (arith, pow-le-pow_right {n = 2} (omega arith) {i = k} {j = 31} (omega arith))
  mask_sum_small (suc n) k (s ∷ slots) b =
      let rest = mask_sum_small n (suc k) slots (omega arith) in
      let twice = pow-suc 2 k in
      elim (Bool-cases (is_null_slot s)) [
        | inl h ↦ rw (h) (omega (arith, rest, twice))
        | inr h ↦ rw (h) (omega (arith, rest, twice))
      ]

  -- Up to 31 key columns nothing is cut.
  mask_of-sum :
      (n k : ℕ) (slots : List Slot)
      → n + k ≤ 31
      → mask_of is_null_slot n k slots ≡ mask_sum n k slots
  unfolding mask_of mask_sum
  mask_of-sum zero k slots b = refl
  mask_of-sum (suc n) k [] b = refl
  mask_of-sum (suc n) k (s ∷ slots) b =
      let small : (if is_null_slot s then 0 else 2 ^ k) + mask_sum n (suc k) slots < 2 ^ 32 =
        below (mask_sum_small (suc n) k (s ∷ slots) b) (pow-pos k) in
      ap (λ m. ((if is_null_slot s then 0 else 2 ^ k) + m) % 2 ^ 32)
        (mask_of-sum n (suc k) slots (omega arith))
      ∙ mod-eq_of_lt small
    where
      pow-pos : (k : ℕ) → 0 < 2 ^ k
      pow-pos k =
          omega (arith, pow-le-pow_right {n = 2} (omega arith) {i = 0} {j = k} (omega arith))

      below : {x y : ℕ} → x + y ≤ 2 ^ 31 → 0 < y → x < 2 ^ 32
      below a b = omega arith

  double : (n k : ℕ) (slots : List Slot) → mask_sum n (suc k) slots ≡ 2 * mask_sum n k slots
  unfolding mask_sum
  double zero k slots = omega arith
  double (suc n) k [] = omega arith
  double (suc n) k (s ∷ slots) = elim (Bool-cases (is_null_slot s)) [
    | inl h ↦ rw (h) (omega (arith, double n (suc k) slots))
    | inr h ↦ rw (h) (omega (arith, double n (suc k) slots, pow-suc 2 k))
  ]

  -- The slot is there, within the first n, and not NULL.
  unfoldable pub is_cast : ℕ → List Slot → ℕ → Bool
  is_cast zero slots j = false
  is_cast (suc n) [] j = false
  is_cast (suc n) (s ∷ slots) zero = not (is_null_slot s)
  is_cast (suc n) (s ∷ slots) (suc j) = is_cast n slots j

  halved : (s : Slot) (m : ℕ) → ((if is_null_slot s then 0 else 1) + 2 * m) / 2 ≡ m
  halved s m = elim (Bool-cases (is_null_slot s)) [
    | inl h ↦ rw (h) (omega arith)
    | inr n ↦ rw (n) (omega arith)
  ]

  half : (s : Slot) (m j : ℕ) → ((if is_null_slot s then 0 else 1) + 2 * m) / 2 ^ suc j ≡ m / 2 ^ j
  half s m j =
      ap (λ z. ((if is_null_slot s then 0 else 1) + 2 * m) / z) (omega (arith, pow-suc 2 j))
      ∙ sym (div-div-eq-div-mul ((if is_null_slot s then 0 else 1) + 2 * m) 2 (2 ^ j))
      ∙ ap (λ z. z / 2 ^ j) (halved s m)

  first_bit :
      (s : Slot) (m : ℕ)
      → (((if is_null_slot s then 0 else 1) + 2 * m) / 2 ^ 0) % 2 ≡ bit (not (is_null_slot s))
  unfolding bit
  first_bit s m = elim (Bool-cases (is_null_slot s)) [
    | inl h ↦ rw (h) (omega arith)
    | inr n ↦ rw (n) (omega arith)
  ]

  mask_bits :
      (n j : ℕ) (slots : List Slot) → (mask_sum n 0 slots / 2 ^ j) % 2 ≡ bit (is_cast n slots j)
  unfolding mask_sum is_cast bit
  mask_bits zero j slots = ap (λ z. z % 2) (zero-div (2 ^ j))
  mask_bits (suc n) j [] = ap (λ z. z % 2) (zero-div (2 ^ j))
  mask_bits (suc n) zero (s ∷ slots) = rw (double n 0 slots) (first_bit s (mask_sum n 0 slots))
  mask_bits (suc n) (suc j) (s ∷ slots) =
      rw (double n 0 slots) (ap (λ z. z % 2) (half s (mask_sum n 0 slots) j) ∙ mask_bits n j slots)

  word_mask :
      (n j : ℕ) (slots : List Slot)
      → n ≤ 31
      → (mask_of is_null_slot n 0 slots < 2 ^ 31)
        × ((mask_of is_null_slot n 0 slots / 2 ^ j) % 2 ≡ bit (is_cast n slots j))
  word_mask n j slots b =
      let same = mask_of-sum n 0 slots (omega arith) in
      rw (same) (omega (arith, mask_sum_small n 0 slots (omega arith)), mask_bits n j slots)

module _ (e : EarlyEngine) (m : Macros) where
  Masked : ℕ → EarlyResult × e.World → ℕ → Type 0
  Masked n r k =
      (r.0.cast_mask < 2 ^ 31)
      × ((r.0.cast_mask / 2 ^ k) % 2
          ≡ bit (not (ltb_ℤ r.0.result (pos 0)) && is_cast e.is_null_slot n (e.key_cast r.1) k))

  no_mask : (r : ℕ) (n : ℕ) (w : e.World) (k : ℕ) → Masked n (early_answer (negsuc r), w) k
  unfolding Masked early_answer bit
  no_mask r n w k =
      let negative : ltb_ℤ (negsuc r) (pos 0) ≡ true = ground arith in
      rw (negative) (omega arith, ap (λ z. z % 2) (zero-div (2 ^ k)))

  decide-Masked :
      (b : Bloom) (s : Stages) (skip : Bool) (n : ℕ) (w : e.World) (k : ℕ)
      → n ≤ 31
      → Masked n (decide e m b s skip (mask_of e.is_null_slot n 0 (e.key_cast w)) w, w) k
  unfolding Masked decide
  decide-Masked b s true n w k l = word_mask e.is_null_slot n k (e.key_cast w) l
  decide-Masked b s false n w k l = word_mask e.is_null_slot n k (e.key_cast w) l

  fetch-Masked :
      (b : Bloom) (s : Stages) (vd : e.Values) (w : e.World) (k : ℕ)
      → e.ls_column_cnt w ≤ 31
      → Masked (e.ls_column_cnt w) (fetch_and_decide e m b s vd w) k
  unfolding fetch_and_decide
  fetch-Masked b s vd w k l =
      let n = e.ls_column_cnt w in
      let f =
        e.fetch_key_values b vd (e.set_key_cast (clear_slots e.null_slot n (e.key_cast w)) w) in
      elim (Bool-cases (eqb_ℤ f.0 (pos 0))) [
        | inl h ↦ rw (fetch_and_decide, h) (decide-Masked b s (f.1).0 n (f.1).1 k l)
        | inr h ↦ rw (fetch_and_decide, h) (no_mask 1 n (f.1).1 k)
      ]

  -- For a hash join of at most 31 key columns: the mask is an int that is not negative; with a result
  -- of 0 or 1 its k-th bit, k below 31, is set exactly where the k-th of the key's slots is not NULL
  -- after the fetch, and with each other result no bit is.
  pub unitseam_bloom_early_key-cast_mask :
      (b : Option Bloom) (vd : e.Values) (w : e.World) (k : ℕ)
      → e.ls_column_cnt w ≤ 31
      → k < 31
      → ((unitseam_bloom_early_key e m b vd w).0.cast_mask < 2 ^ 31)
        × (((unitseam_bloom_early_key e m b vd w).0.cast_mask / 2 ^ k) % 2
            ≡ bit (
                not (ltb_ℤ (unitseam_bloom_early_key e m b vd w).0.result (pos 0))
                && is_cast e.is_null_slot
                    (e.ls_column_cnt w)
                    (e.key_cast (unitseam_bloom_early_key e m b vd w).1)
                    k))
  unfolding unitseam_bloom_early_key unitseam_early_key_impl Masked
  unitseam_bloom_early_key-cast_mask none vd w k l b31 = no_mask 2 (e.ls_column_cnt w) w k
  unitseam_bloom_early_key-cast_mask (some (earlier_bloom built disabled c)) vd w k l b31 =
      no_mask 2 (e.ls_column_cnt w) w k
  unitseam_bloom_early_key-cast_mask (some (staged_bloom s c)) vd w k l b31 =
      no_mask 2 (e.ls_column_cnt w) w k
  unitseam_bloom_early_key-cast_mask (some (concurrent_bloom f s c)) vd w k l b31 =
      no_mask 2 (e.ls_column_cnt w) w k
  unitseam_bloom_early_key-cast_mask (some (early_bloom keys f s c)) vd w k l b31 =
      elim (Option-cases keys.key_regus) [
        | inl h ↦ rw (unitseam_early_key_impl, h) (no_mask 2 (e.ls_column_cnt w) w k)
        | inr (regus, h) ↦
            elim (Bool-cases (not s.set_up || not (is_set c.key) || not (is_set keys.key_cast))) [
              | inl down ↦ rw (unitseam_early_key_impl, h, down) (no_mask 3 (e.ls_column_cnt w) w k)
              | inr up ↦
                  rw (unitseam_early_key_impl, h, up)
                    (fetch-Masked (early_bloom keys f s c) s vd w k l)
            ]
      ]
