-- ===== src/ForeignKey/Held.antt =====
-- The partition that holds a key in unit/transaction/locator_sr.check_foreign_key/test.cpp: its range,
-- the primary key that the pruning stand-in names and the one that the expected outcome searches.
use dev4_review_workspace.Prelude.{
  ℕ, zero, suc, ◌+◌, ◌-◌, ◌%◌, ◌<◌, ◌≡◌, refl, inl, inr, true, false, some, List, [], ◌∷◌, arith,
  Bool-cases, Option-cases, length, get_elem?, ℤ, pos, negsuc, ltb_ℤ,
}
use native.Mathlib.Nat.{mod-lt}
use mathlib.Core.Option
use dev4_review_workspace.ForeignKey.World.{FakeClass, Pruning}
use dev4_review_workspace.ForeignKey.Build.{range_of, hash_of, partition_of, pk_holding_of}
use dev4_review_workspace.ForeignKey.Prune.{Target, prune_target}

-- A class as `add_partitioned` leaves it: a partition at least, and a primary key for each
pub record IsPartitioned (k : FakeClass) : Type 0 where
  pub has_parts : 1 < length k.parts
  pub same_length : length k.part_pk ≡ length k.parts

range_of-lt : (n i : ℕ) (upper : List ℤ) (v : ℤ) (p : ℕ) → range_of n i upper v ≡ some p → p < i + n
unfolding range_of
range_of-lt zero i upper v p h = absurd (ground (arith, h))
range_of-lt (suc n) i [] v p h = absurd (ground (arith, h))
range_of-lt (suc n) i (u ∷ upper) v p h = elim (Bool-cases (ltb_ℤ v u)) [
  | inl e ↦ ground (arith, h, e)
  | inr e ↦ let l = range_of-lt n (suc i) upper v p (ground (arith, h, e)) in omega arith
]

hash_of-lt : (n : ℕ) (v : ℤ) → 0 < n → hash_of n v < n
unfolding hash_of
hash_of-lt n (pos v) h = mod-lt (v % n + n) h
hash_of-lt n (negsuc v) h = mod-lt (n - suc v % n) h

-- Of a class with a partition at least and a primary key for each, the partition that
-- `partition_of` names for a value is one of the class's.
pub partition_of-lt :
    (k : FakeClass) (v : ℤ) (p : ℕ)
    → IsPartitioned k
    → partition_of k v ≡ some p
    → suc p < length k.parts
unfolding partition_of
partition_of-lt k v p c h = go k.range_upper refl
  where
    go : (upper : List ℤ) → k.range_upper ≡ upper → suc p < length k.parts
    go [] e =
        let l = hash_of-lt (length k.parts - 1) v (omega (arith, c.has_parts)) in
        let e' : hash_of (length k.parts - 1) v ≡ p = ground (arith, h, e) in
        omega (arith, l, e', c.has_parts)
    go (u ∷ upper) e =
        let l = range_of-lt (length k.parts - 1) 0 (u ∷ upper) v p (ground (arith, h, e)) in
        omega (arith, l)

get_elem?-some :
    {A : Type 0} (xs : List A) (i : ℕ) → i < length xs → (a : A) × (get_elem? xs i ≡ some a)
get_elem?-some [] i h = absurd (omega arith)
get_elem?-some (x ∷ xs) zero h = (x, refl)
get_elem?-some (x ∷ xs) (suc i) h = get_elem?-some xs i (omega arith)

-- For a class with a partition at least and a primary key for each, which is marked partitioned
-- and not `load_unpartitioned`, and a context that holds its partitions: the pruning leaves the
-- BTID and the class OID that `pk_holding_of` names for the same value, or null ones where it
-- names none.
pub prune_target-pk_holding_of :
    (k : FakeClass) (p : Pruning) (t : Target) (v : ℤ)
    → IsPartitioned k
    → k.has_partition_info ≡ true
    → k.load_unpartitioned ≡ false
    → p.partitions ≡ some k.parts
    → ((prune_target p k t v).btid ≡ Option.map (λ h. h.0) (pk_holding_of k v))
      × ((prune_target p k t v).class_oid ≡ Option.map (λ h. h.1) (pk_holding_of k v))
unfolding prune_target pk_holding_of
prune_target-pk_holding_of k p t v c a b e = elim (Option-cases (partition_of k v)) [
  | inl n ↦ simp (prune_target, pk_holding_of, a, b, n) (refl, refl)
  | inr (at, n) ↦
      let l = partition_of-lt k v at c n in
      let part = get_elem?-some k.parts (suc at) l in
      let pk = get_elem?-some k.part_pk (suc at) (omega (arith, l, c.same_length)) in
      simp (prune_target, pk_holding_of, a, b, n, e, part.1, pk.1) (refl, refl)
]
