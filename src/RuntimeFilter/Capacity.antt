-- ===== src/RuntimeFilter/Capacity.antt =====
-- The capacity of the filter's table: `cap_loop` of unit/query/query_hash_join.rtf_clone/hooks.cpp.
use dev4_review_workspace.Prelude.{
  ℕ, zero, suc, ◌+◌, ◌*◌, ◌^◌, ◌≤◌, ◌<◌, ◌≡◌, inl, inr, arith, ltb, Bool-cases,
}
use dev4_review_workspace.RuntimeFilter.{cap_loop, capacity}

cap_loop-power : (fuel c n : ℕ) → (k : ℕ) × (cap_loop fuel c n ≡ c * 2 ^ k)
unfolding cap_loop
cap_loop-power zero c n = (0, omega arith)
cap_loop-power (suc fuel) c n = elim (Bool-cases (ltb c (n * 2))) [
  | inl more ↦ let (k, e) = cap_loop-power fuel (c * 2) n in (suc k, rw (more, e) (double c k))
  | inr done ↦ (0, rw done (omega arith))
]
  where
    double : (c k : ℕ) → c * 2 * 2 ^ k ≡ c * 2 ^ suc k
    double c k = grind arith

cap_loop-ge : (fuel c n : ℕ) → 0 < c → n * 2 ≤ c + fuel → n * 2 ≤ cap_loop fuel c n
unfolding cap_loop
cap_loop-ge zero c n h b = omega arith
cap_loop-ge (suc fuel) c n h b = ground (arith, cap_loop-ge fuel (c * 2) n)

-- The loop ends by its test: the capacity is at least twice the number of keys, and 16 times a power
-- of two.
pub capacity_bounds : (n : ℕ) → (n * 2 ≤ capacity n) × ((k : ℕ) × (capacity n ≡ 16 * 2 ^ k))
unfolding capacity
capacity_bounds n =
    (cap_loop-ge (n * 2) 16 n (omega arith) (omega arith), cap_loop-power (n * 2) 16 n)
