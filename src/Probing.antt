-- ===== src/Probing.antt =====
-- Linear probing over a table of cells, an empty one `none`: the walk that the hooks of
-- unit/query/query_hash_join.rtf_clone and unit/query/query_executor.gby_cache_evicted make,
-- `for (s = home; !(...); s = (s + 1) & mask)`. The mask is the table's size less one, and the size a
-- power of two, so that `& mask` is the remainder by the size.
use dev4_review_workspace.Prelude.{
  ℕ, zero, suc, ◌+◌, ◌-◌, ◌%◌, ◌<◌, ◌≡◌, refl, sym, ap, ◌∙◌, subst, ◌≢◌, inl, inr, Bool, true,
  Option, none, some, List, [], ◌∷◌, arith, ◌==◌, if◌then◌else◌, ==_iff, Bool-cases, length, set,
  get_or, length-set,
}
use native.Mathlib.Nat.{mod-lt, mod-eq_of_lt, mod-add-mod, add-mod-mod, add-mod_right}

module _ {ℓ} {A : Type ℓ} where
  abbrev pub cell : List (Option A) → ℕ → Option A
  cell t i = get_or t i none

  -- The walk from h until `stop` says so; none when the fuel is out.
  unfoldable pub walk : (Option A → Bool) → ℕ → List (Option A) → ℕ → Option ℕ
  walk stop zero t h = none
  walk stop (suc fuel) t h =
      let rest = walk stop fuel t ((h + 1) % length t) in if stop (cell t h) then some h else rest

  -- Where a walk ends: a slot of the table whose cell stops it.
  pub walk-stops :
      (stop : Option A → Bool) (fuel : ℕ) (t : List (Option A)) (h s : ℕ)
      → h < length t
      → walk stop fuel t h ≡ some s
      → (s < length t) × (stop (cell t s) ≡ true)
  unfolding walk
  walk-stops stop zero t h s b e = cc
  walk-stops stop (suc fuel) t h s b e = elim (Bool-cases (stop (cell t h))) [
    | inl found ↦
        let same : h ≡ s = ground (arith, e, found) in
        subst (λ z. (z < length t) × (stop (cell t z) ≡ true)) same (b, found)
    | inr past ↦
        walk-stops stop fuel t ((h + 1) % length t) s (mod-lt (h + 1) (omega arith))
          (ground (arith, e, past))
  ]

  -- A stopping cell d places on ends the walk, with more fuel than d.
  pub walk_total :
      (stop : Option A → Bool) (fuel : ℕ) (t : List (Option A)) (h d : ℕ)
      → h < length t
      → d < fuel
      → stop (cell t ((h + d) % length t)) ≡ true
      → (s : ℕ) × (walk stop fuel t h ≡ some s)
  unfolding walk
  walk_total stop zero t h d b l e = absurd (omega arith)
  walk_total stop (suc fuel) t h zero b l e =
      let same : (h + 0) % length t ≡ h = ap (λ n. n % length t) (omega arith) ∙ mod-eq_of_lt b in
      (h, rw (subst (λ z. stop (cell t z) ≡ true) same e) refl)
  walk_total stop (suc fuel) t h (suc d) b l e = elim (Bool-cases (stop (cell t h))) [
    | inl found ↦ (h, rw found refl)
    | inr past ↦
        let moved : (h + suc d) % length t ≡ ((h + 1) % length t + d) % length t =
          ap (λ n. n % length t) (omega arith) ∙ sym (mod-add-mod (h + 1) (length t) d) in
        let later =
          walk_total stop fuel t ((h + 1) % length t) d (mod-lt (h + 1) (omega arith)) (omega arith)
            (subst (λ z. stop (cell t z) ≡ true) moved e) in
        (later.0, rw past later.1)
  ]

  cell-set_self :
      (t : List (Option A)) (i : ℕ) (v : Option A) → i < length t → cell (set t i v) i ≡ v
  cell-set_self [] i v h = absurd (omega arith)
  cell-set_self (x ∷ t) zero v h = refl
  cell-set_self (x ∷ t) (suc i) v h = cell-set_self t i v (omega arith)

  cell-set_ne :
      (t : List (Option A)) (i j : ℕ) (v : Option A) → i ≢ j → cell (set t i v) j ≡ cell t j
  cell-set_ne [] i j v h = refl
  cell-set_ne (x ∷ t) zero zero v h = absurd (h refl)
  cell-set_ne (x ∷ t) zero (suc j) v h = refl
  cell-set_ne (x ∷ t) (suc i) zero v h = refl
  cell-set_ne (x ∷ t) (suc i) (suc j) v h = cell-set_ne t i j v (λ e. h (ap suc e))

  pub cell-set :
      (t : List (Option A)) (i j : ℕ) (v : Option A)
      → i < length t
      → cell (set t i v) j ≡ (if i == j then v else cell t j)
  cell-set t i j v h = elim (Bool-cases (i == j)) [
    | inl e ↦
        let same : i ≡ j = (==_iff i j).0 e in
        rw e (subst (λ z. cell (set t i v) z ≡ v) same (cell-set_self t i v h))
    | inr n ↦ rw n (cell-set_ne t i j v (λ e. ground (arith, n, e)))
  ]

  -- A write of an empty cell leaves a walk where it ended, if that end still stops it.
  pub walk-set :
      (stop : Option A → Bool) (fuel : ℕ) (t : List (Option A)) (h g s : ℕ) (a : A)
      → stop none ≡ true
      → h < length t
      → cell t h ≡ none
      → walk stop fuel t g ≡ some s
      → (h ≡ s → stop (some a) ≡ true)
      → walk stop fuel (set t h (some a)) g ≡ some s
  unfolding walk
  walk-set stop zero t h g s a n b e w k = cc
  walk-set stop (suc fuel) t h g s a n b e w k = elim (Bool-cases (h == g)) [
    | inl at ↦
        let same : h ≡ g = (==_iff h g).0 at in
        let halted : stop (cell t g) ≡ true = subst (λ z. stop (cell t z) ≡ true) same (rw e n) in
        let ended : g ≡ s = ground (arith, w, halted) in
        let now : stop (cell (set t h (some a)) g) ≡ true =
          rw (cell-set t h g (some a) b, at) (k (same ∙ ended)) in
        rw now (ap some ended)
    | inr off ↦
        let kept : cell (set t h (some a)) g ≡ cell t g =
          rw (cell-set t h g (some a) b, off) refl in
        elim (Bool-cases (stop (cell t g))) [
          | inl halted ↦ rw (kept, halted) (ground (arith, w, halted))
          | inr past ↦
              rw (kept, past, length-set t h (some a))
                (walk-set stop fuel t h ((g + 1) % length t) s a n b e (ground (arith, w, past)) k)
        ]
  ]

  -- How many cells are in use.
  unfoldable pub in_use : List (Option A) → ℕ
  in_use [] = 0
  in_use (none ∷ t) = in_use t
  in_use (some a ∷ t) = suc (in_use t)

  pub some_empty :
      (t : List (Option A)) → in_use t < length t → (i : ℕ) × (i < length t) × (cell t i ≡ none)
  unfolding in_use
  some_empty [] h = absurd (omega arith)
  some_empty (none ∷ t) h = (0, omega arith, refl)
  some_empty (some a ∷ t) h = let (i, b, e) = some_empty t (omega arith) in (suc i, omega arith, e)

  pub in_use-set :
      (t : List (Option A)) (i : ℕ) (a : A)
      → i < length t
      → cell t i ≡ none
      → in_use (set t i (some a)) ≡ suc (in_use t)
  unfolding in_use
  in_use-set [] i a h e = absurd (omega arith)
  in_use-set (none ∷ t) zero a h e = refl
  in_use-set (some x ∷ t) zero a h e = cc
  in_use-set (none ∷ t) (suc i) a h e = in_use-set t i a (omega arith) e
  in_use-set (some x ∷ t) (suc i) a h e = ap suc (in_use-set t i a (omega arith) e)

  -- A table with an empty cell stops every walk that empty cells stop, within its own size.
  pub walk_ends :
      (stop : Option A → Bool) (t : List (Option A)) (h : ℕ)
      → stop none ≡ true
      → in_use t < length t
      → h < length t
      → (s : ℕ) × (walk stop (length t) t h ≡ some s)
  walk_ends stop t h n u b =
      let (i, l, e) = some_empty t u in
      let d = (i + length t - h) % length t in
      let there : (h + d) % length t ≡ i =
        add-mod-mod h (i + length t - h) (length t)
        ∙ ap (λ z. z % length t) (omega arith)
        ∙ add-mod_right i (length t)
        ∙ mod-eq_of_lt l in
      walk_total stop (length t) t h d b (mod-lt (i + length t - h) (omega arith))
        (subst (λ z. stop (cell t z) ≡ true) (sym there) (rw e n))
