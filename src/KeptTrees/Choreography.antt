-- ===== src/KeptTrees/Choreography.antt =====
-- The steps of EXECUTE around a kept tree at the two revisions that
-- unit/compat/db_vdb.kept_tree_registry/hooks.cpp serves, on the list of kept trees.
use dev4_review_workspace.Prelude.{
  ◌≡◌, refl, sym, ap, ◌∙◌, inl, inr, Bool, true, false, Option, none, some, List, [], ◌∷◌,
  if◌then◌else◌, Bool-cases, Option-cases,
}
use dev4_review_workspace.KeptTrees.{
  Shape, base, head, Engine, unitseam_exec_checkout, unitseam_exec_return_ok, unitseam_exec_stale,
  unitseam_take_t, unitseam_lookup_t, unitseam_put_back_t,
}

-- The first element that passes and the list without it
unfoldable pub split_first {ℓ} : {A : Type ℓ} → (A → Bool) → List A → Option (A × List A)
split_first p [] = none
split_first p (x ∷ xs) = elim (p x) [
  | true ↦ some (x, xs)
  | false ↦ elim (split_first p xs) [ none ↦ none | some (y, ys) ↦ some (y, x ∷ ys) ]
]

-- What the engine's functions do to the list of kept trees, as the head comment of hooks.cpp and
-- the contract cases of unit/compat/db_vdb.kept_tree_registry/test.cpp have it.
pub record Laws (e : Engine) : Type 0 where
  pub trees : e.World → List e.Session
  -- the tree is of the name; it is of the text and of the server session of the state
  pub has_name : e.Name → e.Session → Bool
  pub serves : e.Name → e.World → e.Session → Bool
  -- a checkout of an entry of this server session and this text: take unlinks it, and lookup links it
  -- again at the front
  pub take_hit :
      (name text : e.Name) (w : e.World) (s : e.Session) (rest : List e.Session)
      → split_first (has_name name) (trees w) ≡ some (s, rest)
      → serves text w s ≡ true
      → ((e.take name text w).0 ≡ some s) × (trees (e.take name text w).1 ≡ rest)
  pub lookup_hit :
      (name text : e.Name) (w : e.World) (s : e.Session) (rest : List e.Session)
      → split_first (has_name name) (trees w) ≡ some (s, rest)
      → serves text w s ≡ true
      → ((e.lookup name text w).0 ≡ some s) × (trees (e.lookup name text w).1 ≡ s ∷ rest)
  -- a tree whose name has no entry is put at the front
  pub put_back_front :
      (name : e.Name) (s : e.Session) (w : e.World)
      → has_name name s ≡ true
      → split_first (has_name name) (trees w) ≡ none
      → trees (e.put_back s w) ≡ s ∷ trees w
  -- a tree whose name has no entry is closed without a change of the list
  pub close_keeps :
      (name : e.Name) (s : e.Session) (w : e.World)
      → has_name name s ≡ true
      → split_first (has_name name) (trees w) ≡ none
      → trees (e.close s w) ≡ trees w
  -- the named entry goes, and the others stay
  pub remove_hit :
      (name : e.Name) (w : e.World) (s : e.Session) (rest : List e.Session)
      → split_first (has_name name) (trees w) ≡ some (s, rest)
      → trees (e.remove name w) ≡ rest

split_first-passes {ℓ} :
    {A : Type ℓ} (p : A → Bool) (xs : List A) (s : A) (rest : List A)
    → split_first p xs ≡ some (s, rest)
    → p s ≡ true
unfolding split_first
split_first-passes p [] s rest h = cc
split_first-passes p (x ∷ xs) s rest h = elim (Bool-cases (p x)) [
  | inl e ↦ (let same : some (x, xs) ≡ some (s, rest) = sym (rw (split_first, e) refl) ∙ h in cc)
  | inr n ↦ elim (Option-cases (split_first p xs)) [
    | inl e ↦ (let none_some : none ≡ some (s, rest) = sym (rw (split_first, n, e) refl) ∙ h in cc)
    | inr (found, e) ↦
        (let same : some (found.0, x ∷ found.1) ≡ some (s, rest) =
            sym (rw (split_first, n, e) refl) ∙ h in
          let passes = split_first-passes p xs found.0 found.1 e in cc)
  ]
]

split_first-front {ℓ} :
    {A : Type ℓ} (p : A → Bool) (s : A) (rest : List A)
    → p s ≡ true
    → split_first p (s ∷ rest) ≡ some (s, rest)
unfolding split_first
split_first-front p s rest h = rw (split_first, h) refl

module _ (e : Engine) (laws : Laws e) where
  module _ (name text : e.Name) (w : e.World) (s : e.Session) (rest : List e.Session)
      (hit : split_first (laws.has_name name) (laws.trees w) ≡ some (s, rest))
      (served : laws.serves text w s ≡ true)
      (alone : split_first (laws.has_name name) rest ≡ none) where
    named : laws.has_name name s ≡ true
    named = split_first-passes (laws.has_name name) (laws.trees w) s rest hit

    -- After the checkout at the later revision the name has no entry.
    gone : split_first (laws.has_name name) (laws.trees (e.take name text w).1) ≡ none
    gone =
        ap (split_first (laws.has_name name)) (laws.take_hit name text w s rest hit served).1
        ∙ alone

    put_back_taken : laws.trees (e.put_back s (e.take name text w).1) ≡ s ∷ rest
    put_back_taken =
        laws.put_back_front name s (e.take name text w).1 named gone
        ∙ ap (◌∷◌ s) (laws.take_hit name text w s rest hit served).1

    -- A checkout that hits hands the tree out, at each revision.
    pub checkout-hit : (shape : Shape) → (unitseam_exec_checkout e shape name text w).0 ≡ some s
    unfolding unitseam_exec_checkout unitseam_take_t unitseam_lookup_t
    checkout-hit head = (laws.take_hit name text w s rest hit served).0
    checkout-hit base = (laws.lookup_hit name text w s rest hit served).0

    -- A checkout that hits and a return leave the tree at the front and the others in their order, at
    -- each revision.
    pub return_ok-front :
        (shape : Shape)
        → laws.trees
            (unitseam_exec_return_ok e shape s (unitseam_exec_checkout e shape name text w).1)
          ≡ s ∷ rest
    unfolding unitseam_exec_checkout unitseam_exec_return_ok unitseam_take_t unitseam_lookup_t
        unitseam_put_back_t
    return_ok-front head = put_back_taken
    return_ok-front base = (laws.lookup_hit name text w s rest hit served).1

    -- Where a name has one entry, and it serves the text in the server session: after the checkout a
    -- stale tree is gone from the list, and only it, or after a signature miss it is at the front. So
    -- at each revision.
    pub stale_trees :
        (shape : Shape) (signature_miss : Bool)
        → laws.trees (
            unitseam_exec_stale e shape s name signature_miss
              (unitseam_exec_checkout e shape name text w).1)
          ≡ (if signature_miss then s ∷ rest else rest)
    unfolding unitseam_exec_checkout unitseam_exec_stale unitseam_take_t unitseam_lookup_t
        unitseam_put_back_t
    stale_trees head true = put_back_taken
    stale_trees head false =
        laws.close_keeps name s (e.take name text w).1 named gone
        ∙ (laws.take_hit name text w s rest hit served).1
    stale_trees base true = (laws.lookup_hit name text w s rest hit served).1
    stale_trees base false = laws.remove_hit name (e.lookup name text w).1 s rest (
        ap (split_first (laws.has_name name)) (laws.lookup_hit name text w s rest hit served).1
        ∙ split_first-front (laws.has_name name) s rest named)
