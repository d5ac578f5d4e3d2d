-- ===== src/PrefixHash.antt =====
-- The hooks of unit/storage/btree.prefix_value_hash/hooks.cpp, at a revision that has
-- btree_get_stats_prefix_value_hash and at one that has not. The engine's functions are a parameter.
use dev4_review_workspace.Prelude.{
  ℕ, ◌≤◌, ◌≡◌, refl, ◌∙◌, ◌↔◌, Bool, true, false, ◌&&◌, Option, none, some, List, ◌++◌, arith, ltb,
  leb, if◌then◌else◌, length, length-append, drop, length-drop, ℤ, pos,
}

pub data HashRevision : Type 0 where
  without_prefix_hash with_prefix_hash : HashRevision

-- unitseam_elem, unitseam_used_legacy and unitseam_reservoir
pub record HashState (Value : Type 0) : Type 0 where
  pub elem : Option Value
  pub used_legacy : Bool
  pub reservoir : List ℕ

pub record HashEngine : Type 1 where
  pub Value : Type 0
  pub make_int : ℤ → Value
  -- the engine's btree_get_stats_prefix_value_hash, and mht_valhash of a value up to a bound
  pub prefix_value_hash : Value → ℕ
  pub valhash : Value → ℕ → ℕ
  -- btree_get_stats_duj1_estimate: the keys, the sample's size and the sample, for the level 0
  pub duj1_estimate : ℤ → ℕ → List ℕ → ℤ
  -- BTREE_STATS_DUJ1_SAMPLE
  pub duj1_sample : ℕ

module _ (e : HashEngine) where
  -- The template, which the engine's own function beats where there is one
  unfoldable pub legacy_value_hash : e.Value → HashState e.Value → ℕ × HashState e.Value
  legacy_value_hash value s =
      (e.valhash value 4294967294, record s { elem = some value; used_legacy = true })

  unfoldable pub unitseam_prefix_value_hash :
      HashRevision → e.Value → HashState e.Value → ℕ × HashState e.Value
  unfolding legacy_value_hash
  unitseam_prefix_value_hash with_prefix_hash value s = (e.prefix_value_hash value, s)
  unitseam_prefix_value_hash without_prefix_hash value s = legacy_value_hash value s

  unfoldable pub unitseam_prefix_hash_is_legacy :
      HashRevision → HashState e.Value → Bool × HashState e.Value
  unfolding unitseam_prefix_value_hash
  unitseam_prefix_hash_is_legacy revision s =
      let (_, after) =
        unitseam_prefix_value_hash revision (e.make_int (pos 1))
          (record s { used_legacy = false }) in
      (after.used_legacy, after)

  -- `memcpy` over the front of the reservoir
  unfoldable pub copied : List ℕ → List ℕ → List ℕ
  copied hashes reservoir = hashes ++ drop (length hashes) reservoir

  -- For 1 to BTREE_STATS_DUJ1_SAMPLE hashes, none where the assertion fails
  unfoldable pub unitseam_duj1_estimate :
      List ℕ → ℤ → HashState e.Value → Option (ℤ × HashState e.Value)
  unfolding copied
  unitseam_duj1_estimate hashes total_keys s =
      let filled = copied hashes s.reservoir in
      if ltb 0 (length hashes) && leb (length hashes) e.duj1_sample
      then some (e.duj1_estimate total_keys (length hashes) filled, record s { reservoir = filled })
      else none

  unfoldable pub unitseam_duj1_sample_capacity : ℕ
  unitseam_duj1_sample_capacity = e.duj1_sample

  -- Whether the revision is the legacy one is told whatever was hashed before.
  unitseam_prefix_hash_is_legacy_lem :
      (revision : HashRevision) (s : HashState e.Value)
      → ((unitseam_prefix_hash_is_legacy revision s).0 ≡ true) ↔ (revision ≡ without_prefix_hash)
  unfolding unitseam_prefix_hash_is_legacy unitseam_prefix_value_hash legacy_value_hash
  unitseam_prefix_hash_is_legacy_lem without_prefix_hash s = (λ h. refl, λ h. refl)
  unitseam_prefix_hash_is_legacy_lem with_prefix_hash s = (λ h. cc, λ h. cc)

  length-copied :
      (hashes reservoir : List ℕ)
      → length hashes ≤ length reservoir
      → length (copied hashes reservoir) ≡ length reservoir
  unfolding copied
  length-copied hashes reservoir h =
      length-append hashes (drop (length hashes) reservoir)
      ∙ omega (arith, length-drop (length hashes) reservoir)
