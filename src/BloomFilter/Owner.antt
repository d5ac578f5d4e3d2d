-- ===== src/BloomFilter/Owner.antt =====
-- The owner's fill and checks of unit/query/query_hash_join.bloom_filter/hooks.cpp. The engine's
-- functions are a parameter, on the filter of the second input and on the rest of the state.
use dev4_review_workspace.Prelude.{
  ℕ, Bool, true, false, not, ◌||◌, Option, none, some, if◌then◌else◌, ℤ, pos, negsuc, eqb_ℤ,
}
use dev4_review_workspace.BloomFilter.{Layout, is_staged, is_concurrent, Macros}
use dev4_review_workspace.BloomFilter.View.{
  Pointer, Common, Bloom, earlier_bloom, staged_bloom, concurrent_bloom, early_bloom, layout_of,
  common,
}

-- Whether the row is checked: the filter and the state after hjoin_bloom_owner_row or _ready, which
-- return the filter attached to the input, or NULL
pub data Owned (World : Type 0) : Type 0 where
  not_checked : Option Bloom → World → Owned World
  checked : Bloom → World → Owned World

pub record OwnerEngine : Type 1 where
  pub World : Type 0
  pub Record : Type 0
  -- hjoin_bloom_setup, _fill and _build
  pub setup : Bloom → World → Bloom × World
  pub fill : Bloom → World → Bloom × World
  pub build : Bloom → World → Bloom × World
  pub owner_row : Option Bloom → World → Owned World
  pub ready : Option Bloom → World → Owned World
  -- hjoin_bloom_skip_record
  pub skip_record : Bloom → Record → World → Bool × (Bloom × World)
  -- hjoin_bloom_check: `failed`, the result, the filter and the state
  pub check : Bloom → Pointer → Record → World → Bool × (Bool × (Bloom × World))
  -- hjoin_bloom_may_contain
  pub may_contain : Bloom → ℕ → Bool

-- `set_up`, and `built` of the earlier layout
unfoldable pub set_up_of : Bloom → Bool
set_up_of (earlier_bloom built disabled c) = built
set_up_of (staged_bloom s c) = s.set_up
set_up_of (concurrent_bloom f s c) = s.set_up
set_up_of (early_bloom k f s c) = s.set_up

unfoldable pub disabled_of : Bloom → Bool
disabled_of (earlier_bloom built disabled c) = disabled
disabled_of (staged_bloom s c) = false
disabled_of (concurrent_bloom f s c) = false
disabled_of (early_bloom k f s c) = false

-- `state == value`, for a value of the enumeration; the earlier layout has no state.
unfoldable pub in_state : ℤ → Bloom → Bool
in_state value (earlier_bloom built disabled c) = false
in_state value (staged_bloom s c) = eqb_ℤ s.state value
in_state value (concurrent_bloom f s c) = eqb_ℤ s.state value
in_state value (early_bloom k f s c) = eqb_ℤ s.state value

unfoldable pub with_common : Common → Bloom → Bloom
with_common c (earlier_bloom built disabled _) = earlier_bloom built disabled c
with_common c (staged_bloom s _) = staged_bloom s c
with_common c (concurrent_bloom f s _) = concurrent_bloom f s c
with_common c (early_bloom k f s _) = early_bloom k f s c

unfoldable pub unitseam_bloom_set_seen : Bloom → ℤ → Bloom
unitseam_bloom_set_seen (earlier_bloom built disabled c) seen = earlier_bloom built disabled c
unitseam_bloom_set_seen (staged_bloom s c) seen = staged_bloom (record s { seen = seen }) c
unitseam_bloom_set_seen (concurrent_bloom f s c) seen =
    concurrent_bloom f (record s { seen = seen }) c
unitseam_bloom_set_seen (early_bloom k f s c) seen = early_bloom k f (record s { seen = seen }) c

unfoldable pub flag : Bool → ℤ
flag true = pos 1
flag false = pos 0

module _ (e : OwnerEngine) (m : Macros) where
  unfoldable pub fill_waiting : Bloom → e.World → Bloom × e.World
  unfolding in_state
  fill_waiting b w = if in_state m.waiting b then e.fill b w else (b, w)

  -- The set-up of a layout that is staged and not concurrent
  unfoldable pub set_up_first : Bloom → e.World → Bloom × e.World
  unfolding set_up_of
  set_up_first b w = if set_up_of b then (b, w) else e.setup b w

  unfoldable pub unitseam_fill_now_impl : Bloom → e.World → Bloom × e.World
  unfolding fill_waiting set_up_first set_up_of
  unitseam_fill_now_impl b w =
      if is_staged (layout_of b)
      then (if is_concurrent (layout_of b)
          then fill_waiting b w
          else (let (now, after) = set_up_first b w in fill_waiting now after))
      else (if set_up_of b then (b, w) else e.build b w)

  unfoldable pub unitseam_bloom_fill_now : Bloom → e.World → Bloom × e.World
  unfolding unitseam_fill_now_impl
  unitseam_bloom_fill_now b w = unitseam_fill_now_impl b w

  unfoldable pub skip_owned : e.Record → Owned e.World → ℤ × (Option Bloom × e.World)
  unfolding flag
  skip_owned r (not_checked b w) = (negsuc 0, (b, w))
  skip_owned r (checked b w) =
      let (skip, (now, after)) = e.skip_record b r w in (flag skip, (some now, after))

  unfoldable pub unitseam_bloom_skip_bound :
      Layout → Option Bloom → e.Record → e.World → ℤ × (Option Bloom × e.World)
  unfolding skip_owned is_staged
  unitseam_bloom_skip_bound layout b r w =
      if is_staged layout then skip_owned r (e.owner_row b w) else skip_owned r (e.ready b w)

  unfoldable pub check_staged : Bloom → e.Record → e.World → ℤ × (Bloom × e.World)
  unfolding in_state flag common
  check_staged b r w =
      if in_state m.ready b
      then (let (failed, (skip, after)) = e.check b ((common b).key) r w in
          (if failed then negsuc 1 else flag skip, after))
      else (negsuc 0, (b, w))

  unfoldable pub restore_counters : Common → Bloom → Bloom
  unfolding common with_common
  restore_counters c b =
      with_common (record (common b) { tested = c.tested; skipped = c.skipped }) b

  unfoldable pub check_earlier : Bloom → e.Record → e.World → ℤ × (Bloom × e.World)
  unfolding set_up_of disabled_of restore_counters common flag
  check_earlier b r w =
      if not (set_up_of b) || disabled_of b
      then (negsuc 0, (b, w))
      else (let (skip, (now, after)) = e.skip_record b r w in
          (
            if disabled_of now then negsuc 1 else flag skip,
            (restore_counters (common b) now, after),
          ))

  unfoldable pub unitseam_bloom_check_bound :
      Option Bloom → e.Record → e.World → ℤ × (Option Bloom × e.World)
  unfolding check_staged check_earlier layout_of is_staged
  unitseam_bloom_check_bound none r w = (negsuc 0, (none, w))
  unitseam_bloom_check_bound (some b) r w =
      let (result, (now, after)) =
        if is_staged (layout_of b) then check_staged b r w else check_earlier b r w in
      (result, (some now, after))

  unfoldable pub unitseam_bloom_may_contain : Bloom → ℕ → Bool
  unitseam_bloom_may_contain b hash = e.may_contain b hash
