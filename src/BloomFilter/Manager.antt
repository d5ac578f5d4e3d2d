-- ===== src/BloomFilter/Manager.antt =====
-- `unitseam_hj_init_domain_info` and `unitseam_hj_init_manager` of
-- unit/query/query_hash_join.bloom_filter/hooks.cpp. The engine's functions are a parameter.
use dev4_review_workspace.Prelude.{ℕ, none, some, ℤ}
use dev4_review_workspace.BloomFilter.View.{Pointer}

-- The members of HASHJOIN_MANAGER that the hooks touch
pub record Manager : Type 0 where
  pub merge_info : Pointer
  pub outer : Pointer
  pub inner : Pointer
  pub domp : Pointer

-- The addresses inside the hash join's XASL node
pub record HashJoin : Type 0 where
  pub merge_info : Pointer
  pub outer : Pointer
  pub inner : Pointer
  pub domain_info : Pointer

pub record ManagerEngine : Type 1 where
  pub World : Type 0
  -- hjoin_init_domain_info, hjoin_init_manager and db_private_free
  pub init_domain_info : Manager → Pointer → World → ℤ × World
  pub init_manager : Manager → HashJoin → ℕ → World → ℤ × (Manager × World)
  pub heap_free : ℕ → World → World

abbrev pub no_manager : Manager
no_manager = record { merge_info = none; outer = none; inner = none; domp = none }

module _ (e : ManagerEngine) where
  unfoldable pub unitseam_hj_init_domain_info : HashJoin → e.World → ℤ × e.World
  unitseam_hj_init_domain_info hj w =
      let manager : Manager = record no_manager {
        merge_info = hj.merge_info;
        outer = hj.outer;
        inner = hj.inner;
      } in
      e.init_domain_info manager hj.domain_info w

  unfoldable pub free_types : Pointer → e.World → e.World
  free_types none w = w
  free_types (some domp) w = e.heap_free domp w

  -- `manager` is what the stack held; the query's id is 1.
  unfoldable pub unitseam_hj_init_manager : Manager → HashJoin → e.World → ℤ × e.World
  unfolding free_types
  unitseam_hj_init_manager manager hj w =
      let (error, (filled, after)) = e.init_manager manager hj 1 w in
      (error, free_types filled.domp after)
