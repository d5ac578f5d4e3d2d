-- ===== src/Having.antt =====
-- The hooks of unit/optimizer/query_planner.having_selectivity/hooks.cpp, at a revision that has the
-- HAVING estimate and at one that has not. A double is of a type of the engine's with its literals; the
-- engine's functions are a parameter, over a state that they share. One that an assertion leaves by
-- longjmp gives none.
use dev4_review_workspace.Prelude.{
  ℕ, zero, suc, Bool, Option, none, some, if◌then◌else◌, ℤ, pos, negsuc,
}

-- Whether QO_HAVING_DEFAULT_SELECTIVITY is defined
pub data HavingRevision : Type 0 where
  without_having with_having : HavingRevision

-- QO_HAVING_ENV
pub record HavingEnv (Env Node Double : Type 0) : Type 0 where
  pub env : Env
  pub group_size : Double
  pub group_attr : Node
  pub group_scale : Double

pub record HavingEngine : Type 1 where
  pub World : Type 0
  pub Env : Type 0
  pub Plan : Type 0
  -- a PT_NODE pointer, and NULL
  pub Node : Type 0
  pub null_node : Node
  pub Value : Type 0
  pub SortType : Type 0
  pub Double : Type 0
  pub literal : ℤ → Double
  -- QO_HAVING_HAS_AGGREGATE, QO_HAVING_HAS_GROUPBY_NUM and QO_HAVING_DEFAULT_SELECTIVITY
  pub has_aggregate : ℤ
  pub has_groupby_num : ℤ
  pub default_selectivity : Double
  -- parser_walk_tree with qo_has_aggregate_pre, from the flags given
  pub walk_aggregates : Node → ℤ → World → ℤ × World
  -- qo_having_aggregate_term, _disjunct_selectivity, _pred_selectivity and qo_having_selectivity
  pub aggregate_term : HavingEnv Env Node Double → Node → World → Option Double × World
  pub disjunct_selectivity : HavingEnv Env Node Double → Node → World → Option Double × World
  pub pred_selectivity : HavingEnv Env Node Double → Node → World → Option Double × World
  pub selectivity : HavingEnv Env Node Double → Node → World → Option Double × World
  pub row_compare : Node → Value → Bool → Bool → World → Double × World
  -- qo_having_env_init and qo_estimate_ngroups
  pub env_init : Plan → Double → World → Option (HavingEnv Env Node Double) × World
  -- whether it is left by longjmp
  pub estimate_ngroups : Plan → SortType → World → Bool × World

-- A result with `*aborted`
pub record Guarded (A : Type 0) : Type 0 where
  pub aborted : ℕ
  pub value : A

unfoldable pub unitseam_has_having : HavingRevision → ℕ
unitseam_has_having with_having = 1
unitseam_has_having without_having = 0

module _ (e : HavingEngine) where
  unfoldable pub unitseam_having_flag_aggregate : HavingRevision → ℤ
  unitseam_having_flag_aggregate with_having = e.has_aggregate
  unitseam_having_flag_aggregate without_having = pos 0

  unfoldable pub unitseam_having_flag_groupby_num : HavingRevision → ℤ
  unitseam_having_flag_groupby_num with_having = e.has_groupby_num
  unitseam_having_flag_groupby_num without_having = pos 0

  unfoldable pub unitseam_having_default : HavingRevision → e.Double
  unitseam_having_default with_having = e.default_selectivity
  unitseam_having_default without_having = e.literal (negsuc 1)

  unfoldable pub unitseam_having_found : HavingRevision → e.Node → e.World → ℤ × e.World
  unitseam_having_found with_having pred w = e.walk_aggregates pred (pos 0) w
  unitseam_having_found without_having pred w = (negsuc 0, w)

  unfoldable pub unitseam_henv :
      e.Env → e.Double → e.Node → e.Double → HavingEnv e.Env e.Node e.Double
  unitseam_henv env group_size group_attr group_scale = record {
    env = env;
    group_size = group_size;
    group_attr = group_attr;
    group_scale = group_scale;
  }

  -- The estimator that `which` chooses
  unfoldable pub estimator :
      ℕ → HavingEnv e.Env e.Node e.Double → e.Node → e.World → Option e.Double × e.World
  estimator zero henv pred w = e.aggregate_term henv pred w
  estimator (suc zero) henv pred w = e.disjunct_selectivity henv pred w
  estimator (suc (suc zero)) henv pred w = e.pred_selectivity henv pred w
  estimator (suc (suc (suc n))) henv pred w = e.selectivity henv pred w

  -- What the hook returns of a call that may have ended in `catch_`
  unfoldable pub caught : Option e.Double → Guarded e.Double
  caught none = record { aborted = 1; value = e.literal (negsuc 8) }
  caught (some x) = record { aborted = 0; value = x }

  unfoldable pub unitseam_having_estimate :
      HavingRevision
      → ℕ
      → e.Env
      → e.Node
      → e.Double
      → e.Node
      → e.Double
      → e.World
      → Guarded e.Double × e.World
  unfolding unitseam_henv estimator caught
  unitseam_having_estimate with_having which env pred group_size group_attr group_scale w =
      let (x, after) =
        estimator which (unitseam_henv env group_size group_attr group_scale) pred w in
      (caught x, after)
  unitseam_having_estimate without_having which env pred group_size group_attr group_scale w =
      (record { aborted = 0; value = e.literal (negsuc 1) }, w)

  unfoldable pub unitseam_having_row_compare :
      HavingRevision → e.Node → e.Value → Bool → Bool → e.World → e.Double × e.World
  unitseam_having_row_compare with_having attr value is_ge include_equal w =
      e.row_compare attr value is_ge include_equal w
  unitseam_having_row_compare without_having attr value is_ge include_equal w =
      (e.literal (negsuc 1), w)

-- `*group_attr`, `*group_scale` and `*out_group_size`
pub record GroupFound (Node Double : Type 0) : Type 0 where
  pub group_attr : Node
  pub group_scale : Double
  pub group_size : Double

module _ (e : HavingEngine) where
  -- A call that ended in `catch_` leaves what the caller had.
  unfoldable pub found_of :
      GroupFound e.Node e.Double
      → Option (HavingEnv e.Env e.Node e.Double)
      → Guarded (GroupFound e.Node e.Double)
  found_of old none = record { aborted = 1; value = old }
  found_of old (some henv) = record {
    aborted = 0;
    value = record {
      group_attr = henv.group_attr;
      group_scale = henv.group_scale;
      group_size = henv.group_size;
    };
  }

  unfoldable pub unitseam_having_env_init :
      HavingRevision
      → e.Plan
      → e.Double
      → GroupFound e.Node e.Double
      → e.World
      → Guarded (GroupFound e.Node e.Double) × e.World
  unfolding found_of
  unitseam_having_env_init with_having plan group_size old w =
      let (henv, after) = e.env_init plan group_size w in (found_of old henv, after)
  unitseam_having_env_init without_having plan group_size old w = (
    record {
      aborted = 0;
      value = record {
        group_attr = e.null_node;
        group_scale = e.literal (negsuc 1);
        group_size = e.literal (negsuc 1);
      };
    },
    w,
  )

  -- `*aborted`
  unfoldable pub unitseam_estimate_ngroups : e.Plan → e.SortType → e.World → ℕ × e.World
  unitseam_estimate_ngroups plan sort_type w =
      let (left, after) = e.estimate_ngroups plan sort_type w in (if left then 1 else 0, after)
