-- ===== src/LeafConstant.antt =====
-- The hook of unit/query/e_expr_batch.num_leaf_constant/hooks.cpp: a chunk of one NUMERIC column and one
-- leaf over it, built by hand. The engine's functions and codes are a parameter; an __int128 is an
-- integer, and a scale is one that a short holds.
use dev4_review_workspace.Prelude.{
  ℕ, ◌%◌, Bool, false, not, ◌||◌, Option, none, some, List, map, ltb, ◌==◌, if◌then◌else◌, get_or,
  take, replicate, ℤ, pos, negsuc, pos_part, eqb_ℤ,
}
use dev4_review_workspace.NumStep.{VectorSource, RowBatch, count_from, element}

-- EB_VEC, as far as the leaf reads it
pub record LeafVector : Type 0 where
  pub elements : List ℤ
  pub isnull : List Bool
  pub kind : ℤ
  pub etype : ℤ
  pub dbtype : ℤ
  pub scale : ℤ
  pub col : ℤ

-- EB_COL
pub record Column : Type 0 where
  pub vec : ℤ
  pub type : ℤ
  pub is_fixed : Bool
  pub scale : ℤ

-- EB_LEAF, with the constant's coefficient `k.n`
pub record Leaf : Type 0 where
  pub vec : ℤ
  pub col : ℤ
  pub vec2 : ℤ
  pub col2 : ℤ
  pub etype : ℤ
  pub k_type : ℤ
  pub rel_op : ℕ
  pub k_all : ℤ
  pub k_op : ℤ
  pub k_n : ℤ

-- EXPR_BATCH_PLAN
pub record LeafPlan : Type 0 where
  pub vec : LeafVector
  pub vsrc : VectorSource
  pub col : Column
  pub leaf : Leaf
  pub unk : List Bool

pub record LeafEngine : Type 1 where
  -- EB_VK_COL, EB_NUM and DB_TYPE_NUMERIC
  pub vk_col : ℤ
  pub num : ℤ
  pub type_numeric : ℤ
  pub DbValue : Type 0
  -- eb_num_leaf_constant: its error code, 0 for NO_ERROR, and the leaf
  pub num_leaf_constant : Leaf → DbValue → ℤ → ℤ × Leaf
  -- eb_raw_kid over the rows: its error code and the batch
  pub raw_kid : LeafPlan → RowBatch → Leaf → ℤ × RowBatch

-- What the hook hands over; `kept` and its number only where the constant was brought to the scale
pub record LeafResult : Type 0 where
  pub rc : ℤ
  pub k_all : ℤ
  pub k_op : ℤ
  pub kn : ℤ
  pub kept : Option (List ℕ)

-- `col_null[i]`, for the marks that the caller hands over, none for NULL
unfoldable pub null_mark : Option (List Bool) → ℕ → Bool
null_mark none i = false
null_mark (some marks) i = get_or marks i false

module _ (e : LeafEngine) where
  unfoldable pub new_leaf : ℤ → Leaf
  new_leaf rel_op = record {
    vec = pos 0;
    col = pos 0;
    vec2 = negsuc 0;
    col2 = negsuc 0;
    etype = e.num;
    k_type = e.type_numeric;
    rel_op = pos_part rel_op % 256;
    k_all = pos 0;
    k_op = pos 0;
    k_n = pos 0;
  }

  unfoldable pub leaf_plan : List ℤ → Option (List Bool) → ℕ → ℤ → Leaf → LeafPlan
  unfolding count_from element null_mark
  leaf_plan col_vals col_null n col_scale leaf = record {
    vec = record {
      elements = map (element col_vals) (count_from 0 n);
      isnull = map (null_mark col_null) (count_from 0 n);
      kind = e.vk_col;
      etype = e.num;
      dbtype = e.type_numeric;
      scale = col_scale;
      col = pos 0;
    };
    vsrc = record { precision = pos 38; scale = col_scale };
    col = record { vec = pos 0; type = e.type_numeric; is_fixed = false; scale = col_scale };
    leaf = leaf;
    unk = replicate n false;
  }

  -- The leaf run over every row, after its constant
  unfoldable pub run_leaf : List ℤ → Option (List Bool) → ℕ → ℤ → Leaf → LeafResult
  unfolding leaf_plan count_from
  run_leaf col_vals col_null n col_scale leaf =
      let rows : RowBatch = record { n_rows = n; cap = n; sel = count_from 0 n; n_sel = n } in
      let (rc, after) = e.raw_kid (leaf_plan col_vals col_null n col_scale leaf) rows leaf in
      record {
        rc = rc;
        k_all = leaf.k_all;
        k_op = leaf.k_op;
        kn = leaf.k_n;
        kept = some (take after.n_sel after.sel);
      }

  -- For an n that is not negative; none where nothing is handed over
  unfoldable pub unitseam_eb_num_leaf :
      List ℤ → Option (List Bool) → ℕ → ℤ → e.DbValue → ℤ → ℤ × Option LeafResult
  unfolding new_leaf run_leaf
  unitseam_eb_num_leaf col_vals col_null n col_scale k rel_op =
      if n == 0 || ltb 256 n
      then (negsuc 99, none)
      else (let (rc, leaf) = e.num_leaf_constant (new_leaf rel_op) k col_scale in
          let run = run_leaf col_vals col_null n col_scale leaf in
          if not (eqb_ℤ rc (pos 0))
          then (
            rc,
            some record {
              rc = rc;
              k_all = leaf.k_all;
              k_op = leaf.k_op;
              kn = leaf.k_n;
              kept = none;
            },
          )
          else (run.rc, some run))
