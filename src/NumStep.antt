-- ===== src/NumStep.antt =====
-- The hook of unit/query/e_expr_batch.num_step_scale/hooks.cpp: one NUMERIC step over a column vector, a
-- scalar and a slot vector, built by hand. The engine's functions and codes are a parameter; an
-- int64_t and an __int128 are integers, and a scale is one that a short holds. What the hook leaves
-- uninitialized of its arrays of 64 is left out.
use dev4_review_workspace.Prelude.{
  ℕ, zero, suc, ◌%◌, ◌≤◌, ◌<◌, ◌≡◌, refl, sym, ap, ◌∙◌, inl, inr, Bool, true, false, not, ◌||◌,
  List, [], ◌∷◌, map, arith, ltb, ◌==◌, if◌then◌else◌, Bool-cases, length, get_or, replicate,
  length-map, ℤ, pos, negsuc, pos_part, eqb_ℤ, eqb_ℤ_iff,
}

-- The data, NULL marks and scales of an EB_VEC
pub record Vector : Type 0 where
  pub elements : List ℤ
  pub isnull : List Bool
  pub scales : List ℤ
  pub scale : ℤ
  pub kind : ℤ
  pub etype : ℤ
  pub dbtype : ℤ

-- EB_VEC_SRC
pub record VectorSource : Type 0 where
  pub precision : ℤ
  pub scale : ℤ

-- EB_STEP
pub record Step : Type 0 where
  pub op : ℕ
  pub in1 : ℕ
  pub in2 : ℕ
  pub out : ℕ
  pub etype : ℤ
  pub result_type : ℤ

-- EXPR_BATCH_PLAN
pub record StepPlan : Type 0 where
  pub vecs : List Vector
  pub vsrc : List VectorSource
  pub steps : List Step

-- EXPR_BATCH
pub record RowBatch : Type 0 where
  pub n_rows : ℕ
  pub cap : ℕ
  pub sel : List ℕ
  pub n_sel : ℕ

pub record StepEngine : Type 1 where
  -- EB_VK_COL, EB_VK_SCALAR, EB_VK_SLOT, EB_N64, EB_NUM, DB_TYPE_NUMERIC, EB_OP_ADD and EB_OP_MUL
  pub vk_col : ℤ
  pub vk_scalar : ℤ
  pub vk_slot : ℤ
  pub n64 : ℤ
  pub num : ℤ
  pub type_numeric : ℤ
  pub op_add : ℤ
  pub op_mul : ℤ
  -- NUMERIC_AGG_EXPR_VAL and DB_VALUE
  pub AggValue : Type 0
  pub DbValue : Type 0
  -- eb_run_steps: its error code, 0 for NO_ERROR, and the vectors after it
  pub run_steps : StepPlan → RowBatch → ℤ × List Vector
  -- eb_num_get and eb_pack_dbv, of the element i of the slot vector
  pub num_get : List Vector → ℕ → AggValue
  pub pack_dbv : StepPlan → List Vector → ℕ → DbValue

-- 0, 1, ..., n - 1, from i on
unfoldable pub count_from : ℕ → ℕ → List ℕ
count_from i zero = []
count_from i (suc n) = i ∷ count_from (suc i) n

-- `col[i]`, for the elements that the caller hands over
unfoldable pub element : List ℤ → ℕ → ℤ
element col i = get_or col i (pos 0)

module _ (e : StepEngine) where
  unfoldable pub step_vectors : List ℤ → ℕ → ℤ → ℤ → ℤ → List Vector
  unfolding element count_from
  step_vectors col n col_scale k k_scale =
      record {
        elements = map (element col) (count_from 0 n);
        isnull = replicate n false;
        scales = [];
        scale = col_scale;
        kind = e.vk_col;
        etype = e.n64;
        dbtype = e.type_numeric;
      }
      ∷ record {
        elements = k ∷ [];
        isnull = false ∷ [];
        scales = [];
        scale = k_scale;
        kind = e.vk_scalar;
        etype = e.num;
        dbtype = e.type_numeric;
      }
      ∷ record {
        elements = [];
        isnull = replicate n true;
        scales = replicate 64 (pos 0);
        scale = pos 0;
        kind = e.vk_slot;
        etype = e.num;
        dbtype = e.type_numeric;
      }
      ∷ []

  unfoldable pub step_plan : ℤ → List ℤ → ℕ → ℤ → ℤ → ℤ → StepPlan
  unfolding step_vectors
  step_plan op col n col_scale k k_scale = record {
    vecs = step_vectors col n col_scale k k_scale;
    vsrc =
        record { precision = pos 18; scale = col_scale }
        ∷ record { precision = pos 0; scale = pos 0 }
        ∷ record { precision = pos 0; scale = pos 0 }
        ∷ [];
    steps =
        record {
          op = pos_part op % 256;
          in1 = 0;
          in2 = 1;
          out = 2;
          etype = e.num;
          result_type = e.type_numeric;
        }
        ∷ [];
  }

  unfoldable pub step_rows : ℕ → RowBatch
  unfolding count_from
  step_rows n = record { n_rows = n; cap = n; sel = count_from 0 n; n_sel = n }

  -- The result and, where it is 0, what each row is read as; for an n that is not negative
  unfoldable pub unitseam_eb_num_step :
      ℤ → List ℤ → ℕ → ℤ → ℤ → ℤ → ℤ × List (e.AggValue × e.DbValue)
  unfolding step_plan step_rows count_from
  unitseam_eb_num_step op col n col_scale k k_scale =
      if n == 0 || ltb 64 n
      then (negsuc 99, [])
      else (let plan = step_plan op col n col_scale k k_scale in
          let (rc, vecs) = e.run_steps plan (step_rows n) in
          if not (eqb_ℤ rc (pos 0)) then (rc, []) else (
            pos 0,
            map (λ i. (e.num_get vecs i, e.pack_dbv (record plan { vecs = vecs }) vecs i))
                (count_from 0 n),
          ))

  unfoldable pub unitseam_eb_op_add : ℤ
  unitseam_eb_op_add = e.op_add

  unfoldable pub unitseam_eb_op_mul : ℤ
  unitseam_eb_op_mul = e.op_mul

  length-count_from : (i n : ℕ) → length (count_from i n) ≡ n
  unfolding count_from
  length-count_from i zero = refl
  length-count_from i (suc n) = ap suc (length-count_from (suc i) n)

  -- A step that succeeds reads every row back, and there are between 1 and 64.
  length-unitseam_eb_num_step :
      (op : ℤ) (col : List ℤ) (n : ℕ) (col_scale k k_scale : ℤ)
      → (unitseam_eb_num_step op col n col_scale k k_scale).0 ≡ pos 0
      → (length (unitseam_eb_num_step op col n col_scale k k_scale).1 ≡ n) × (0 < n) × (n ≤ 64)
  unfolding unitseam_eb_num_step
  length-unitseam_eb_num_step op col n col_scale k k_scale h =
      elim (Bool-cases (n == 0 || ltb 64 n)) [
        | inl out ↦
            let failed : (unitseam_eb_num_step op col n col_scale k k_scale).0 ≡ negsuc 99 =
              rw (unitseam_eb_num_step, out) refl in
            absurd (never (sym failed ∙ h))
        | inr within ↦
            elim (Bool-cases (
              eqb_ℤ (e.run_steps (step_plan op col n col_scale k k_scale) (step_rows n)).0
                (pos 0))) [
                  | inl ok ↦
                      rw (unitseam_eb_num_step, within, ok)
                        (
                          length-map (count_from 0 n) _ ∙ length-count_from 0 n,
                          ground (arith, within),
                          ground (arith, within),
                        )
                  | inr bad ↦
                      let failed : (unitseam_eb_num_step op col n col_scale k k_scale).0
                          ≡ (e.run_steps (step_plan op col n col_scale k k_scale) (step_rows n)).0 =
                        rw (unitseam_eb_num_step, within, bad) refl in
                      absurd (no_error _ bad (sym failed ∙ h))
                ]
      ]
    where
      never : negsuc 99 ≡ pos 0 → ⊥
      never h = cc

      no_error : (a : ℤ) → eqb_ℤ a (pos 0) ≡ false → a ≡ pos 0 → ⊥
      no_error a n z = cc ((eqb_ℤ_iff a (pos 0)).1 z)
