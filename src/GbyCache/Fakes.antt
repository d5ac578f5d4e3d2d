-- ===== src/GbyCache/Fakes.antt =====
-- The fakes of unit/query/query_executor.h_gby_flush_replay/hooks.cpp for the engine's other
-- translation units: what each records and what it answers. A static array is the list of what is
-- written to it since its counter was last 0.
use dev4_review_workspace.Prelude.{
  ℕ, suc, ◌*◌, min, Option, none, List, [], ◌∷◌, ◌++◌, ltb, if◌then◌else◌, take, ℤ, pos,
}

-- H_MAX_ROWS and H_MAX_CALLS
abbrev pub max_rows : ℕ
max_rows = 256

abbrev pub max_calls : ℕ
max_calls = 64

-- Where `batch->sel` points
pub data SelArray : Type 0 where
  caller_sel : SelArray
  other_sel : ℕ → SelArray

-- EXPR_BATCH: the pointer, what it points to and `n_sel`
pub record Batch : Type 0 where
  pub sel : SelArray
  pub rows : List ℕ
  pub n_sel : ℕ

-- h_eval_acc[k], h_eval_n[k] and h_eval_sel[k]; an accumulator list is the number of its group.
pub record Evaluation : Type 0 where
  pub acc : Option ℕ
  pub n : ℕ
  pub sel : List ℕ

pub record Fakes : Type 0 where
  pub get_keys : List (Option ℕ)
  pub n_get : ℕ
  pub get_result : Option ℕ
  pub evals : List Evaluation
  pub n_eval : ℕ
  pub n_dump : ℕ
  pub n_copy : ℕ
  pub n_free_key : ℕ
  pub n_sync : ℕ

abbrev pub fresh : Fakes
fresh = record {
  get_keys = [];
  n_get = 0;
  get_result = none;
  evals = [];
  n_eval = 0;
  n_dump = 0;
  n_copy = 0;
  n_free_key = 0;
  n_sync = 0;
}

-- Each fake: its result and the counters after it; 0 is NO_ERROR.
unfoldable pub qdata_evaluate_aggregate_batch : Batch → Option ℕ → Fakes → ℤ × Fakes
qdata_evaluate_aggregate_batch batch alt_acc_list s =
    let evaluation : Evaluation = record {
      acc = alt_acc_list;
      n = batch.n_sel;
      sel = take (min batch.n_sel max_rows) batch.rows;
    } in
    (
      pos 0,
      record s {
        evals = if ltb s.n_eval max_calls then s.evals ++ (evaluation ∷ []) else s.evals;
        n_eval = suc s.n_eval;
      },
    )

unfoldable pub qdata_get_agg_hvalue_size : Fakes → ℤ × Fakes
qdata_get_agg_hvalue_size s = (pos 0, s)

unfoldable pub mht_get : Option ℕ → Fakes → Option ℕ × Fakes
mht_get key s = (
  s.get_result,
  record s {
    get_keys = if ltb s.n_get (max_calls * 4) then s.get_keys ++ (key ∷ []) else s.get_keys;
    n_get = suc s.n_get;
  },
)

unfoldable pub qdata_save_agg_htable_to_list : Fakes → ℤ × Fakes
qdata_save_agg_htable_to_list s = (pos 0, record s { n_dump = suc s.n_dump })

-- The new key is zeroed memory; its number is the number of copies made before.
unfoldable pub qdata_copy_agg_hkey : Fakes → ℕ × Fakes
qdata_copy_agg_hkey s = (s.n_copy, record s { n_copy = suc s.n_copy })

unfoldable pub qdata_free_agg_hkey : Fakes → Fakes
qdata_free_agg_hkey s = record s { n_free_key = suc s.n_free_key }

unfoldable pub h_sync : Fakes → Fakes
h_sync s = record s { n_sync = suc s.n_sync }

-- A call that the engine makes of a fake
pub data FakeCall : Type 0 where
  evaluate_call : Batch → Option ℕ → FakeCall
  size_call dump_call copy_call free_call sync_call : FakeCall
  get_call : Option ℕ → FakeCall

unfoldable pub run_call : FakeCall → Fakes → Fakes
unfolding qdata_evaluate_aggregate_batch qdata_get_agg_hvalue_size mht_get
    qdata_save_agg_htable_to_list qdata_copy_agg_hkey qdata_free_agg_hkey h_sync
run_call (evaluate_call batch acc) s = (qdata_evaluate_aggregate_batch batch acc s).1
run_call (get_call key) s = (mht_get key s).1
run_call size_call s = (qdata_get_agg_hvalue_size s).1
run_call dump_call s = (qdata_save_agg_htable_to_list s).1
run_call copy_call s = (qdata_copy_agg_hkey s).1
run_call free_call s = qdata_free_agg_hkey s
run_call sync_call s = h_sync s

unfoldable pub run_calls : List FakeCall → Fakes → Fakes
unfolding run_call
run_calls [] s = s
run_calls (c ∷ cs) s = run_calls cs (run_call c s)
