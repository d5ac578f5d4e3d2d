-- ===== src/GbyCache/Replay.antt =====
-- What unit/query/query_executor.h_gby_flush_replay/hooks.cpp reads back of the calls that a flush
-- makes, against the calls themselves.
use dev4_review_workspace.Prelude.{
  ℕ, zero, suc, ◌+◌, ◌*◌, ◌≤◌, min, ◌≡◌, refl, sym, ap, ◌∙◌, inl, inr, Option, List, [], ◌∷◌, ◌++◌,
  map, append-nil, append_assoc, arith, ltb, if◌then◌else◌, Bool-cases, length, length-append, take,
}
use dev4_review_workspace.GbyCache.Fakes.{
  max_rows, max_calls, Evaluation, Fakes, fresh, FakeCall, evaluate_call, size_call, dump_call,
  copy_call, free_call, sync_call, get_call, run_call, run_calls, qdata_evaluate_aggregate_batch,
  qdata_get_agg_hvalue_size, mht_get, qdata_save_agg_htable_to_list, qdata_copy_agg_hkey,
  qdata_free_agg_hkey, h_sync,
}
use dev4_review_workspace.GbyCache.Flush.{FlushEngine, Flushed, group_of, read_result}

-- The evaluations among the calls, each with its selection as far as it is kept, and the keys asked
unfoldable pub evaluations : List FakeCall → List Evaluation
evaluations [] = []
evaluations (evaluate_call batch acc ∷ cs) =
    record { acc = acc; n = batch.n_sel; sel = take (min batch.n_sel max_rows) batch.rows }
    ∷ evaluations cs
evaluations (get_call key ∷ cs) = evaluations cs
evaluations (size_call ∷ cs) = evaluations cs
evaluations (dump_call ∷ cs) = evaluations cs
evaluations (copy_call ∷ cs) = evaluations cs
evaluations (free_call ∷ cs) = evaluations cs
evaluations (sync_call ∷ cs) = evaluations cs

unfoldable pub touches : List FakeCall → List (Option ℕ)
touches [] = []
touches (get_call key ∷ cs) = key ∷ touches cs
touches (evaluate_call batch acc ∷ cs) = touches cs
touches (size_call ∷ cs) = touches cs
touches (dump_call ∷ cs) = touches cs
touches (copy_call ∷ cs) = touches cs
touches (free_call ∷ cs) = touches cs
touches (sync_call ∷ cs) = touches cs

module _ {ℓ} {A : Type ℓ} where
  take_full : (n : ℕ) (xs ys : List A) → n ≤ length xs → take n (xs ++ ys) ≡ take n xs
  take_full zero xs ys h = refl
  take_full (suc n) [] ys h = absurd (omega arith)
  take_full (suc n) (x ∷ xs) ys h = ap (◌∷◌ x) (take_full n xs ys (omega arith))

  take_all : (n : ℕ) (xs : List A) → length xs ≤ n → take n xs ≡ xs
  take_all zero [] h = refl
  take_all zero (x ∷ xs) h = absurd (omega arith)
  take_all (suc n) [] h = refl
  take_all (suc n) (x ∷ xs) h = ap (◌∷◌ x) (take_all n xs (omega arith))

  take-take : (m n : ℕ) (xs : List A) → m ≤ n → take m (take n xs) ≡ take m xs
  take-take zero n xs h = refl
  take-take (suc m) zero xs h = absurd (omega arith)
  take-take (suc m) (suc n) [] h = refl
  take-take (suc m) (suc n) (x ∷ xs) h = ap (◌∷◌ x) (take-take m n xs (omega arith))

  -- One more element, written only while there is room
  unfoldable bounded : ℕ → ℕ → List A → A → List A
  bounded limit n xs x = if ltb n limit then xs ++ (x ∷ []) else xs

  -- What is kept of a list, after n elements of it
  abbrev Kept : ℕ → ℕ → List A → Type 0
  Kept limit n xs = length xs ≡ min n limit

  bounded-Kept :
      (limit n : ℕ) (xs : List A) (x : A)
      → Kept limit n xs
      → Kept limit (suc n) (bounded limit n xs x)
  unfolding bounded
  bounded-Kept limit n xs x h = elim (Bool-cases (ltb n limit)) [
    | inl t ↦ rw (t, length-append xs (x ∷ [])) (ground (arith, t, h))
    | inr f ↦ rw (f) (ground (arith, f, h))
  ]

  bounded-take :
      (limit n : ℕ) (xs : List A) (x : A) (ys : List A)
      → Kept limit n xs
      → take limit (bounded limit n xs x ++ ys) ≡ take limit (xs ++ x ∷ ys)
  unfolding bounded
  bounded-take limit n xs x ys h = elim (Bool-cases (ltb n limit)) [
    | inl t ↦ rw (t) (ap (take limit) (append_assoc xs (x ∷ []) ys))
    | inr f ↦
        let full : limit ≤ length xs = ground (arith, f, h) in
        rw (f) (take_full limit xs ys full ∙ sym (take_full limit xs (x ∷ ys) full))
  ]

  take-Kept : (limit n : ℕ) (xs : List A) → Kept limit n xs → xs ≡ take limit (xs ++ [])
  take-Kept limit n xs h =
      sym (ap (take limit) (append-nil xs) ∙ take_all limit xs (ground (arith, h)))

-- What the fakes record of the calls after those that they have recorded
evals_lem :
    (cs : List FakeCall) (s : Fakes)
    → Kept max_calls s.n_eval s.evals
    → ((run_calls cs s).n_eval ≡ s.n_eval + length (evaluations cs))
      × ((run_calls cs s).evals ≡ take max_calls (s.evals ++ evaluations cs))
unfolding run_calls run_call evaluations qdata_evaluate_aggregate_batch qdata_get_agg_hvalue_size
    mht_get qdata_save_agg_htable_to_list qdata_copy_agg_hkey qdata_free_agg_hkey h_sync bounded
evals_lem [] s h = (omega arith, take-Kept max_calls s.n_eval s.evals h)
evals_lem (evaluate_call batch acc ∷ cs) s h =
    let x : Evaluation = record {
      acc = acc;
      n = batch.n_sel;
      sel = take (min batch.n_sel max_rows) batch.rows;
    } in
    let (n, kept) =
      evals_lem cs (run_call (evaluate_call batch acc) s)
        (bounded-Kept max_calls s.n_eval s.evals x h) in
    (omega (arith, n), kept ∙ bounded-take max_calls s.n_eval s.evals x (evaluations cs) h)
evals_lem (get_call key ∷ cs) s h = evals_lem cs (run_call (get_call key) s) h
evals_lem (size_call ∷ cs) s h = evals_lem cs s h
evals_lem (dump_call ∷ cs) s h = evals_lem cs (run_call dump_call s) h
evals_lem (copy_call ∷ cs) s h = evals_lem cs (run_call copy_call s) h
evals_lem (free_call ∷ cs) s h = evals_lem cs (run_call free_call s) h
evals_lem (sync_call ∷ cs) s h = evals_lem cs (run_call sync_call s) h

touches_lem :
    (cs : List FakeCall) (s : Fakes)
    → Kept (max_calls * 4) s.n_get s.get_keys
    → ((run_calls cs s).n_get ≡ s.n_get + length (touches cs))
      × ((run_calls cs s).get_keys ≡ take (max_calls * 4) (s.get_keys ++ touches cs))
unfolding run_calls run_call touches qdata_evaluate_aggregate_batch qdata_get_agg_hvalue_size
    mht_get qdata_save_agg_htable_to_list qdata_copy_agg_hkey qdata_free_agg_hkey h_sync bounded
touches_lem [] s h = (omega arith, take-Kept (max_calls * 4) s.n_get s.get_keys h)
touches_lem (get_call key ∷ cs) s h =
    let (n, kept) =
      touches_lem cs (run_call (get_call key) s)
        (bounded-Kept (max_calls * 4) s.n_get s.get_keys key h) in
    (omega (arith, n), kept ∙ bounded-take (max_calls * 4) s.n_get s.get_keys key (touches cs) h)
touches_lem (evaluate_call batch acc ∷ cs) s h =
    touches_lem cs (run_call (evaluate_call batch acc) s) h
touches_lem (size_call ∷ cs) s h = touches_lem cs s h
touches_lem (dump_call ∷ cs) s h = touches_lem cs (run_call dump_call s) h
touches_lem (copy_call ∷ cs) s h = touches_lem cs (run_call copy_call s) h
touches_lem (free_call ∷ cs) s h = touches_lem cs (run_call free_call s) h
touches_lem (sync_call ∷ cs) s h = touches_lem cs (run_call sync_call s) h

-- Whatever calls a flush makes, in whatever order, the result has the number of its evaluations and
-- of its lookups, the group, the count and the selection of the first 64 evaluations, a selection as
-- far as its first 256 rows, and the group of the first 64 lookups.
pub read_result-calls :
    (e : FlushEngine) (ng : ℕ) (f : Flushed)
    → ((read_result e ng f).n_calls ≡ length (evaluations f.calls))
      × ((read_result e ng f).call_group
          ≡ map (λ v. group_of ng v.acc) (take max_calls (evaluations f.calls)))
      × ((read_result e ng f).call_n ≡ map (λ v. v.n) (take max_calls (evaluations f.calls)))
      × ((read_result e ng f).call_sel ≡ map (λ v. v.sel) (take max_calls (evaluations f.calls)))
      × ((read_result e ng f).n_touch ≡ length (touches f.calls))
      × ((read_result e ng f).touch_group ≡ map (group_of ng) (take max_calls (touches f.calls)))
unfolding read_result
read_result-calls e ng f =
    let (n, kept) = evals_lem f.calls fresh refl in
    let (m, asked) = touches_lem f.calls fresh refl in
    (
      omega (arith, n),
      ap (map (λ v. group_of ng v.acc)) kept,
      ap (map (λ v. v.n)) kept,
      ap (map (λ v. v.sel)) kept,
      omega (arith, m),
      ap (λ keys. map (group_of ng) (take max_calls keys)) asked
          ∙ ap (map (group_of ng))
              (take-take max_calls (max_calls * 4) (touches f.calls) (omega arith)),
    )
