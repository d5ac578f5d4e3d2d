-- ===== src/RuntimeFilter.antt =====
-- The runtime filter that unit/query/query_hash_join.rtf_clone/hooks.cpp fills by hand
-- (`unitseam_rtf_make`) and attaches to a hash join and its target (`unitseam_rtf_attach`).
-- `slots` and `used` are one table, whose cell is `none` where `used` is 0; an INT64 is an integer.
-- The engine's hjoin_rtf_hash is a parameter.
mod Capacity
pub mod Held
pub mod Fill
use dev4_review_workspace.Prelude.{
  ℕ, zero, suc, ◌+◌, ◌-◌, ◌*◌, ◌/◌, ◌%◌, ◌^◌, ◌≤◌, ◌<◌, min, max, ◌≡◌, refl, sym, ap, ◌∙◌, subst,
  ◌≢◌, ◌↔◌, ◌⊎◌, inl, inr, Bool, true, false, not, ◌&&◌, ◌||◌, Option, none, some, List, [], ◌∷◌,
  ◌++◌, map, reverse, foldl, reverse-cons, reverse-append, reverse-reverse, append-nil,
  append_assoc, arith, dec_lt, dec_le, ℕ_discrete, ltb, leb, ◌==◌, if◌then◌else◌, ltb→lt, lt→ltb,
  leb→le, ==_iff, tests, Bool-cases, Option-cases, length, get_elem?, set, length-append, get_or,
  take, drop, replicate, take-append-drop, length-take, length-drop, length-replicate, length-map,
  length-set, All, All-append, All-append_left, All-append_right, All-reverse, All-replicate,
  length-reverse, ℤ, pos, negsuc, pos_part, neg_part, sub_ℕ, ◌+ℤ◌, ◌-ℤ◌, ◌≤ℤ◌, ◌<ℤ◌, ltb_ℤ, eqb_ℤ,
  neg_ℤ, +ℤ_parts, -ℤ_parts, eq_of_parts, int_laws, eqb_ℤ_iff,
}
use dev4_review_workspace.Probing.{cell, walk, in_use}

-- HJOIN_RUNTIME_FILTER
pub record Filter : Type 0 where
  pub table : List (Option ℤ)
  pub mask : ℕ
  pub is_date : Bool
  pub val_index : ℤ
  pub n_keys : ℕ

-- `for (cap = 16; cap < n * 2; cap <<= 1)`; the fuel is a bound on the rounds.
unfoldable pub cap_loop : ℕ → ℕ → ℕ → ℕ
cap_loop zero cap n = cap
cap_loop (suc fuel) cap n =
    let rest = cap_loop fuel (cap * 2) n in if ltb cap (n * 2) then rest else cap

unfoldable pub capacity : ℕ → ℕ
unfolding cap_loop
capacity n = cap_loop (n * 2) 16 n

-- `!(used[h] && slots[h] != key)`
unfoldable pub stops_at : ℤ → Option ℤ → Bool
stops_at key none = true
stops_at key (some k) = eqb_ℤ k key

unfoldable pub insert_at : Filter → ℤ → ℕ → Filter
insert_at f key s = elim (cell f.table s) [
  | none ↦ record f { table = set f.table s (some key); n_keys = suc f.n_keys }
  | some k ↦ f
]

unfoldable pub empty_filter : ℕ → ℤ → Filter
empty_filter cap val_index = record {
  table = replicate cap none;
  mask = cap - 1;
  is_date = false;
  val_index = val_index;
  n_keys = 0;
}

module _ (hash : ℤ → ℕ) where
  -- The slot at which the insert's loop ends
  unfoldable pub search : Filter → ℤ → Option ℕ
  unfolding walk stops_at
  search f key = walk (stops_at key) (length f.table) f.table (hash key % length f.table)

  -- none for a loop that does not end
  unfoldable pub fill_table : Filter → List ℤ → Option Filter
  unfolding search insert_at
  fill_table f [] = some f
  fill_table f (key ∷ keys) = elim (search f key) [
    | none ↦ none
    | some s ↦ fill_table (insert_at f key s) keys
  ]

  unfoldable pub unitseam_rtf_make : List ℤ → ℤ → Option Filter
  unfolding capacity fill_table empty_filter
  unitseam_rtf_make keys val_index =
      fill_table (empty_filter (capacity (length keys)) val_index) keys

-- The fields of HASHJOIN_PROC_NODE and of the target XASL_NODE that the attach writes; `Cell` is the
-- engine's DB_VALUE pointer.
pub record JoinNode : Type 0 where
  pub rtf : Option Filter
  pub rtf_keys : ℕ
  pub rtf_rows : ℕ
  pub rtf_dropped : ℕ

pub record TargetNode (Cell : Type 0) : Type 0 where
  pub rtf : Option Filter
  pub rtf_val : Option Cell
  pub rtf_rows : ℕ
  pub rtf_dropped : ℕ

unfoldable pub unitseam_rtf_n_keys : Filter → ℕ
unitseam_rtf_n_keys f = f.n_keys

module _ {Cell : Type 0} where
  unfoldable pub unitseam_rtf_attach :
      JoinNode → TargetNode Cell → Filter → Cell → JoinNode × TargetNode Cell
  unitseam_rtf_attach hj target f c = (
    record hj { rtf = some f; rtf_keys = f.n_keys; rtf_rows = 0; rtf_dropped = 0 },
    record target { rtf = some f; rtf_val = some c; rtf_rows = 0; rtf_dropped = 0 },
  )
