-- ===== src/GbyCache.antt =====
-- The page batch's cache of GROUP BY groups, as unit/query/query_executor.gby_cache_evicted/hooks.cpp
-- and unit/query/query_executor.h_gby_flush_replay/hooks.cpp build it by hand: a linear-probe table
-- whose size is a power of two, an entry with a negative length `none`, and the stack of free key
-- buffers. Evict and Cluster are about the first, Fakes, Flush and Added about the second.
pub mod Evict
pub mod Cluster
pub mod Fakes
pub mod Flush
pub mod Added
pub mod Replay
pub mod Slots
use dev4_review_workspace.Prelude.{
  ℕ, zero, suc, ◌+◌, ◌-◌, ◌*◌, ◌/◌, ◌%◌, ◌^◌, ◌≤◌, ◌<◌, min, max, ◌≡◌, refl, sym, ap, ◌∙◌, subst,
  ◌≢◌, ◌↔◌, ◌⊎◌, inl, inr, Bool, true, false, not, ◌&&◌, ◌||◌, Option, none, some, List, [], ◌∷◌,
  ◌++◌, map, reverse, foldl, reverse-cons, reverse-append, reverse-reverse, append-nil,
  append_assoc, arith, dec_lt, dec_le, ℕ_discrete, ltb, leb, ◌==◌, if◌then◌else◌, ltb→lt, lt→ltb,
  leb→le, ==_iff, tests, Bool-cases, Option-cases, length, get_elem?, set, length-append, get_or,
  take, drop, replicate, take-append-drop, length-take, length-drop, length-replicate, length-map,
  length-set, All, All-append, All-append_left, All-append_right, All-reverse, All-replicate,
  length-reverse, ℤ, pos, negsuc, pos_part, neg_part, sub_ℕ, ◌+ℤ◌, ◌-ℤ◌, ◌≤ℤ◌, ◌<ℤ◌, ltb_ℤ, eqb_ℤ,
  neg_ℤ, +ℤ_parts, -ℤ_parts, eq_of_parts, int_laws, eqb_ℤ_iff, elem,
}
use dev4_review_workspace.Probing.{cell, walk}

-- QEXEC_GBY_ENTRY. A key buffer is its number in the pool with the bytes that it holds; a group is its
-- number in the scenario's array, and a key is a number too.
pub record Entry : Type 0 where
  pub buffer : ℕ
  pub bytes : List ℕ
  pub hash : ℕ
  pub len : ℕ
  pub value : ℕ
  pub key : Option ℕ
  pub count : ℤ
  pub placed : ℤ

-- The members of QEXEC_BATCH_GBY that the scenarios build, with each group's batch_slot
pub record Gby : Type 0 where
  pub cache : List (Option Entry)
  pub pool_free : List ℕ
  pub n_cached : ℕ
  pub batch_slot : ℕ → ℤ

unfoldable pub set_batch_slot : (ℕ → ℤ) → ℕ → ℕ → ℕ → ℤ
set_batch_slot slots i s j = if j == i then pos s else slots j

-- The cache after an entry is placed that takes the buffer b and leaves the others
abbrev pub after_place : Gby → ℕ → Entry → ℕ → List ℕ → Gby
after_place st s e b rest = record {
  cache = set st.cache s (some (record e { buffer = b }));
  pool_free = rest;
  n_cached = suc st.n_cached;
  batch_slot = set_batch_slot st.batch_slot e.value s;
}

-- `st.pool_free[--st.n_pool_free]` for the entry's buffer; none for a read below the stack
unfoldable pub place : Gby → ℕ → Entry → Option Gby
place st s e = elim st.pool_free [
  | [] ↦ none
  | buffer ∷ rest ↦ some (after_place st s e buffer rest)
]

-- A stack of buffers that is not empty, as its top and the rest
pub top_of : (xs : List ℕ) → 0 < length xs → (b : ℕ) × (rest : List ℕ) × (xs ≡ b ∷ rest)
top_of [] h = absurd (omega arith)
top_of (b ∷ rest) h = (b, rest, refl)
