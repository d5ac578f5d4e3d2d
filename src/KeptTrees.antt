-- ===== src/KeptTrees.antt =====
-- unit/compat/db_vdb.kept_tree_registry/hooks.cpp: the registry of kept prepared trees at its two
-- revisions, and the steps of EXECUTE around a kept tree (`unitseam_exec_*`). The engine's functions
-- are a parameter, over the state that they share; a function that a revision lacks is not called.
pub mod Choreography
use dev4_review_workspace.Prelude.{
  ℕ, zero, suc, ◌+◌, ◌-◌, ◌*◌, ◌/◌, ◌%◌, ◌^◌, ◌≤◌, ◌<◌, min, max, ◌≡◌, refl, sym, ap, ◌∙◌, subst,
  ◌≢◌, ◌↔◌, ◌⊎◌, inl, inr, Bool, true, false, not, ◌&&◌, ◌||◌, Option, none, some, List, [], ◌∷◌,
  ◌++◌, map, reverse, foldl, reverse-cons, reverse-append, reverse-reverse, append-nil,
  append_assoc, arith, dec_lt, dec_le, ℕ_discrete, ltb, leb, ◌==◌, if◌then◌else◌, ltb→lt, lt→ltb,
  leb→le, ==_iff, tests, Bool-cases, Option-cases, length, get_elem?, set, length-append, get_or,
  drop, replicate, take-append-drop, length-take, length-drop, length-replicate, length-map,
  length-set, All, All-append, All-append_left, All-append_right, All-reverse, All-replicate,
  length-reverse, ℤ, pos, negsuc, pos_part, neg_part, sub_ℕ, ◌+ℤ◌, ◌-ℤ◌, ◌≤ℤ◌, ◌<ℤ◌, ltb_ℤ, eqb_ℤ,
  neg_ℤ, +ℤ_parts, -ℤ_parts, eq_of_parts, int_laws, eqb_ℤ_iff,
}

-- 1 for take and put_back, 0 for lookup; the revision is known when the hook is compiled.
pub data Shape : Type 0 where
  base head : Shape

pub record Engine : Type 1 where
  pub Name : Type 0
  pub Session : Type 0
  pub World : Type 0
  -- db_prepared_tree_take, _put_back, _lookup, _close, _remove, _unlink, _register
  pub take : Name → Name → World → Option Session × World
  pub put_back : Session → World → World
  pub lookup : Name → Name → World → Option Session × World
  pub close : Session → World → World
  pub remove : Name → World → World
  pub unlink : Name → World → Option Session × World
  pub register : Session → Name → Session → World → Bool × World
  -- db_Kept_trees, read and written
  pub kept_trees : World → Option Session
  pub set_kept_trees : Option Session → World → World

module _ (e : Engine) where
  -- The result, `*present` and the world
  unfoldable pub unitseam_take_t :
      Shape → e.Name → e.Name → e.World → Option e.Session × Bool × e.World
  unitseam_take_t base name text w = (none, false, w)
  unitseam_take_t head name text w = let (kept, after) = e.take name text w in (kept, true, after)

  unfoldable pub unitseam_lookup_t :
      Shape → e.Name → e.Name → e.World → Option e.Session × Bool × e.World
  unitseam_lookup_t head name text w = (none, false, w)
  unitseam_lookup_t base name text w =
      let (kept, after) = e.lookup name text w in (kept, true, after)

  unfoldable pub unitseam_put_back_t : Shape → e.Session → e.World → Bool × e.World
  unitseam_put_back_t base kept w = (false, w)
  unitseam_put_back_t head kept w = (true, e.put_back kept w)

  unfoldable pub unitseam_take :
      Shape → e.Name → e.Name → e.World → Option e.Session × Bool × e.World
  unfolding unitseam_take_t
  unitseam_take shape name text w = unitseam_take_t shape name text w

  unfoldable pub unitseam_lookup :
      Shape → e.Name → e.Name → e.World → Option e.Session × Bool × e.World
  unfolding unitseam_lookup_t
  unitseam_lookup shape name text w = unitseam_lookup_t shape name text w

  unfoldable pub unitseam_put_back : Shape → e.Session → e.World → Bool × e.World
  unfolding unitseam_put_back_t
  unitseam_put_back shape kept w = unitseam_put_back_t shape kept w

  unfoldable pub unitseam_exec_checkout :
      Shape → e.Name → e.Name → e.World → Option e.Session × e.World
  unfolding unitseam_take_t unitseam_lookup_t
  unitseam_exec_checkout head name text w =
      let (kept, _, after) = unitseam_take_t head name text w in (kept, after)
  unitseam_exec_checkout base name text w =
      let (kept, _, after) = unitseam_lookup_t base name text w in (kept, after)

  unfoldable pub unitseam_exec_return_ok : Shape → e.Session → e.World → e.World
  unfolding unitseam_put_back_t
  unitseam_exec_return_ok head kept w = (unitseam_put_back_t head kept w).1
  unitseam_exec_return_ok base kept w = w

  unfoldable pub unitseam_exec_stale : Shape → e.Session → e.Name → Bool → e.World → e.World
  unfolding unitseam_put_back_t
  unitseam_exec_stale head kept name signature_miss w =
      if signature_miss then (unitseam_put_back_t head kept w).1 else e.close kept w
  unitseam_exec_stale base kept name signature_miss w =
      if not signature_miss then e.remove name w else w

  unfoldable pub unitseam_unlink : e.Name → e.World → Option e.Session × e.World
  unitseam_unlink name w = e.unlink name w

  unfoldable pub unitseam_close : e.Session → e.World → e.World
  unitseam_close kept w = e.close kept w

  unfoldable pub unitseam_remove : e.Name → e.World → e.World
  unitseam_remove name w = e.remove name w

  unfoldable pub unitseam_register : e.Session → e.Name → e.Session → e.World → Bool × e.World
  unitseam_register owner name subsession w = e.register owner name subsession w

  unfoldable pub unitseam_list_head : e.World → Option e.Session
  unitseam_list_head w = e.kept_trees w

  unfoldable pub unitseam_list_forget : e.World → e.World
  unitseam_list_forget w = e.set_kept_trees none w

-- unitseam_shape, with unitseam_has_take_t
unfoldable pub unitseam_shape : Shape → ℕ
unitseam_shape head = 1
unitseam_shape base = 0
