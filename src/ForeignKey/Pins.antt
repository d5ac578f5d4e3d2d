-- ===== src/ForeignKey/Pins.antt =====
-- The fix counts of the class representation cache in
-- unit/transaction/locator_sr.check_foreign_key/test.cpp through a get or a start that is released.
use dev4_review_workspace.Prelude.{
  ℕ, zero, suc, ◌≡◌, refl, sym, ap, ◌∙◌, subst, inl, inr, true, false, not, ◌&&◌, Option, none,
  some, List, [], ◌∷◌, arith, ltb, ◌==◌, Bool-cases, Option-cases, get_elem?, pos, negsuc, eqb_ℤ,
}
use dev4_review_workspace.ForeignKey.World.{Oid, FakeClass, Codes, World}
use dev4_review_workspace.ForeignKey.Build.{find_class, modify, pin, unpin, fcnt_at, unfix}
use dev4_review_workspace.ForeignKey.Fakes.{
  count_single, indexes_of, any_multi, no_attr_info, heap_classrepr_get, heap_classrepr_free,
  class_to_get, fix_class, start_indexes, heap_attrinfo_start_with_index, heap_attrinfo_end,
  Started,
}

unpin-pin : (k : FakeClass) → unpin (pin k) ≡ k
unfolding unpin pin
unpin-pin k = ap (λ n. record k { fcnt = n }) (omega arith)

modify-unpin-pin : (ks : List FakeClass) (i : ℕ) → modify unpin i (modify pin i ks) ≡ ks
unfolding modify
modify-unpin-pin [] i = refl
modify-unpin-pin (k ∷ ks) zero = ap (λ x. x ∷ ks) (unpin-pin k)
modify-unpin-pin (k ∷ ks) (suc i) = ap (◌∷◌ k) (modify-unpin-pin ks i)

get_elem?-modify-pin :
    (ks : List FakeClass) (i : ℕ) (k : FakeClass)
    → get_elem? ks i ≡ some k
    → get_elem? (modify pin i ks) i ≡ some (pin k)
unfolding modify
get_elem?-modify-pin [] i k h = absurd (ground (arith, h))
get_elem?-modify-pin (x ∷ ks) zero k h = ground (arith, h)
get_elem?-modify-pin (x ∷ ks) (suc i) k h = get_elem?-modify-pin ks i k h

slot_inj : {a b : ℕ} → some a ≡ some b → a ≡ b
slot_inj e = cc

none-some : {a : ℕ} → none ≡ some a → ⊥
none-some e = cc

class_to_get-present :
    (w : World) (oid : Option Oid) (slot : ℕ)
    → class_to_get w oid ≡ some slot
    → (k : FakeClass) × (get_elem? w.cls slot ≡ some k)
unfolding class_to_get
class_to_get-present w oid slot h = elim (Option-cases (find_class w oid)) [
  | inl n ↦ absurd (none-some (sym (rw (class_to_get, n) refl) ∙ h))
  | inr (at, n) ↦ elim (Option-cases (get_elem? w.cls at)) [
    | inl m ↦ absurd (none-some (sym (rw (class_to_get, n, m) refl) ∙ h))
    | inr (k, m) ↦ elim (Bool-cases k.get_fails) [
      | inl f ↦ absurd (none-some (sym (rw (class_to_get, n, m, f) refl) ∙ h))
      | inr f ↦ (
        k,
        subst (λ i. get_elem? w.cls i ≡ some k)
            (slot_inj (sym (rw (class_to_get, n, m, f) refl) ∙ h)) m,
      )
    ]
  ]
]

-- A fix that is undone at once, whatever else of the world differs
unfix-fixed :
    (w v : World) (slot : ℕ) (k : FakeClass)
    → get_elem? w.cls slot ≡ some k
    → v.cls ≡ modify pin slot w.cls
    → unfix v (some slot) (some slot) ≡ record v { cls = w.cls }
unfolding unfix fcnt_at pin
unfix-fixed w v slot k h e =
    let f : get_elem? v.cls slot ≡ some (pin k) = rw e (get_elem?-modify-pin w.cls slot k h) in
    let self : (slot == slot) ≡ true = ground arith in
    let c : modify unpin slot v.cls ≡ w.cls = rw e (modify-unpin-pin w.cls slot) in
    let p : ltb 0 (pin k).fcnt ≡ true = ground arith in simp (unfix, fcnt_at, self, f, c, p) refl

got : World → ℕ → World
unfolding fix_class
got w slot = record (fix_class (record w { get_calls = suc w.get_calls }) slot) {
  get_ok = suc w.get_ok;
}

get-present :
    (codes : Codes) (w : World) (oid : Option Oid) (slot : ℕ)
    → (heap_classrepr_get codes w oid).0 ≡ some slot
    → (class_to_get w oid ≡ some slot) × ((heap_classrepr_get codes w oid).1 ≡ got w slot)
unfolding heap_classrepr_get got
get-present codes w oid slot h = elim (Option-cases (class_to_get w oid)) [
  | inl n ↦ absurd (none-some (sym (rw (heap_classrepr_get, n) refl) ∙ h))
  | inr (at, n) ↦
      let s : at ≡ slot = slot_inj (sym (rw (heap_classrepr_get, n) refl) ∙ h) in
      (n ∙ ap some s, rw (heap_classrepr_get, n, s) refl)
]

freed : World → ℕ → World
unfolding got
freed w slot =
    let g = got w slot in
    record g { cls = w.cls; free_calls = suc g.free_calls; free_ok = suc g.free_ok }

free-got :
    (w : World) (slot : ℕ) (k : FakeClass)
    → get_elem? w.cls slot ≡ some k
    → heap_classrepr_free (got w slot) (some slot) (some slot) ≡ freed w slot
unfolding heap_classrepr_free got freed fix_class
free-got w slot k h =
    let g = got w slot in
    let u = unfix-fixed w (record g { free_calls = suc g.free_calls }) slot k h refl in
    let e : (w.free_errors == w.free_errors) ≡ true = ground arith in
    simp (heap_classrepr_free, u, e) refl

-- The world after a class's representation is fetched and slot `slot` is freed.
unfoldable pub get_then_free : Codes → World → Option Oid → ℕ → World
get_then_free codes w oid slot =
    heap_classrepr_free (heap_classrepr_get codes w oid).1 (some slot) (some slot)

-- When a class's representation is fetched and the slot that the fetch named is freed, the classes'
-- fix counts are as they were, no wrong free is reported, and one success of each is counted.
pub get_then_free-cls :
    (codes : Codes) (w : World) (oid : Option Oid) (slot : ℕ)
    → (heap_classrepr_get codes w oid).0 ≡ some slot
    → ((get_then_free codes w oid slot).cls ≡ w.cls)
      × (((get_then_free codes w oid slot).free_errors ≡ w.free_errors)
          × (((get_then_free codes w oid slot).get_ok ≡ suc w.get_ok)
              × ((get_then_free codes w oid slot).free_ok ≡ suc w.free_ok)))
unfolding get_then_free freed got fix_class
get_then_free-cls codes w oid slot h =
    let (c, e) = get-present codes w oid slot h in
    let (k, m) = class_to_get-present w oid slot c in
    rw (e, free-got w slot k m) (refl, (refl, (refl, refl)))

started : World → ℕ → Started
unfolding start_indexes
started w slot = start_indexes (record w { start_calls = suc w.start_calls }) slot

end_none :
    (w : World)
    → ((heap_attrinfo_end (record w { start_calls = suc w.start_calls }) no_attr_info).1.cls
        ≡ w.cls)
      × ((heap_attrinfo_end
            (record w { start_calls = suc w.start_calls })
            no_attr_info).1.free_errors
          ≡ w.free_errors)
unfolding heap_attrinfo_end no_attr_info
end_none w = (refl, refl)

end_fixed :
    (w v : World) (n slot : ℕ) (k : FakeClass)
    → get_elem? w.cls slot ≡ some k
    → v.cls ≡ modify pin slot w.cls
    → v.free_errors ≡ w.free_errors
    → ((heap_attrinfo_end v (record { num_values = pos n; last_slot = some slot })).1.cls ≡ w.cls)
      × ((heap_attrinfo_end v (record { num_values = pos n; last_slot = some slot })).1.free_errors
          ≡ w.free_errors)
unfolding heap_attrinfo_end
end_fixed w v n slot k h e f =
    let u = unfix-fixed w (record v { end_calls = suc v.end_calls }) slot k h e in
    let t : eqb_ℤ (pos n) (negsuc 0) ≡ false = ground arith in
    simp (heap_attrinfo_end, t, u) (refl, f)

end-started :
    (w : World) (slot : ℕ) (k : FakeClass)
    → get_elem? w.cls slot ≡ some k
    → ((heap_attrinfo_end (started w slot).world (started w slot).attr_info).1.cls ≡ w.cls)
      × ((heap_attrinfo_end (started w slot).world (started w slot).attr_info).1.free_errors
          ≡ w.free_errors)
unfolding started start_indexes fix_class
end-started w slot k h =
    elim (Bool-cases
      (not (any_multi (indexes_of w slot)) && count_single (indexes_of w slot) == 0)) [
        | inl e ↦
            let a : (started w slot).world ≡ record w { start_calls = suc w.start_calls } =
              rw (started, start_indexes, e) refl in
            let b : (started w slot).attr_info ≡ no_attr_info =
              rw (started, start_indexes, e) refl in
            rw (a, b) (end_none w)
        | inr e ↦
            let a : (started w slot).world
                ≡ fix_class (record w { start_calls = suc w.start_calls }) slot =
              rw (started, start_indexes, e) refl in
            let b : (started w slot).attr_info ≡ record {
              num_values = pos (count_single (indexes_of w slot));
              last_slot = some slot;
            } =
              rw (started, start_indexes, e) refl in
            rw (a, b)
              (end_fixed w (fix_class (record w { start_calls = suc w.start_calls }) slot)
                (count_single (indexes_of w slot)) slot k h refl refl)
      ]

start-started :
    (codes : Codes) (w : World) (oid : Option Oid) (slot : ℕ)
    → class_to_get w oid ≡ some slot
    → heap_attrinfo_start_with_index codes w oid ≡ started w slot
unfolding heap_attrinfo_start_with_index started
start-started codes w oid slot n = rw (heap_attrinfo_start_with_index, n) refl

start-refused :
    (codes : Codes) (w : World) (oid : Option Oid)
    → class_to_get w oid ≡ none
    → ((heap_attrinfo_start_with_index codes w oid).world
        ≡ record w { start_calls = suc w.start_calls })
      × ((heap_attrinfo_start_with_index codes w oid).attr_info ≡ no_attr_info)
unfolding heap_attrinfo_start_with_index
start-refused codes w oid n =
    (rw (heap_attrinfo_start_with_index, n) refl, rw (heap_attrinfo_start_with_index, n) refl)

-- The world after the child's attribute cache is started and ended.
unfoldable pub start_then_end : Codes → World → Option Oid → World
start_then_end codes w oid =
    let s = heap_attrinfo_start_with_index codes w oid in (heap_attrinfo_end s.world s.attr_info).1

-- Starting the child's attribute cache and ending it leaves the classes' fix counts as they were and
-- reports no wrong free, whether the start fixed a representation or not.
pub start_then_end-cls :
    (codes : Codes) (w : World) (oid : Option Oid)
    → ((start_then_end codes w oid).cls ≡ w.cls)
      × ((start_then_end codes w oid).free_errors ≡ w.free_errors)
unfolding start_then_end
start_then_end-cls codes w oid = elim (Option-cases (class_to_get w oid)) [
  | inl n ↦ let (a, b) = start-refused codes w oid n in rw (start_then_end, a, b) (end_none w)
  | inr (slot, n) ↦
      let (k, m) = class_to_get-present w oid slot n in
      rw (start_then_end, start-started codes w oid slot n) (end-started w slot k m)
]
