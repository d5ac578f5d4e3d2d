-- ===== src/ForeignKey/Ledger.antt =====
-- The ledgers of key buffers and printed keys in
-- unit/transaction/locator_sr.check_foreign_key/test.cpp, through any sequence of the calls that touch
-- them. A call names the value that its caller passes, whatever the caller does with it meanwhile.
use dev4_review_workspace.Prelude.{
  ℕ, suc, ◌+◌, ◌≤◌, ◌≡◌, refl, inl, inr, Bool, true, false, Option, none, some, List, [], ◌∷◌,
  arith, ltb, Bool-cases, Option-cases, length, get_elem?, pos, negsuc, eqb_ℤ,
}
use dev4_review_workspace.ForeignKey.World.{
  caller, Index, Buffer, stack, heap, DbValue, null, int, midxkey, KeyRef, World, AttrInfo,
}
use dev4_review_workspace.ForeignKey.Fakes.{
  count_get_key, pr_valstring, erase, private_free, free_key_buffer, clear_midxkey, pr_clear_value,
  alloc_key, read_index, heap_attrvalue_get_key, KeyRead, count_get_key, indexes_of,
}

pub data Call : Type 0 where
  print : KeyRef → Option DbValue → Call
  release : ℕ → Call
  read_key : ℕ → AttrInfo → DbValue → Call
  clear : DbValue → Call

unfoldable pub after_call : World → Call → World
unfolding pr_valstring private_free heap_attrvalue_get_key pr_clear_value
after_call w (print key val) = (pr_valstring w key val).1
after_call w (release ptr) = private_free w ptr
after_call w (read_key i info db_value) = (heap_attrvalue_get_key w i info db_value).world
after_call w (clear value) = (pr_clear_value w value).1

unfoldable pub after_calls : World → List Call → World
unfolding after_call
after_calls w [] = w
after_calls w (c ∷ cs) = after_calls (after_call w c) cs

-- Each allocation is freed or live, and the most live at a time is at least what is live.
unfoldable pub Accounts : World → Type 0
Accounts w =
    (w.keybuf_alloc ≡ w.keybuf_free + length w.keybuf_live)
    × ((w.valstr_alloc ≡ w.valstr_free + length w.valstr_live)
        × (length w.keybuf_live ≤ w.keybuf_max_live))

length-erase :
    (p : ℕ) (live rest : List ℕ) → erase p live ≡ some rest → length live ≡ suc (length rest)
unfolding erase
length-erase p [] rest h = absurd (ground arith)
length-erase p (q ∷ live) rest h = elim (Option-cases (erase p live)) [
  | inl n ↦ ground arith
  | inr (r, n) ↦ let l = length-erase p live r n in ground arith
]

erase_accounts :
    (alloc free p : ℕ) (live rest : List ℕ)
    → erase p live ≡ some rest
    → alloc ≡ free + length live
    → (alloc ≡ suc free + length rest) × (length rest ≤ length live)
erase_accounts alloc free p live rest e h =
    let l = length-erase p live rest e in (omega arith, omega arith)

private_free-Accounts : (w : World) (ptr : ℕ) → Accounts w → Accounts (private_free w ptr)
unfolding private_free Accounts
private_free-Accounts w ptr (k, (v, m)) = elim (Option-cases (erase ptr w.valstr_live)) [
  | inl n ↦ rw (private_free, n) (k, (v, m))
  | inr (rest, e) ↦
      rw (private_free, e)
        (k, ((erase_accounts w.valstr_alloc w.valstr_free ptr w.valstr_live rest e v).0, m))
]

free_key_buffer-Accounts : (w : World) (b : Buffer) → Accounts w → Accounts (free_key_buffer w b)
unfolding free_key_buffer Accounts
free_key_buffer-Accounts w stack a = a
free_key_buffer-Accounts w (heap p) (k, (v, m)) = elim (Option-cases (erase p w.keybuf_live)) [
  | inl n ↦ rw (free_key_buffer, n) (k, (v, m))
  | inr (rest, e) ↦
      let acc = erase_accounts w.keybuf_alloc w.keybuf_free p w.keybuf_live rest e k in
      rw (free_key_buffer, e) (acc.0, (v, omega (arith, acc.1)))
]

clear_midxkey-Accounts :
    (w : World) (b : Option Buffer) (c : Bool) → Accounts w → Accounts (clear_midxkey w b c)
unfolding clear_midxkey
clear_midxkey-Accounts w none c a = a
clear_midxkey-Accounts w (some b) true a = free_key_buffer-Accounts w b a
clear_midxkey-Accounts w (some b) false a = a

pr_clear_value-Accounts : (w : World) (v : DbValue) → Accounts w → Accounts (pr_clear_value w v).1
unfolding pr_clear_value Accounts
pr_clear_value-Accounts w null a = a
pr_clear_value-Accounts w (int v) a = a
pr_clear_value-Accounts w (midxkey b c) a =
    clear_midxkey-Accounts (record w { clear_value_calls = suc w.clear_value_calls }) b c a

alloc_key-Accounts : (w : World) → Accounts w → Accounts (alloc_key w)
unfolding alloc_key Accounts
alloc_key-Accounts w (k, (v, m)) = (
  omega arith,
  (
    v,
    elim (Bool-cases (ltb w.keybuf_max_live (suc (length w.keybuf_live)))) [
      | inl e ↦ rw (alloc_key, e) (omega arith)
      | inr e ↦ rw (alloc_key, e) (not_below w.keybuf_max_live (suc (length w.keybuf_live)) e)
    ],
  ),
)
  where
    not_below : (a b : ℕ) → ltb a b ≡ false → b ≤ a
    not_below a b h = ground arith

read_index-Accounts :
    (w : World) (i : ℕ) (x : Index) (v : DbValue) → Accounts w → Accounts (read_index w i x v).world
unfolding read_index Accounts
read_index-Accounts w i x v a = elim (Bool-cases (ltb 1 x.n_atts)) [
  | inr e ↦ rw (read_index, e) a
  | inl e ↦ elim (Bool-cases w.long_record) [
    | inr f ↦ rw (read_index, e, f) a
    | inl f ↦ rw (read_index, e, f) (alloc_key-Accounts (record w { cur_index = some i }) a)
  ]
]

pr_valstring-Accounts :
    (w : World) (key : KeyRef) (v : Option DbValue) → Accounts w → Accounts (pr_valstring w key v).1
unfolding pr_valstring Accounts
pr_valstring-Accounts w key v (k, (n, m)) = (k, (omega arith, m))

get_key-Accounts :
    (w : World) (i : ℕ) (info : AttrInfo) (v : DbValue)
    → Accounts w
    → Accounts (heap_attrvalue_get_key w i info v).world
unfolding heap_attrvalue_get_key count_get_key Accounts
get_key-Accounts w i info v a = elim (Bool-cases (eqb_ℤ info.num_values (negsuc 0))) [
  | inl e ↦ rw (heap_attrvalue_get_key, e) a
  | inr e ↦ elim (Option-cases info.last_slot) [
    | inl s ↦ rw (heap_attrvalue_get_key, e, s) a
    | inr (slot, s) ↦ elim (Option-cases (get_elem? (indexes_of w slot) i)) [
      | inl x ↦ rw (heap_attrvalue_get_key, e, s, x) a
      | inr (index, x) ↦ elim (Bool-cases (eqb_ℤ (pos i) w.get_key_fail_at)) [
        | inl f ↦ rw (heap_attrvalue_get_key, e, s, x, f) a
        | inr f ↦
            rw (heap_attrvalue_get_key, e, s, x, f)
              (read_index-Accounts (count_get_key w i v) i index v a)
      ]
    ]
  ]
]

-- From a world whose ledgers are in order, through any calls that print, release, read and clear
-- keys, in any order and on any pointers: each key buffer and each printed key that was
-- allocated is freed once or still live, and `keybuf_max_live` is no less than the buffers live.
pub after_calls-Accounts : (w : World) (cs : List Call) → Accounts w → Accounts (after_calls w cs)
unfolding after_calls after_call
after_calls-Accounts w [] a = a
after_calls-Accounts w (print key val ∷ cs) a =
    after_calls-Accounts (after_call w (print key val)) cs (pr_valstring-Accounts w key val a)
after_calls-Accounts w (release ptr ∷ cs) a =
    after_calls-Accounts (after_call w (release ptr)) cs (private_free-Accounts w ptr a)
after_calls-Accounts w (read_key i info v ∷ cs) a =
    after_calls-Accounts (after_call w (read_key i info v)) cs (get_key-Accounts w i info v a)
after_calls-Accounts w (clear v ∷ cs) a =
    after_calls-Accounts (after_call w (clear v)) cs (pr_clear_value-Accounts w v a)

erase-head : (p : ℕ) (live : List ℕ) → erase p (p ∷ live) ≡ some live
unfolding erase
erase-head p live = ground arith

-- The value and the world after a clear of what `read_index` leaves in a null `db_value`.
unfoldable pub read_then_clear : World → ℕ → Index → DbValue × World
unfolding read_index pr_clear_value
read_then_clear w i x = let r = read_index w i x null in pr_clear_value r.world r.db_value

free_key_buffer-head :
    (w : World) (p : ℕ) (live : List ℕ)
    → w.keybuf_live ≡ p ∷ live
    → ((free_key_buffer w (heap p)).keybuf_live ≡ live)
      × ((free_key_buffer w (heap p)).keybuf_bad_free ≡ w.keybuf_bad_free)
unfolding free_key_buffer
free_key_buffer-head w p live h =
    let e : erase p w.keybuf_live ≡ some live = rw h (erase-head p live) in
    (rw (free_key_buffer, e) refl, rw (free_key_buffer, e) refl)

read_long : World → ℕ → Index → KeyRead
unfolding alloc_key
read_long w i x = record {
  key = some caller;
  btid = some x.btid;
  db_value = midxkey (some (heap w.keybuf_alloc)) true;
  world = record (alloc_key (record w { cur_index = some i })) { cur_key = some caller };
}

cleared : World → ℕ → Index → World
unfolding read_long alloc_key
cleared w i x =
    let r = (read_long w i x).world in record r { clear_value_calls = suc r.clear_value_calls }

read_index_long :
    (w : World) (i : ℕ) (x : Index) (v : DbValue)
    → ltb 1 x.n_atts ≡ true
    → w.long_record ≡ true
    → read_index w i x v ≡ read_long w i x
unfolding read_index read_long
read_index_long w i x v e f = rw (read_index, e, f) refl

-- A value that was read for an index into a null `db_value` is cleared without a bad free: the buffers
-- live are what they were before the read, and the value is null, so that a second clear frees
-- nothing.
pub read_then_clear-live :
    (w : World) (i : ℕ) (x : Index)
    → ((read_then_clear w i x).1.keybuf_live ≡ w.keybuf_live)
      × (((read_then_clear w i x).1.keybuf_bad_free ≡ w.keybuf_bad_free)
          × ((read_then_clear w i x).0 ≡ null))
unfolding read_then_clear cleared read_long read_index pr_clear_value clear_midxkey free_key_buffer
    alloc_key
read_then_clear-live w i x = elim (Bool-cases (ltb 1 x.n_atts)) [
  | inr e ↦ rw (read_then_clear, read_index, e) (refl, (refl, refl))
  | inl e ↦ elim (Bool-cases w.long_record) [
    | inr f ↦ rw (read_then_clear, read_index, e, f) (refl, (refl, refl))
    | inl f ↦
        rw (read_then_clear, read_index_long w i x null e f)
          (let h = free_key_buffer-head (cleared w i x) w.keybuf_alloc w.keybuf_live refl in
            (h.0, (h.1, refl)))
  ]
]
