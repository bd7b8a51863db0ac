-- ===== src/Eval/Quiet.antt =====
-- The steps of Eval.Access and Eval.Forms that evaluate nothing.
use fex.Common.{
  ℕ, zero, suc, ◌≡◌, refl, Bool, true, false, Bytes, codes, Option, none, some, if◌then◌else◌,
}
use fex.Eval.{Value, nil, number, symbol, text, pair, map_value, Closure, Store, M, modify}
use fex.Eval.Access.{
  is_symbol, car, cdr, fe_car, fe_cdr, fe_nextarg, fe_cons, set_pair, new_slot, set_slot,
  make_closure, checknum, check_symbol, check_pair, is_return_obj, fe_set, set_bound,
}
use fex.Eval.Members.{
  key_bytes, fe_map, put_entry, fe_map_set, binding_entry, binding_loop, find_assoc_binding,
  get_selected, get_found, get_member,
}
use fex.Eval.Ends.{
  Ends, then-Ends, pure-Ends, gets-Ends, fail-Ends, forever-Ends, undefined-Ends, changed-Ends,
}

pub if-Ends :
    {A : Type 0} {k n : ℕ} {x y : M A} (b : Bool)
    → Ends k n x
    → Ends k n y
    → Ends k n (if b then x else y)
if-Ends true e e' = e
if-Ends false e e' = e'

module _ {n : ℕ} where
  pub car-Ends : (v : Value) → Ends 0 n (car v)
  unfolding car
  car-Ends (pair a) = gets-Ends (λ s. (s.pairs a).0)
  car-Ends other = undefined-Ends

  pub cdr-Ends : (v : Value) → Ends 0 n (cdr v)
  unfolding cdr
  cdr-Ends (pair a) = gets-Ends (λ s. (s.pairs a).1)
  cdr-Ends other = undefined-Ends

  pub fe_car-Ends : (v : Value) → Ends 0 n (fe_car v)
  unfolding fe_car
  fe_car-Ends nil = pure-Ends nil
  fe_car-Ends (pair a) = gets-Ends (λ s. (s.pairs a).0)
  fe_car-Ends other = fail-Ends _

  pub fe_cdr-Ends : (v : Value) → Ends 0 n (fe_cdr v)
  unfolding fe_cdr
  fe_cdr-Ends nil = pure-Ends nil
  fe_cdr-Ends (pair a) = gets-Ends (λ s. (s.pairs a).1)
  fe_cdr-Ends other = fail-Ends _

  pub fe_nextarg-Ends : (v : Value) → Ends 0 n (fe_nextarg v)
  unfolding fe_nextarg
  fe_nextarg-Ends nil = fail-Ends _
  fe_nextarg-Ends (pair a) = gets-Ends (λ s. s.pairs a)
  fe_nextarg-Ends other = fail-Ends _

  pub modify-Ends :
      (f : Store → Store)
      → ((s : Store) → (f s).limits ≡ s.limits)
      → ((s : Store) → (f s).current_eval_depth ≡ s.current_eval_depth)
      → ((s : Store) → (f s).calllist ≡ s.calllist)
      → Ends 0 n (modify f)
  unfolding modify
  modify-Ends f l d c = changed-Ends f (λ s. tt) (record { limits = l; depth = d; calls = c })

  pub fe_cons-Ends : (x y : Value) → Ends 0 n (fe_cons x y)
  unfolding fe_cons
  fe_cons-Ends x y =
      changed-Ends _ (λ s. pair s.next)
        (record { limits = λ s. refl; depth = λ s. refl; calls = λ s. refl })

  pub set_pair-Ends : (a : ℕ) (x y : Value) → Ends 0 n (set_pair a x y)
  unfolding set_pair
  set_pair-Ends a x y = modify-Ends _ (λ s. refl) (λ s. refl) (λ s. refl)

  pub new_slot-Ends : (v : Value) → Ends 0 n (new_slot v)
  unfolding new_slot
  new_slot-Ends v =
      changed-Ends _ (λ s. s.next)
        (record { limits = λ s. refl; depth = λ s. refl; calls = λ s. refl })

  pub set_slot-Ends : (a : ℕ) (v : Value) → Ends 0 n (set_slot a v)
  unfolding set_slot
  set_slot-Ends a v = modify-Ends _ (λ s. refl) (λ s. refl) (λ s. refl)

  pub make_closure-Ends : (c : Closure) → Ends 0 n (make_closure c)
  unfolding make_closure
  make_closure-Ends c =
      changed-Ends _ (λ s. s.next)
        (record { limits = λ s. refl; depth = λ s. refl; calls = λ s. refl })

  pub checknum-Ends : (v : Value) → Ends 0 n (checknum v)
  unfolding checknum
  checknum-Ends (number bits) = pure-Ends bits
  checknum-Ends other = fail-Ends _

  pub check_symbol-Ends : (v : Value) → Ends 0 n (check_symbol v)
  unfolding check_symbol
  check_symbol-Ends (symbol s) = pure-Ends s
  check_symbol-Ends other = fail-Ends _

  pub check_pair-Ends : (v : Value) → Ends 0 n (check_pair v)
  unfolding check_pair
  check_pair-Ends (pair a) = pure-Ends a
  check_pair-Ends other = fail-Ends _

  pub is_return_obj-Ends : (v : Value) → Ends 0 n (is_return_obj v)
  unfolding is_return_obj
  is_return_obj-Ends (pair a) = gets-Ends (λ s. is_symbol (s.pairs a).0 (codes "return"))
  is_return_obj-Ends other = pure-Ends false

  pub fe_set-Ends : (name : Bytes) (v : Value) → Ends 0 n (fe_set name v)
  unfolding fe_set
  fe_set-Ends name v = modify-Ends _ (λ s. refl) (λ s. refl) (λ s. refl)

  pub set_bound-Ends : (sym : Bytes) (slot : Option ℕ) (v : Value) → Ends 0 n (set_bound sym slot v)
  set_bound-Ends sym none v = fe_set-Ends sym v
  set_bound-Ends sym (some slot) v = set_slot-Ends slot v

  key_bytes-Ends : (v : Value) → Ends 0 n (key_bytes v)
  unfolding key_bytes
  key_bytes-Ends (symbol s) = pure-Ends s
  key_bytes-Ends (text s) = pure-Ends s
  key_bytes-Ends other = fail-Ends _

  pub fe_map-Ends : Ends 0 n fe_map
  unfolding fe_map
  fe_map-Ends =
      changed-Ends _ (λ s. s.next)
        (record { limits = λ s. refl; depth = λ s. refl; calls = λ s. refl })

  pub put_entry-Ends : (m : ℕ) (key : Bytes) (v : Value) → Ends 0 n (put_entry m key v)
  unfolding put_entry
  put_entry-Ends m key v = modify-Ends _ (λ s. refl) (λ s. refl) (λ s. refl)

  pub fe_map_set-Ends : (m key v : Value) → Ends 0 n (fe_map_set m key v)
  unfolding fe_map_set
  fe_map_set-Ends (map_value m) key v = then-Ends (key_bytes-Ends key) (λ k. put_entry-Ends m k v)
  fe_map_set-Ends other key v = fail-Ends _

  binding_entry-Ends :
      (again : M (Bool × Option Value)) (sym : Bytes) (entry : Value)
      → Ends 0 n again
      → Ends 0 n (binding_entry again sym entry)
  unfolding binding_entry
  binding_entry-Ends again sym (pair e) h =
      then-Ends (gets-Ends (λ s. s.pairs e))
        (λ (key, value). if-Ends (is_symbol key sym) (pure-Ends (true, some value)) h)
  binding_entry-Ends again sym other h = pure-Ends (false, none)

  binding_loop-Ends : (rounds : ℕ) (sym : Bytes) (p : Value) → Ends 0 n (binding_loop rounds sym p)
  unfolding binding_loop
  binding_loop-Ends zero sym p = forever-Ends
  binding_loop-Ends (suc rounds) sym nil = pure-Ends (true, none)
  binding_loop-Ends (suc rounds) sym (pair a) =
      then-Ends (gets-Ends (λ s. s.pairs a)) (λ (entry, rest).
        binding_entry-Ends (binding_loop rounds sym rest) sym entry
          (binding_loop-Ends rounds sym rest))
  binding_loop-Ends (suc rounds) sym other = pure-Ends (false, none)

  find_assoc_binding-Ends : (sym : Bytes) (v : Value) → Ends 0 n (find_assoc_binding sym v)
  unfolding find_assoc_binding
  find_assoc_binding-Ends sym (pair a) =
      then-Ends (gets-Ends (λ s. s.next)) (λ k. binding_loop-Ends (suc k) sym (pair a))
  find_assoc_binding-Ends sym other = pure-Ends (false, none)

  get_selected-Ends :
      (v : Value) (sym : Bytes) (is_table : Bool) → Ends 0 n (get_selected v sym is_table)
  unfolding get_selected
  get_selected-Ends (pair a) sym false =
      if-Ends _ (gets-Ends (λ s. (s.pairs a).0))
        (if-Ends _ (gets-Ends (λ s. (s.pairs a).1)) (fail-Ends _))
  get_selected-Ends other sym true = pure-Ends nil
  get_selected-Ends other sym false = fail-Ends _

  get_found-Ends :
      (v : Value) (sym : Bytes) (found : Bool × Option Value) → Ends 0 n (get_found v sym found)
  unfolding get_found
  get_found-Ends v sym (is_table, some bound) = pure-Ends bound
  get_found-Ends v sym (is_table, none) = get_selected-Ends v sym is_table

  pub get_member-Ends : (v : Value) (sym : Bytes) → Ends 0 n (get_member v sym)
  unfolding get_member
  get_member-Ends (map_value m) sym = gets-Ends _
  get_member-Ends other sym =
      then-Ends (find_assoc_binding-Ends sym other) (λ found. get_found-Ends other sym found)
