-- ===== src/Eval/Calls.antt =====
-- The frame of a call in src/fe.c: getbound, its parameters and the captured variables.
use fex.Common.{
  ℕ, suc, ◌≤◌, ◌≡◌, refl, ◌∙◌, ap, inl, inr, ◌⊎◌, Bool, true, false, ◌||◌, List, [], ◌∷◌, Bytes,
  bytes_eq, bytes_eq_sound, Option, none, some, if◌then◌else◌, arith, Bool-cases, length,
}
use fex.Closure.{names_have}
use fex.Eval.{
  Value, Binding, Env, frame, Closure, Store, Outcome, ok, error, exhausted, endless, beyond, pure,
  gets, ◌>>=◌,
}
use fex.Eval.Access.{find_slot, or_slot, getbound}
use fex.Eval.Forms.{argstoenv, with_captured, upvalues, call_frame}
use fex.Eval.Frames.{
  IsList, IsParameters, Argument, argument_for, Extends, Found, Binds, argstoenv-Binds,
}

-- The binding that a function has captured for a name.
abbrev pub captured_slot : (name : Bytes) → Closure → Option ℕ
captured_slot name c = if names_have c.free_vars name then getbound name c.def_env else none

find_slot-with_captured :
    (name t : Bytes) (slot : Option ℕ) (upvals : List Binding)
    → find_slot name (with_captured t slot upvals)
      ≡ (if bytes_eq t name then or_slot slot (find_slot name upvals) else find_slot name upvals)
unfolding find_slot
find_slot-with_captured name t none upvals = elim (Bool-cases (bytes_eq t name)) [
  | inl same ↦ rw same refl
  | inr other ↦ rw other refl
]
find_slot-with_captured name t (some slot) upvals = elim (Bool-cases (bytes_eq t name)) [
  | inl same ↦ rw (same, find_slot) refl
  | inr other ↦ rw (other, find_slot) refl
]

-- The captured bindings of one name are the same.
or_slot-again :
    (b : Bool) (g f : Option ℕ) → or_slot (if b then g else none) (or_slot g f) ≡ or_slot g f
or_slot-again true none f = refl
or_slot-again true (some slot) f = refl
or_slot-again false g f = refl

find_slot-upvalues :
    (name : Bytes) (free_vars : List Bytes) (def_env : Env) (upvals : List Binding)
    → find_slot name (upvalues free_vars def_env upvals)
      ≡ or_slot
          (if names_have free_vars name then getbound name def_env else none)
          (find_slot name upvals)
unfolding upvalues names_have
find_slot-upvalues name [] def_env upvals = refl
find_slot-upvalues name (t ∷ free_vars) def_env upvals =
    find_slot-upvalues name free_vars def_env (with_captured t (getbound t def_env) upvals)
    ∙ ap (or_slot (if names_have free_vars name then getbound name def_env else none))
        (find_slot-with_captured name t (getbound t def_env) upvals)
    ∙ one_more (Bool-cases (bytes_eq t name))
  where
    one_more :
        (bytes_eq t name ≡ true) ⊎ (bytes_eq t name ≡ false)
        → or_slot (if names_have free_vars name then getbound name def_env else none) (
            if bytes_eq t name
            then or_slot (getbound t def_env) (find_slot name upvals)
            else find_slot name upvals)
          ≡ or_slot
              (if bytes_eq t name || names_have free_vars name then getbound name def_env else none)
              (find_slot name upvals)
    one_more (inl same) =
        rw (same, bytes_eq_sound t name same)
          (or_slot-again (names_have free_vars name) (getbound name def_env)
            (find_slot name upvals))
    one_more (inr other) = rw other refl

frame-Found :
    (s s' : Store) (a : Option Argument) (locals upvals captured : Option ℕ)
    → Found s s' a locals none
    → upvals ≡ captured
    → Found s s' a (or_slot locals upvals) captured
frame-Found s s' none locals upvals captured e e' = ap (λ o. or_slot o upvals) e ∙ e'
frame-Found s s' (some x) locals upvals captured (slot, e, new, stands) e' =
    (slot, ap (λ o. or_slot o upvals) e, new, stands)

-- What names stand for in the frame of a call.
abbrev pub Called :
    Store
    → Closure
    → (names : List Bytes) → (rest : Option Bytes) → List Value
    → Outcome Env
    → Type 0
Called s c names rest xs (ok env s') =
    Extends s s'
    × ((name : Bytes)
        → Found s s' (argument_for name names rest xs) (getbound name env) (captured_slot name c))
Called s c names rest xs other = ⊥

Called-frame :
    (s : Store) (c : Closure) (names : List Bytes) (rest : Option Bytes) (xs : List Value)
    → (o : Outcome (List Binding)) → Binds s names rest xs [] o
    → Called s c names rest xs
        (((λ t. o) >>= λ locals. pure (frame locals (upvalues c.free_vars c.def_env []))) s)
unfolding ◌>>=◌ pure getbound find_slot
Called-frame s c names rest xs (ok locals s') (x, found) = (
  x,
  λ name.
      frame-Found s s' (argument_for name names rest xs) (find_slot name locals)
        (find_slot name (upvalues c.free_vars c.def_env [])) (captured_slot name c) (found name)
        (find_slot-upvalues name c.free_vars c.def_env [] ∙ or_slot-none (captured_slot name c)),
)
  where
    or_slot-none : (a : Option ℕ) → or_slot a none ≡ a
    or_slot-none none = refl
    or_slot-none (some slot) = refl
Called-frame s c names rest xs (error f) x = x
Called-frame s c names rest xs exhausted x = x
Called-frame s c names rest xs endless x = x
Called-frame s c names rest xs beyond x = x

-- The frame of a call, with no more parameters than the store has objects, can be made for every
-- list of arguments, and changes nothing but new bindings. In it a name stands for the argument at
-- its last place among the parameters, nil when there are too few arguments, in a binding of its
-- own; the symbol behind the parameters stands for the list of the arguments that are left. Another
-- name has the very binding that it had where the function was made, if it was captured, and else
-- its global one.
pub call_frame-Called :
    (c : Closure) (names : List Bytes) (rest : Option Bytes) (xs : List Value) (arg : Value)
    → (s : Store) → IsParameters s.pairs names rest c.params
    → IsList s.pairs xs arg
    → length names ≤ s.next
    → Called s c names rest xs (call_frame c arg s)
unfolding call_frame gets ◌>>=◌
call_frame-Called c names rest xs arg s params args le =
    Called-frame s c names rest xs (argstoenv (suc s.next) c.params arg [] s)
      (argstoenv-Binds (suc s.next) names rest xs c.params arg [] s (omega (arith, le)) params args)
