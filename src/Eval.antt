-- ===== src/Eval.antt =====
-- The evaluator of src/fe.c: eval with its primitives, calls of functions and macros, and fe_eval.
--
-- A value is immediate or the address of an object in the store, so that code is data that programs
-- can change. Symbols are their names, since fe_symbol interns, and strings their bytes, since no
-- operation changes a string. A number is the 64 bits of its double. An environment lists bindings,
-- each a key and the address of its value; closures share these addresses.
--
-- A macro call whose expansion is an atom becomes a copy of that atom. It is marked and evaluated as
-- such; a program that also reads this call as data sees the mark.
--
-- Left out: the arena and its collector with the stack of roots (Heap), so that memory never runs
-- out, and source spans. Maps stand in the store as their entries, which is what Map shows of them.
pub mod Access
pub mod Members
pub mod Loops
pub mod Forms
pub mod Prims
pub mod Run
pub mod Start
pub mod Ends
pub mod Quiet
pub mod Rounds
pub mod Special
pub mod Primitives
pub mod Stops
pub mod Frames
pub mod Calls
pub mod Captures
pub mod Tables
pub mod Packages
pub mod Chains
pub mod Roots
pub mod Imports
mod Examples
use fex.Common.{
  ℕ, zero, suc, ◌+◌, Bool, true, false, List, [], ◌∷◌, Bytes, Option, none, some, update,
  if◌then◌else◌, bytes_eq,
}
use fex.Budget.{Limits, Abort, check_eval_budget}

-- The primitives, by the names that fe_open gives them.
pub data Prim : Type 0 where
  p_let p_set p_if p_fn p_mac p_while p_return p_module p_export p_import p_get p_put p_quote : Prim
  p_and p_or p_do p_cons p_car p_cdr p_setcar p_setcdr p_list p_not p_is p_atom p_print : Prim
  p_lt p_lte p_gt p_gte p_add p_sub p_mul p_div : Prim

pub data Value : Type 0 where
  nil : Value
  boolean : Bool → Value
  number : (bits : ℕ) → Value
  symbol : (name : Bytes) → Value
  text : Bytes → Value
  prim : Prim → Value
  cfunc : ℕ → Value
  pair func macro map_value : (address : ℕ) → Value
  -- A copy of the nil object, which is not the nil object, and the mark of a pair that a macro has
  -- replaced by the copy of another object.
  nil_copy : (address : ℕ) → Value
  copied : Value

-- A binding: its key, which is a symbol, and the address of its value.
abbrev pub Binding : Type 0
Binding = Value × ℕ

-- The frame of a call, or bindings outside of any call.
pub data Env : Type 0 where
  frame : (locals upvals : List Binding) → Env
  bindings : List Binding → Env

-- What a function or a macro is made of: (def_env free_vars params . body), where P_FN makes the
-- body a list of one expression.
pub record Closure : Type 0 where
  pub def_env : Env
  pub free_vars : List Bytes
  pub params : Value
  pub body : Value

pub record Store : Type 0 where
  pub next : ℕ
  pub pairs : ℕ → Value × Value
  pub closures : ℕ → Closure
  pub slots : ℕ → Value
  pub maps : ℕ → List (Bytes × Value)
  pub globals : Bytes → Value
  pub modulestack : List ℕ
  pub printed : List Value
  pub calllist : List Value
  pub current_eval_depth : ℕ
  pub max_eval_depth : ℕ
  pub limits : Limits

-- The errors that eval reports by fe_error.
pub data Failure : Type 0 where
  aborted : Abort → Failure
  depth_limit_exceeded too_few_arguments dotted_arguments wrong_type not_callable : Failure
  invalid_key nul_in_name outside_of_module invalid_selector unsupported_property : Failure
  division_by_zero not_a_module : Failure
  host_failure : Bytes → Failure

-- How a run ends: with a value, by an error, or with no fuel. `endless` is a loop of the C code over
-- a list without an end, and `beyond` takes car or cdr of what is no pair, without a check.
pub data Outcome (A : Type 0) : Type 0 where
  ok : A → Store → Outcome A
  error : Failure → Outcome A
  exhausted endless beyond : Outcome A

abbrev pub M : Type 0 → Type 0
M A = Store → Outcome A

module _ {A : Type 0} where
  unfoldable pub pure : A → M A
  pure a s = ok a s

  unfoldable pub fail : Failure → M A
  fail f s = error f

  unfoldable pub out_of_fuel : M A
  out_of_fuel s = exhausted

  unfoldable pub forever : M A
  forever s = endless

  unfoldable pub undefined : M A
  undefined s = beyond

  unfoldable pub gets : (Store → A) → M A
  gets f s = ok (f s) s

  infixl 5 ◌>>=◌
  unfoldable pub ◌>>=◌ : {B : Type 0} → M A → (A → M B) → M B
  (m >>= k) s = elim (m s) [
    | ok a s' ↦ k a s'
    | error f ↦ error f
    | exhausted ↦ exhausted
    | endless ↦ endless
    | beyond ↦ beyond
  ]

infixl 5 ◌>>◌
abbrev pub ◌>>◌ : {B : Type 0} → M (Unit {0}) → M B → M B
m >> k = m >>= λ _. k

unfoldable pub modify : (Store → Store) → M (Unit {0})
modify f s = ok tt (f s)

-- What is outside of the evaluator: the clock, the interrupt handler, arithmetic on doubles with the
-- rounding of fe_make_number and its immediate numbers, the C functions that are registered, and the loading of modules.
pub record Host : Type 0 where
  pub clock : Store → ℕ
  pub interrupt : Store → Bool
  pub add : ℕ → ℕ → ℕ
  pub sub : ℕ → ℕ → ℕ
  pub mul : ℕ → ℕ → ℕ
  pub divide : ℕ → ℕ → ℕ
  pub negate : ℕ → ℕ
  pub less : ℕ → ℕ → Bool
  pub less_or_equal : ℕ → ℕ → Bool
  pub same : ℕ → ℕ → Bool
  pub number_zero : ℕ
  pub fixnum : ℕ → Bool
  pub call : ℕ → Value → M Value
  pub import_module : Value → M Value

-- A recursive call of eval: the expression, its environment, and the environment that `newenv`
-- points to, if it does; the answer is the value and what `newenv` points to then.
abbrev pub Evaluator : Type 0
Evaluator = Value → Env → Option Env → M (Value × Option Env)
