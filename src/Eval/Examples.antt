-- ===== src/Eval/Examples.antt =====
-- The evaluator (src/fe.c) at a concrete program.
use fex.Common.{
  ◌+◌, ◌-◌, ◌*◌, ◌/◌, ◌≡◌, refl, ap, true, false, [], ◌∷◌, codes, ltb, leb, ◌==◌, arith, update,
  none, some,
}
use fex.Budget.{Limits}
use fex.Eval.{
  map_value, nil, boolean, symbol, pair, host_failure, fail, Host, Store, Closure, bindings, number,
  endless,
}
use fex.Eval.Run.{fe_eval}
use fex.Eval.Start.{fe_open}
use fex.Eval.Ends.{fail-Ends}
use fex.Eval.Primitives.{Steady}
use fex.Eval.Stops.{Ended, fe_eval-Ended}
use fex.Eval.Forms.{call_frame, expr_of, is_list}
use fex.Eval.Calls.{Called, call_frame-Called}
use fex.Eval.Members.{get_member, map_lookup}
use fex.Eval.Tables.{member, get_member-member, Circles, get_member-endless}
use fex.Eval.Captures.{Captures, make_function-captured_slot}
use fex.Parser.Expr.{Expr, nil_object}
use fex.Closure.{names_have}
use fex.Eval.Packages.{bind_imported_module}
use fex.Eval.Chains.{HasMaps}
use fex.Eval.Imports.{Imported, bind_imported_module-lookup_module_chain}

-- Doubles that are natural numbers, as these.
abbrev natural_host : Host
natural_host = record {
  clock = λ s. 0;
  interrupt = λ s. false;
  add = λ x y. x + y;
  sub = λ x y. x - y;
  mul = λ x y. x * y;
  divide = λ x y. x / y;
  negate = λ x. 0;
  less = ltb;
  less_or_equal = leb;
  same = λ x y. x == y;
  number_zero = 0;
  fixnum = λ bits. true;
  call = λ n args. fail (host_failure (codes "call"));
  import_module = λ spec. fail (host_failure (codes "import"));
}

abbrev hundred_steps : Limits
hundred_steps = record {
  step_limit = 100;
  steps_executed = 0;
  timeout_ms = 0;
  timeout_deadline_ms = 0;
  timeout_countdown = 0;
  handler = false;
  interrupt_interval = 0;
  interrupt_countdown = 0;
  eval_depth = 0;
}

-- A context with the objects of `(while true)`.
abbrev endless_while : Store
endless_while = record (fe_open 512 hundred_steps) {
  next = 2;
  pairs =
      update (update (λ a. (nil, nil)) 0 (symbol (codes "while"), pair 1)) 1 (boolean true, nil);
}

natural_host-Steady : Steady natural_host
natural_host-Steady = record { calls = λ n k args. fail-Ends _; imports = λ n spec. fail-Ends _ }

fe_eval-Ended_example : Ended endless_while (fe_eval natural_host 101 (pair 0) endless_while)
unfolding fe_open
fe_eval-Ended_example =
    fe_eval-Ended natural_host 101 (pair 0) endless_while natural_host-Steady refl (omega arith)
      (omega arith) (omega arith)

-- `fn(a . r)`, which captures x, and the list of the arguments 7 and 8.
abbrev first_and_rest : Closure
first_and_rest = record {
  def_env = bindings ((symbol (codes "x"), 2) ∷ []);
  free_vars = codes "x" ∷ [];
  params = pair 0;
  body = nil;
}

abbrev seven_and_eight : Store
seven_and_eight = record (fe_open 512 hundred_steps) {
  next = 3;
  pairs =
      update
        (update (update (λ a. (nil, nil)) 0 (symbol (codes "a"), symbol (codes "r"))) 1
          (number 7, pair 2))
        2 (number 8, nil);
}

call_frame-Called_example :
    Called seven_and_eight first_and_rest
      (codes "a" ∷ [])
      (some (codes "r"))
      (number 7 ∷ number 8 ∷ [])
      (call_frame first_and_rest (pair 1) seven_and_eight)
call_frame-Called_example =
    call_frame-Called first_and_rest (codes "a" ∷ []) (some (codes "r")) (number 7 ∷ number 8 ∷ [])
      (pair 1) seven_and_eight (0, refl, refl, refl) (1, refl, refl, (2, refl, refl, refl))
      (omega arith)

-- `[[true]]`, of which the head is nil.
abbrev nested : Store
nested = record (fe_open 512 hundred_steps) {
  next = 2;
  pairs = update (update (λ a. (nil, nil)) 0 (pair 1, nil)) 1 (boolean true, nil);
}

get_member-member_example :
    get_member (pair 0) (codes "head") nested ≡ member (codes "head") none true (pair 1, nil) nested
get_member-member_example =
    get_member-member (codes "head") ((boolean true, nil) ∷ []) nil 0 nested
      (0, 1, refl, refl, refl, refl) refl (omega arith)

-- A list whose tail is itself.
abbrev circular : Store
circular = record (fe_open 512 hundred_steps) {
  next = 2;
  pairs = update (update (λ a. (nil, nil)) 0 (pair 1, pair 0)) 1 (number 1, nil);
}

circular-Circles : Circles (codes "foo") circular (λ a. a ≡ 0)
circular-Circles = record {
  entry = λ a. 1;
  next = λ a. 0;
  entries = λ a p. ap (λ i. (circular.pairs i).0) p;
  others = λ a p. refl;
  nexts = λ a p. ap (λ i. (circular.pairs i).1) p;
  stays = λ a p. refl;
}

get_member-endless_example : get_member (pair 0) (codes "foo") circular ≡ endless
get_member-endless_example =
    get_member-endless (codes "foo") 0 circular (λ a. a ≡ 0) circular-Circles refl

-- The arguments of `fn(a) x`, with x bound.
abbrev one_free : Store
one_free = record (fe_open 512 hundred_steps) {
  next = 4;
  pairs =
      update (update (update (λ a. (nil, nil)) 0 (pair 2, pair 1)) 1 (symbol (codes "x"), nil)) 2
        (symbol (codes "a"), nil);
}

make_function-captured_slot_example :
    Captures one_free 0 1
      (Expr.pair (Expr.symbol (codes "a")) nil_object)
      (Expr.symbol (codes "x"))
      (bindings ((symbol (codes "x"), 3) ∷ []))
unfolding expr_of is_list
make_function-captured_slot_example =
    make_function-captured_slot 0 1 (Expr.pair (Expr.symbol (codes "a")) nil_object)
      (Expr.symbol (codes "x")) (bindings ((symbol (codes "x"), 3) ∷ [])) one_free refl refl refl
      refl

-- A context without packages, in which 7 is the address of a module.
abbrev no_packages : Store
no_packages = record (fe_open 512 hundred_steps) { next = 8; globals = λ name. nil }

no_packages-HasMaps : HasMaps no_packages
unfolding fe_open map_lookup
no_packages-HasMaps = record {
  fresh = λ a le. refl;
  globals = λ name m e. cc;
  entries = λ a k m e. cc;
}

-- The import of a.b.c.
bind_imported_module-lookup_module_chain_example :
    Imported no_packages (codes "a") (codes "b") (codes "c" ∷ []) 7 (
      bind_imported_module
        (codes "a.b.c")
        (codes "a" ∷ codes "b" ∷ codes "c" ∷ [])
        false
        (map_value 7)
        no_packages)
unfolding names_have
bind_imported_module-lookup_module_chain_example =
    bind_imported_module-lookup_module_chain (codes "a.b.c") b'a' [] (codes "b") (codes "c" ∷ []) 7
      no_packages no_packages-HasMaps refl
