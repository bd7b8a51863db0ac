-- ===== src/Lib.antt =====
-- Verification of FeX, the scripting language of this repository: the runtime core in src/fe.c, the
-- front end in src/fex.c, the source spans in src/fex_span.c, functions of src/fex_builtins.c and the
-- generator in src/sfc32.c.
--
-- How the parts go together: the front end (src/fex.c) turns source text into tokens and these into
-- core expressions; the evaluator (src/fe.c) runs them in an arena of objects, under limits on
-- steps, time and memory; maps are hash tables of its own; imports turn module names into paths;
-- the builtins (src/fex_builtins.c) draw random numbers from src/sfc32.c and read and write JSON; the
-- spans (src/fex_span.c) keep for each object of a program the text that it comes from, and the
-- collector drops those of the objects that it frees.
--
-- Which file models what:
--   * Common and its children: the shared names, Boolean tests, lists, byte strings, arrays.
--   * Bits: laws of the bit operations at variables.
--   * Map: fe_Map and the fe_map_* operations of src/fe.c. Map.Hash is hash_string_obj; Map.Probe,
--     Map.Valid, Map.Slots, Map.Resize, Map.Capacity, Map.Laws and Map.Keys hold the proofs.
--   * Memory: the tracked allocator of src/fe.c (tracked_alloc, tracked_realloc, tracked_free).
--   * Budget: the limits of src/fe.c (fe_set_step_limit to check_eval_budget).
--   * Sfc32: src/sfc32.c and src/sfc32.h.
--   * Lexer: the lexer of src/fex.c (init_lexer to scan_token). Lexer.Keywords is identifier_type;
--     Lexer.Blanks says what white space and comments are; Lexer.Reading, Lexer.Parts and Lexer.Scan
--     hold the proofs.
--   * Parser: error_at, parser_advance, consume and check of src/fex.c; the proofs are in
--     Parser.Advance. Parser.Steps makes steps of them, with bind; Parser.Expr, Parser.Primary,
--     Parser.Table, Parser.Blocks, Parser.Pratt, Parser.Statements and Parser.Compile are the rest of
--     the parser, from make_unary to fex_compile_named, and Parser.Hoist is
--     rewrite_named_fn_declarations, with what it is to do in Parser.Declarations. Parser.Ends, Parser.Progress and Parser.Matches say what a step
--     leaves of the source, and Parser.Leaves, Parser.Ready, Parser.Operators, Parser.Sentences and
--     Parser.Returns go through the grammar with them; Parser.Literals is about string literals.
--   * Heap: the arena of src/fe.c (fe_mark, collectgarbage, object, fe_cons). Heap.Marks, Heap.Push
--     and Heap.Mark are about the marking, Heap.FreeList and Heap.Sweep about the sweep, Heap.Collect
--     about both together, Heap.Allocate and Heap.Cons about allocation.
--   * Modules: the names and paths of modules in src/fe.c (normalize_path_chars to
--     join_module_segments); the proofs are in Modules.Paths and Modules.Segments.
--   * Errors: copy_string and the FexEscapedWriter of src/fex.c; Errors.Writer is about the bounds,
--     Errors.Escapes reads the escapes back.
--   * Json: json_parse_string, json_write_string and buf_append_utf8 of src/fex_builtins.c; the
--     proofs are in Json.Strings.
--   * Closure: list_has and analyze of src/fe.c, the variables that a function captures. Closure.Free
--     is what it means that a variable occurs free; Closure.Members and Closure.Sound hold the proofs.
--   * Builtins: functions of src/fex_builtins.c. Builtins.Strings has those on strings and bytes,
--     Builtins.Lists those on lists, Builtins.Paths pathjoin, dirname and basename; the proofs are in
--     Builtins.Scans, Builtins.Trim, Builtins.Split, Builtins.Search, Builtins.Joins and
--     Builtins.Sequences.
--   * Spans: the source spans of src/fex_span.c. Spans.Account counts the blocks that it takes and
--     gives back, Spans.Lookup is about what a lookup finds.
--   * Eval: the evaluator of src/fe.c. Eval.Access and Eval.Members have what it reads of objects and
--     writes to them, Eval.Loops its loops over arguments and statements, Eval.Forms bindings,
--     functions and modules, Eval.Prims the primitives and calls, Eval.Run eval and fe_eval, and
--     Eval.Start the state that fe_open leaves. Budget.Counts says what a step does to the limits;
--     Eval.Ends, Eval.Quiet, Eval.Rounds, Eval.Special, Eval.Primitives and Eval.Stops say which
--     steps a run takes; Eval.Captures is about the variables that a function keeps, Eval.Frames and
--     Eval.Calls about what a name stands for in a call, Eval.Tables about what `get` gives on pairs.
--     Eval.Packages has lookup_global_module to bind_imported_module, and
--     resolve_imported_module_value; Eval.Chains, Eval.Roots and Eval.Imports say where an
--     import puts a module.
--
-- Conventions. A C array is a function of its index, a C string the list of its bytes. A `size_t`,
-- `uint64_t` or `uint32_t` keeps its wrap-around, written out as a remainder; an `int` that counts
-- slots or bytes in memory is a plain number. fe_error does not return: it is an error result.
-- What the code gets from outside (malloc, the clock, the interrupt handler) is an argument.
--
-- Fuel and bounds: double_target (Map) takes used + 2 rounds (Map.Capacity). The loop of
-- parser_advance takes one round more than there are bytes left (Parser.Advance).
-- Each call of a function of the grammar that is declared forward takes one fuel, and at most three
-- such calls go by before a token is passed (Parser.Compile.compile_fuel, Parser.Returns).
-- fe_mark takes one round more than there are unmarked objects and pointers in them
-- (Heap.Push.weight, Heap.Mark), and the loop of json_parse_string one more than there are bytes left
-- (Json.Strings). All other loops recur on the rounds or the bytes that are left.
--
-- A call of eval, a `goto tail_call` and a round of the loops of eval take one fuel each; one more
-- than the step limit is enough (Eval.Stops). A loop of the C code over a list that leads back to
-- itself is the outcome `endless`, and car or cdr of what is no pair without a check is `beyond`.
--
-- Not modelled: the search of modules and the run of their files, which are an argument of the evaluator, as are
-- the functions that C code registers; the reader and writer of S-expressions, the string slabs, the
-- builtins on files, time, processes and maps and those that call functions of the program,
-- mathematics (libm on doubles), the command line.
pub mod Common
pub mod Bits
pub mod Memory
pub mod Budget
pub mod Heap
pub mod Map
pub mod Lexer
pub mod Parser
pub mod Closure
pub mod Spans
pub mod Eval
pub mod Modules
pub mod Json
pub mod Builtins
pub mod Errors
pub mod Sfc32
