-- ===== src/Eval/Tables.antt =====
-- The primitive `get` of src/fe.c on pairs: find_assoc_binding and the selectors.
use fex.Common.{
  ℕ, zero, suc, ◌<◌, ◌≤◌, ◌≡◌, refl, ◌∙◌, ap, Bool, true, false, ◌||◌, List, [], ◌∷◌, Bytes, codes,
  bytes_eq, Option, none, some, if◌then◌else◌, arith, length,
}
use fex.Eval.{
  Value, nil, pair, Store, invalid_selector, Outcome, ok, error, endless, M, pure, gets, fail,
  forever, ◌>>=◌,
}
use fex.Eval.Frames.{bind-ok}
use fex.Eval.Access.{is_nil, is_symbol}
use fex.Eval.Members.{
  binding_entry, binding_loop, find_assoc_binding, get_selected, get_found, get_member,
}

abbrev pub is_pair : Value → Bool
is_pair (pair a) = true
is_pair other = false

-- A value that is the next pair of a table.
abbrev pub has_entry : (ℕ → Value × Value) → Value → Bool
has_entry pairs (pair a) = is_pair (pairs a).0
has_entry pairs other = false

-- A list of pairs, each a key and its value, with `rest` behind them.
abbrev pub IsTable :
    (pairs : ℕ → Value × Value) → List (Value × Value) → (rest : Value) → Value → Type 0
IsTable pairs [] rest v = v ≡ rest
IsTable pairs (entry ∷ entries) rest v =
    (a e : ℕ) × (v ≡ pair a)
    × ((pairs a).0 ≡ pair e)
    × (pairs e ≡ entry)
    × IsTable pairs entries rest (pairs a).1

-- The value of the first entry with a name.
abbrev pub bound_in : (name : Bytes) → List (Value × Value) → Option Value
bound_in name [] = none
bound_in name ((key, x) ∷ entries) = if is_symbol key name then some x else bound_in name entries

-- What the selectors of a pair give.
abbrev pub selected : (name : Bytes) → Value × Value → Store → Outcome Value
selected name (x, y) s =
    if bytes_eq name (codes "head") || bytes_eq name (codes "first")
    then ok x s
    else if bytes_eq name (codes "tail") || bytes_eq name (codes "rest")
    then ok y s
    else error invalid_selector

-- What `get` gives on a pair: by its entries, then by what is behind them.
abbrev pub member :
    (name : Bytes) → Option Value → (is_table : Bool) → Value × Value → Store → Outcome Value
member name (some x) is_table p s = ok x s
member name none true p s = ok nil s
member name none false p s = selected name p s

abbrev loop_answer : Option Value → (is_table : Bool) → Bool × Option Value
loop_answer (some x) is_table = (true, some x)
loop_answer none is_table = (is_table, none)

binding_entry-other :
    (again : M (Bool × Option Value)) (name : Bytes) (w : Value) (s : Store)
    → is_pair w ≡ false
    → binding_entry again name w s ≡ ok (false, none) s
unfolding binding_entry pure
binding_entry-other again name (pair a) s h = cc
binding_entry-other again name other s h = refl

binding_loop-rest :
    (rounds : ℕ) (name : Bytes) (rest : Value) (s : Store)
    → has_entry s.pairs rest ≡ false
    → binding_loop (suc rounds) name rest s ≡ ok (is_nil rest, none) s
unfolding binding_loop pure gets ◌>>=◌
binding_loop-rest rounds name nil s h = refl
binding_loop-rest rounds name (pair a) s h =
    binding_entry-other (binding_loop rounds name (s.pairs a).1) name (s.pairs a).0 s h
binding_loop-rest rounds name other s h = refl

-- A round of the loop at an entry.
binding_loop-round :
    (rounds : ℕ) (name : Bytes) (a e : ℕ) (s : Store)
    → (s.pairs a).0 ≡ pair e
    → binding_loop (suc rounds) name (pair a) s ≡ (
        if is_symbol (s.pairs e).0 name
        then ok (true, some (s.pairs e).1) s
        else binding_loop rounds name (s.pairs a).1 s)
unfolding binding_loop pure gets ◌>>=◌ binding_entry
binding_loop-round rounds name a e s first =
    ap (λ w. binding_entry (binding_loop rounds name (s.pairs a).1) name w s) first
    ∙ entry (is_symbol (s.pairs e).0 name)
  where
    entry :
        (b : Bool)
        → (if b then pure (true, some (s.pairs e).1) else binding_loop rounds name (s.pairs a).1) s
          ≡ (if b
              then ok (true, some (s.pairs e).1) s
              else binding_loop rounds name (s.pairs a).1 s)
    entry true = refl
    entry false = refl

entry_or_later :
    (b : Bool) (x : Value) (bound : Option Value) (is_table : Bool)
    → (later : Outcome (Bool × Option Value)) (s : Store)
    → later ≡ ok (loop_answer bound is_table) s
    → (if b then ok (true, some x) s else later)
      ≡ ok (loop_answer (if b then some x else bound) is_table) s
entry_or_later true x bound is_table later s e = refl
entry_or_later false x bound is_table later s e = e

get_found-member :
    (name : Bytes) (a : ℕ) (bound : Option Value) (is_table : Bool) (s : Store)
    → get_found (pair a) name (loop_answer bound is_table) s
      ≡ member name bound is_table (s.pairs a) s
unfolding get_found get_selected pure gets fail
get_found-member name a (some x) is_table s = refl
get_found-member name a none true s = refl
get_found-member name a none false s =
    selectors (bytes_eq name (codes "head") || bytes_eq name (codes "first"))
      (bytes_eq name (codes "tail") || bytes_eq name (codes "rest"))
  where
    selectors :
        (head tail : Bool)
        → (if head
              then gets (λ s. (s.pairs a).0)
              else if tail
              then gets (λ s. (s.pairs a).1)
              else fail invalid_selector)
            s
          ≡ (if head
              then ok (s.pairs a).0 s
              else if tail
              then ok (s.pairs a).1 s
              else error invalid_selector)
    selectors true tail = refl
    selectors false true = refl
    selectors false false = refl

binding_loop-table :
    (rounds : ℕ) (name : Bytes) (entries : List (Value × Value)) (rest v : Value) (s : Store)
    → length entries < rounds
    → IsTable s.pairs entries rest v
    → has_entry s.pairs rest ≡ false
    → binding_loop rounds name v s ≡ ok (loop_answer (bound_in name entries) (is_nil rest)) s
binding_loop-table zero name entries rest v s lt table h = absurd (omega (arith, lt))
binding_loop-table (suc rounds) name [] rest v s lt e h =
    ap (λ u. binding_loop (suc rounds) name u s) e ∙ binding_loop-rest rounds name rest s h
binding_loop-table (suc rounds) name ((key, x) ∷ entries) rest v s lt (a, b, e, first, at, table)
      h =
    ap (λ u. binding_loop (suc rounds) name u s) e
    ∙ binding_loop-round rounds name a b s first
    ∙ ap
        (λ p.
          if is_symbol p.0 name
          then ok (true, some p.1) s
          else binding_loop rounds name (s.pairs a).1 s)
        at
    ∙ entry_or_later (is_symbol key name) x (bound_in name entries) (is_nil rest)
        (binding_loop rounds name (s.pairs a).1 s) s
        (binding_loop-table rounds name entries rest (s.pairs a).1 s (omega (arith, lt)) table h)

-- `get` on a pair that is a list of entries with `rest` behind them, which is no entry: the value
-- of the first entry with the name; without one nil if the list ends there, and else the pair's
-- head or tail if the name selects it, or an error. The store must have an object for each entry.
pub get_member-member :
    (name : Bytes) (entries : List (Value × Value)) (rest : Value) (a : ℕ) (s : Store)
    → IsTable s.pairs entries rest (pair a)
    → has_entry s.pairs rest ≡ false
    → length entries ≤ s.next
    → get_member (pair a) name s ≡ member name (bound_in name entries) (is_nil rest) (s.pairs a) s
unfolding get_member find_assoc_binding gets ◌>>=◌
get_member-member name entries rest a s table h le =
    bind-ok (find_assoc_binding name (pair a)) (get_found (pair a) name) s s
      (loop_answer (bound_in name entries) (is_nil rest))
      (binding_loop-table (suc s.next) name entries rest (pair a) s (omega (arith, le)) table h)
    ∙ get_found-member name a (bound_in name entries) (is_nil rest) s

-- Pairs of a table without the name, each of which leads to another one.
pub record Circles (name : Bytes) (s : Store) (P : ℕ → Type 0) : Type 0 where
  pub entry : ℕ → ℕ
  pub next : ℕ → ℕ
  pub entries : (a : ℕ) → P a → (s.pairs a).0 ≡ pair (entry a)
  pub others : (a : ℕ) → P a → is_symbol (s.pairs (entry a)).0 name ≡ false
  pub nexts : (a : ℕ) → P a → (s.pairs a).1 ≡ pair (next a)
  pub stays : (a : ℕ) → P a → P (next a)

binding_loop-endless :
    (rounds : ℕ) (name : Bytes) (a : ℕ) (s : Store) (P : ℕ → Type 0)
    → Circles name s P
    → P a
    → binding_loop rounds name (pair a) s ≡ endless
unfolding binding_loop forever
binding_loop-endless zero name a s P c p = refl
binding_loop-endless (suc rounds) name a s P c p =
    binding_loop-round rounds name a (c.entry a) s (c.entries a p)
    ∙ rw (c.others a p) (
        ap (λ v. binding_loop rounds name v s) (c.nexts a p)
        ∙ binding_loop-endless rounds name (c.next a) s P c (c.stays a p))

-- `get` never ends on a table without the name that leads back into itself.
pub get_member-endless :
    (name : Bytes) (a : ℕ) (s : Store) (P : ℕ → Type 0)
    → Circles name s P
    → P a
    → get_member (pair a) name s ≡ endless
unfolding get_member find_assoc_binding gets ◌>>=◌
get_member-endless name a s P c p =
    rw (binding_loop-endless (suc s.next) name a s P c p, ◌>>=◌) refl
