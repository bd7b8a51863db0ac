-- ===== src/Lexer/Keywords.antt =====
-- The token types, and identifier_type: the keywords among the identifiers.
use fex.Common.{
  ℕ, ◌+◌, ◌≡◌, refl, ◌&&◌, [], ◌∷◌, Bytes, codes, bytes_eq, if◌then◌else◌, ltb, ◌==◌, ==→eq, inl,
  inr, Bool-cases, length, take, drop, arith,
}

pub data TokenType : Type 0 where
  lparen rparen lbrace rbrace lbracket rbracket : TokenType
  comma dot minus plus : TokenType
  semicolon slash star : TokenType
  bang bang_equal equal equal_equal greater greater_equal less less_equal : TokenType
  identifier string number : TokenType
  and else_keyword export false_literal fn if_keyword import let_keyword module_keyword nil or
        return :
      TokenType
  true_literal while : TokenType
  colon_colon error eof : TokenType

abbrev pub peek : Bytes → ℕ
peek [] = 0
peek (x ∷ xs) = x

-- Whether the text has `start` + `length` bytes, and those from `start` on are `rest`.
unfoldable pub check_keyword : Bytes → (start count : ℕ) → Bytes → TokenType → TokenType
check_keyword text start count rest type =
    if (length text == start + count) && bytes_eq (take count (drop start text)) rest
    then type
    else identifier

-- The switch on the first byte, and on the second one where the first does not decide.
unfoldable pub identifier_type : Bytes → TokenType
identifier_type text =
    let first = peek text in
    let second = peek (drop 1 text) in
    let longer = ltb 1 (length text) in
    if first == b'a'
    then check_keyword text 1 2 (codes "nd") and
    else if first == b'e'
    then (if longer
        then if second == b'l'
          then check_keyword text 2 2 (codes "se") else_keyword
          else if second == b'x'
          then check_keyword text 2 4 (codes "port") export
          else identifier
        else identifier)
    else if first == b'f'
    then (if longer
        then if second == b'a'
          then check_keyword text 2 3 (codes "lse") false_literal
          else if second == b'n'
          then (if length text == 2 then fn else identifier)
          else identifier
        else identifier)
    else if first == b'i'
    then (if longer && (second == b'm')
        then check_keyword text 1 5 (codes "mport") import
        else check_keyword text 1 1 (codes "f") if_keyword)
    else if first == b'l'
    then check_keyword text 1 2 (codes "et") let_keyword
    else if first == b'm'
    then check_keyword text 1 5 (codes "odule") module_keyword
    else if first == b'n'
    then check_keyword text 1 2 (codes "il") nil
    else if first == b'o'
    then check_keyword text 1 1 (codes "r") or
    else if first == b'r'
    then check_keyword text 1 5 (codes "eturn") return
    else if first == b't'
    then check_keyword text 1 3 (codes "rue") true_literal
    else if first == b'w'
    then check_keyword text 1 4 (codes "hile") while
    else identifier

-- The table of the reserved words of the language guide.
unfoldable pub keyword_table : Bytes → TokenType
keyword_table text =
    if bytes_eq text (codes "and")
    then and
    else if bytes_eq text (codes "else")
    then else_keyword
    else if bytes_eq text (codes "export")
    then export
    else if bytes_eq text (codes "false")
    then false_literal
    else if bytes_eq text (codes "fn")
    then fn
    else if bytes_eq text (codes "if")
    then if_keyword
    else if bytes_eq text (codes "import")
    then import
    else if bytes_eq text (codes "let")
    then let_keyword
    else if bytes_eq text (codes "module")
    then module_keyword
    else if bytes_eq text (codes "nil")
    then nil
    else if bytes_eq text (codes "or")
    then or
    else if bytes_eq text (codes "return")
    then return
    else if bytes_eq text (codes "true")
    then true_literal
    else if bytes_eq text (codes "while")
    then while
    else identifier

-- The test of the length adds nothing to the comparison of the bytes.
prefix_test :
    (xs rest : Bytes)
    → ((length xs == length rest) && bytes_eq (take (length rest) xs) rest) ≡ bytes_eq xs rest
prefix_test [] [] = refl
prefix_test [] (y ∷ ys) = ground arith
prefix_test (x ∷ xs) [] = ground arith
prefix_test (x ∷ xs) (y ∷ ys) = ground (arith, prefix_test xs ys)

after_one :
    (x : ℕ) (xs rest : Bytes) (type : TokenType)
    → check_keyword (x ∷ xs) 1 (length rest) rest type
      ≡ (if bytes_eq xs rest then type else identifier)
unfolding check_keyword
after_one x xs rest type = ground (arith, prefix_test xs rest)

after_two :
    (x y : ℕ) (xs rest : Bytes) (type : TokenType)
    → check_keyword (x ∷ y ∷ xs) 2 (length rest) rest type
      ≡ (if bytes_eq xs rest then type else identifier)
unfolding check_keyword
after_two x y xs rest type = ground (arith, prefix_test xs rest)

abbrev Agrees : Bytes → Type 0
Agrees text = identifier_type text ≡ keyword_table text

letter_a : (xs : Bytes) → Agrees (b'a' ∷ xs)
unfolding identifier_type keyword_table
letter_a xs = after_one b'a' xs (codes "nd") and

letter_l : (xs : Bytes) → Agrees (b'l' ∷ xs)
unfolding identifier_type keyword_table
letter_l xs = after_one b'l' xs (codes "et") let_keyword

letter_m : (xs : Bytes) → Agrees (b'm' ∷ xs)
unfolding identifier_type keyword_table
letter_m xs = after_one b'm' xs (codes "odule") module_keyword

letter_n : (xs : Bytes) → Agrees (b'n' ∷ xs)
unfolding identifier_type keyword_table
letter_n xs = after_one b'n' xs (codes "il") nil

letter_o : (xs : Bytes) → Agrees (b'o' ∷ xs)
unfolding identifier_type keyword_table
letter_o xs = after_one b'o' xs (codes "r") or

letter_r : (xs : Bytes) → Agrees (b'r' ∷ xs)
unfolding identifier_type keyword_table
letter_r xs = after_one b'r' xs (codes "eturn") return

letter_t : (xs : Bytes) → Agrees (b't' ∷ xs)
unfolding identifier_type keyword_table
letter_t xs = after_one b't' xs (codes "rue") true_literal

letter_w : (xs : Bytes) → Agrees (b'w' ∷ xs)
unfolding identifier_type keyword_table
letter_w xs = after_one b'w' xs (codes "hile") while

letter_e : (xs : Bytes) → Agrees (b'e' ∷ xs)
unfolding identifier_type keyword_table
letter_e [] = refl
letter_e (y ∷ ys) = ground (
  arith,
  after_two b'e' y ys (codes "se") else_keyword,
  after_two b'e' y ys (codes "port") export,
)

letter_f : (xs : Bytes) → Agrees (b'f' ∷ xs)
unfolding identifier_type keyword_table
letter_f [] = refl
letter_f (y ∷ []) = ground (arith, after_two b'f' y [] (codes "lse") false_literal)
letter_f (y ∷ z ∷ zs) = ground (arith, after_two b'f' y (z ∷ zs) (codes "lse") false_literal)

letter_i : (xs : Bytes) → Agrees (b'i' ∷ xs)
unfolding identifier_type keyword_table
letter_i [] = after_one b'i' [] (codes "f") if_keyword
letter_i (y ∷ ys) = ground (
  arith,
  after_one b'i' (y ∷ ys) (codes "mport") import,
  after_one b'i' (y ∷ ys) (codes "f") if_keyword,
)

-- The nested switch of identifier_type agrees with the table of the fourteen reserved words on
-- every text.
pub identifier_type-keyword_table : (text : Bytes) → identifier_type text ≡ keyword_table text
unfolding identifier_type keyword_table
identifier_type-keyword_table [] = refl
identifier_type-keyword_table (x ∷ xs) = elim (Bool-cases (x == b'a')) [
  | inl e ↦ rw (==→eq x b'a' e) (letter_a xs)
  | inr not_a ↦ elim (Bool-cases (x == b'e')) [
    | inl e ↦ rw (==→eq x b'e' e) (letter_e xs)
    | inr not_e ↦ elim (Bool-cases (x == b'f')) [
      | inl e ↦ rw (==→eq x b'f' e) (letter_f xs)
      | inr not_f ↦ elim (Bool-cases (x == b'i')) [
        | inl e ↦ rw (==→eq x b'i' e) (letter_i xs)
        | inr not_i ↦ elim (Bool-cases (x == b'l')) [
          | inl e ↦ rw (==→eq x b'l' e) (letter_l xs)
          | inr not_l ↦ elim (Bool-cases (x == b'm')) [
            | inl e ↦ rw (==→eq x b'm' e) (letter_m xs)
            | inr not_m ↦ elim (Bool-cases (x == b'n')) [
              | inl e ↦ rw (==→eq x b'n' e) (letter_n xs)
              | inr not_n ↦ elim (Bool-cases (x == b'o')) [
                | inl e ↦ rw (==→eq x b'o' e) (letter_o xs)
                | inr not_o ↦ elim (Bool-cases (x == b'r')) [
                  | inl e ↦ rw (==→eq x b'r' e) (letter_r xs)
                  | inr not_r ↦ elim (Bool-cases (x == b't')) [
                    | inl e ↦ rw (==→eq x b't' e) (letter_t xs)
                    | inr not_t ↦ elim (Bool-cases (x == b'w')) [
                      | inl e ↦ rw (==→eq x b'w' e) (letter_w xs)
                      | inr not_w ↦ rw (
                        not_a, not_e, not_f, not_i, not_l, not_m, not_n, not_o, not_r, not_t, not_w,
                      )
                    ]
                  ]
                ]
              ]
            ]
          ]
        ]
      ]
    ]
  ]
]
