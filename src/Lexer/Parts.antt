-- ===== src/Lexer/Parts.antt =====
-- Where the helpers of scan_token leave the lexer, and which tokens they return.
use fex.Common.{
  ℕ, ◌+◌, ◌-◌, ◌≡◌, refl, Bool, true, false, [], ◌∷◌, Bytes, if◌then◌else◌, ◌==◌, ◌||◌, drop, arith,
  not, ◌&&◌,
}
use fex.Lexer.{
  make_token, Lexer, Token, token, error_token, ErrorMessage, advance, match, advance_while,
  lex_identifier, lex_fraction, lex_exponent, lex_hexadecimal, lex_decimal, lex_number, string_loop,
  lex_string, one_or_two, scan_punctuation, scan_from, is_at_end, finish, fail, is_identifier_char,
  is_digit, is_xdigit, pass_sign, is_sign, unterminated_string, invalid_hexadecimal,
  unexpected_character,
}
use fex.Lexer.Keywords.{
  identifier_type, keyword_table, identifier_type-keyword_table, TokenType, peek, lparen, rparen,
  lbrace, rbrace, lbracket, rbracket, comma, dot, minus, plus, semicolon, slash, star, bang,
  bang_equal, equal, equal_equal, greater, greater_equal, less, less_equal, string, number,
  colon_colon, error, eof,
}
use fex.Lexer.Reading.{
  Moves, Moves-trans, Read-refl, advance-Read, advance_while-Read, string_loop-Read,
}

-- A token of the source stands where the lexer was at `start`, and is as long as the lexer moved.
abbrev pub Located : Lexer → Lexer → Token → Type 0
Located start l' (token type first count line column) =
    (first ≡ start.position) × (count ≡ l'.position - start.position)
Located start l' (error_token message line) = l'.had_error ≡ true

abbrev pub is_eof : TokenType → Bool
is_eof eof = true
is_eof other = false

abbrev pub IsEof : Token → Type 0
IsEof (token type first count line column) = is_eof type ≡ true
IsEof (error_token message line) = ⊥

pub record Outcome (start l : Lexer) (r : Lexer × Token) : Type 0 where
  pub moved : Moves l r.0
  pub located : Located start r.0 r.1
  pub no_eof : ¬ IsEof r.1

Moves-refl : (l : Lexer) → Moves l l
Moves-refl l = ([], Read-refl l)

advance-Moves : (l : Lexer) → not (is_at_end l.rest) ≡ true → Moves l (advance l)
advance-Moves l some_left = from l.rest refl some_left
  where
    from : (xs : Bytes) → l.rest ≡ xs → not (is_at_end xs) ≡ true → Moves l (advance l)
    from [] e h = ground arith
    from (x ∷ xs) e h = (x ∷ [], advance-Read l x xs e)

-- A byte that is not the closing NUL is there.
peek_some :
    (xs : Bytes) (test : ℕ → Bool)
    → test 0 ≡ false
    → test (peek xs) ≡ true
    → not (is_at_end xs) ≡ true
peek_some [] test no_nul h = cc
peek_some (x ∷ xs) test no_nul h = refl

while-Moves : (test : ℕ → Bool) (l : Lexer) → Moves l (advance_while test l.rest l)
while-Moves test l = let (text, r, all, stop) = advance_while-Read test l.rest l refl in (text, r)

pub finish-Outcome :
    (start l l' : Lexer) (type : TokenType)
    → is_eof type ≡ false
    → Moves l l'
    → Outcome start l (finish start type l')
finish-Outcome start l l' type other moved =
    unfold finish make_token in record { moved = moved; located = (refl, refl); no_eof = λ end. cc }

pass : Lexer → Lexer
pass l = record l { rest = drop 1 l.rest; position = l.position + 1 }

pass-Moves : (l : Lexer) → not (is_at_end l.rest) ≡ true → Moves l (pass l)
unfolding pass
pass-Moves l some_left = from l.rest refl some_left
  where
    from : (xs : Bytes) → l.rest ≡ xs → not (is_at_end xs) ≡ true → Moves l (pass l)
    from [] e h = ground arith
    from (x ∷ xs) e h = (x ∷ [], ground arith)

choose :
    (start l : Lexer) (r r' : Lexer × Token) (b : Bool)
    → Outcome start l r
    → Outcome start l r'
    → Outcome start l (if b then r else r')
choose start l r r' true o o' = o
choose start l r r' false o o' = o'

fail-Outcome :
    (start l l' : Lexer) (message : ErrorMessage) → Moves l l' → Outcome start l (fail l' message)
fail-Outcome start l l' message (text, r) = record {
  moved = (text, record { rest = r.rest; position = r.position });
  located = refl;
  no_eof = λ end. end;
}

choose_Moves :
    {l r r' : Lexer} (b : Bool)
    → (b ≡ true → Moves l r)
    → Moves l r'
    → Moves l (if b then r else r')
choose_Moves true o o' = o refl
choose_Moves false o o' = o'

and-left : (a b : Bool) → (a && b) ≡ true → a ≡ true
and-left true b e = refl
and-left false b e = e

match-Moves : (l : Lexer) (expected : ℕ) → Moves l (match l expected).0
unfolding match pass
match-Moves l expected = from _ (λ h. pass-Moves l (and-left _ _ h))
  where
    from :
        (b : Bool)
        → (b ≡ true → Moves l (pass l))
        → (let r : Lexer × Bool = if b then (pass l, true) else (l, false) in Moves l r.0)
    from true f = f refl
    from false f = Moves-refl l

one_or_two-Outcome :
    (start l : Lexer) (expected : ℕ) (both single : TokenType)
    → is_eof both ≡ false
    → is_eof single ≡ false
    → Outcome start l (one_or_two start l expected both single)
unfolding one_or_two finish
one_or_two-Outcome start l expected both single no_eof no_eof' =
    finish-Outcome start l (match l expected).0 _ (either (match l expected).1)
      (match-Moves l expected)
  where
    either : (b : Bool) → is_eof (if b then both else single) ≡ false
    either true = no_eof
    either false = no_eof'

identifier_type-no_eof : (text : Bytes) → is_eof (identifier_type text) ≡ false
unfolding keyword_table
identifier_type-no_eof text = rw (identifier_type-keyword_table text) (ground arith)

lex_identifier-Outcome : (start l : Lexer) → Outcome start l (lex_identifier start l)
unfolding lex_identifier
lex_identifier-Outcome start l =
    finish-Outcome start l _ _ (identifier_type-no_eof _) (while-Moves is_identifier_char l)

then_digits :
    (l : Lexer)
    → not (is_at_end l.rest) ≡ true
    → Moves l (advance_while is_digit (advance l).rest (advance l))
then_digits l some_left = Moves-trans (advance-Moves l some_left) (while-Moves is_digit (advance l))

lex_fraction-Moves : (l : Lexer) → Moves l (lex_fraction l)
unfolding lex_fraction
lex_fraction-Moves l =
    choose_Moves _ (λ h. then_digits l (peek_some l.rest (λ c. c == b'.') refl (and-left _ _ h)))
      (Moves-refl l)

pass_sign-Moves : (l : Lexer) → Moves l (pass_sign l)
unfolding pass_sign
pass_sign-Moves l =
    choose_Moves _ (λ h. advance-Moves l (peek_some l.rest is_sign refl h)) (Moves-refl l)

abbrev is_e : ℕ → Bool
is_e c = c == b'e' || c == b'E'

lex_exponent-Moves : (l : Lexer) → Moves l (lex_exponent l)
unfolding lex_exponent
lex_exponent-Moves l =
    choose_Moves _
      (λ h.
        Moves-trans (advance-Moves l (peek_some l.rest is_e refl (and-left _ _ h))) (
          Moves-trans (pass_sign-Moves (advance l)) (while-Moves is_digit (pass_sign (advance l)))))
      (Moves-refl l)

lex_decimal-Moves : (l : Lexer) → Moves l (lex_decimal l)
unfolding lex_decimal
lex_decimal-Moves l =
    Moves-trans (while-Moves is_digit l) (Moves-trans (lex_fraction-Moves _) (lex_exponent-Moves _))

lex_hexadecimal-Outcome :
    (start l : Lexer) → not (is_at_end l.rest) ≡ true → Outcome start l (lex_hexadecimal start l)
unfolding lex_hexadecimal
lex_hexadecimal-Outcome start l some_left =
    choose start l _ _ (is_xdigit (peek (advance l).rest))
      (finish-Outcome start l _ number refl
        (Moves-trans (advance-Moves l some_left) (while-Moves is_xdigit (advance l))))
      (fail-Outcome start l (advance l) invalid_hexadecimal (advance-Moves l some_left))

string-Outcome :
    (start l : Lexer) (r : Lexer × Bool)
    → Moves l r.0
    → Outcome start l (if r.1 then finish start string r.0 else fail r.0 unterminated_string)
string-Outcome start l (l', true) moved = finish-Outcome start l l' string refl moved
string-Outcome start l (l', false) moved = fail-Outcome start l l' unterminated_string moved

lex_string-Outcome : (start l : Lexer) → Outcome start l (lex_string start l)
unfolding lex_string
lex_string-Outcome start l =
    let (text, r, closed, ends) = string_loop-Read l.rest l refl in
    string-Outcome start l (string_loop l.rest l) (text, r)

abbrev is_x : ℕ → Bool
is_x c = c == b'x' || c == b'X'

and-right : (a b : Bool) → (a && b) ≡ true → b ≡ true
and-right true b e = e
and-right false b e = cc

choose_when :
    (start l : Lexer) (r r' : Lexer × Token) (b : Bool)
    → (b ≡ true → Outcome start l r)
    → Outcome start l r'
    → Outcome start l (if b then r else r')
choose_when start l r r' true o o' = o refl
choose_when start l r r' false o o' = o'

lex_number-Outcome : (start l : Lexer) → Outcome start l (lex_number start l)
unfolding lex_number
lex_number-Outcome start l =
    choose_when start l _ _ _
      (λ h. lex_hexadecimal-Outcome start l (peek_some l.rest is_x refl (and-right _ _ h)))
      (finish-Outcome start l _ number refl (lex_decimal-Moves l))

scan_punctuation-Outcome : (c : ℕ) (start l : Lexer) → Outcome start l (scan_punctuation c start l)
unfolding scan_punctuation
scan_punctuation-Outcome c start l = single_then (c == b'(') _ lparen refl (
    single_then (c == b')') _ rparen refl (
      single_then (c == b'{') _ lbrace refl (
        single_then (c == b'}') _ rbrace refl (
          single_then (c == b'[') _ lbracket refl (
            single_then (c == b']') _ rbracket refl (
              single_then (c == b';') _ semicolon refl (
                single_then (c == b',') _ comma refl (
                  single_then (c == b'.') _ dot refl (
                    single_then (c == b'-') _ minus refl (
                      single_then (c == b'+') _ plus refl (
                        single_then (c == b'/') _ slash refl (
                          single_then (c == b'*') _ star refl (
                            double_then (c == b'!') b'=' _ bang_equal bang refl refl (
                              double_then (c == b'=') b'=' _ equal_equal equal refl refl (
                                double_then (c == b'<') b'=' _ less_equal less refl refl (
                                  double_then (c == b'>') b'=' _ greater_equal greater refl refl (
                                    double_then (c == b':') b':' _ colon_colon error refl refl (
                                      choose start l _ _ (c == b'"') (lex_string-Outcome start l) (
                                        fail-Outcome start l l unexpected_character
                                          (Moves-refl l))))))))))))))))))))
  where
    single_then :
        (b : Bool) (r : Lexer × Token) (type : TokenType)
        → is_eof type ≡ false
        → Outcome start l r
        → Outcome start l (if b then finish start type l else r)
    single_then b r type no_eof o =
        choose start l _ r b (finish-Outcome start l l type no_eof (Moves-refl l)) o

    double_then :
        (b : Bool) (expected : ℕ) (r : Lexer × Token) (both single : TokenType)
        → is_eof both ≡ false
        → is_eof single ≡ false
        → Outcome start l r
        → Outcome start l (if b then one_or_two start l expected both single else r)
    double_then b expected r both single no_eof no_eof' o =
        choose start l _ r b (one_or_two-Outcome start l expected both single no_eof no_eof') o

pub scan_from-Outcome : (c : ℕ) (start l : Lexer) → Outcome start l (scan_from c start l)
unfolding scan_from
scan_from-Outcome c start l =
    choose start l _ _ _ (lex_identifier-Outcome start l)
      (choose start l _ _ _ (lex_number-Outcome start l) (scan_punctuation-Outcome c start l))
