-- ===== src/Lexer/Scan.antt =====
-- scan_token on every branch.
use fex.Common.{
  ℕ, ◌+◌, ◌<◌, ◌≡◌, refl, ◌∙◌, ap, ◌⊎◌, inl, inr, true, [], ◌∷◌, ◌++◌, Bytes, length, arith,
}
use fex.Lexer.{
  make_token, Lexer, Token, token, error_token, advance, skip_whitespace, scan_from, scan_token,
  is_at_end, finish,
}
use fex.Lexer.Keywords.{peek, eof}
use mathlib.Core.Path.{subst}
use fex.Lexer.Reading.{Read, Read-trans, advance-Read, skip_whitespace-Read}
use fex.Lexer.Blanks.{Blank, AtToken}
use fex.Lexer.Parts.{Located, IsEof, scan_from-Outcome}

scan_token_nil :
    (l : Lexer)
    → (skip_whitespace l).rest ≡ []
    → scan_token l ≡ finish (skip_whitespace l) eof (skip_whitespace l)
unfolding scan_token
scan_token_nil l e = rw (ap is_at_end e) refl

scan_token_cons :
    (l : Lexer) (x : ℕ) (xs : Bytes)
    → (skip_whitespace l).rest ≡ x ∷ xs
    → scan_token l ≡ scan_from x (skip_whitespace l) (advance (skip_whitespace l))
unfolding scan_token
scan_token_cons l x xs e = rw (ap is_at_end e, ap peek e) refl

abbrev pub Placed : Lexer → Bytes → Bytes → Lexer → Token → Type 0
Placed l blank text l' (token type first count line column) =
    (first ≡ l.position + length blank) × (count ≡ length text)
Placed l blank text l' (error_token message line) = l'.had_error ≡ true

-- What scan_token did from `l`: it passed blank text and the text of one token. At the end of the
-- source the token is the end, and nothing else is.
pub record Scanned (l l' : Lexer) (t : Token) : Type 0 where
  pub blank : Bytes
  pub text : Bytes
  pub splits : l.rest ≡ blank ++ (text ++ l'.rest)
  pub position : l'.position ≡ l.position + length blank + length text
  pub is_blank : Blank blank (text ++ l'.rest)
  pub at_token : AtToken (text ++ l'.rest)
  pub placed : Placed l blank text l' t
  pub proper : (IsEof t × (text ≡ []) × (l'.rest ≡ [])) ⊎ (¬ IsEof t × (0 < length text))

scan_end :
    (l start : Lexer) (blank : Bytes)
    → Read l blank start
    → Blank blank start.rest
    → start.rest ≡ []
    → Scanned l (finish start eof start).0 (finish start eof start).1
unfolding finish make_token
scan_end l start blank r is_blank e = record {
  blank = blank;
  text = [];
  splits = r.rest;
  position = ground (arith, r.position);
  is_blank = is_blank;
  at_token = rw e tt;
  placed = (r.position, ground arith);
  proper = inl (refl, refl, e);
}

scan_more :
    (l start l' : Lexer) (t : Token) (blank more : Bytes) (x : ℕ) (xs : Bytes)
    → Read l blank start
    → Blank blank start.rest
    → AtToken start.rest
    → start.rest ≡ x ∷ xs
    → Read (advance start) more l'
    → Located start l' t
    → ¬ IsEof t
    → Scanned l l' t
scan_more l start l' t blank more x xs read is_blank at e went located no_eof = record {
  blank = blank;
  text = x ∷ more;
  splits = read.rest ∙ ap (λ s. blank ++ s) whole.rest;
  position = ground (arith, read.position, whole.position);
  is_blank = subst (Blank blank) whole.rest is_blank;
  at_token = subst AtToken whole.rest at;
  placed = place t located;
  proper = inr (no_eof, ground arith);
}
  where
    whole : Read start (x ∷ more) l'
    whole = Read-trans (advance-Read start x xs e) went

    place : (t : Token) → Located start l' t → Placed l blank (x ∷ more) l' t
    place (token type first count line column) (f, c) =
        (f ∙ read.position, ground (arith, whole.position))
    place (error_token message line) marked = marked

-- scan_token splits the text that is left into white space and comments, the text of one token and
-- the rest, and the token begins where no white space and no comment stands. Offset and length of a
-- token without a message are those of its text, and an error with a message sets had_error. The
-- token is the end of file exactly if its text is empty, and then no text is left.
pub scan_token-Scanned : (l : Lexer) → Scanned l (scan_token l).0 (scan_token l).1
scan_token-Scanned l =
    let (blank, r, lines, is_blank, at) = skip_whitespace-Read l in
    from (skip_whitespace l).rest refl blank r is_blank at
  where
    from :
        (xs : Bytes)
        → (skip_whitespace l).rest ≡ xs
        → (blank : Bytes) → Read l blank (skip_whitespace l)
        → Blank blank (skip_whitespace l).rest
        → AtToken (skip_whitespace l).rest
        → Scanned l (scan_token l).0 (scan_token l).1
    from [] e blank r is_blank at =
        rw (scan_token_nil l e) (scan_end l (skip_whitespace l) blank r is_blank e)
    from (x ∷ xs) e blank r is_blank at = rw (scan_token_cons l x xs e) (
        let outcome = scan_from-Outcome x (skip_whitespace l) (advance (skip_whitespace l)) in
        scan_more l (skip_whitespace l) _ _ blank outcome.moved.0 x xs r is_blank at e
          outcome.moved.1 outcome.located outcome.no_eof)
