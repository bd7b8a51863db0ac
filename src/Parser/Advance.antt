-- ===== src/Parser/Advance.antt =====
-- The loop of parser_advance.
use fex.Common.{
  ℕ, zero, suc, ◌<◌, ◌≡◌, refl, sym, ◌∙◌, ap, ◌⊎◌, inl, inr, true, false, [], ◌++◌, Bytes, length,
  length-append, append_assoc, arith, Bool-cases, some,
}
use fex.Lexer.{Lexer, Token, token, error_token, scan_token}
use fex.Lexer.Keywords.{TokenType}
use fex.Lexer.Parts.{IsEof, is_eof}
use fex.Lexer.Scan.{Scanned, scan_token-Scanned}
use fex.Parser.{
  Parser, Step, advanced, raised, is_error, is_error_type, token_line, error_at, scan_current,
  advance_loop, parser_advance,
}

-- The parser went on to a token of the source, and errors are not forgotten on the way.
pub record Advanced (p p' : Parser) : Type 0 where
  pub previous : p'.previous ≡ p.previous
  pub proper : is_error p'.current ≡ false
  pub passed : Bytes
  pub splits : p.lexer.rest ≡ passed ++ p'.lexer.rest
  pub ended : (IsEof p'.current × (p'.lexer.rest ≡ [])) ⊎ (¬ IsEof p'.current × (0 < length passed))
  pub had_error : p.had_error ≡ true → p'.had_error ≡ true
  pub panic_mode : p.panic_mode ≡ true → p'.panic_mode ≡ true
  pub try_active : p'.try_active ≡ p.try_active

abbrev pub Fits : Parser → Step → Type 0
Fits p (advanced p') = Advanced p p'
Fits p (raised line) = p.try_active ≡ true

error_not-IsEof : (t : Token) → is_error t ≡ true → ¬ IsEof t
error_not-IsEof (token type first count line column) e = from type e
  where
    from : (type : TokenType) → is_error_type type ≡ true → is_eof type ≡ true → ⊥
    from type = ground arith
error_not-IsEof (error_token message line) e = λ end. end

Scanned-ended :
    (l l' : Lexer) (t : Token) (s : Scanned l l' t)
    → (IsEof t × (l'.rest ≡ [])) ⊎ (¬ IsEof t × (0 < length (s.blank ++ s.text)))
Scanned-ended l l' t s = elim s.proper [
  | inl (end, empty, nothing) ↦ inl (end, nothing)
  | inr (more, long) ↦ inr (more, omega (arith, long, length-append s.blank s.text))
]

first_token : (p : Parser) → is_error (scan_current p).current ≡ false → Advanced p (scan_current p)
first_token p proper =
    let s = scan_token-Scanned p.lexer in
    record {
      previous = refl;
      proper = proper;
      passed = s.blank ++ s.text;
      splits = s.splits ∙ sym (append_assoc s.blank s.text (scan_token p.lexer).0.rest);
      ended = Scanned-ended p.lexer _ _ s;
      had_error = λ h. h;
      panic_mode = λ h. h;
      try_active = refl;
    }

-- error_at raises in a try, and else goes on with the same source.
pub record Reported (p p' : Parser) : Type 0 where
  pub lexer : p'.lexer ≡ p.lexer
  pub previous : p'.previous ≡ p.previous
  pub current : p'.current ≡ p.current
  pub had_error : p.had_error ≡ true → p'.had_error ≡ true
  pub panic_mode : p'.panic_mode ≡ true
  pub try_active : p.try_active ≡ p'.try_active

pub error_at-cases :
    (p : Parser) (t : Token)
    → ((p.try_active ≡ true) × (error_at p t ≡ raised (token_line t)))
      ⊎ ((p' : Parser) × (error_at p t ≡ advanced p') × Reported p p')
unfolding error_at
error_at-cases p t = elim (Bool-cases p.try_active) [
  | inl try ↦ inl (try, rw try refl)
  | inr no_try ↦ elim (Bool-cases p.panic_mode) [
    | inl panic ↦ inr (
      p,
      rw (no_try, panic) refl,
      record {
        lexer = refl;
        previous = refl;
        current = refl;
        had_error = λ h. h;
        panic_mode = panic;
        try_active = refl;
      },
    )
    | inr calm ↦ inr (
      record p { had_error = true; panic_mode = true },
      rw (no_try, calm) refl,
      record {
        lexer = refl;
        previous = refl;
        current = refl;
        had_error = λ h. refl;
        panic_mode = refl;
        try_active = refl;
      },
    )
  ]
]

loop_done :
    (fuel : ℕ) (p : Parser)
    → is_error (scan_current p).current ≡ false
    → advance_loop (suc fuel) p ≡ some (advanced (scan_current p))
unfolding advance_loop
loop_done fuel p e = rw (e, advance_loop) refl

loop_raised :
    (fuel : ℕ) (p : Parser) (line : ℕ)
    → is_error (scan_current p).current ≡ true
    → error_at (scan_current p) (scan_current p).current ≡ raised line
    → advance_loop (suc fuel) p ≡ some (raised line)
unfolding advance_loop
loop_raised fuel p line e e' = rw (e, advance_loop) (rw e' refl)

loop_again :
    (fuel : ℕ) (p p' : Parser)
    → is_error (scan_current p).current ≡ true
    → error_at (scan_current p) (scan_current p).current ≡ advanced p'
    → advance_loop (suc fuel) p ≡ advance_loop fuel p'
unfolding advance_loop
loop_again fuel p p' e e' = rw (e, advance_loop) (rw e' refl)

-- The text of an error token is passed, and the rest is as before.
later :
    (p p' : Parser) (passed : Bytes)
    → p.lexer.rest ≡ passed ++ (scan_current p).lexer.rest
    → 0 < length passed
    → Reported (scan_current p) p'
    → (r : Step) → Fits p' r
    → Fits p r
later p p' passed splits long reported (raised line) fits = reported.try_active ∙ fits
later p p' passed splits long reported (advanced q) fits = record {
  previous = fits.previous ∙ reported.previous;
  proper = fits.proper;
  passed = passed ++ fits.passed;
  splits =
      splits
      ∙ ap (λ l. passed ++ l.rest) (sym reported.lexer)
      ∙ ap (λ s. passed ++ s) fits.splits
      ∙ sym (append_assoc passed fits.passed q.lexer.rest);
  ended = still fits.ended;
  had_error = λ h. fits.had_error (reported.had_error h);
  panic_mode = λ h. fits.panic_mode reported.panic_mode;
  try_active = fits.try_active ∙ sym reported.try_active;
}
  where
    still :
        (IsEof q.current × (q.lexer.rest ≡ [])) ⊎ (¬ IsEof q.current × (0 < length fits.passed))
        → (IsEof q.current × (q.lexer.rest ≡ []))
          ⊎ (¬ IsEof q.current × (0 < length (passed ++ fits.passed)))
    still (inl end) = inl end
    still (inr (more, l)) = inr (more, omega (arith, l, length-append passed fits.passed))

-- The text that scan_token passes for an error token is not empty.
error_text :
    (p : Parser)
    → is_error (scan_current p).current ≡ true
    → (passed : Bytes) × (p.lexer.rest ≡ passed ++ (scan_current p).lexer.rest)
      × (0 < length passed)
error_text p e = elim s.proper [
  | inl (end, empty, nothing) ↦ absurd (error_not-IsEof (scan_current p).current e end)
  | inr (more, long) ↦ (
    s.blank ++ s.text,
    s.splits ∙ sym (append_assoc s.blank s.text (scan_current p).lexer.rest),
    omega (arith, long, length-append s.blank s.text),
  )
]
  where
    s : Scanned p.lexer (scan_current p).lexer (scan_current p).current
    s = scan_token-Scanned p.lexer

advance_loop-Fits :
    (fuel : ℕ) (p : Parser)
    → length p.lexer.rest < fuel
    → (r : Step) × (advance_loop fuel p ≡ some r) × Fits p r
advance_loop-Fits zero p enough = absurd (omega (arith, enough))
advance_loop-Fits (suc fuel) p enough = elim (Bool-cases (is_error (scan_current p).current)) [
  | inr proper ↦ (advanced (scan_current p), loop_done fuel p proper, first_token p proper)
  | inl e ↦
      let (passed, splits, long) = error_text p e in
      elim (error_at-cases (scan_current p) (scan_current p).current) [
        | inl (try, eq) ↦ (raised _, loop_raised fuel p _ e eq, try)
        | inr (p', eq, reported) ↦
            let (r, found, fits) =
              advance_loop-Fits fuel p' (less p' passed splits long reported) in
            (r, loop_again fuel p p' e eq ∙ found, later p p' passed splits long reported r fits)
      ]
]
  where
    less :
        (p' : Parser) (passed : Bytes)
        → p.lexer.rest ≡ passed ++ (scan_current p).lexer.rest
        → 0 < length passed
        → Reported (scan_current p) p'
        → length p'.lexer.rest < fuel
    less p' passed splits long reported = omega (
      arith,
      enough,
      long,
      ap length splits,
      length-append passed (scan_current p).lexer.rest,
      ap (λ l. length l.rest) reported.lexer,
    )

-- With more fuel than bytes left parser_advance gives a result. It goes on to a token that is no
-- error, with the last token as `previous` and with earlier errors and the panic mode kept: the
-- token is the end of file with no text left, or another token behind which less text is left. Or
-- it raises, inside a try only.
pub parser_advance-Fits :
    (fuel : ℕ) (p : Parser)
    → length p.lexer.rest < fuel
    → (r : Step) × (parser_advance fuel p ≡ some r) × Fits (record p { previous = p.current }) r
unfolding parser_advance
parser_advance-Fits fuel p enough =
    advance_loop-Fits fuel (record p { previous = p.current }) enough
