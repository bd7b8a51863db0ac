-- ===== src/Errors/Writer.antt =====
-- The bounded writer against the whole text.
use fex.Common.{
  ℕ, zero, suc, ◌+◌, ◌-◌, ◌<◌, ◌≤◌, ◌≡◌, refl, sym, ◌∙◌, ap, inl, inr, Bool, true, false, ◌||◌, [],
  ◌∷◌, ◌++◌, append_assoc, append-nil, Bytes, codes, if◌then◌else◌, ltb, leb, ◌==◌, length,
  length-append, take, arith, Bool-cases,
}
use mathlib.Core.Path.{subst}
use fex.Errors.{
  EscapedWriter, escaped_writer_append, escaped_byte, escaped_writer_put_byte, put_string_byte,
  put_string_bytes, append_string_for_error,
}

-- The text before truncation.
unfoldable pub string_byte : ℕ → Bytes
string_byte c =
    if c == b'\\' then codes "\\\\" else if c == b'"' then codes "\\\"" else escaped_byte c

unfoldable pub string_text : Bytes → Bytes
string_text [] = []
string_text (c ∷ s) = string_byte c ++ string_text s

-- The writer holds the front of the text, as much as the buffer takes before the NUL.
pub record Holds (writer : EscapedWriter) (text : Bytes) : Type 0 where
  pub front : writer.dst ≡ take (writer.cap - 1) text
  pub some_room : 0 < writer.cap

take-append_short :
    (n : ℕ) (xs ys : Bytes) → length xs ≤ n → take n (xs ++ ys) ≡ xs ++ take (n - length xs) ys
take-append_short n [] ys le = ap (λ m. take m ys) (minus_zero n)
  where
    minus_zero : (n : ℕ) → n ≡ n - 0
    minus_zero n = omega arith
take-append_short zero (x ∷ xs) ys le = absurd (omega (arith, le))
take-append_short (suc n) (x ∷ xs) ys le =
    ap (λ l. x ∷ l) (take-append_short n xs ys (omega (arith, le)))
    ∙ ap (λ m. x ∷ (xs ++ take m ys)) (shift n (length xs))
  where
    shift : (a b : ℕ) → a - b ≡ suc a - suc b
    shift a b = omega arith

take-append_long : (n : ℕ) (xs ys : Bytes) → n ≤ length xs → take n (xs ++ ys) ≡ take n xs
take-append_long zero xs ys le = refl
take-append_long (suc n) [] ys le = absurd (omega (arith, le))
take-append_long (suc n) (x ∷ xs) ys le =
    ap (λ l. x ∷ l) (take-append_long n xs ys (omega (arith, le)))

pub take-short : (n : ℕ) (xs : Bytes) → length xs ≤ n → take n xs ≡ xs
take-short zero [] le = refl
take-short zero (x ∷ xs) le = absurd (omega (arith, le))
take-short (suc n) [] le = refl
take-short (suc n) (x ∷ xs) le = ap (λ l. x ∷ l) (take-short n xs (omega (arith, le)))

length-take_le :
    (n : ℕ) (xs : Bytes) → length (take n xs) ≡ (if leb n (length xs) then n else length xs)
length-take_le zero xs = ground arith
length-take_le (suc n) [] = ground arith
length-take_le (suc n) (x ∷ xs) = ground (arith, length-take_le n xs)

take_min : (n : ℕ) (xs : Bytes) → take (if ltb n (length xs) then n else length xs) xs ≡ take n xs
take_min n xs = elim (Bool-cases (ltb n (length xs))) [
  | inl e ↦ rw e refl
  | inr e ↦
      rw e (take-short (length xs) xs (omega arith) ∙ sym (take-short n xs (ground (arith, e))))
]

append_full :
    (w : EscapedWriter) (text : Bytes) → w.cap - 1 ≤ length w.dst → escaped_writer_append w text ≡ w
unfolding escaped_writer_append
append_full w text le = elim (Bool-cases ((w.cap == 0) || leb (w.cap - 1) (length w.dst))) [
  | inl e ↦ rw e refl
  | inr e ↦ absurd (bad e)
]
  where
    bad : ((w.cap == 0) || leb (w.cap - 1) (length w.dst)) ≡ false → ⊥
    bad e = ground (arith, e, le)

append_room :
    (w : EscapedWriter) (text : Bytes)
    → length w.dst < w.cap - 1
    → escaped_writer_append w text
      ≡ record w { dst = w.dst ++ take (w.cap - 1 - length w.dst) text }
unfolding escaped_writer_append
append_room w text lt = elim (Bool-cases ((w.cap == 0) || leb (w.cap - 1) (length w.dst))) [
  | inl e ↦ absurd (bad e)
  | inr e ↦ rw (e, take_min (w.cap - 1 - length w.dst) text) refl
]
  where
    bad : ((w.cap == 0) || leb (w.cap - 1) (length w.dst)) ≡ true → ⊥
    bad e = ground (arith, e, lt)

append-Holds :
    (w : EscapedWriter) (t s : Bytes) → Holds w t → Holds (escaped_writer_append w s) (t ++ s)
append-Holds w t s h = elim (Bool-cases (leb (w.cap - 1) (length w.dst))) [
  | inl e ↦
      subst (λ v. Holds v (t ++ s)) (sym (append_full w s (ground (arith, e))))
        record {
          front = h.front ∙ sym (take-append_long (w.cap - 1) t s (long e));
          some_room = h.some_room;
        }
  | inr e ↦
      subst (λ v. Holds v (t ++ s)) (sym (append_room w s (ground (arith, e))))
        record {
          front =
              ap (λ d. d ++ take (w.cap - 1 - length d) s) (whole e)
              ∙ sym (take-append_short (w.cap - 1) t s (short e));
          some_room = h.some_room;
        }
]
  where
    size : length w.dst ≡ (if leb (w.cap - 1) (length t) then w.cap - 1 else length t)
    size = ap length h.front ∙ length-take_le (w.cap - 1) t

    long : leb (w.cap - 1) (length w.dst) ≡ true → w.cap - 1 ≤ length t
    long e = ground (arith, size, e)

    short : leb (w.cap - 1) (length w.dst) ≡ false → length t ≤ w.cap - 1
    short e = ground (arith, size, e)

    whole : leb (w.cap - 1) (length w.dst) ≡ false → w.dst ≡ t
    whole e = h.front ∙ take-short (w.cap - 1) t (short e)

pick :
    (w : EscapedWriter) (a b : Bool) (x y z : Bytes)
    → (if a
        then escaped_writer_append w x
        else if b
        then escaped_writer_append w y
        else escaped_writer_append w z)
      ≡ escaped_writer_append w (if a then x else if b then y else z)
pick w true b x y z = refl
pick w false true x y z = refl
pick w false false x y z = refl

put_append :
    (w : EscapedWriter) (c : ℕ) → put_string_byte w c ≡ escaped_writer_append w (string_byte c)
unfolding put_string_byte escaped_writer_put_byte string_byte
put_append w c = pick w (c == b'\\') (c == b'"') (codes "\\\\") (codes "\\\"") (escaped_byte c)

put-Holds :
    (w : EscapedWriter) (t : Bytes) (c : ℕ)
    → Holds w t
    → Holds (put_string_byte w c) (t ++ string_byte c)
put-Holds w t c h =
    subst (λ v. Holds v (t ++ string_byte c)) (sym (put_append w c))
      (append-Holds w t (string_byte c) h)

bytes-Holds :
    (w : EscapedWriter) (t s : Bytes)
    → Holds w t
    → Holds (put_string_bytes w s) (t ++ string_text s)
unfolding put_string_bytes string_text
bytes-Holds w t [] h = subst (Holds w) (sym (append-nil t)) h
bytes-Holds w t (c ∷ s) h =
    subst (Holds (put_string_bytes (put_string_byte w c) s))
      (append_assoc t (string_byte c) (string_text s))
      (bytes-Holds (put_string_byte w c) (t ++ string_byte c) s (put-Holds w t c h))

-- append_string_for_error stays within the buffer: if the buffer is not empty and holds the front
-- of a text, as much as fits before the NUL, then it holds the front of that text with the quoted
-- string behind it.
pub append_string_for_error-Holds :
    (w : EscapedWriter) (t buffer : Bytes)
    → Holds w t
    → Holds
        (append_string_for_error w buffer)
        (((t ++ codes "\"") ++ string_text buffer) ++ codes "\"")
unfolding append_string_for_error
append_string_for_error-Holds w t buffer h =
    append-Holds _ ((t ++ codes "\"") ++ string_text buffer) (codes "\"")
      (bytes-Holds _ (t ++ codes "\"") buffer (append-Holds w t (codes "\"") h))

append-cap : (w : EscapedWriter) (s : Bytes) → (escaped_writer_append w s).cap ≡ w.cap
unfolding escaped_writer_append
append-cap w s = elim (Bool-cases ((w.cap == 0) || leb (w.cap - 1) (length w.dst))) [
  | inl e ↦ rw e refl
  | inr e ↦ rw e refl
]

bytes-cap : (w : EscapedWriter) (s : Bytes) → (put_string_bytes w s).cap ≡ w.cap
unfolding put_string_bytes
bytes-cap w [] = refl
bytes-cap w (c ∷ s) =
    bytes-cap (put_string_byte w c) s
    ∙ ap (λ v. v.cap) (put_append w c)
    ∙ append-cap w (string_byte c)

append_string_for_error-cap :
    (w : EscapedWriter) (s : Bytes) → (append_string_for_error w s).cap ≡ w.cap
unfolding append_string_for_error
append_string_for_error-cap w s =
    append-cap _ (codes "\"") ∙ bytes-cap _ s ∙ append-cap w (codes "\"")

take-nil : (n : ℕ) → [] ≡ take {A = ℕ} n []
take-nil zero = refl
take-nil (suc n) = refl

-- A buffer that is large enough holds the whole quoted string.
pub append_string_whole :
    (size : ℕ) (s : Bytes)
    → length (string_text s) + 2 < size
    → (append_string_for_error (record { dst = []; cap = size }) s).dst
      ≡ (codes "\"" ++ string_text s) ++ codes "\""
append_string_whole size s room =
    h.front
    ∙ ap (λ n. take (n - 1) ((codes "\"" ++ string_text s) ++ codes "\""))
        (append_string_for_error-cap w s)
    ∙ take-short (size - 1) _
        (omega (arith, room, length-append (codes "\"" ++ string_text s) (codes "\"")))
  where
    w : EscapedWriter
    w = record { dst = []; cap = size }

    h : Holds (append_string_for_error w s) (([] ++ codes "\"" ++ string_text s) ++ codes "\"")
    h =
        append_string_for_error-Holds w [] s
          record { front = take-nil (size - 1); some_room = omega (arith, room) }
