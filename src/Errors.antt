-- ===== src/Errors.antt =====
-- The texts of error messages in src/fex.c: copy_string, and the FexEscapedWriter with its escapes.
--
-- The writer holds the bytes that are written, without the NUL behind them; its `len` is their
-- number. A NULL writer or buffer is left out. append_string_for_error is modelled for a string
-- without a span, and for a heap buffer that malloc gives.
pub mod Writer
pub mod Escapes
mod Examples
use fex.Common.{
  ℕ, zero, suc, ◌+◌, ◌-◌, ◌*◌, ◌/◌, ◌%◌, Bool, true, false, not, ◌&&◌, ◌||◌, List, [], ◌∷◌, ◌++◌,
  Bytes, codes, if◌then◌else◌, ltb, leb, ◌==◌, length, take,
}

pub record EscapedWriter : Type 0 where
  pub dst : Bytes
  pub cap : ℕ

-- The bytes before the NUL in the buffer of `dst_size` bytes.
pub copy_string : (dst_size : ℕ) → Bytes → Bytes
copy_string dst_size src =
    if dst_size == 0
    then []
    else take (if leb dst_size (length src) then dst_size - 1 else length src) src

unfoldable pub escaped_writer_append : EscapedWriter → Bytes → EscapedWriter
escaped_writer_append writer text =
    let room = writer.cap - 1 - length writer.dst in
    let copy_len = if ltb room (length text) then room else length text in
    if (writer.cap == 0) || leb (writer.cap - 1) (length writer.dst)
    then writer
    else record writer { dst = writer.dst ++ take copy_len text }

pub hexdigits : ℕ → ℕ
hexdigits n = if ltb n 10 then b'0' + n else b'A' + (n - 10)

pub hex_escape : ℕ → Bytes
unfolding hexdigits
hex_escape uchr = b'\\' ∷ b'x' ∷ hexdigits (uchr / 16 % 16) ∷ hexdigits (uchr % 16) ∷ []

-- What escaped_writer_put_byte appends for a byte.
unfoldable pub escaped_byte : ℕ → Bytes
unfolding hex_escape
escaped_byte uchr =
    if uchr == 0
    then codes "\\0"
    else if uchr == b'\n'
    then codes "\\n"
    else if uchr == b'\r'
    then codes "\\r"
    else if uchr == b'\t'
    then codes "\\t"
    else if uchr == b'\\'
    then codes "\\\\"
    else if ltb uchr 32 || (uchr == 127)
    then hex_escape uchr
    else uchr ∷ []

-- What source_excerpt_put_byte appends: it leaves the backslash alone.
pub excerpt_byte : ℕ → Bytes
unfolding hex_escape
excerpt_byte uchr =
    if uchr == 0
    then codes "\\0"
    else if uchr == b'\n'
    then codes "\\n"
    else if uchr == b'\r'
    then codes "\\r"
    else if uchr == b'\t'
    then codes "\\t"
    else if ltb uchr 32 || (uchr == 127)
    then hex_escape uchr
    else uchr ∷ []

unfoldable pub escaped_writer_put_byte : EscapedWriter → ℕ → EscapedWriter
unfolding escaped_writer_append escaped_byte
escaped_writer_put_byte writer uchr = escaped_writer_append writer (escaped_byte uchr)

pub source_excerpt_put_byte : EscapedWriter → ℕ → EscapedWriter
unfolding escaped_writer_append excerpt_byte
source_excerpt_put_byte writer uchr = escaped_writer_append writer (excerpt_byte uchr)

-- The switch of append_string_for_error.
unfoldable pub put_string_byte : EscapedWriter → ℕ → EscapedWriter
unfolding escaped_writer_append escaped_writer_put_byte
put_string_byte writer uchr =
    if uchr == b'\\'
    then escaped_writer_append writer (codes "\\\\")
    else if uchr == b'"'
    then escaped_writer_append writer (codes "\\\"")
    else escaped_writer_put_byte writer uchr

unfoldable pub put_string_bytes : EscapedWriter → Bytes → EscapedWriter
unfolding put_string_byte
put_string_bytes writer [] = writer
put_string_bytes writer (c ∷ buffer) = put_string_bytes (put_string_byte writer c) buffer

unfoldable pub append_string_for_error : EscapedWriter → Bytes → EscapedWriter
unfolding escaped_writer_append put_string_bytes
append_string_for_error writer buffer =
    escaped_writer_append (put_string_bytes (escaped_writer_append writer (codes "\"")) buffer)
      (codes "\"")
