-- ===== src/Errors/Examples.antt =====
-- The bounded writer and the escapes at concrete texts.
use fex.Common.{◌+◌, ◌<◌, ◌≡◌, refl, [], ◌++◌, Bytes, codes, length, arith}
use fex.Errors.{
  EscapedWriter, copy_string, escaped_byte, hex_escape, hexdigits, append_string_for_error,
}
use fex.Errors.Writer.{Holds, string_text, string_byte, append_string_for_error-Holds}
use fex.Errors.Escapes.{unescape, plain, append_string_for_error-unescape}

bell : escaped_byte 7 ≡ codes "\\x07"
unfolding escaped_byte hex_escape hexdigits
bell = refl

copied : copy_string 4 (codes "abcdef") ≡ codes "abc"
unfolding copy_string
copied = refl

abbrev tight : EscapedWriter
tight = record { dst = codes "at "; cap = 8 }

append_string_for_error-Holds_example :
    Holds
      (append_string_for_error tight (codes "a\nb"))
      (((codes "at " ++ codes "\"") ++ string_text (codes "a\nb")) ++ codes "\"")
append_string_for_error-Holds_example =
    append_string_for_error-Holds tight (codes "at ") (codes "a\nb")
      record { front = refl; some_room = omega arith }

room : length (string_text (codes "a\nb")) + 2 < 64
unfolding string_text string_byte escaped_byte
room = omega arith

append_string_for_error-unescape_example :
    (text : Bytes) × ((append_string_for_error (record { dst = []; cap = 64 }) (codes "a\nb")).dst
      ≡ (codes "\"" ++ text) ++ codes "\"")
    × (unescape plain text ≡ codes "a\nb")
append_string_for_error-unescape_example =
    append_string_for_error-unescape 64 (codes "a\nb")
      (omega arith, (omega arith, (omega arith, tt))) room
