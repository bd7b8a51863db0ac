-- ===== src/Builtins/Strings.antt =====
-- The builtins on strings and bytes in src/fex_builtins.c.
use fex.Common.{
  ℕ, ◌+◌, ◌-◌, Bool, true, false, ◌||◌, ◌&&◌, List, [], ◌∷◌, ◌++◌, map, Bytes, Option, none, some,
  if◌then◌else◌, leb, ltb, ◌==◌, length, take, drop, get_elem?, ℤ, pos, negsuc,
}
use fex.Builtins.{
  string_too_long, index_out_of_range, Answer, value, failed, back_while, forth_while,
}

unfoldable pub copy_string_to_fixed_buffer : (capacity : ℕ) → Bytes → Answer Bytes
copy_string_to_fixed_buffer capacity str =
    if ltb capacity (length str + 1) then failed string_too_long else value str

-- What follows the copy of a string.
abbrev pub and_then : Answer Bytes → (Bytes → Answer Bytes) → Answer Bytes
and_then (failed f) next = failed f
and_then (value s) next = next s

unfoldable pub bytes_contains_byte : Bytes → ℕ → Bool
bytes_contains_byte [] c = false
bytes_contains_byte (x ∷ set) c = (x == c) || bytes_contains_byte set c

-- `memcmp` of the needle with the front of the text.
unfoldable pub starts_with : (needle haystack : Bytes) → Bool
starts_with [] haystack = true
starts_with (x ∷ needle) [] = false
starts_with (x ∷ needle) (y ∷ haystack) = (x == y) && starts_with needle haystack

-- The loop over the positions, from the text that is left.
unfoldable pub sequence_loop : (needle haystack : Bytes) → Bool
sequence_loop needle [] = starts_with needle []
sequence_loop needle (y ∷ haystack) =
    starts_with needle (y ∷ haystack) || sequence_loop needle haystack

unfoldable pub bytes_contains_sequence : (haystack needle : Bytes) → Bool
bytes_contains_sequence haystack needle =
    if length needle == 0
    then true
    else if ltb (length haystack) (length needle)
    then false
    else sequence_loop needle haystack

abbrev pub upper_byte : ℕ → ℕ
upper_byte c = if leb b'a' c && leb c b'z' then c - 32 else c

abbrev pub lower_byte : ℕ → ℕ
lower_byte c = if leb b'A' c && leb c b'Z' then c + 32 else c

abbrev pub convert : (ℕ → ℕ) → Bytes → Answer Bytes
convert f str =
    if length str == 0
    then value []
    else and_then (copy_string_to_fixed_buffer 1024 str) (λ buffer. value (map f buffer))

pub builtin_string_upper : Bytes → Answer Bytes
builtin_string_upper str = convert upper_byte str

pub builtin_string_lower : Bytes → Answer Bytes
builtin_string_lower str = convert lower_byte str

-- A negative start is 0.
abbrev pub clamp_start : ℤ → ℕ
clamp_start (pos n) = n
clamp_start (negsuc n) = 0

-- An end that is not given is the length, as is one behind it. A negative end is not behind any
-- start, which 0 is not either.
abbrev pub clamp_end : (len : ℕ) → Option ℤ → ℕ
clamp_end len none = len
clamp_end len (some (pos n)) = if ltb len n then len else n
clamp_end len (some (negsuc n)) = 0

unfoldable pub builtin_string_substring : Bytes → (start : ℤ) → (end : Option ℤ) → Answer Bytes
builtin_string_substring str start end =
    let from = clamp_start start in
    let to = clamp_end (length str) end in
    if leb to from
    then value []
    else and_then (copy_string_to_fixed_buffer 1024 str)
        (λ buffer. value (take (to - from) (drop from buffer)))

unfoldable pub builtin_bytes_slice : Bytes → (start : ℤ) → (end : Option ℤ) → Answer Bytes
builtin_bytes_slice bytes start end =
    let from = clamp_start start in
    let to = clamp_end (length bytes) end in
    if leb to from then value [] else value (take (to - from) (drop from bytes))

abbrev pub byte_or_error : Option ℕ → Answer ℕ
byte_or_error none = failed index_out_of_range
byte_or_error (some b) = value b

pub builtin_byte_at : Bytes → (index : ℤ) → Answer ℕ
builtin_byte_at bytes (pos index) = byte_or_error (get_elem? bytes index)
builtin_byte_at bytes (negsuc index) = failed index_out_of_range

-- `isspace` in the C locale.
unfoldable pub is_space : ℕ → Bool
is_space c = (leb 9 c && leb c 13) || c == 32

-- Between the white space at the two ends.
abbrev pub trimmed : Bytes → Bytes
trimmed buffer =
    let start = forth_while is_space 0 buffer in
    let end = back_while is_space start (length buffer) buffer in
    if start == length buffer then [] else take (end - start) (drop start buffer)

unfoldable pub builtin_string_trim : Bytes → Answer Bytes
builtin_string_trim str =
    and_then (copy_string_to_fixed_buffer 1024 str)
      (λ buffer. if length buffer == 0 then value [] else value (trimmed buffer))

-- The piece up to a delimiter, if it is not empty, in front of the later ones.
abbrev pub emit : (piece : Bytes) → List Bytes → List Bytes
emit [] rest = rest
emit (c ∷ piece) rest = (c ∷ piece) ∷ rest

-- The loop of split: `piece` is the text from `start` on. A run of delimiters ends one piece.
unfoldable pub split_loop : (delimiter piece : Bytes) → Bytes → List Bytes
split_loop delimiter piece [] = emit piece []
split_loop delimiter piece (c ∷ buffer) = elim (bytes_contains_byte delimiter c) [
  | true ↦ emit piece (split_loop delimiter [] buffer)
  | false ↦ split_loop delimiter (piece ++ (c ∷ [])) buffer
]

unfoldable pub builtin_string_split : (str delim : Bytes) → Answer (List Bytes)
builtin_string_split str delim =
    if ltb 1024 (length str + 1)
    then failed string_too_long
    else if ltb 64 (length delim + 1)
    then failed string_too_long
    else if length delim == 0
    then value (str ∷ [])
    else value (split_loop delim [] str)

unfoldable pub builtin_string_contains : (str substr : Bytes) → Answer Bool
builtin_string_contains str substr =
    if ltb 1024 (length str + 1)
    then failed string_too_long
    else if ltb 256 (length substr + 1)
    then failed string_too_long
    else value (bytes_contains_sequence str substr)
