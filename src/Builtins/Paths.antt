-- ===== src/Builtins/Paths.antt =====
-- The builtins on paths in src/fex_builtins.c, for paths without NUL bytes.
use fex.Common.{
  ℕ, ◌-◌, Bool, false, ◌||◌, ◌&&◌, not, List, [], ◌∷◌, ◌++◌, map, Bytes, codes, if◌then◌else◌, ltb,
  ◌==◌, length, take, drop,
}
use fex.Builtins.{byte, back_while, forth_while}

abbrev pub is_path_separator_char : ℕ → Bool
is_path_separator_char c = c == b'/' || c == b'\\'

-- The bytes from `start` to `end`.
abbrev pub slice : (start end : ℕ) → Bytes → Bytes
slice start end path = take (end - start) (drop start path)

-- A part without the separators at its end, nor those at its start if text is there already.
unfoldable pub join_piece : (buf part : Bytes) → Bytes
join_piece buf part =
    let start = if length buf == 0 then 0 else forth_while is_path_separator_char 0 part in
    let end = back_while is_path_separator_char start (length part) part in slice start end part

abbrev pub to_slash : ℕ → ℕ
to_slash c = if is_path_separator_char c then b'/' else c

-- The loop of pathjoin over the parts.
unfoldable pub join_loop : (buf : Bytes) → (need_sep : Bool) → (parts : List Bytes) → Bytes
join_loop buf need_sep [] = buf
join_loop buf need_sep (part ∷ parts) =
    let piece = join_piece buf part in
    let wants_sep =
      need_sep
      && ltb 0 (length piece)
      && ltb 0 (length buf)
      && not (byte buf (length buf - 1) == b'/') in
    let joined = (if wants_sep then buf ++ codes "/" else buf) ++ map to_slash piece in
    join_loop joined (ltb 0 (length joined)) parts

unfoldable pub builtin_path_join : (parts : List Bytes) → Bytes
builtin_path_join parts =
    let buf = join_loop [] false parts in if length buf == 0 then codes "." else buf

-- The path without the separators at its end, of which a first byte is kept.
abbrev pub path_end : Bytes → ℕ
path_end path = back_while is_path_separator_char 1 (length path) path

-- Where the last name of the path begins.
abbrev pub name_start : Bytes → ℕ
name_start path = back_while (λ c. not (is_path_separator_char c)) 0 (path_end path) path

unfoldable pub builtin_dirname : Bytes → Bytes
builtin_dirname path =
    let i = name_start path in
    if i == 0
    then codes "."
    else (let before = back_while is_path_separator_char 0 (i - 1) path in
        if before == 0 then codes "/" else take before path)

unfoldable pub builtin_basename : Bytes → Bytes
builtin_basename path = slice (name_start path) (path_end path) path
