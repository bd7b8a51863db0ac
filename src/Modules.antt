-- ===== src/Modules.antt =====
-- The names and paths of modules in src/fe.c: normalize_path_chars, path_dirname_copy,
-- join_path_suffix, the module_spec functions, split_module_spec_segments, join_module_segments.
--
-- This is the code that is compiled without _WIN32. The functions copy their strings into blocks of
-- the tracked allocator: a failure of it is left out, as are the polls inside the loops (Budget).
pub mod Paths
pub mod Segments
mod Examples
use fex.Common.{
  ℕ, zero, suc, ◌+◌, Bool, true, false, not, ◌&&◌, ◌||◌, List, [], ◌∷◌, ◌++◌, map, Option, none,
  some, Bytes, codes, bytes_eq, if◌then◌else◌, ◌==◌, length, take,
}

abbrev pub is_path_separator : ℕ → Bool
is_path_separator c = c == b'/' || c == b'\\'

pub normalize_path_chars : Bytes → Bytes
normalize_path_chars path = map (λ c. if is_path_separator c then b'/' else c) path

-- The loop of path_dirname_copy, which keeps the length of the text before the last separator:
-- `seen` bytes are passed.
pub last_separator : (seen : ℕ) → Option ℕ → Bytes → Option ℕ
last_separator seen last [] = last
last_separator seen last (c ∷ path) =
    last_separator (seen + 1) (if is_path_separator c then some seen else last) path

abbrev pub at_least_one : ℕ → ℕ
at_least_one zero = 1
at_least_one (suc n) = suc n

abbrev pub dirname_from : Bytes → Option ℕ → Bytes
dirname_from path none = codes "."
dirname_from path (some n) = take (at_least_one n) path

pub path_dirname_copy : Bytes → Bytes
unfolding last_separator
path_dirname_copy path = dirname_from path (last_separator 0 none path)

-- Whether the text is not empty and ends with no separator.
abbrev pub needs_separator : Bytes → Bool
needs_separator [] = false
needs_separator (c ∷ []) = not (is_path_separator c)
needs_separator (c ∷ d ∷ base) = needs_separator (d ∷ base)

pub join_path_suffix : Bytes → Bytes → Bytes → Bytes
join_path_suffix base name suffix =
    base ++ ((if needs_separator base then b'/' ∷ [] else []) ++ (name ++ suffix))

abbrev pub join_module_file_path : Bytes → Bytes → Bytes
unfolding join_path_suffix
join_module_file_path base module_name = join_path_suffix base module_name (codes ".fex")

abbrev pub join_module_index_path : Bytes → Bytes → Bytes
unfolding join_path_suffix
join_module_index_path base module_name = join_path_suffix base module_name (codes "/index.fex")

abbrev pub module_spec_uses_path_mode : Bytes → Bool
module_spec_uses_path_mode [] = false
module_spec_uses_path_mode (c ∷ spec) = is_path_separator c || module_spec_uses_path_mode spec

abbrev pub module_spec_is_relative : Bytes → Bool
module_spec_is_relative [] = false
module_spec_is_relative (c ∷ spec) = c == b'.'

pub module_spec_to_lookup_name : Bytes → Bytes
unfolding normalize_path_chars
module_spec_to_lookup_name spec =
    if module_spec_uses_path_mode spec
    then normalize_path_chars spec
    else map (λ c. if c == b'.' then b'/' else c) spec

abbrev pub is_segment_end : (path_mode : Bool) → ℕ → Bool
is_segment_end path_mode c = if path_mode then is_path_separator c else (c == b'.')

-- The guards of the push.
abbrev pub is_kept : (path_mode : Bool) → Bytes → Bool
is_kept path_mode segment =
    not (length segment == 0)
    && (not (path_mode && bytes_eq segment (codes "."))
        && not (path_mode && bytes_eq segment (codes "..")))

abbrev pub push_segment : (path_mode : Bool) → Bytes → List Bytes → List Bytes
push_segment path_mode segment rest = if is_kept path_mode segment then segment ∷ rest else rest

-- The loop of split_module_spec_segments; `segment` is the text from segment_start to p.
pub split_loop : (path_mode : Bool) → (segment : Bytes) → Bytes → List Bytes
split_loop path_mode segment [] = push_segment path_mode segment []
split_loop path_mode segment (c ∷ spec) =
    let next = split_loop path_mode [] spec in
    let longer = split_loop path_mode (segment ++ (c ∷ [])) spec in
    if is_segment_end path_mode c then push_segment path_mode segment next else longer

pub split_module_spec_segments : Bytes → List Bytes
unfolding split_loop
split_module_spec_segments spec = split_loop (module_spec_uses_path_mode spec) [] spec

pub join_module_segments : List Bytes → ℕ → Bytes
join_module_segments [] sep = []
join_module_segments (s ∷ []) sep = s
join_module_segments (s ∷ t ∷ segments) sep = s ++ (sep ∷ join_module_segments (t ∷ segments) sep)
