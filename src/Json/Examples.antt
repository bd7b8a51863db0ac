-- ===== src/Json/Examples.antt =====
-- JSON strings at concrete texts.
use fex.Common.{◌≡◌, refl, [], ◌∷◌, ◌++◌, some, codes, arith}
use fex.Json.{
  Parsed, parsed, failed, surrogate, json_parse_string, parse_loop, read_escape, unicode_escape,
  json_hex_value, scalar_escape, utf8, json_write_string,
}
use fex.Json.Strings.{parse-write, json_parse_string-ends}

-- An escape of a code point above 127, and one of half a pair.
euro : json_parse_string 9 (codes "\"\\u20AC\"") ≡ some (parsed (226 ∷ 130 ∷ 172 ∷ []) [])
unfolding json_parse_string parse_loop read_escape unicode_escape json_hex_value scalar_escape utf8
euro = refl

half_pair : json_parse_string 9 (codes "\"\\ud83d\"") ≡ some (failed surrogate)
unfolding json_parse_string parse_loop read_escape unicode_escape json_hex_value scalar_escape utf8
half_pair = refl

parse-write_example :
    json_parse_string 8 (json_write_string (codes "a\n\"b\\" ++ (1 ∷ [])) ++ codes ", 2")
    ≡ some (parsed (codes "a\n\"b\\" ++ (1 ∷ [])) (codes ", 2"))
parse-write_example = parse-write 8 (codes "a\n\"b\\" ++ (1 ∷ [])) (codes ", 2") (omega arith)

json_parse_string-ends_example : (r : Parsed) × (json_parse_string 9 (codes "\"ab\\") ≡ some r)
json_parse_string-ends_example = json_parse_string-ends 9 (codes "\"ab\\") (omega arith)
