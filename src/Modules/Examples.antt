-- ===== src/Modules/Examples.antt =====
-- Module names and paths at concrete texts.
use fex.Common.{◌≡◌, refl, List, [], ◌∷◌, Bytes, codes, All, arith}
use fex.Modules.{
  path_dirname_copy, last_separator, split_loop, split_module_spec_segments, join_module_segments,
}
use fex.Modules.Segments.{IsName, split-join}

abbrev net_http : List Bytes
net_http = codes "net" ∷ codes "http" ∷ []

net_http-IsName : All IsName net_http
net_http-IsName = (
  (omega arith, ((refl, refl), ((refl, refl), ((refl, refl), tt)))),
  ((omega arith, ((refl, refl), ((refl, refl), ((refl, refl), ((refl, refl), tt))))), tt),
)

split_up : split_module_spec_segments (codes "../a/./b") ≡ codes "a" ∷ codes "b" ∷ []
unfolding split_module_spec_segments split_loop
split_up = refl

dirname_root : path_dirname_copy (codes "/x") ≡ codes "/"
unfolding path_dirname_copy last_separator
dirname_root = refl

split-join_example : split_module_spec_segments (join_module_segments net_http b'.') ≡ net_http
split-join_example = split-join net_http net_http-IsName
