-- ===== src/Map/Hash.antt =====
-- hash_string_obj of src/fe.c: 64-bit FNV-1a over the bytes of a string (the branch for an
-- `unsigned long` of 64 bits). The slabs that hold the bytes are read in order, so the hash is that
-- of the whole byte string.
use Prim.Native.Nat.{bit_xor}
use fex.Common.{ℕ, ◌*◌, ◌%◌, ◌^◌, [], ◌∷◌, Bytes}

hash_from : ℕ → Bytes → ℕ
hash_from hash [] = hash
hash_from hash (b ∷ bs) = hash_from ((bit_xor hash b * 1099511628211) % 2 ^ 64) bs

unfoldable pub hash_string : Bytes → ℕ
unfolding hash_from
hash_string = hash_from 14695981039346656037
