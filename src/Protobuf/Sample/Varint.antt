-- ===== src/Protobuf/Sample/Varint.antt =====
-- Base-128 numbers, and what reads them back.
use sysadmin.Base.{
  ℕ, zero, suc, ◌+◌, ◌-◌, ◌*◌, ◌/◌, ◌%◌, ◌^◌, ◌<◌, ◌≤◌, [], ◌∷◌, ◌++◌, length, Result, ok, err,
  ◌>>=◌, ltb, if◌then◌else◌, ◌≡◌, refl, arith,
}
use sysadmin.Protobuf.{Bytes}

pub data SampleError : Type 0 where
  truncated overlong : SampleError

encode_loop : ℕ → ℕ → Bytes
encode_loop zero v = v ∷ []
encode_loop (suc k) v =
    let rest = encode_loop k (v / 128) in if ltb v 128 then v ∷ [] else (v % 128 + 128) ∷ rest

-- At most ten bytes. The match makes the number a literal before the loop takes it apart.
unfoldable pub encode : ℕ → Bytes
unfolding encode_loop
encode zero = encode_loop 9 0
encode (suc v) = encode_loop 9 (suc v)

encode_lem : (v : ℕ) → encode v ≡ encode_loop 9 v
unfolding encode
encode_lem zero = refl
encode_lem (suc v) = refl

unfoldable pub decode : Bytes → Result SampleError (ℕ × Bytes)
decode [] = err truncated
decode (b ∷ bs) =
    let more = decode bs in
    if ltb b 128 then ok (b, bs) else (more >>= λ (v, rest). ok (b - 128 + 128 * v, rest))

decode-encode_loop :
    (k v : ℕ) (rest : Bytes) → v < 128 ^ suc k → decode (encode_loop k v ++ rest) ≡ ok (v, rest)
unfolding decode encode_loop
decode-encode_loop zero v rest h = ground arith
decode-encode_loop (suc k) v rest h =
    ground (arith, decode-encode_loop k (v / 128) rest (omega arith))

pub decode-encode : (v : ℕ) (rest : Bytes) → v < 2 ^ 70 → decode (encode v ++ rest) ≡ ok (v, rest)
decode-encode v rest h = rw (encode_lem v) (decode-encode_loop 9 v rest (omega arith))

pub length-encode_one : (v : ℕ) → v < 128 → length (encode v) ≡ 1
unfolding encode encode_loop
length-encode_one v h = ground arith

pub length-encode_two : (v : ℕ) → 128 ≤ v → v < 16384 → length (encode v) ≡ 2
unfolding encode encode_loop
length-encode_two v lo hi = ground arith
