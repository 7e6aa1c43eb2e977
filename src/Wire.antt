-- ===== src/Wire.antt =====
-- What every message of clients/rust/src/sysadminctl.rs does, field by field: the sums of
-- `compute_size`, the writes of `write_to_with_cached_sizes`, the loop of `merge_from`.
pub mod Codec
pub mod Initialized
pub mod Sized
pub mod Sizes
pub mod Kinds
pub mod Writes
pub mod Reads
pub mod Transfer
pub mod Total
use sysadmin.Base.{
  ℕ, zero, suc, ◌+◌, ◌%◌, ◌^◌, Bool, true, false, Option, none, some, List, [], ◌∷◌, Result, ok,
  err, stuck, ◌>>=◌,
}
use sysadmin.Protobuf.{
  Bytes, WireType, varint, fixed64, length_delimited, start_group, end_group, fixed32, Message,
  Protobuf,
}

-- `my_size += …` on a `u32`: sums modulo 2^32.
unfoldable pub wrap32 : ℕ → ℕ
wrap32 n = n % 2 ^ 32

module _ {A : Type 0} where
  -- `if let Some(v) = field { my_size += size(v); }`
  unfoldable pub opt_size : (A → ℕ) → Option A → ℕ
  opt_size size none = 0
  opt_size size (some a) = size a

  -- `for value in &field { my_size += size(value); }`
  unfoldable pub sum_size : (A → ℕ) → List A → ℕ
  sum_size size [] = 0
  sum_size size (a ∷ as') = size a + sum_size size as'

  -- `if let Some(v) = field { write(v)?; }`
  unfoldable pub write_opt {ℓ} :
      {E : Type ℓ} → (A → Bytes → Result E Bytes) → Option A → Bytes → Result E Bytes
  write_opt write none os = ok os
  write_opt write (some a) os = write a os

  -- `for v in &field { write(v)?; }`
  unfoldable pub write_each {ℓ} :
      {E : Type ℓ} → (A → Bytes → Result E Bytes) → List A → Bytes → Result E Bytes
  write_each write [] os = ok os
  write_each write (a ∷ as') os = do os' ← write a os; write_each write as' os'

-- `for v in &field { if !v.is_initialized() { return false; } }`
unfoldable pub all_initialized {ℓ} : {A : Type ℓ} → (A → Bool) → List A → Bool
all_initialized test [] = true
all_initialized test (a ∷ as') = elim (test a) [ true ↦ all_initialized test as' | false ↦ false ]

-- The same over an optional field.
unfoldable pub opt_initialized {ℓ} : {A : Type ℓ} → (A → Bool) → Option A → Bool
opt_initialized test none = true
opt_initialized test (some a) = test a

-- The derived `==` on wire types.
unfoldable pub same_wire_type : WireType → WireType → Bool
same_wire_type varint varint = true
same_wire_type fixed64 fixed64 = true
same_wire_type length_delimited length_delimited = true
same_wire_type start_group start_group = true
same_wire_type end_group end_group = true
same_wire_type fixed32 fixed32 = true
same_wire_type _ _ = false

module _ ⦃P : Protobuf⦄ where
  -- `if wire_type != expected { return Err(rt::unexpected_wire_type(wire_type)); }`, then `read`.
  unfoldable pub expect :
      {A : Type 0} → WireType → WireType → Result P.ProtobufError A → Result P.ProtobufError A
  unfolding same_wire_type
  expect expected wire_type read = elim (same_wire_type wire_type expected) [
    | true ↦ read
    | false ↦ err (P.unexpected_wire_type wire_type)
  ]

  -- `while !is.eof()? { let (field_number, wire_type) = is.read_tag_unpack()?; field … }`
  unfoldable pub merge_loop :
      {M : Type 0}
      → (ℕ → WireType → M → Bytes → Result P.ProtobufError (M × Bytes))
      → ℕ
      → M
      → Bytes
      → Result P.ProtobufError (M × Bytes)
  merge_loop field zero m is = stuck
  merge_loop field (suc fuel) m is = do
    done ← P.eof is
    elim done [
      | true ↦ ok (m, is)
      | false ↦ do
        ((field_number, wire_type), is') ← P.read_tag_unpack is
        (m', is'') ← field field_number wire_type m is'
        merge_loop field fuel m' is''
    ]

  module _ {M : Type 0} (I : Message P.ProtobufError M) where
    -- `let len = v.compute_size(); my_size += prefix + rt::compute_raw_varint32_size(len) + len;`
    unfoldable pub message_size : ℕ → M → ℕ × M
    message_size prefix v =
        let (len, v') = I.compute_size v in (prefix + (P.compute_raw_varint32_size len + len), v')

    unfoldable pub opt_message_size : ℕ → Option M → ℕ × Option M
    unfolding message_size
    opt_message_size prefix none = (0, none)
    opt_message_size prefix (some v) = ((message_size prefix v).0, some (message_size prefix v).1)

    unfoldable pub sum_message_size : ℕ → List M → ℕ × List M
    unfolding message_size
    sum_message_size prefix [] = (0, [])
    sum_message_size prefix (v ∷ vs) =
        let rest = sum_message_size prefix vs in
        ((message_size prefix v).0 + rest.0, (message_size prefix v).1 ∷ rest.1)

    -- The tag, the cached size and the body of a nested message.
    unfoldable pub write_message : ℕ → M → Bytes → Result P.ProtobufError Bytes
    write_message n v os = do
      os' ← P.write_tag n length_delimited os
      os'' ← P.write_raw_varint32 (I.get_cached_size v) os'
      I.write_to_with_cached_sizes v os''
