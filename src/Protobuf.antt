-- ===== src/Protobuf.antt =====
-- What clients/rust/src/sysadminctl.rs and lib.rs call in the `protobuf` crate, which is not part of
-- the repository: the streams, the helpers of `rt`, and the functions over any message.
-- An input stream stands for the bytes that are left before its limit, an output stream for the
-- bytes written so far.
pub mod Laws
pub mod Sample
pub mod Totality
use sysadmin.Base.{ℕ, ℤ, Bool, Option, List, Result, ◌≡◌}

abbrev pub Bytes : Type 0
Bytes = List ℕ

-- A `String`: its bytes.
abbrev pub Text : Type 0
Text = List ℕ

-- `wire_format::WireType`
pub data WireType : Type 0 where
  varint fixed64 length_delimited start_group end_group fixed32 : WireType

-- The trait `Message`. `compute_size` also returns the message, since it fills `cached_size`.
pub record Message (E : Type 0) (M : Type 0) : Type 0 where
  pub default : M
  pub is_initialized : M → Bool
  pub merge_from : M → Bytes → Result E (M × Bytes)
  pub compute_size : M → ℕ × M
  pub write_to_with_cached_sizes : M → Bytes → Result E Bytes
  pub get_cached_size : M → ℕ

pub record Protobuf : Type 1 where
  pub ProtobufError : Type 0
  pub UnknownFields : Type 0
  -- `UnknownFields::default()`
  pub no_fields : UnknownFields
  -- `rt::unexpected_wire_type`
  pub unexpected_wire_type : WireType → ProtobufError
  -- The sizes of `rt`. An enum is given by its `value()`.
  pub value_size_i32 : ℕ → ℤ → WireType → ℕ
  pub value_size_u32 : ℕ → ℕ → WireType → ℕ
  pub string_size : ℕ → Text → ℕ
  pub enum_size : ℕ → ℤ → ℕ
  pub compute_raw_varint32_size : ℕ → ℕ
  pub unknown_fields_size : UnknownFields → ℕ
  -- `CodedOutputStream`
  pub write_tag : ℕ → WireType → Bytes → Result ProtobufError Bytes
  pub write_raw_varint32 : ℕ → Bytes → Result ProtobufError Bytes
  pub write_int32 : ℕ → ℤ → Bytes → Result ProtobufError Bytes
  pub write_uint32 : ℕ → ℕ → Bytes → Result ProtobufError Bytes
  pub write_bool : ℕ → Bool → Bytes → Result ProtobufError Bytes
  pub write_string : ℕ → Text → Bytes → Result ProtobufError Bytes
  pub write_enum : ℕ → ℤ → Bytes → Result ProtobufError Bytes
  pub write_unknown_fields : UnknownFields → Bytes → Result ProtobufError Bytes
  -- `CodedInputStream`
  pub eof : Bytes → Result ProtobufError Bool
  pub read_tag_unpack : Bytes → Result ProtobufError ((ℕ × WireType) × Bytes)
  pub read_int32 : Bytes → Result ProtobufError (ℤ × Bytes)
  pub read_uint32 : Bytes → Result ProtobufError (ℕ × Bytes)
  pub read_bool : Bytes → Result ProtobufError (Bool × Bytes)
  pub read_string : Bytes → Result ProtobufError (Text × Bytes)
  -- The first argument is the enum's `from_i32`.
  pub read_enum : {A : Type 0} → (ℤ → Option A) → Bytes → Result ProtobufError (A × Bytes)
  pub read_message :
      {M : Type 0} → Message ProtobufError M → Bytes → Result ProtobufError (M × Bytes)
  -- The readers of `rt`: the wire type, the stream, and the field that is read into.
  pub read_repeated_int32_into : WireType → Bytes → List ℤ → Result ProtobufError (List ℤ × Bytes)
  pub read_repeated_bool_into :
      WireType → Bytes → List Bool → Result ProtobufError (List Bool × Bytes)
  pub read_repeated_string_into :
      WireType → Bytes → List Text → Result ProtobufError (List Text × Bytes)
  pub read_repeated_message_into :
      {M : Type 0}
      → Message ProtobufError M
      → WireType
      → Bytes
      → List M
      → Result ProtobufError (List M × Bytes)
  pub read_singular_string_into :
      WireType → Bytes → Option Text → Result ProtobufError (Option Text × Bytes)
  pub read_singular_message_into :
      {M : Type 0}
      → Message ProtobufError M
      → WireType
      → Bytes
      → Option M
      → Result ProtobufError (Option M × Bytes)
  pub read_unknown_or_skip_group :
      ℕ → WireType → Bytes → UnknownFields → Result ProtobufError (UnknownFields × Bytes)
  -- `Message::write_to_bytes` and `parse_from_bytes`
  pub write_to_bytes : {M : Type 0} → Message ProtobufError M → M → Result ProtobufError Bytes
  pub parse_from_bytes : {M : Type 0} → Message ProtobufError M → Bytes → Result ProtobufError M
