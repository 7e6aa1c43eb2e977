-- ===== src/Protobuf/Laws.antt =====
-- What the code relies on in the `protobuf` crate, as the format and the crate document it: each
-- writer appends a fixed encoding, the sizes are the lengths of those, and each reader takes its
-- own encoding off the front of the stream.
use sysadmin.Base.{
  ℕ, ◌^◌, ◌≤◌, ◌<◌, ℤ, IsI32, IsU32, Bool, true, false, Option, none, some, List, [], ◌∷◌, ◌++◌,
  length, ok, ◌≡◌,
}
use sysadmin.Protobuf.{Bytes, Text, WireType, varint, length_delimited, Message, Protobuf}

-- The bytes can be counted by a `u32`.
abbrev pub Fits : Bytes → Type 0
Fits bs = length bs < 2 ^ 32

pub record IsLawful (P : Protobuf) : Type 1 where
  -- The encodings.
  pub tag : ℕ → WireType → Bytes
  pub raw_varint32 : ℕ → Bytes
  pub int32 : ℤ → Bytes
  pub bool : Bool → Bytes
  pub text : Text → Bytes
  pub unknown : P.UnknownFields → Bytes
  -- The bytes are UTF-8.
  pub IsUtf8 : Text → Type 0
  -- The writers.
  pub write_tag_lem :
      (n : ℕ) (wt : WireType) (os : Bytes) → P.write_tag n wt os ≡ ok (os ++ tag n wt)
  pub write_raw_varint32_lem :
      (v : ℕ) (os : Bytes) → IsU32 v → P.write_raw_varint32 v os ≡ ok (os ++ raw_varint32 v)
  pub write_int32_lem :
      (n : ℕ) (v : ℤ) (os : Bytes) → P.write_int32 n v os ≡ ok (os ++ (tag n varint ++ int32 v))
  pub write_uint32_lem :
      (n v : ℕ) (os : Bytes) → P.write_uint32 n v os ≡ ok (os ++ (tag n varint ++ raw_varint32 v))
  pub write_bool_lem :
      (n : ℕ) (v : Bool) (os : Bytes) → P.write_bool n v os ≡ ok (os ++ (tag n varint ++ bool v))
  pub write_string_lem :
      (n : ℕ) (s : Text) (os : Bytes)
      → Fits (text s)
      → P.write_string n s os ≡ ok (os ++ (tag n length_delimited ++ text s))
  pub write_enum_lem :
      (n : ℕ) (v : ℤ) (os : Bytes) → P.write_enum n v os ≡ ok (os ++ (tag n varint ++ int32 v))
  pub write_unknown_fields_lem :
      (u : P.UnknownFields) (os : Bytes) → P.write_unknown_fields u os ≡ ok (os ++ unknown u)
  pub unknown_none : unknown P.no_fields ≡ []
  -- The sizes.
  pub length-tag : (n : ℕ) (wt : WireType) → 1 ≤ n → n < 16 → length (tag n wt) ≡ 1
  pub length-tag_two : (n : ℕ) (wt : WireType) → 16 ≤ n → n < 2048 → length (tag n wt) ≡ 2
  pub length-bool : (b : Bool) → length (bool b) ≡ 1
  pub value_size_i32_lem :
      (n : ℕ) (v : ℤ) → P.value_size_i32 n v varint ≡ length (tag n varint ++ int32 v)
  pub value_size_u32_lem :
      (n v : ℕ) → P.value_size_u32 n v varint ≡ length (tag n varint ++ raw_varint32 v)
  pub string_size_lem :
      (n : ℕ) (s : Text)
      → Fits (tag n length_delimited ++ text s)
      → P.string_size n s ≡ length (tag n length_delimited ++ text s)
  pub enum_size_lem : (n : ℕ) (v : ℤ) → P.enum_size n v ≡ length (tag n varint ++ int32 v)
  pub compute_raw_varint32_size_lem :
      (v : ℕ) → IsU32 v → P.compute_raw_varint32_size v ≡ length (raw_varint32 v)
  pub unknown_fields_size_lem :
      (u : P.UnknownFields) → Fits (unknown u) → P.unknown_fields_size u ≡ length (unknown u)
  -- The readers.
  pub eof-nil : P.eof [] ≡ ok true
  pub eof-cons : (b : ℕ) (is : Bytes) → P.eof (b ∷ is) ≡ ok false
  pub read_tag_unpack_lem :
      (n : ℕ) (wt : WireType) (is : Bytes)
      → 1 ≤ n
      → n < 2048
      → P.read_tag_unpack (tag n wt ++ is) ≡ ok ((n, wt), is)
  pub read_int32_lem : (v : ℤ) (is : Bytes) → IsI32 v → P.read_int32 (int32 v ++ is) ≡ ok (v, is)
  pub read_uint32_lem :
      (v : ℕ) (is : Bytes) → IsU32 v → P.read_uint32 (raw_varint32 v ++ is) ≡ ok (v, is)
  pub read_bool_lem : (b : Bool) (is : Bytes) → P.read_bool (bool b ++ is) ≡ ok (b, is)
  pub read_string_lem :
      (s : Text) (is : Bytes) → IsUtf8 s → Fits (text s) → P.read_string (text s ++ is) ≡ ok (s, is)
  pub read_enum_lem :
      {A : Type 0} (from_i32 : ℤ → Option A) (v : ℤ) (a : A) (is : Bytes)
      → IsI32 v
      → from_i32 v ≡ some a
      → P.read_enum from_i32 (int32 v ++ is) ≡ ok (a, is)
  pub read_message_lem :
      {M : Type 0} (I : Message P.ProtobufError M) (m : M) (body is : Bytes)
      → Fits body
      → I.merge_from I.default body ≡ ok (m, [])
      → I.is_initialized m ≡ true
      → P.read_message I (raw_varint32 (length body) ++ (body ++ is)) ≡ ok (m, is)
  pub read_repeated_int32_into_lem :
      (v : ℤ) (is : Bytes) (vs : List ℤ)
      → IsI32 v
      → P.read_repeated_int32_into varint (int32 v ++ is) vs ≡ ok (vs ++ (v ∷ []), is)
  pub read_repeated_bool_into_lem :
      (v : Bool) (is : Bytes) (vs : List Bool)
      → P.read_repeated_bool_into varint (bool v ++ is) vs ≡ ok (vs ++ (v ∷ []), is)
  pub read_repeated_string_into_lem :
      (s : Text) (is : Bytes) (ss : List Text)
      → IsUtf8 s
      → Fits (text s)
      → P.read_repeated_string_into length_delimited (text s ++ is) ss ≡ ok (ss ++ (s ∷ []), is)
  pub read_repeated_message_into_lem :
      {M : Type 0} (I : Message P.ProtobufError M) (m : M) (body is : Bytes) (ms : List M)
      → Fits body
      → I.merge_from I.default body ≡ ok (m, [])
      → P.read_repeated_message_into I length_delimited
          (raw_varint32 (length body) ++ (body ++ is))
          ms
        ≡ ok (ms ++ (m ∷ []), is)
  pub read_singular_string_into_lem :
      (s : Text) (is : Bytes)
      → IsUtf8 s
      → Fits (text s)
      → P.read_singular_string_into length_delimited (text s ++ is) none ≡ ok (some s, is)
  pub read_singular_message_into_lem :
      {M : Type 0} (I : Message P.ProtobufError M) (m : M) (body is : Bytes)
      → Fits body
      → I.merge_from I.default body ≡ ok (m, [])
      → P.read_singular_message_into I length_delimited
          (raw_varint32 (length body) ++ (body ++ is))
          none
        ≡ ok (some m, is)
  -- The functions over any message.
  pub write_to_bytes_lem :
      {M : Type 0} (I : Message P.ProtobufError M) (m : M)
      → I.is_initialized m ≡ true
      → P.write_to_bytes I m ≡ I.write_to_with_cached_sizes (I.compute_size m).1 []
  pub parse_from_bytes_lem :
      {M : Type 0} (I : Message P.ProtobufError M) (m : M) (bs : Bytes)
      → I.merge_from I.default bs ≡ ok (m, [])
      → I.is_initialized m ≡ true
      → P.parse_from_bytes I bs ≡ ok m
