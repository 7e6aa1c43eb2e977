-- ===== src/Wire/Kinds.antt =====
-- The bytes of a field of each kind, with their sizes and their writers.
use sysadmin.Base.{ℕ, ◌≤◌, ◌<◌, ℤ, Bool, ◌++◌, length-append, arith}
use sysadmin.Protobuf.{Bytes, Text, Protobuf, varint, length_delimited}
use sysadmin.Protobuf.Laws.{IsLawful}
use sysadmin.Wire.Codec.{Sizes, Writes}
use sysadmin.Wire.Sizes.{Fits-right}

module _ ⦃P : Protobuf⦄ (L : IsLawful P) (n : ℕ) where
  unfoldable pub i32_bytes : ℤ → Bytes
  i32_bytes v = L.tag n varint ++ L.int32 v

  unfoldable pub u32_bytes : ℕ → Bytes
  u32_bytes v = L.tag n varint ++ L.raw_varint32 v

  unfoldable pub bool_bytes : Bool → Bytes
  bool_bytes v = L.tag n varint ++ L.bool v

  unfoldable pub text_bytes : Text → Bytes
  text_bytes s = L.tag n length_delimited ++ L.text s

  pub i32-Sizes : (v : ℤ) → Sizes (P.value_size_i32 n v varint) (i32_bytes v)
  unfolding i32_bytes
  i32-Sizes v = record { counts = λ h. L.value_size_i32_lem n v }

  pub u32-Sizes : (v : ℕ) → Sizes (P.value_size_u32 n v varint) (u32_bytes v)
  unfolding u32_bytes
  u32-Sizes v = record { counts = λ h. L.value_size_u32_lem n v }

  pub enum-Sizes : (v : ℤ) → Sizes (P.enum_size n v) (i32_bytes v)
  unfolding i32_bytes
  enum-Sizes v = record { counts = λ h. L.enum_size_lem n v }

  pub text-Sizes : (s : Text) → Sizes (P.string_size n s) (text_bytes s)
  unfolding text_bytes
  text-Sizes s = record { counts = λ h. L.string_size_lem n s h }

  pub bool-Sizes : 1 ≤ n → n < 16 → (v : Bool) → Sizes 2 (bool_bytes v)
  unfolding bool_bytes
  bool-Sizes lo hi v = record {
    counts = λ h. omega (
      arith,
      length-append (L.tag n varint) (L.bool v),
      L.length-tag n varint lo hi,
      L.length-bool v,
    );
  }

  pub i32-Writes : (v : ℤ) → Writes (P.write_int32 n v) (i32_bytes v)
  unfolding i32_bytes
  i32-Writes v = record { appends = λ os h. L.write_int32_lem n v os }

  pub enum-Writes : (v : ℤ) → Writes (P.write_enum n v) (i32_bytes v)
  unfolding i32_bytes
  enum-Writes v = record { appends = λ os h. L.write_enum_lem n v os }

  pub u32-Writes : (v : ℕ) → Writes (P.write_uint32 n v) (u32_bytes v)
  unfolding u32_bytes
  u32-Writes v = record { appends = λ os h. L.write_uint32_lem n v os }

  pub bool-Writes : (v : Bool) → Writes (P.write_bool n v) (bool_bytes v)
  unfolding bool_bytes
  bool-Writes v = record { appends = λ os h. L.write_bool_lem n v os }

  pub text-Writes : (s : Text) → Writes (P.write_string n s) (text_bytes s)
  unfolding text_bytes
  text-Writes s = record {
    appends =
        λ os h. L.write_string_lem n s os (Fits-right (L.tag n length_delimited) (L.text s) h);
  }

module _ ⦃P : Protobuf⦄ (L : IsLawful P) where
  pub unknown-Sizes : (u : P.UnknownFields) → Sizes (P.unknown_fields_size u) (L.unknown u)
  unknown-Sizes u = record { counts = λ h. L.unknown_fields_size_lem u h }

  pub unknown-Writes : (u : P.UnknownFields) → Writes (P.write_unknown_fields u) (L.unknown u)
  unknown-Writes u = record { appends = λ os h. L.write_unknown_fields_lem u os }
