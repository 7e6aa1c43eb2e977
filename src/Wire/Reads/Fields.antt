-- ===== src/Wire/Reads/Fields.antt =====
-- The readers of the fields of each kind. Each lemma asks how a message's step treats the field.
use sysadmin.Base.{
  ℕ, ◌≤◌, ◌<◌, ℤ, IsI32, IsU32, Bool, Option, none, some, List, [], ◌∷◌, ◌++◌, ◌≡◌, ◌∙◌, ok, ◌>>=◌,
  arith, All, OptAll, map-id,
}
use sysadmin.Protobuf.{Bytes, Text, WireType, varint, length_delimited, Protobuf}
use sysadmin.Protobuf.Laws.{IsLawful, Fits}
use sysadmin.Wire.Sizes.{Fits-right, opt, each}
use sysadmin.Wire.Kinds.{i32_bytes, u32_bytes, bool_bytes, text_bytes}
use sysadmin.Wire.Reads.{Step, Reads, nil_reads, field_reads, opt_reads, each_reads}

All-unit : {A : Type 0} (xs : List A) → All (λ _. Unit {0}) xs
All-unit [] = tt
All-unit (x ∷ xs) = (tt, All-unit xs)

module _ ⦃P : Protobuf⦄ (L : IsLawful P) {M : Type 0} (field : Step P.ProtobufError M) where
  -- A field whose number takes one byte.
  pub small_reads :
      (n : ℕ) (wt : WireType) (body : Bytes) (m m' : M)
      → (1 ≤ n) × (n < 16)
      → ((is : Bytes) → field n wt m (body ++ is) ≡ ok (m', is))
      → Reads field m (L.tag n wt ++ body) m'
  small_reads n wt body m m' (lo, hi) p =
      field_reads L n wt body lo (omega arith) (omega (arith, L.length-tag n wt lo hi)) p

  -- Behind the known fields no unknown ones are kept.
  pub unknown_reads :
      (m : M) (u : P.UnknownFields) → u ≡ P.no_fields → Reads field m (L.unknown u) m
  unknown_reads m u e = rw (e, L.unknown_none) nil_reads

  module _ (n : ℕ) (r : (1 ≤ n) × (n < 16)) where
    pub singular_string_reads :
        (put : Option Text → M)
        → ((is : Bytes)
            → field n length_delimited (put none) is ≡ (
                P.read_singular_string_into length_delimited is none >>= λ (k, is').
                ok (put k, is')))
        → (o : Option Text) → OptAll L.IsUtf8 o
        → Fits (opt (text_bytes L n) o)
        → Reads field (put none) (opt (text_bytes L n) o) (put o)
    unfolding text_bytes
    singular_string_reads put p = opt_reads put L.IsUtf8 λ s q h.
        small_reads n length_delimited (L.text s) (put none) (put (some s)) r λ is.
          p (L.text s ++ is)
          ∙ rw (
              L.read_singular_string_into_lem s is q
                (Fits-right (L.tag n length_delimited) (L.text s) h))

    pub optional_u32_reads :
        (put : Option ℕ → M)
        → ((is : Bytes)
            → field n varint (put none) is
              ≡ (P.read_uint32 is >>= λ (tmp, is'). ok (put (some tmp), is')))
        → (o : Option ℕ) → OptAll IsU32 o
        → Fits (opt (u32_bytes L n) o)
        → Reads field (put none) (opt (u32_bytes L n) o) (put o)
    unfolding u32_bytes
    optional_u32_reads put p = opt_reads put IsU32 λ v q h.
        small_reads n varint (L.raw_varint32 v) (put none) (put (some v)) r
          λ is. p (L.raw_varint32 v ++ is) ∙ rw (L.read_uint32_lem v is q)

    pub optional_enum_reads :
        {A : Type 0} (value : A → ℤ) (from_i32 : ℤ → Option A)
        → ((a : A) → IsI32 (value a) × (from_i32 (value a) ≡ some a))
        → (put : Option A → M)
        → ((is : Bytes)
            → field n varint (put none) is
              ≡ (P.read_enum from_i32 is >>= λ (tmp, is'). ok (put (some tmp), is')))
        → (o : Option A) → Fits (opt (λ a. i32_bytes L n (value a)) o)
        → Reads field (put none) (opt (λ a. i32_bytes L n (value a)) o) (put o)
    unfolding i32_bytes opt
    optional_enum_reads value from_i32 same put p none h = nil_reads
    optional_enum_reads value from_i32 same put p (some a) h =
        small_reads n varint (L.int32 (value a)) (put none) (put (some a)) r λ is.
          p (L.int32 (value a) ++ is)
          ∙ rw (L.read_enum_lem from_i32 (value a) a is (same a).0 (same a).1)

    pub repeated_int32_reads :
        (put : List ℤ → M)
        → ((is : Bytes) (vs : List ℤ)
            → field n varint (put vs) is
              ≡ (P.read_repeated_int32_into varint is vs >>= λ (k, is'). ok (put k, is')))
        → (vs : List ℤ) → All IsI32 vs
        → Fits (each (i32_bytes L n) vs)
        → Reads field (put []) (each (i32_bytes L n) vs) (put vs)
    unfolding i32_bytes
    repeated_int32_reads put p vs q h = rw (map-id vs) at (
        each_reads put (λ v. v) IsI32
          (λ v before i f.
            small_reads n varint (L.int32 v) (put before) (put (before ++ (v ∷ []))) r
              λ is. p (L.int32 v ++ is) before ∙ rw (L.read_repeated_int32_into_lem v is before i))
          vs [] q h)

    pub repeated_bool_reads :
        (put : List Bool → M)
        → ((is : Bytes) (vs : List Bool)
            → field n varint (put vs) is
              ≡ (P.read_repeated_bool_into varint is vs >>= λ (k, is'). ok (put k, is')))
        → (vs : List Bool) → Fits (each (bool_bytes L n) vs)
        → Reads field (put []) (each (bool_bytes L n) vs) (put vs)
    unfolding bool_bytes
    repeated_bool_reads put p vs h = rw (map-id vs) at (
        each_reads put (λ v. v) (λ _. Unit {0})
          (λ v before i f.
            small_reads n varint (L.bool v) (put before) (put (before ++ (v ∷ []))) r
              λ is. p (L.bool v ++ is) before ∙ rw (L.read_repeated_bool_into_lem v is before))
          vs [] (All-unit vs) h)

    pub repeated_string_reads :
        (put : List Text → M)
        → ((is : Bytes) (vs : List Text)
            → field n length_delimited (put vs) is ≡ (
                P.read_repeated_string_into length_delimited is vs >>= λ (k, is'). ok (put k, is')))
        → (vs : List Text) → All L.IsUtf8 vs
        → Fits (each (text_bytes L n) vs)
        → Reads field (put []) (each (text_bytes L n) vs) (put vs)
    unfolding text_bytes
    repeated_string_reads put p vs q h = rw (map-id vs) at (
        each_reads put (λ v. v) L.IsUtf8
          (λ s before i f.
            small_reads n length_delimited (L.text s) (put before) (put (before ++ (s ∷ []))) r
              λ is.
                p (L.text s ++ is) before
                ∙ rw (
                    L.read_repeated_string_into_lem s is before i
                      (Fits-right (L.tag n length_delimited) (L.text s) f)))
          vs [] q h)
