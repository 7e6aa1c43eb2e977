-- ===== src/Wire/Reads/Messages.antt =====
-- The readers of nested messages.
use sysadmin.Base.{
  true, ℕ, ◌≤◌, ◌<◌, Option, none, some, List, [], ◌∷◌, ◌++◌, length, ◌≡◌, ◌∙◌, ok, ◌>>=◌, All,
  OptAll, opt_map, map, append_assoc,
}
use sysadmin.Protobuf.{Bytes, length_delimited, Message, Protobuf}
use sysadmin.Protobuf.Laws.{IsLawful, Fits}
use sysadmin.Wire.Codec.{IsCodec}
use sysadmin.Wire.Sizes.{Fits-right, opt, each, message_bytes}
use sysadmin.Wire.Reads.{Step, Reads, field_reads, opt_map_reads, each_reads}
use sysadmin.Wire.Reads.Fields.{small_reads}

module _ ⦃P : Protobuf⦄ (L : IsLawful P) {A : Type 0} {I : Message P.ProtobufError A}
    (C : IsCodec I) {M : Type 0} (field : Step P.ProtobufError M) (n : ℕ) where
  -- The length and the body, as they stand behind the tag.
  abbrev rest : A → Bytes
  rest a = L.raw_varint32 (length (C.encode a)) ++ C.encode a

  body-Fits : (a : A) → Fits (message_bytes L C.encode n a) → Fits (C.encode a)
  unfolding message_bytes
  body-Fits a h =
      Fits-right (L.raw_varint32 (length (C.encode a))) (C.encode a)
        (Fits-right (L.tag n length_delimited) (rest a) h)

  pub singular_message_reads :
      (1 ≤ n) × (n < 16)
      → (put : Option A → M)
      → ((is : Bytes)
          → field n length_delimited (put none) is ≡ (
              P.read_singular_message_into I length_delimited is none >>= λ (k, is').
              ok (put k, is')))
      → (o : Option A) → OptAll C.IsValid o
      → Fits (opt (message_bytes L C.encode n) o)
      → Reads field (put none) (opt (message_bytes L C.encode n) o) (put (opt_map C.fresh o))
  unfolding message_bytes
  singular_message_reads r put p = opt_map_reads put C.fresh C.IsValid λ a q h.
      small_reads L field n length_delimited (rest a) (put none) (put (some (C.fresh a))) r λ is.
        p (rest a ++ is)
        ∙ rw (
          append_assoc (L.raw_varint32 (length (C.encode a))) (C.encode a) is,
          L.read_singular_message_into_lem I (C.fresh a) (C.encode a) is (body-Fits a h)
              (C.merge_from_lem a q (body-Fits a h)),
        )

  pub repeated_message_reads :
      (1 ≤ n) × (n < 16)
      → (put : List A → M)
      → ((is : Bytes) (ms : List A)
          → field n length_delimited (put ms) is ≡ (
              P.read_repeated_message_into I length_delimited is ms >>= λ (k, is').
              ok (put k, is')))
      → (ms : List A) → All C.IsValid ms
      → Fits (each (message_bytes L C.encode n) ms)
      → Reads field (put []) (each (message_bytes L C.encode n) ms) (put (map C.fresh ms))
  unfolding message_bytes
  repeated_message_reads r put p ms q h =
      each_reads put C.fresh C.IsValid
        (λ a before v f.
          small_reads L field n length_delimited (rest a) (put before)
            (put (before ++ (C.fresh a ∷ []))) r
            λ is.
              p (rest a ++ is) before
              ∙ rw (
                append_assoc (L.raw_varint32 (length (C.encode a))) (C.encode a) is,
                L.read_repeated_message_into_lem I (C.fresh a) (C.encode a) is before
                    (body-Fits a f) (C.merge_from_lem a v (body-Fits a f)),
              ))
        ms [] q h

  -- A member of a `oneof`, whose tag may take two bytes.
  pub oneof_message_reads :
      (1 ≤ n) × (n < 2048)
      → 1 ≤ length (L.tag n length_delimited)
      → (m : M) (put : A → M)
      → ((is : Bytes)
          → field n length_delimited m is ≡ (P.read_message I is >>= λ (k, is'). ok (put k, is')))
      → (a : A) → C.IsValid a × (I.is_initialized a ≡ true)
      → Fits (message_bytes L C.encode n a)
      → Reads field m (message_bytes L C.encode n a) (put (C.fresh a))
  unfolding message_bytes
  oneof_message_reads (lo, hi) long m put p a (q, init) h =
      field_reads L n length_delimited (rest a) lo hi long λ is.
        p (rest a ++ is)
        ∙ rw (
          append_assoc (L.raw_varint32 (length (C.encode a))) (C.encode a) is,
          L.read_message_lem I (C.fresh a) (C.encode a) is (body-Fits a h)
              (C.merge_from_lem a q (body-Fits a h)) (C.is_initialized-fresh a ∙ init),
        )
