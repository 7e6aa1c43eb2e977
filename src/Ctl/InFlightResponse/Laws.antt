-- ===== src/Ctl/InFlightResponse/Laws.antt =====
-- The codec of `InFlightResponse`: its size, its bytes and its parser agree.
use sysadmin.Base.{[], ◌++◌, map, All, ◌≡◌, refl, ok, arith}
use sysadmin.Protobuf.{Bytes, length_delimited, Protobuf}
use sysadmin.Protobuf.Laws.{IsLawful, Fits}
use sysadmin.Wire.{expect}
use sysadmin.Wire.Sized.{each-sized, all_initialized-sized}
use sysadmin.Wire.Initialized.{all_initialized-map}
use sysadmin.Wire.Codec.{IsCodec, Sizes, Writes}
use sysadmin.Wire.Sizes.{each, wrap32-Sizes, append-Sizes, message_bytes, each_message-Sizes}
use sysadmin.Wire.Kinds.{unknown-Sizes, unknown-Writes}
use sysadmin.Wire.Writes.{append-Writes, each_message-Writes}
use sysadmin.Wire.Reads.{Parses, append-Parses, merge_loop-reads}
use sysadmin.Wire.Reads.Fields.{unknown_reads}
use sysadmin.Wire.Reads.Messages.{repeated_message_reads}
use sysadmin.Ctl.MappedField.Laws as MappedFieldLaws
use sysadmin.Ctl.MappedField
use sysadmin.Ctl.InFlightResponse.{
  InFlightResponse, new, is_initialized, merge_field, merge_from, compute_size,
  write_to_with_cached_sizes, get_cached_size, message,
}

module _ ⦃P : Protobuf⦄ (L : IsLawful P) where
  unfoldable pub encode : InFlightResponse → Bytes
  encode m =
      each (message_bytes L (MappedFieldLaws.codec L).encode 1) m.kvs ++ L.unknown m.unknown_fields

  unfoldable pub fresh : InFlightResponse → InFlightResponse
  fresh m = record {
    kvs = map (MappedFieldLaws.codec L).fresh m.kvs;
    unknown_fields = P.no_fields;
    cached_size = 0;
  }

  pub record IsValid (m : InFlightResponse) : Type 0 where
    pub valid_kvs : All (MappedFieldLaws.codec L).IsValid m.kvs
    pub no_unknown : m.unknown_fields ≡ P.no_fields

  pub compute_size-Sizes : (m : InFlightResponse) → Sizes (compute_size m).0 (encode m)
  unfolding compute_size encode
  compute_size-Sizes m = wrap32-Sizes (
      append-Sizes
        (each_message-Sizes L (MappedFieldLaws.codec L) 1 1
          (L.length-tag 1 length_delimited (omega arith) (omega arith)) m.kvs)
        (unknown-Sizes L m.unknown_fields))

  pub write_to_writes :
      (m : InFlightResponse) → Writes (write_to_with_cached_sizes (compute_size m).1) (encode m)
  unfolding compute_size write_to_with_cached_sizes encode
  write_to_writes m =
      append-Writes (each_message-Writes L (MappedFieldLaws.codec L) 1 1 m.kvs)
        (unknown-Writes L m.unknown_fields)

  message-Parses : (m : InFlightResponse) → IsValid m → Parses merge_field new (encode m) (fresh m)
  unfolding merge_field expect new encode fresh
  message-Parses m v =
      append-Parses
        (record {
          parse =
              repeated_message_reads L (MappedFieldLaws.codec L) merge_field 1 (omega arith)
                (λ v. record { kvs = v; unknown_fields = P.no_fields; cached_size = 0 })
                (λ is ms. refl) m.kvs v.valid_kvs;
        })
        (record {
          parse = λ h. unknown_reads L merge_field (fresh m) m.unknown_fields v.no_unknown;
        })

  pub cached : (m : InFlightResponse) → get_cached_size (compute_size m).1 ≡ (compute_size m).0
  unfolding get_cached_size compute_size
  cached m = refl

  pub merged :
      (m : InFlightResponse)
      → IsValid m
      → Fits (encode m)
      → merge_from new (encode m) ≡ ok (fresh m, [])
  unfolding merge_from
  merged m v h = merge_loop-reads L ((message-Parses m v).parse h)

  pub initialized_fresh : (m : InFlightResponse) → is_initialized (fresh m) ≡ is_initialized m
  unfolding is_initialized fresh MappedField.message
  initialized_fresh m = rw (
      all_initialized-map (MappedFieldLaws.codec L).fresh MappedField.is_initialized
        (MappedFieldLaws.codec L).is_initialized-fresh m.kvs)

  pub encode_sized : (m : InFlightResponse) → encode (compute_size m).1 ≡ encode m
  unfolding compute_size encode
  encode_sized m = rw (each-sized L (MappedFieldLaws.codec L) 1 1 m.kvs)

  pub initialized_sized :
      (m : InFlightResponse) → is_initialized (compute_size m).1 ≡ is_initialized m
  unfolding compute_size is_initialized MappedField.message
  initialized_sized m = rw (all_initialized-sized L (MappedFieldLaws.codec L) 1 m.kvs)

  unfoldable pub codec : IsCodec message
  unfolding message encode fresh
  codec = record {
    encode = encode;
    fresh = fresh;
    IsValid = IsValid;
    is_initialized-fresh = initialized_fresh;
    encode-compute_size = encode_sized;
    is_initialized-compute_size = initialized_sized;
    compute_size_lem = compute_size-Sizes;
    get_cached_size_lem = cached;
    write_lem = write_to_writes;
    merge_from_lem = λ m v h. merged m v h;
  }
