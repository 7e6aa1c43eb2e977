-- ===== src/Ctl/MappedField/Laws.antt =====
-- The codec of `MappedField`: its size, its bytes and its parser agree.
use sysadmin.Base.{none, [], ◌++◌, OptAll, opt_map, ◌≡◌, refl, ok, arith}
use sysadmin.Protobuf.{Bytes, length_delimited, Protobuf}
use sysadmin.Protobuf.Laws.{IsLawful, Fits}
use sysadmin.Wire.{expect}
use sysadmin.Wire.Sized.{opt-sized, opt_initialized-sized}
use sysadmin.Wire.Initialized.{opt_initialized-opt_map}
use sysadmin.Wire.Codec.{IsCodec, Sizes, Writes}
use sysadmin.Wire.Sizes.{
  opt, wrap32-Sizes, append-Sizes, opt-Sizes, message_bytes, opt_message-Sizes,
}
use sysadmin.Wire.Kinds.{text_bytes, text-Sizes, unknown-Sizes, text-Writes, unknown-Writes}
use sysadmin.Wire.Writes.{append-Writes, opt-Writes, opt_message-Writes}
use sysadmin.Wire.Reads.{Parses, append-Parses, merge_loop-reads}
use sysadmin.Wire.Reads.Fields.{unknown_reads, singular_string_reads}
use sysadmin.Wire.Reads.Messages.{singular_message_reads}
use sysadmin.Ctl.ConfigValue.Laws as ConfigValueLaws
use sysadmin.Ctl.ConfigValue
use sysadmin.Ctl.MappedField.{
  MappedField, new, is_initialized, merge_field, merge_from, compute_size,
  write_to_with_cached_sizes, get_cached_size, message,
}

module _ ⦃P : Protobuf⦄ (L : IsLawful P) where
  unfoldable pub encode : MappedField → Bytes
  encode m =
      opt (text_bytes L 1) m.key
      ++ (opt (message_bytes L (ConfigValueLaws.codec L).encode 2) m.value
          ++ L.unknown m.unknown_fields)

  unfoldable pub fresh : MappedField → MappedField
  fresh m = record {
    key = m.key;
    value = opt_map (ConfigValueLaws.codec L).fresh m.value;
    unknown_fields = P.no_fields;
    cached_size = 0;
  }

  pub record IsValid (m : MappedField) : Type 0 where
    pub valid_key : OptAll L.IsUtf8 m.key
    pub valid_value : OptAll (ConfigValueLaws.codec L).IsValid m.value
    pub no_unknown : m.unknown_fields ≡ P.no_fields

  pub compute_size-Sizes : (m : MappedField) → Sizes (compute_size m).0 (encode m)
  unfolding compute_size encode
  compute_size-Sizes m = wrap32-Sizes (
      append-Sizes (opt-Sizes (text-Sizes L 1) m.key) (
        append-Sizes
          (opt_message-Sizes L (ConfigValueLaws.codec L) 1 2
            (L.length-tag 2 length_delimited (omega arith) (omega arith)) m.value)
          (unknown-Sizes L m.unknown_fields)))

  pub write_to_writes :
      (m : MappedField) → Writes (write_to_with_cached_sizes (compute_size m).1) (encode m)
  unfolding compute_size write_to_with_cached_sizes encode
  write_to_writes m = append-Writes (opt-Writes (text-Writes L 1) m.key) (
      append-Writes (opt_message-Writes L (ConfigValueLaws.codec L) 1 2 m.value)
        (unknown-Writes L m.unknown_fields))

  message-Parses : (m : MappedField) → IsValid m → Parses merge_field new (encode m) (fresh m)
  unfolding merge_field expect new encode fresh
  message-Parses m v =
      append-Parses
        (record {
          parse =
              singular_string_reads L merge_field 1 (omega arith)
                (λ v. record {
                  key = v;
                  value = none;
                  unknown_fields = P.no_fields;
                  cached_size = 0;
                })
                (λ is. refl) m.key v.valid_key;
        })
        (append-Parses
          (record {
            parse =
                singular_message_reads L (ConfigValueLaws.codec L) merge_field 2 (omega arith)
                  (λ v. record {
                    key = m.key;
                    value = v;
                    unknown_fields = P.no_fields;
                    cached_size = 0;
                  })
                  (λ is. refl) m.value v.valid_value;
          })
          (record {
            parse = λ h. unknown_reads L merge_field (fresh m) m.unknown_fields v.no_unknown;
          }))

  pub cached : (m : MappedField) → get_cached_size (compute_size m).1 ≡ (compute_size m).0
  unfolding get_cached_size compute_size
  cached m = refl

  pub merged :
      (m : MappedField) → IsValid m → Fits (encode m) → merge_from new (encode m) ≡ ok (fresh m, [])
  unfolding merge_from
  merged m v h = merge_loop-reads L ((message-Parses m v).parse h)

  pub initialized_fresh : (m : MappedField) → is_initialized (fresh m) ≡ is_initialized m
  unfolding is_initialized fresh ConfigValue.message
  initialized_fresh m = rw (
      opt_initialized-opt_map (ConfigValueLaws.codec L).fresh ConfigValue.is_initialized
        (ConfigValueLaws.codec L).is_initialized-fresh m.value)

  pub encode_sized : (m : MappedField) → encode (compute_size m).1 ≡ encode m
  unfolding compute_size encode
  encode_sized m = rw (opt-sized L (ConfigValueLaws.codec L) 1 2 m.value)

  pub initialized_sized : (m : MappedField) → is_initialized (compute_size m).1 ≡ is_initialized m
  unfolding compute_size is_initialized ConfigValue.message
  initialized_sized m = rw (opt_initialized-sized L (ConfigValueLaws.codec L) 1 m.value)

  unfoldable pub codec : IsCodec message
  unfolding message encode fresh
  codec = record {
    encode = encode;
    fresh = fresh;
    IsValid = IsValid;
    is_initialized-fresh = initialized_fresh;
    encode-compute_size = encode_sized;
    is_initialized-compute_size = initialized_sized;
    compute_size_lem = compute_size-Sizes;
    get_cached_size_lem = cached;
    write_lem = write_to_writes;
    merge_from_lem = λ m v h. merged m v h;
  }
