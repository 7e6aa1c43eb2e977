-- ===== src/Ctl/BlameResponse/Laws.antt =====
-- The codec of `BlameResponse`: its size, its bytes and its parser agree.
use sysadmin.Base.{[], ◌++◌, map, All, OptAll, ◌≡◌, refl, ok, arith}
use sysadmin.Protobuf.{Bytes, length_delimited, Protobuf}
use sysadmin.Protobuf.Laws.{IsLawful, Fits}
use sysadmin.Wire.{expect}
use sysadmin.Wire.Sized.{each-sized, all_initialized-sized}
use sysadmin.Wire.Initialized.{all_initialized-map}
use sysadmin.Wire.Codec.{IsCodec, Sizes, Writes}
use sysadmin.Wire.Sizes.{
  opt, each, wrap32-Sizes, append-Sizes, opt-Sizes, message_bytes, each_message-Sizes,
}
use sysadmin.Wire.Kinds.{text_bytes, text-Sizes, unknown-Sizes, text-Writes, unknown-Writes}
use sysadmin.Wire.Writes.{append-Writes, opt-Writes, each_message-Writes}
use sysadmin.Wire.Reads.{Parses, append-Parses, merge_loop-reads}
use sysadmin.Wire.Reads.Fields.{unknown_reads, singular_string_reads}
use sysadmin.Wire.Reads.Messages.{repeated_message_reads}
use sysadmin.Ctl.BlameEntry.Laws as BlameEntryLaws
use sysadmin.Ctl.BlameEntry
use sysadmin.Ctl.BlameResponse.{
  BlameResponse, new, is_initialized, merge_field, merge_from, compute_size,
  write_to_with_cached_sizes, get_cached_size, message,
}

module _ ⦃P : Protobuf⦄ (L : IsLawful P) where
  unfoldable pub encode : BlameResponse → Bytes
  encode m =
      opt (text_bytes L 1) m.key
      ++ (each (message_bytes L (BlameEntryLaws.codec L).encode 2) m.entries
          ++ L.unknown m.unknown_fields)

  unfoldable pub fresh : BlameResponse → BlameResponse
  fresh m = record {
    key = m.key;
    entries = map (BlameEntryLaws.codec L).fresh m.entries;
    unknown_fields = P.no_fields;
    cached_size = 0;
  }

  pub record IsValid (m : BlameResponse) : Type 0 where
    pub valid_key : OptAll L.IsUtf8 m.key
    pub valid_entries : All (BlameEntryLaws.codec L).IsValid m.entries
    pub no_unknown : m.unknown_fields ≡ P.no_fields

  pub compute_size-Sizes : (m : BlameResponse) → Sizes (compute_size m).0 (encode m)
  unfolding compute_size encode
  compute_size-Sizes m = wrap32-Sizes (
      append-Sizes (opt-Sizes (text-Sizes L 1) m.key) (
        append-Sizes
          (each_message-Sizes L (BlameEntryLaws.codec L) 1 2
            (L.length-tag 2 length_delimited (omega arith) (omega arith)) m.entries)
          (unknown-Sizes L m.unknown_fields)))

  pub write_to_writes :
      (m : BlameResponse) → Writes (write_to_with_cached_sizes (compute_size m).1) (encode m)
  unfolding compute_size write_to_with_cached_sizes encode
  write_to_writes m = append-Writes (opt-Writes (text-Writes L 1) m.key) (
      append-Writes (each_message-Writes L (BlameEntryLaws.codec L) 1 2 m.entries)
        (unknown-Writes L m.unknown_fields))

  message-Parses : (m : BlameResponse) → IsValid m → Parses merge_field new (encode m) (fresh m)
  unfolding merge_field expect new encode fresh
  message-Parses m v =
      append-Parses
        (record {
          parse =
              singular_string_reads L merge_field 1 (omega arith)
                (λ v. record {
                  key = v;
                  entries = [];
                  unknown_fields = P.no_fields;
                  cached_size = 0;
                })
                (λ is. refl) m.key v.valid_key;
        })
        (append-Parses
          (record {
            parse =
                repeated_message_reads L (BlameEntryLaws.codec L) merge_field 2 (omega arith)
                  (λ v. record {
                    key = m.key;
                    entries = v;
                    unknown_fields = P.no_fields;
                    cached_size = 0;
                  })
                  (λ is ms. refl) m.entries v.valid_entries;
          })
          (record {
            parse = λ h. unknown_reads L merge_field (fresh m) m.unknown_fields v.no_unknown;
          }))

  pub cached : (m : BlameResponse) → get_cached_size (compute_size m).1 ≡ (compute_size m).0
  unfolding get_cached_size compute_size
  cached m = refl

  pub merged :
      (m : BlameResponse)
      → IsValid m
      → Fits (encode m)
      → merge_from new (encode m) ≡ ok (fresh m, [])
  unfolding merge_from
  merged m v h = merge_loop-reads L ((message-Parses m v).parse h)

  pub initialized_fresh : (m : BlameResponse) → is_initialized (fresh m) ≡ is_initialized m
  unfolding is_initialized fresh BlameEntry.message
  initialized_fresh m = rw (
      all_initialized-map (BlameEntryLaws.codec L).fresh BlameEntry.is_initialized
        (BlameEntryLaws.codec L).is_initialized-fresh m.entries)

  pub encode_sized : (m : BlameResponse) → encode (compute_size m).1 ≡ encode m
  unfolding compute_size encode
  encode_sized m = rw (each-sized L (BlameEntryLaws.codec L) 1 2 m.entries)

  pub initialized_sized : (m : BlameResponse) → is_initialized (compute_size m).1 ≡ is_initialized m
  unfolding compute_size is_initialized BlameEntry.message
  initialized_sized m = rw (all_initialized-sized L (BlameEntryLaws.codec L) 1 m.entries)

  unfoldable pub codec : IsCodec message
  unfolding message encode fresh
  codec = record {
    encode = encode;
    fresh = fresh;
    IsValid = IsValid;
    is_initialized-fresh = initialized_fresh;
    encode-compute_size = encode_sized;
    is_initialized-compute_size = initialized_sized;
    compute_size_lem = compute_size-Sizes;
    get_cached_size_lem = cached;
    write_lem = write_to_writes;
    merge_from_lem = λ m v h. merged m v h;
  }
