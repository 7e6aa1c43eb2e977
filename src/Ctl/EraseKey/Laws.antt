-- ===== src/Ctl/EraseKey/Laws.antt =====
-- The codec of `EraseKey`: its size, its bytes and its parser agree.
use sysadmin.Base.{[], ◌++◌, OptAll, ◌≡◌, refl, ok, arith}
use sysadmin.Protobuf.{Bytes, Protobuf}
use sysadmin.Protobuf.Laws.{IsLawful, Fits}
use sysadmin.Wire.{expect}
use sysadmin.Wire.Codec.{IsCodec, Sizes, Writes}
use sysadmin.Wire.Sizes.{opt, wrap32-Sizes, append-Sizes, opt-Sizes}
use sysadmin.Wire.Kinds.{text_bytes, text-Sizes, unknown-Sizes, text-Writes, unknown-Writes}
use sysadmin.Wire.Writes.{append-Writes, opt-Writes}
use sysadmin.Wire.Reads.{Parses, append-Parses, merge_loop-reads}
use sysadmin.Wire.Reads.Fields.{unknown_reads, singular_string_reads}
use sysadmin.Ctl.EraseKey.{
  EraseKey, new, is_initialized, merge_field, merge_from, compute_size, write_to_with_cached_sizes,
  get_cached_size, message,
}

module _ ⦃P : Protobuf⦄ (L : IsLawful P) where
  unfoldable pub encode : EraseKey → Bytes
  encode m = opt (text_bytes L 1) m.key ++ L.unknown m.unknown_fields

  unfoldable pub fresh : EraseKey → EraseKey
  fresh m = record { key = m.key; unknown_fields = P.no_fields; cached_size = 0 }

  pub record IsValid (m : EraseKey) : Type 0 where
    pub valid_key : OptAll L.IsUtf8 m.key
    pub no_unknown : m.unknown_fields ≡ P.no_fields

  pub compute_size-Sizes : (m : EraseKey) → Sizes (compute_size m).0 (encode m)
  unfolding compute_size encode
  compute_size-Sizes m =
      wrap32-Sizes
        (append-Sizes (opt-Sizes (text-Sizes L 1) m.key) (unknown-Sizes L m.unknown_fields))

  pub write_to_writes :
      (m : EraseKey) → Writes (write_to_with_cached_sizes (compute_size m).1) (encode m)
  unfolding compute_size write_to_with_cached_sizes encode
  write_to_writes m =
      append-Writes (opt-Writes (text-Writes L 1) m.key) (unknown-Writes L m.unknown_fields)

  message-Parses : (m : EraseKey) → IsValid m → Parses merge_field new (encode m) (fresh m)
  unfolding merge_field expect new encode fresh
  message-Parses m v =
      append-Parses
        (record {
          parse =
              singular_string_reads L merge_field 1 (omega arith)
                (λ v. record { key = v; unknown_fields = P.no_fields; cached_size = 0 })
                (λ is. refl) m.key v.valid_key;
        })
        (record {
          parse = λ h. unknown_reads L merge_field (fresh m) m.unknown_fields v.no_unknown;
        })

  pub cached : (m : EraseKey) → get_cached_size (compute_size m).1 ≡ (compute_size m).0
  unfolding get_cached_size compute_size
  cached m = refl

  pub merged :
      (m : EraseKey) → IsValid m → Fits (encode m) → merge_from new (encode m) ≡ ok (fresh m, [])
  unfolding merge_from
  merged m v h = merge_loop-reads L ((message-Parses m v).parse h)

  pub initialized_fresh : (m : EraseKey) → is_initialized (fresh m) ≡ is_initialized m
  unfolding is_initialized fresh
  initialized_fresh m = refl

  pub encode_sized : (m : EraseKey) → encode (compute_size m).1 ≡ encode m
  unfolding compute_size encode
  encode_sized m = refl

  pub initialized_sized : (m : EraseKey) → is_initialized (compute_size m).1 ≡ is_initialized m
  unfolding compute_size is_initialized
  initialized_sized m = refl

  unfoldable pub codec : IsCodec message
  unfolding message encode fresh
  codec = record {
    encode = encode;
    fresh = fresh;
    IsValid = IsValid;
    is_initialized-fresh = initialized_fresh;
    encode-compute_size = encode_sized;
    is_initialized-compute_size = initialized_sized;
    compute_size_lem = compute_size-Sizes;
    get_cached_size_lem = cached;
    write_lem = write_to_writes;
    merge_from_lem = λ m v h. merged m v h;
  }
