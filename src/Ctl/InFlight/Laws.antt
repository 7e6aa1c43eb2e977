-- ===== src/Ctl/InFlight/Laws.antt =====
-- The codec of `InFlight`: its size, its bytes and its parser agree.
use sysadmin.Base.{[], ◌≡◌, refl, ok}
use sysadmin.Protobuf.{Bytes, Protobuf}
use sysadmin.Protobuf.Laws.{IsLawful, Fits}
use sysadmin.Wire.{expect}
use sysadmin.Wire.Codec.{IsCodec, Sizes, Writes}
use sysadmin.Wire.Sizes.{wrap32-Sizes}
use sysadmin.Wire.Kinds.{unknown-Sizes, unknown-Writes}
use sysadmin.Wire.Reads.{Parses, merge_loop-reads}
use sysadmin.Wire.Reads.Fields.{unknown_reads}
use sysadmin.Ctl.InFlight.{
  InFlight, new, is_initialized, merge_field, merge_from, compute_size, write_to_with_cached_sizes,
  get_cached_size, message,
}

module _ ⦃P : Protobuf⦄ (L : IsLawful P) where
  unfoldable pub encode : InFlight → Bytes
  encode m = L.unknown m.unknown_fields

  unfoldable pub fresh : InFlight → InFlight
  fresh m = record { unknown_fields = P.no_fields; cached_size = 0 }

  pub record IsValid (m : InFlight) : Type 0 where
    pub no_unknown : m.unknown_fields ≡ P.no_fields

  pub compute_size-Sizes : (m : InFlight) → Sizes (compute_size m).0 (encode m)
  unfolding compute_size encode
  compute_size-Sizes m = wrap32-Sizes (unknown-Sizes L m.unknown_fields)

  pub write_to_writes :
      (m : InFlight) → Writes (write_to_with_cached_sizes (compute_size m).1) (encode m)
  unfolding compute_size write_to_with_cached_sizes encode
  write_to_writes m = unknown-Writes L m.unknown_fields

  message-Parses : (m : InFlight) → IsValid m → Parses merge_field new (encode m) (fresh m)
  unfolding merge_field expect new encode fresh
  message-Parses m v = record {
    parse = λ h. unknown_reads L merge_field (fresh m) m.unknown_fields v.no_unknown;
  }

  pub cached : (m : InFlight) → get_cached_size (compute_size m).1 ≡ (compute_size m).0
  unfolding get_cached_size compute_size
  cached m = refl

  pub merged :
      (m : InFlight) → IsValid m → Fits (encode m) → merge_from new (encode m) ≡ ok (fresh m, [])
  unfolding merge_from
  merged m v h = merge_loop-reads L ((message-Parses m v).parse h)

  pub initialized_fresh : (m : InFlight) → is_initialized (fresh m) ≡ is_initialized m
  unfolding is_initialized fresh
  initialized_fresh m = refl

  pub encode_sized : (m : InFlight) → encode (compute_size m).1 ≡ encode m
  unfolding compute_size encode
  encode_sized m = refl

  pub initialized_sized : (m : InFlight) → is_initialized (compute_size m).1 ≡ is_initialized m
  unfolding compute_size is_initialized
  initialized_sized m = refl

  unfoldable pub codec : IsCodec message
  unfolding message encode fresh
  codec = record {
    encode = encode;
    fresh = fresh;
    IsValid = IsValid;
    is_initialized-fresh = initialized_fresh;
    encode-compute_size = encode_sized;
    is_initialized-compute_size = initialized_sized;
    compute_size_lem = compute_size-Sizes;
    get_cached_size_lem = cached;
    write_lem = write_to_writes;
    merge_from_lem = λ m v h. merged m v h;
  }
