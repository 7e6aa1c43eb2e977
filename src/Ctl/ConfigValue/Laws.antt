-- ===== src/Ctl/ConfigValue/Laws.antt =====
-- The codec of `ConfigValue`: its size, its bytes and its parser agree.
pub mod Value
pub mod Reads
pub mod Sized
use sysadmin.Base.{true, IsI32, Option, none, some, [], ◌++◌, OptAll, opt_map, ◌≡◌, refl, ok, arith}
use sysadmin.Protobuf.{Bytes, varint, length_delimited, Protobuf}
use sysadmin.Protobuf.Laws.{IsLawful, Fits}
use sysadmin.Wire.{expect, write_opt, opt_initialized, message_size}
use sysadmin.Wire.Sized.{message_bytes-sized}
use sysadmin.Wire.Initialized.{opt_initialized-opt_map}
use sysadmin.Wire.Codec.{IsCodec, Sizes, Writes}
use sysadmin.Wire.Sizes.{
  Fits-right, opt, wrap32-Sizes, append-Sizes, nil-Sizes, message_bytes, message-Sizes,
}
use sysadmin.Wire.Kinds.{
  i32_bytes, bool_bytes, text_bytes, i32-Sizes, bool-Sizes, text-Sizes, unknown-Sizes, i32-Writes,
  bool-Writes, text-Writes, unknown-Writes,
}
use sysadmin.Wire.Writes.{append-Writes, nil-Writes, message-Writes}
use sysadmin.Wire.Reads.{Parses, append-Parses, nil-Parses, merge_loop-reads}
use sysadmin.Wire.Reads.Fields.{small_reads, unknown_reads}
use sysadmin.Wire.Reads.Messages.{oneof_message_reads}
use sysadmin.Ctl.Int32List.Laws as Int32ListLaws
use sysadmin.Ctl.BoolList.Laws as BoolListLaws
use sysadmin.Ctl.StringList.Laws as StringListLaws
use sysadmin.Ctl.Int32List
use sysadmin.Ctl.BoolList
use sysadmin.Ctl.StringList
use sysadmin.Ctl.ConfigValue.{
  ConfigValue, new, is_initialized, merge_field, merge_from, compute_size,
  write_to_with_cached_sizes, get_cached_size, message, value_initialized, ConfigValueOneofValue,
  int32val, strval, boolval, int32list, boollist, stringlist, value_size, write_value,
}
use sysadmin.Ctl.ConfigValue.Laws.Value.{
  value_bytes, fresh_value, IsValidValue, value-Sizes, value-Writes,
}
use sysadmin.Ctl.ConfigValue.Laws.Reads.{with_value, value-Parses}
use sysadmin.Ctl.ConfigValue.Laws.Sized.{
  value_initialized-fresh, value_bytes-sized, value_initialized-sized,
}

module _ ⦃P : Protobuf⦄ (L : IsLawful P) where
  unfoldable pub encode : ConfigValue → Bytes
  unfolding value_bytes
  encode m = opt (value_bytes L) m.value ++ L.unknown m.unknown_fields

  unfoldable pub fresh : ConfigValue → ConfigValue
  unfolding fresh_value
  fresh m = record {
    value = opt_map (fresh_value L) m.value;
    unknown_fields = P.no_fields;
    cached_size = 0;
  }

  pub record IsValid (m : ConfigValue) : Type 0 where
    pub valid_value : OptAll (IsValidValue L) m.value
    pub no_unknown : m.unknown_fields ≡ P.no_fields

  pub compute_size-Sizes : (m : ConfigValue) → Sizes (compute_size m).0 (encode m)
  unfolding compute_size encode
  compute_size-Sizes m =
      wrap32-Sizes (append-Sizes (value-Sizes L m.value) (unknown-Sizes L m.unknown_fields))

  pub write_to_writes :
      (m : ConfigValue) → Writes (write_to_with_cached_sizes (compute_size m).1) (encode m)
  unfolding compute_size write_to_with_cached_sizes encode
  write_to_writes m = append-Writes (value-Writes L m.value) (unknown-Writes L m.unknown_fields)

  message-Parses : (m : ConfigValue) → IsValid m → Parses merge_field new (encode m) (fresh m)
  unfolding merge_field expect new encode fresh with_value
  message-Parses m v =
      append-Parses (value-Parses L m.value v.valid_value) (record {
        parse = λ h. unknown_reads L merge_field (fresh m) m.unknown_fields v.no_unknown;
      })

  pub cached : (m : ConfigValue) → get_cached_size (compute_size m).1 ≡ (compute_size m).0
  unfolding get_cached_size compute_size
  cached m = refl

  pub merged :
      (m : ConfigValue) → IsValid m → Fits (encode m) → merge_from new (encode m) ≡ ok (fresh m, [])
  unfolding merge_from
  merged m v h = merge_loop-reads L ((message-Parses m v).parse h)

  pub initialized_fresh : (m : ConfigValue) → is_initialized (fresh m) ≡ is_initialized m
  unfolding is_initialized fresh
  initialized_fresh m = rw (
      opt_initialized-opt_map (fresh_value L) value_initialized (value_initialized-fresh L) m.value)

  pub encode_sized : (m : ConfigValue) → encode (compute_size m).1 ≡ encode m
  unfolding compute_size encode
  encode_sized m = rw (value_bytes-sized L m.value)

  pub initialized_sized : (m : ConfigValue) → is_initialized (compute_size m).1 ≡ is_initialized m
  unfolding compute_size is_initialized
  initialized_sized m = rw (value_initialized-sized L m.value)

  unfoldable pub codec : IsCodec message
  unfolding message encode fresh
  codec = record {
    encode = encode;
    fresh = fresh;
    IsValid = IsValid;
    is_initialized-fresh = initialized_fresh;
    encode-compute_size = encode_sized;
    is_initialized-compute_size = initialized_sized;
    compute_size_lem = compute_size-Sizes;
    get_cached_size_lem = cached;
    write_lem = write_to_writes;
    merge_from_lem = λ m v h. merged m v h;
  }
