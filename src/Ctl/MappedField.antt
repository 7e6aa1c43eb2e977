-- ===== src/Ctl/MappedField.antt =====
-- `MappedField`: clients/rust/src/sysadminctl.rs, lines 4207 to 4445.
pub mod Laws
pub mod Totals
use sysadmin.Base.{
  ℕ, suc, ◌+◌, ℤ, pos, Bool, true, false, ◌&&◌, Option, none, some, is_some, unwrap_or, List, [],
  length, Result, ok, ◌>>=◌, ◌==◌, if◌then◌else◌,
}
use sysadmin.Protobuf.{Bytes, Text, WireType, varint, length_delimited, Message, Protobuf}
use sysadmin.Wire.{
  wrap32, opt_size, sum_size, write_opt, write_each, all_initialized, opt_initialized, expect,
  merge_loop, message_size, opt_message_size, sum_message_size, write_message,
}
use sysadmin.Ctl.ConfigValue
use sysadmin.Ctl.ConfigValue.{ConfigValue}

module _ ⦃P : Protobuf⦄ where
  pub record MappedField : Type 0 where
    pub key : Option Text
    pub value : Option ConfigValue
    pub unknown_fields : P.UnknownFields
    pub cached_size : ℕ

  unfoldable pub new : MappedField
  new = record { key = none; value = none; unknown_fields = P.no_fields; cached_size = 0 }

  unfoldable pub clear_key : MappedField → MappedField
  clear_key m = record m { key = none }

  unfoldable pub has_key : MappedField → Bool
  has_key m = is_some m.key

  unfoldable pub set_key : MappedField → Text → MappedField
  set_key m v = record m { key = some v }

  unfoldable pub take_key : MappedField → Text × MappedField
  take_key m = (unwrap_or m.key [], record m { key = none })

  unfoldable pub get_key : MappedField → Text
  get_key m = unwrap_or m.key []

  unfoldable pub clear_value : MappedField → MappedField
  clear_value m = record m { value = none }

  unfoldable pub has_value : MappedField → Bool
  has_value m = is_some m.value

  unfoldable pub set_value : MappedField → ConfigValue → MappedField
  set_value m v = record m { value = some v }

  unfoldable pub take_value : MappedField → ConfigValue × MappedField
  take_value m = (unwrap_or m.value ConfigValue.new, record m { value = none })

  unfoldable pub get_value : MappedField → ConfigValue
  get_value m = unwrap_or m.value ConfigValue.new

  unfoldable pub is_initialized : MappedField → Bool
  is_initialized m =
      if is_some m.key then (opt_initialized ConfigValue.is_initialized m.value) else false

  merge_field : ℕ → WireType → MappedField → Bytes → Result P.ProtobufError (MappedField × Bytes)
  merge_field field_number wire_type m is =
      if field_number == 1
      then (do
        (tmp, is') ← P.read_singular_string_into wire_type is m.key
        ok (record m { key = tmp }, is'))
      else if field_number == 2
      then (do
        (tmp, is') ← P.read_singular_message_into ConfigValue.message wire_type is m.value
        ok (record m { value = tmp }, is'))
      else (do
        (tmp, is') ← P.read_unknown_or_skip_group field_number wire_type is m.unknown_fields
        ok (record m { unknown_fields = tmp }, is'))

  -- A round takes a byte at least, and the last one sees the end of the stream.
  unfoldable pub merge_from : MappedField → Bytes → Result P.ProtobufError (MappedField × Bytes)
  unfolding merge_field
  merge_from m is = merge_loop merge_field (suc (length is)) m is

  unfoldable pub compute_size : MappedField → ℕ × MappedField
  compute_size m =
      let my_size = wrap32 (
        opt_size (P.string_size 1) m.key
        + ((opt_message_size ConfigValue.message 1 m.value).0
            + P.unknown_fields_size m.unknown_fields)) in
      (
        my_size,
        record m {
          value = (opt_message_size ConfigValue.message 1 m.value).1;
          cached_size = my_size;
        },
      )

  unfoldable pub write_to_with_cached_sizes : MappedField → Bytes → Result P.ProtobufError Bytes
  write_to_with_cached_sizes m os = do
    os1 ← write_opt (P.write_string 1) m.key os
    os2 ← write_opt (write_message ConfigValue.message 2) m.value os1
    P.write_unknown_fields m.unknown_fields os2

  unfoldable pub get_cached_size : MappedField → ℕ
  get_cached_size m = m.cached_size

  unfoldable pub message : Message P.ProtobufError MappedField
  unfolding new is_initialized merge_from compute_size write_to_with_cached_sizes get_cached_size
  message = record {
    default = new;
    is_initialized = is_initialized;
    merge_from = merge_from;
    compute_size = compute_size;
    write_to_with_cached_sizes = write_to_with_cached_sizes;
    get_cached_size = get_cached_size;
  }
