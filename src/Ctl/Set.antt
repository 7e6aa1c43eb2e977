-- ===== src/Ctl/Set.antt =====
-- `Set`: clients/rust/src/sysadminctl.rs, lines 1071 to 1312.
pub mod Laws
pub mod Totals
use sysadmin.Base.{
  ℕ, suc, ◌+◌, ℤ, pos, Bool, true, false, ◌&&◌, Option, none, some, is_some, unwrap_or, List, [],
  length, Result, ok, ◌>>=◌, ◌==◌, if◌then◌else◌,
}
use sysadmin.Protobuf.{Bytes, Text, WireType, varint, length_delimited, Message, Protobuf}
use sysadmin.Wire.{
  wrap32, opt_size, sum_size, write_opt, write_each, all_initialized, opt_initialized, expect,
  merge_loop, message_size, opt_message_size, sum_message_size, write_message,
}
use sysadmin.Ctl.ConfigValue
use sysadmin.Ctl.ConfigValue.{ConfigValue}

module _ ⦃P : Protobuf⦄ where
  pub record Set : Type 0 where
    pub key : Option Text
    pub value : Option ConfigValue
    pub unknown_fields : P.UnknownFields
    pub cached_size : ℕ

  unfoldable pub new : Set
  new = record { key = none; value = none; unknown_fields = P.no_fields; cached_size = 0 }

  unfoldable pub clear_key : Set → Set
  clear_key m = record m { key = none }

  unfoldable pub has_key : Set → Bool
  has_key m = is_some m.key

  unfoldable pub set_key : Set → Text → Set
  set_key m v = record m { key = some v }

  unfoldable pub take_key : Set → Text × Set
  take_key m = (unwrap_or m.key [], record m { key = none })

  unfoldable pub get_key : Set → Text
  get_key m = unwrap_or m.key []

  unfoldable pub clear_value : Set → Set
  clear_value m = record m { value = none }

  unfoldable pub has_value : Set → Bool
  has_value m = is_some m.value

  unfoldable pub set_value : Set → ConfigValue → Set
  set_value m v = record m { value = some v }

  unfoldable pub take_value : Set → ConfigValue × Set
  take_value m = (unwrap_or m.value ConfigValue.new, record m { value = none })

  unfoldable pub get_value : Set → ConfigValue
  get_value m = unwrap_or m.value ConfigValue.new

  unfoldable pub is_initialized : Set → Bool
  is_initialized m =
      if is_some m.key
      then (if is_some m.value then (opt_initialized ConfigValue.is_initialized m.value) else false)
      else false

  merge_field : ℕ → WireType → Set → Bytes → Result P.ProtobufError (Set × Bytes)
  merge_field field_number wire_type m is =
      if field_number == 1
      then (do
        (tmp, is') ← P.read_singular_string_into wire_type is m.key
        ok (record m { key = tmp }, is'))
      else if field_number == 2
      then (do
        (tmp, is') ← P.read_singular_message_into ConfigValue.message wire_type is m.value
        ok (record m { value = tmp }, is'))
      else (do
        (tmp, is') ← P.read_unknown_or_skip_group field_number wire_type is m.unknown_fields
        ok (record m { unknown_fields = tmp }, is'))

  -- A round takes a byte at least, and the last one sees the end of the stream.
  unfoldable pub merge_from : Set → Bytes → Result P.ProtobufError (Set × Bytes)
  unfolding merge_field
  merge_from m is = merge_loop merge_field (suc (length is)) m is

  unfoldable pub compute_size : Set → ℕ × Set
  compute_size m =
      let my_size = wrap32 (
        opt_size (P.string_size 1) m.key
        + ((opt_message_size ConfigValue.message 1 m.value).0
            + P.unknown_fields_size m.unknown_fields)) in
      (
        my_size,
        record m {
          value = (opt_message_size ConfigValue.message 1 m.value).1;
          cached_size = my_size;
        },
      )

  unfoldable pub write_to_with_cached_sizes : Set → Bytes → Result P.ProtobufError Bytes
  write_to_with_cached_sizes m os = do
    os1 ← write_opt (P.write_string 1) m.key os
    os2 ← write_opt (write_message ConfigValue.message 2) m.value os1
    P.write_unknown_fields m.unknown_fields os2

  unfoldable pub get_cached_size : Set → ℕ
  get_cached_size m = m.cached_size

  unfoldable pub message : Message P.ProtobufError Set
  unfolding new is_initialized merge_from compute_size write_to_with_cached_sizes get_cached_size
  message = record {
    default = new;
    is_initialized = is_initialized;
    merge_from = merge_from;
    compute_size = compute_size;
    write_to_with_cached_sizes = write_to_with_cached_sizes;
    get_cached_size = get_cached_size;
  }
