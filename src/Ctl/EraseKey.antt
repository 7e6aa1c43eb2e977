-- ===== src/Ctl/EraseKey.antt =====
-- `EraseKey`: clients/rust/src/sysadminctl.rs, lines 2116 to 2289.
pub mod Laws
pub mod Totals
use sysadmin.Base.{
  ℕ, suc, ◌+◌, ℤ, pos, Bool, true, false, ◌&&◌, Option, none, some, is_some, unwrap_or, List, [],
  length, Result, ok, ◌>>=◌, ◌==◌, if◌then◌else◌,
}
use sysadmin.Protobuf.{Bytes, Text, WireType, varint, length_delimited, Message, Protobuf}
use sysadmin.Wire.{
  wrap32, opt_size, sum_size, write_opt, write_each, all_initialized, opt_initialized, expect,
  merge_loop, message_size, opt_message_size, sum_message_size, write_message,
}

module _ ⦃P : Protobuf⦄ where
  pub record EraseKey : Type 0 where
    pub key : Option Text
    pub unknown_fields : P.UnknownFields
    pub cached_size : ℕ

  unfoldable pub new : EraseKey
  new = record { key = none; unknown_fields = P.no_fields; cached_size = 0 }

  unfoldable pub clear_key : EraseKey → EraseKey
  clear_key m = record m { key = none }

  unfoldable pub has_key : EraseKey → Bool
  has_key m = is_some m.key

  unfoldable pub set_key : EraseKey → Text → EraseKey
  set_key m v = record m { key = some v }

  unfoldable pub take_key : EraseKey → Text × EraseKey
  take_key m = (unwrap_or m.key [], record m { key = none })

  unfoldable pub get_key : EraseKey → Text
  get_key m = unwrap_or m.key []

  unfoldable pub is_initialized : EraseKey → Bool
  is_initialized m = is_some m.key

  merge_field : ℕ → WireType → EraseKey → Bytes → Result P.ProtobufError (EraseKey × Bytes)
  merge_field field_number wire_type m is =
      if field_number == 1
      then (do
        (tmp, is') ← P.read_singular_string_into wire_type is m.key
        ok (record m { key = tmp }, is'))
      else (do
        (tmp, is') ← P.read_unknown_or_skip_group field_number wire_type is m.unknown_fields
        ok (record m { unknown_fields = tmp }, is'))

  -- A round takes a byte at least, and the last one sees the end of the stream.
  unfoldable pub merge_from : EraseKey → Bytes → Result P.ProtobufError (EraseKey × Bytes)
  unfolding merge_field
  merge_from m is = merge_loop merge_field (suc (length is)) m is

  unfoldable pub compute_size : EraseKey → ℕ × EraseKey
  compute_size m =
      let my_size =
        wrap32 (opt_size (P.string_size 1) m.key + P.unknown_fields_size m.unknown_fields) in
      (my_size, record m { cached_size = my_size })

  unfoldable pub write_to_with_cached_sizes : EraseKey → Bytes → Result P.ProtobufError Bytes
  write_to_with_cached_sizes m os = do
    os1 ← write_opt (P.write_string 1) m.key os
    P.write_unknown_fields m.unknown_fields os1

  unfoldable pub get_cached_size : EraseKey → ℕ
  get_cached_size m = m.cached_size

  unfoldable pub message : Message P.ProtobufError EraseKey
  unfolding new is_initialized merge_from compute_size write_to_with_cached_sizes get_cached_size
  message = record {
    default = new;
    is_initialized = is_initialized;
    merge_from = merge_from;
    compute_size = compute_size;
    write_to_with_cached_sizes = write_to_with_cached_sizes;
    get_cached_size = get_cached_size;
  }
