-- ===== src/Ctl/InFlightResponse.antt =====
-- `InFlightResponse`: clients/rust/src/sysadminctl.rs, lines 5770 to 5937.
pub mod Laws
pub mod Totals
use sysadmin.Base.{
  ℕ, suc, ◌+◌, ℤ, pos, Bool, true, false, ◌&&◌, Option, none, some, is_some, unwrap_or, List, [],
  length, Result, ok, ◌>>=◌, ◌==◌, if◌then◌else◌,
}
use sysadmin.Protobuf.{Bytes, Text, WireType, varint, length_delimited, Message, Protobuf}
use sysadmin.Wire.{
  wrap32, opt_size, sum_size, write_opt, write_each, all_initialized, opt_initialized, expect,
  merge_loop, message_size, opt_message_size, sum_message_size, write_message,
}
use sysadmin.Ctl.MappedField
use sysadmin.Ctl.MappedField.{MappedField}

module _ ⦃P : Protobuf⦄ where
  pub record InFlightResponse : Type 0 where
    pub kvs : List MappedField
    pub unknown_fields : P.UnknownFields
    pub cached_size : ℕ

  unfoldable pub new : InFlightResponse
  new = record { kvs = []; unknown_fields = P.no_fields; cached_size = 0 }

  unfoldable pub clear_kvs : InFlightResponse → InFlightResponse
  clear_kvs m = record m { kvs = [] }

  unfoldable pub set_kvs : InFlightResponse → List MappedField → InFlightResponse
  set_kvs m v = record m { kvs = v }

  unfoldable pub take_kvs : InFlightResponse → List MappedField × InFlightResponse
  take_kvs m = (m.kvs, record m { kvs = [] })

  unfoldable pub get_kvs : InFlightResponse → List MappedField
  get_kvs m = m.kvs

  unfoldable pub is_initialized : InFlightResponse → Bool
  is_initialized m = all_initialized MappedField.is_initialized m.kvs

  merge_field :
      ℕ → WireType → InFlightResponse → Bytes → Result P.ProtobufError (InFlightResponse × Bytes)
  merge_field field_number wire_type m is =
      if field_number == 1
      then (do
        (tmp, is') ← P.read_repeated_message_into MappedField.message wire_type is m.kvs
        ok (record m { kvs = tmp }, is'))
      else (do
        (tmp, is') ← P.read_unknown_or_skip_group field_number wire_type is m.unknown_fields
        ok (record m { unknown_fields = tmp }, is'))

  -- A round takes a byte at least, and the last one sees the end of the stream.
  unfoldable pub merge_from :
      InFlightResponse → Bytes → Result P.ProtobufError (InFlightResponse × Bytes)
  unfolding merge_field
  merge_from m is = merge_loop merge_field (suc (length is)) m is

  unfoldable pub compute_size : InFlightResponse → ℕ × InFlightResponse
  compute_size m =
      let my_size = wrap32 (
        (sum_message_size MappedField.message 1 m.kvs).0
        + P.unknown_fields_size m.unknown_fields) in
      (
        my_size,
        record m { kvs = (sum_message_size MappedField.message 1 m.kvs).1; cached_size = my_size },
      )

  unfoldable pub write_to_with_cached_sizes :
      InFlightResponse → Bytes → Result P.ProtobufError Bytes
  write_to_with_cached_sizes m os = do
    os1 ← write_each (write_message MappedField.message 1) m.kvs os
    P.write_unknown_fields m.unknown_fields os1

  unfoldable pub get_cached_size : InFlightResponse → ℕ
  get_cached_size m = m.cached_size

  unfoldable pub message : Message P.ProtobufError InFlightResponse
  unfolding new is_initialized merge_from compute_size write_to_with_cached_sizes get_cached_size
  message = record {
    default = new;
    is_initialized = is_initialized;
    merge_from = merge_from;
    compute_size = compute_size;
    write_to_with_cached_sizes = write_to_with_cached_sizes;
    get_cached_size = get_cached_size;
  }
