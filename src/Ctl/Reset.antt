-- ===== src/Ctl/Reset.antt =====
-- `Reset`: clients/rust/src/sysadminctl.rs, lines 2305 to 2414.
pub mod Laws
pub mod Totals
use sysadmin.Base.{
  ℕ, suc, ◌+◌, ℤ, pos, Bool, true, false, ◌&&◌, Option, none, some, is_some, unwrap_or, List, [],
  length, Result, ok, ◌>>=◌, ◌==◌, if◌then◌else◌,
}
use sysadmin.Protobuf.{Bytes, Text, WireType, varint, length_delimited, Message, Protobuf}
use sysadmin.Wire.{
  wrap32, opt_size, sum_size, write_opt, write_each, all_initialized, opt_initialized, expect,
  merge_loop, message_size, opt_message_size, sum_message_size, write_message,
}

module _ ⦃P : Protobuf⦄ where
  pub record Reset : Type 0 where
    pub unknown_fields : P.UnknownFields
    pub cached_size : ℕ

  unfoldable pub new : Reset
  new = record { unknown_fields = P.no_fields; cached_size = 0 }

  unfoldable pub is_initialized : Reset → Bool
  is_initialized m = true

  merge_field : ℕ → WireType → Reset → Bytes → Result P.ProtobufError (Reset × Bytes)
  merge_field field_number wire_type m is = (do
    (tmp, is') ← P.read_unknown_or_skip_group field_number wire_type is m.unknown_fields
    ok (record m { unknown_fields = tmp }, is'))

  -- A round takes a byte at least, and the last one sees the end of the stream.
  unfoldable pub merge_from : Reset → Bytes → Result P.ProtobufError (Reset × Bytes)
  unfolding merge_field
  merge_from m is = merge_loop merge_field (suc (length is)) m is

  unfoldable pub compute_size : Reset → ℕ × Reset
  compute_size m =
      let my_size = wrap32 (P.unknown_fields_size m.unknown_fields) in
      (my_size, record m { cached_size = my_size })

  unfoldable pub write_to_with_cached_sizes : Reset → Bytes → Result P.ProtobufError Bytes
  write_to_with_cached_sizes m os = P.write_unknown_fields m.unknown_fields os

  unfoldable pub get_cached_size : Reset → ℕ
  get_cached_size m = m.cached_size

  unfoldable pub message : Message P.ProtobufError Reset
  unfolding new is_initialized merge_from compute_size write_to_with_cached_sizes get_cached_size
  message = record {
    default = new;
    is_initialized = is_initialized;
    merge_from = merge_from;
    compute_size = compute_size;
    write_to_with_cached_sizes = write_to_with_cached_sizes;
    get_cached_size = get_cached_size;
  }
