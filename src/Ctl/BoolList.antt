-- ===== src/Ctl/BoolList.antt =====
-- `BoolList`: clients/rust/src/sysadminctl.rs, lines 200 to 357.
pub mod Laws
pub mod Totals
use sysadmin.Base.{
  ℕ, suc, ◌+◌, ℤ, pos, Bool, true, false, ◌&&◌, Option, none, some, is_some, unwrap_or, List, [],
  length, Result, ok, ◌>>=◌, ◌==◌, if◌then◌else◌,
}
use sysadmin.Protobuf.{Bytes, Text, WireType, varint, length_delimited, Message, Protobuf}
use sysadmin.Wire.{
  wrap32, opt_size, sum_size, write_opt, write_each, all_initialized, opt_initialized, expect,
  merge_loop, message_size, opt_message_size, sum_message_size, write_message,
}

module _ ⦃P : Protobuf⦄ where
  pub record BoolList : Type 0 where
    pub list : List Bool
    pub unknown_fields : P.UnknownFields
    pub cached_size : ℕ

  unfoldable pub new : BoolList
  new = record { list = []; unknown_fields = P.no_fields; cached_size = 0 }

  unfoldable pub clear_list : BoolList → BoolList
  clear_list m = record m { list = [] }

  unfoldable pub set_list : BoolList → List Bool → BoolList
  set_list m v = record m { list = v }

  unfoldable pub take_list : BoolList → List Bool × BoolList
  take_list m = (m.list, record m { list = [] })

  unfoldable pub get_list : BoolList → List Bool
  get_list m = m.list

  unfoldable pub is_initialized : BoolList → Bool
  is_initialized m = true

  merge_field : ℕ → WireType → BoolList → Bytes → Result P.ProtobufError (BoolList × Bytes)
  merge_field field_number wire_type m is =
      if field_number == 1
      then (do
        (tmp, is') ← P.read_repeated_bool_into wire_type is m.list
        ok (record m { list = tmp }, is'))
      else (do
        (tmp, is') ← P.read_unknown_or_skip_group field_number wire_type is m.unknown_fields
        ok (record m { unknown_fields = tmp }, is'))

  -- A round takes a byte at least, and the last one sees the end of the stream.
  unfoldable pub merge_from : BoolList → Bytes → Result P.ProtobufError (BoolList × Bytes)
  unfolding merge_field
  merge_from m is = merge_loop merge_field (suc (length is)) m is

  unfoldable pub compute_size : BoolList → ℕ × BoolList
  compute_size m =
      let my_size = wrap32 (sum_size (λ _. 2) m.list + P.unknown_fields_size m.unknown_fields) in
      (my_size, record m { cached_size = my_size })

  unfoldable pub write_to_with_cached_sizes : BoolList → Bytes → Result P.ProtobufError Bytes
  write_to_with_cached_sizes m os = do
    os1 ← write_each (P.write_bool 1) m.list os
    P.write_unknown_fields m.unknown_fields os1

  unfoldable pub get_cached_size : BoolList → ℕ
  get_cached_size m = m.cached_size

  unfoldable pub message : Message P.ProtobufError BoolList
  unfolding new is_initialized merge_from compute_size write_to_with_cached_sizes get_cached_size
  message = record {
    default = new;
    is_initialized = is_initialized;
    merge_from = merge_from;
    compute_size = compute_size;
    write_to_with_cached_sizes = write_to_with_cached_sizes;
    get_cached_size = get_cached_size;
  }
