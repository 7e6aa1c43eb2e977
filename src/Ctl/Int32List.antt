-- ===== src/Ctl/Int32List.antt =====
-- `Int32List`: clients/rust/src/sysadminctl.rs, lines 25 to 184.
pub mod Laws
pub mod Totals
use sysadmin.Base.{
  ℕ, suc, ◌+◌, ℤ, pos, Bool, true, false, ◌&&◌, Option, none, some, is_some, unwrap_or, List, [],
  length, Result, ok, ◌>>=◌, ◌==◌, if◌then◌else◌,
}
use sysadmin.Protobuf.{Bytes, Text, WireType, varint, length_delimited, Message, Protobuf}
use sysadmin.Wire.{
  wrap32, opt_size, sum_size, write_opt, write_each, all_initialized, opt_initialized, expect,
  merge_loop, message_size, opt_message_size, sum_message_size, write_message,
}

module _ ⦃P : Protobuf⦄ where
  pub record Int32List : Type 0 where
    pub list : List ℤ
    pub unknown_fields : P.UnknownFields
    pub cached_size : ℕ

  unfoldable pub new : Int32List
  new = record { list = []; unknown_fields = P.no_fields; cached_size = 0 }

  unfoldable pub clear_list : Int32List → Int32List
  clear_list m = record m { list = [] }

  unfoldable pub set_list : Int32List → List ℤ → Int32List
  set_list m v = record m { list = v }

  unfoldable pub take_list : Int32List → List ℤ × Int32List
  take_list m = (m.list, record m { list = [] })

  unfoldable pub get_list : Int32List → List ℤ
  get_list m = m.list

  unfoldable pub is_initialized : Int32List → Bool
  is_initialized m = true

  merge_field : ℕ → WireType → Int32List → Bytes → Result P.ProtobufError (Int32List × Bytes)
  merge_field field_number wire_type m is =
      if field_number == 1
      then (do
        (tmp, is') ← P.read_repeated_int32_into wire_type is m.list
        ok (record m { list = tmp }, is'))
      else (do
        (tmp, is') ← P.read_unknown_or_skip_group field_number wire_type is m.unknown_fields
        ok (record m { unknown_fields = tmp }, is'))

  -- A round takes a byte at least, and the last one sees the end of the stream.
  unfoldable pub merge_from : Int32List → Bytes → Result P.ProtobufError (Int32List × Bytes)
  unfolding merge_field
  merge_from m is = merge_loop merge_field (suc (length is)) m is

  unfoldable pub compute_size : Int32List → ℕ × Int32List
  compute_size m =
      let my_size = wrap32 (
        sum_size (λ v. P.value_size_i32 1 v varint) m.list
        + P.unknown_fields_size m.unknown_fields) in
      (my_size, record m { cached_size = my_size })

  unfoldable pub write_to_with_cached_sizes : Int32List → Bytes → Result P.ProtobufError Bytes
  write_to_with_cached_sizes m os = do
    os1 ← write_each (P.write_int32 1) m.list os
    P.write_unknown_fields m.unknown_fields os1

  unfoldable pub get_cached_size : Int32List → ℕ
  get_cached_size m = m.cached_size

  unfoldable pub message : Message P.ProtobufError Int32List
  unfolding new is_initialized merge_from compute_size write_to_with_cached_sizes get_cached_size
  message = record {
    default = new;
    is_initialized = is_initialized;
    merge_from = merge_from;
    compute_size = compute_size;
    write_to_with_cached_sizes = write_to_with_cached_sizes;
    get_cached_size = get_cached_size;
  }
