-- ===== src/Ctl/ConfigValue.antt =====
-- `ConfigValue`: clients/rust/src/sysadminctl.rs, lines 548 to 1055.
pub mod Fields
pub mod Laws
pub mod Totals
use sysadmin.Base.{
  ℕ, suc, ◌+◌, ℤ, pos, Bool, true, false, ◌&&◌, Option, none, some, is_some, unwrap_or, List, [],
  length, Result, ok, ◌>>=◌, ◌==◌, if◌then◌else◌,
}
use sysadmin.Protobuf.{Bytes, Text, WireType, varint, length_delimited, Message, Protobuf}
use sysadmin.Wire.{
  wrap32, opt_size, sum_size, write_opt, write_each, all_initialized, opt_initialized, expect,
  merge_loop, message_size, opt_message_size, sum_message_size, write_message,
}
use sysadmin.Ctl.Int32List
use sysadmin.Ctl.Int32List.{Int32List}
use sysadmin.Ctl.BoolList
use sysadmin.Ctl.BoolList.{BoolList}
use sysadmin.Ctl.StringList
use sysadmin.Ctl.StringList.{StringList}

module _ ⦃P : Protobuf⦄ where
  pub data ConfigValueOneofValue : Type 0 where
    int32val : ℤ → ConfigValueOneofValue
    strval : Text → ConfigValueOneofValue
    boolval : Bool → ConfigValueOneofValue
    int32list : Int32List → ConfigValueOneofValue
    boollist : BoolList → ConfigValueOneofValue
    stringlist : StringList → ConfigValueOneofValue

  pub record ConfigValue : Type 0 where
    pub value : Option ConfigValueOneofValue
    pub unknown_fields : P.UnknownFields
    pub cached_size : ℕ

  unfoldable pub new : ConfigValue
  new = record { value = none; unknown_fields = P.no_fields; cached_size = 0 }

  pub value_initialized : ConfigValueOneofValue → Bool
  value_initialized (int32val v) = true
  value_initialized (strval v) = true
  value_initialized (boolval v) = true
  value_initialized (int32list v) = Int32List.is_initialized v
  value_initialized (boollist v) = BoolList.is_initialized v
  value_initialized (stringlist v) = StringList.is_initialized v

  unfoldable pub is_initialized : ConfigValue → Bool
  unfolding value_initialized
  is_initialized m = opt_initialized value_initialized m.value

  pub merge_field :
      ℕ → WireType → ConfigValue → Bytes → Result P.ProtobufError (ConfigValue × Bytes)
  merge_field field_number wire_type m is =
      if field_number == 1
      then expect varint wire_type
          (do (tmp, is') ← P.read_int32 is; ok (record m { value = some (int32val tmp) }, is'))
      else if field_number == 2
      then expect length_delimited wire_type
          (do (tmp, is') ← P.read_string is; ok (record m { value = some (strval tmp) }, is'))
      else if field_number == 3
      then expect varint wire_type
          (do (tmp, is') ← P.read_bool is; ok (record m { value = some (boolval tmp) }, is'))
      else if field_number == 4
      then expect length_delimited wire_type (do
        (tmp, is') ← P.read_message Int32List.message is
        ok (record m { value = some (int32list tmp) }, is'))
      else if field_number == 5
      then expect length_delimited wire_type (do
        (tmp, is') ← P.read_message BoolList.message is
        ok (record m { value = some (boollist tmp) }, is'))
      else if field_number == 6
      then expect length_delimited wire_type (do
        (tmp, is') ← P.read_message StringList.message is
        ok (record m { value = some (stringlist tmp) }, is'))
      else (do
        (tmp, is') ← P.read_unknown_or_skip_group field_number wire_type is m.unknown_fields
        ok (record m { unknown_fields = tmp }, is'))

  -- A round takes a byte at least, and the last one sees the end of the stream.
  unfoldable pub merge_from : ConfigValue → Bytes → Result P.ProtobufError (ConfigValue × Bytes)
  unfolding merge_field
  merge_from m is = merge_loop merge_field (suc (length is)) m is

  pub value_size : Option ConfigValueOneofValue → ℕ × Option ConfigValueOneofValue
  value_size none = (0, none)
  value_size (some (int32val v)) = (P.value_size_i32 1 v varint, some (int32val v))
  value_size (some (strval v)) = (P.string_size 2 v, some (strval v))
  value_size (some (boolval v)) = (2, some (boolval v))
  value_size (some (int32list v)) =
      let (my_size, v') = message_size Int32List.message 1 v in (my_size, some (int32list v'))
  value_size (some (boollist v)) =
      let (my_size, v') = message_size BoolList.message 1 v in (my_size, some (boollist v'))
  value_size (some (stringlist v)) =
      let (my_size, v') = message_size StringList.message 1 v in (my_size, some (stringlist v'))

  unfoldable pub compute_size : ConfigValue → ℕ × ConfigValue
  unfolding value_size
  compute_size m =
      let my_size = wrap32 ((value_size m.value).0 + P.unknown_fields_size m.unknown_fields) in
      (my_size, record m { value = (value_size m.value).1; cached_size = my_size })

  pub write_value : ConfigValueOneofValue → Bytes → Result P.ProtobufError Bytes
  write_value (int32val v) = P.write_int32 1 v
  write_value (strval v) = P.write_string 2 v
  write_value (boolval v) = P.write_bool 3 v
  write_value (int32list v) = write_message Int32List.message 4 v
  write_value (boollist v) = write_message BoolList.message 5 v
  write_value (stringlist v) = write_message StringList.message 6 v

  unfoldable pub write_to_with_cached_sizes : ConfigValue → Bytes → Result P.ProtobufError Bytes
  unfolding write_value
  write_to_with_cached_sizes m os = do
    os1 ← write_opt write_value m.value os
    P.write_unknown_fields m.unknown_fields os1

  unfoldable pub get_cached_size : ConfigValue → ℕ
  get_cached_size m = m.cached_size

  unfoldable pub message : Message P.ProtobufError ConfigValue
  unfolding new is_initialized merge_from compute_size write_to_with_cached_sizes get_cached_size
  message = record {
    default = new;
    is_initialized = is_initialized;
    merge_from = merge_from;
    compute_size = compute_size;
    write_to_with_cached_sizes = write_to_with_cached_sizes;
    get_cached_size = get_cached_size;
  }
