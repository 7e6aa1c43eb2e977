-- ===== src/Ctl/BlameResponse.antt =====
-- `BlameResponse`: clients/rust/src/sysadminctl.rs, lines 5524 to 5754.
pub mod Laws
pub mod Totals
use sysadmin.Base.{
  ℕ, suc, ◌+◌, ℤ, pos, Bool, true, false, ◌&&◌, Option, none, some, is_some, unwrap_or, List, [],
  length, Result, ok, ◌>>=◌, ◌==◌, if◌then◌else◌,
}
use sysadmin.Protobuf.{Bytes, Text, WireType, varint, length_delimited, Message, Protobuf}
use sysadmin.Wire.{
  wrap32, opt_size, sum_size, write_opt, write_each, all_initialized, opt_initialized, expect,
  merge_loop, message_size, opt_message_size, sum_message_size, write_message,
}
use sysadmin.Ctl.BlameEntry
use sysadmin.Ctl.BlameEntry.{BlameEntry}

module _ ⦃P : Protobuf⦄ where
  pub record BlameResponse : Type 0 where
    pub key : Option Text
    pub entries : List BlameEntry
    pub unknown_fields : P.UnknownFields
    pub cached_size : ℕ

  unfoldable pub new : BlameResponse
  new = record { key = none; entries = []; unknown_fields = P.no_fields; cached_size = 0 }

  unfoldable pub clear_key : BlameResponse → BlameResponse
  clear_key m = record m { key = none }

  unfoldable pub has_key : BlameResponse → Bool
  has_key m = is_some m.key

  unfoldable pub set_key : BlameResponse → Text → BlameResponse
  set_key m v = record m { key = some v }

  unfoldable pub take_key : BlameResponse → Text × BlameResponse
  take_key m = (unwrap_or m.key [], record m { key = none })

  unfoldable pub get_key : BlameResponse → Text
  get_key m = unwrap_or m.key []

  unfoldable pub clear_entries : BlameResponse → BlameResponse
  clear_entries m = record m { entries = [] }

  unfoldable pub set_entries : BlameResponse → List BlameEntry → BlameResponse
  set_entries m v = record m { entries = v }

  unfoldable pub take_entries : BlameResponse → List BlameEntry × BlameResponse
  take_entries m = (m.entries, record m { entries = [] })

  unfoldable pub get_entries : BlameResponse → List BlameEntry
  get_entries m = m.entries

  unfoldable pub is_initialized : BlameResponse → Bool
  is_initialized m =
      if is_some m.key then (all_initialized BlameEntry.is_initialized m.entries) else false

  merge_field :
      ℕ → WireType → BlameResponse → Bytes → Result P.ProtobufError (BlameResponse × Bytes)
  merge_field field_number wire_type m is =
      if field_number == 1
      then (do
        (tmp, is') ← P.read_singular_string_into wire_type is m.key
        ok (record m { key = tmp }, is'))
      else if field_number == 2
      then (do
        (tmp, is') ← P.read_repeated_message_into BlameEntry.message wire_type is m.entries
        ok (record m { entries = tmp }, is'))
      else (do
        (tmp, is') ← P.read_unknown_or_skip_group field_number wire_type is m.unknown_fields
        ok (record m { unknown_fields = tmp }, is'))

  -- A round takes a byte at least, and the last one sees the end of the stream.
  unfoldable pub merge_from : BlameResponse → Bytes → Result P.ProtobufError (BlameResponse × Bytes)
  unfolding merge_field
  merge_from m is = merge_loop merge_field (suc (length is)) m is

  unfoldable pub compute_size : BlameResponse → ℕ × BlameResponse
  compute_size m =
      let my_size = wrap32 (
        opt_size (P.string_size 1) m.key
        + ((sum_message_size BlameEntry.message 1 m.entries).0
            + P.unknown_fields_size m.unknown_fields)) in
      (
        my_size,
        record m {
          entries = (sum_message_size BlameEntry.message 1 m.entries).1;
          cached_size = my_size;
        },
      )

  unfoldable pub write_to_with_cached_sizes : BlameResponse → Bytes → Result P.ProtobufError Bytes
  write_to_with_cached_sizes m os = do
    os1 ← write_opt (P.write_string 1) m.key os
    os2 ← write_each (write_message BlameEntry.message 2) m.entries os1
    P.write_unknown_fields m.unknown_fields os2

  unfoldable pub get_cached_size : BlameResponse → ℕ
  get_cached_size m = m.cached_size

  unfoldable pub message : Message P.ProtobufError BlameResponse
  unfolding new is_initialized merge_from compute_size write_to_with_cached_sizes get_cached_size
  message = record {
    default = new;
    is_initialized = is_initialized;
    merge_from = merge_from;
    compute_size = compute_size;
    write_to_with_cached_sizes = write_to_with_cached_sizes;
    get_cached_size = get_cached_size;
  }
