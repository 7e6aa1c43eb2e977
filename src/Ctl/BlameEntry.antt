-- ===== src/Ctl/BlameEntry.antt =====
-- `BlameEntry`: clients/rust/src/sysadminctl.rs, lines 5217 to 5508.
pub mod Laws
pub mod Totals
use sysadmin.Base.{
  ℕ, suc, ◌+◌, ℤ, pos, Bool, true, false, ◌&&◌, Option, none, some, is_some, unwrap_or, List, [],
  length, Result, ok, ◌>>=◌, ◌==◌, if◌then◌else◌,
}
use sysadmin.Protobuf.{Bytes, Text, WireType, varint, length_delimited, Message, Protobuf}
use sysadmin.Wire.{
  wrap32, opt_size, sum_size, write_opt, write_each, all_initialized, opt_initialized, expect,
  merge_loop, message_size, opt_message_size, sum_message_size, write_message,
}
use sysadmin.Ctl.ConfigValue
use sysadmin.Ctl.ConfigValue.{ConfigValue}

module _ ⦃P : Protobuf⦄ where
  pub record BlameEntry : Type 0 where
    pub commit_id : Option ℕ
    pub commit_time : Option Text
    pub val : Option ConfigValue
    pub unknown_fields : P.UnknownFields
    pub cached_size : ℕ

  unfoldable pub new : BlameEntry
  new = record {
    commit_id = none;
    commit_time = none;
    val = none;
    unknown_fields = P.no_fields;
    cached_size = 0;
  }

  unfoldable pub clear_commit_id : BlameEntry → BlameEntry
  clear_commit_id m = record m { commit_id = none }

  unfoldable pub has_commit_id : BlameEntry → Bool
  has_commit_id m = is_some m.commit_id

  unfoldable pub set_commit_id : BlameEntry → ℕ → BlameEntry
  set_commit_id m v = record m { commit_id = some v }

  unfoldable pub get_commit_id : BlameEntry → ℕ
  get_commit_id m = unwrap_or m.commit_id 0

  unfoldable pub clear_commit_time : BlameEntry → BlameEntry
  clear_commit_time m = record m { commit_time = none }

  unfoldable pub has_commit_time : BlameEntry → Bool
  has_commit_time m = is_some m.commit_time

  unfoldable pub set_commit_time : BlameEntry → Text → BlameEntry
  set_commit_time m v = record m { commit_time = some v }

  unfoldable pub take_commit_time : BlameEntry → Text × BlameEntry
  take_commit_time m = (unwrap_or m.commit_time [], record m { commit_time = none })

  unfoldable pub get_commit_time : BlameEntry → Text
  get_commit_time m = unwrap_or m.commit_time []

  unfoldable pub clear_val : BlameEntry → BlameEntry
  clear_val m = record m { val = none }

  unfoldable pub has_val : BlameEntry → Bool
  has_val m = is_some m.val

  unfoldable pub set_val : BlameEntry → ConfigValue → BlameEntry
  set_val m v = record m { val = some v }

  unfoldable pub take_val : BlameEntry → ConfigValue × BlameEntry
  take_val m = (unwrap_or m.val ConfigValue.new, record m { val = none })

  unfoldable pub get_val : BlameEntry → ConfigValue
  get_val m = unwrap_or m.val ConfigValue.new

  unfoldable pub is_initialized : BlameEntry → Bool
  is_initialized m =
      if is_some m.commit_id
      then (if is_some m.commit_time
          then (if is_some m.val then (opt_initialized ConfigValue.is_initialized m.val) else false)
          else false)
      else false

  merge_field : ℕ → WireType → BlameEntry → Bytes → Result P.ProtobufError (BlameEntry × Bytes)
  merge_field field_number wire_type m is =
      if field_number == 1
      then expect varint wire_type
          (do (tmp, is') ← P.read_uint32 is; ok (record m { commit_id = some tmp }, is'))
      else if field_number == 2
      then (do
        (tmp, is') ← P.read_singular_string_into wire_type is m.commit_time
        ok (record m { commit_time = tmp }, is'))
      else if field_number == 3
      then (do
        (tmp, is') ← P.read_singular_message_into ConfigValue.message wire_type is m.val
        ok (record m { val = tmp }, is'))
      else (do
        (tmp, is') ← P.read_unknown_or_skip_group field_number wire_type is m.unknown_fields
        ok (record m { unknown_fields = tmp }, is'))

  -- A round takes a byte at least, and the last one sees the end of the stream.
  unfoldable pub merge_from : BlameEntry → Bytes → Result P.ProtobufError (BlameEntry × Bytes)
  unfolding merge_field
  merge_from m is = merge_loop merge_field (suc (length is)) m is

  unfoldable pub compute_size : BlameEntry → ℕ × BlameEntry
  compute_size m =
      let my_size = wrap32 (
        opt_size (λ v. P.value_size_u32 1 v varint) m.commit_id
        + (opt_size (P.string_size 2) m.commit_time
            + ((opt_message_size ConfigValue.message 1 m.val).0
                + P.unknown_fields_size m.unknown_fields))) in
      (
        my_size,
        record m { val = (opt_message_size ConfigValue.message 1 m.val).1; cached_size = my_size },
      )

  unfoldable pub write_to_with_cached_sizes : BlameEntry → Bytes → Result P.ProtobufError Bytes
  write_to_with_cached_sizes m os = do
    os1 ← write_opt (P.write_uint32 1) m.commit_id os
    os2 ← write_opt (P.write_string 2) m.commit_time os1
    os3 ← write_opt (write_message ConfigValue.message 3) m.val os2
    P.write_unknown_fields m.unknown_fields os3

  unfoldable pub get_cached_size : BlameEntry → ℕ
  get_cached_size m = m.cached_size

  unfoldable pub message : Message P.ProtobufError BlameEntry
  unfolding new is_initialized merge_from compute_size write_to_with_cached_sizes get_cached_size
  message = record {
    default = new;
    is_initialized = is_initialized;
    merge_from = merge_from;
    compute_size = compute_size;
    write_to_with_cached_sizes = write_to_with_cached_sizes;
    get_cached_size = get_cached_size;
  }
