-- ===== src/Ctl/Rollback.antt =====
-- `Rollback`: clients/rust/src/sysadminctl.rs, lines 1940 to 2100.
pub mod Laws
pub mod Totals
use sysadmin.Base.{
  ℕ, suc, ◌+◌, ℤ, pos, Bool, true, false, ◌&&◌, Option, none, some, is_some, unwrap_or, List, [],
  length, Result, ok, ◌>>=◌, ◌==◌, if◌then◌else◌,
}
use sysadmin.Protobuf.{Bytes, Text, WireType, varint, length_delimited, Message, Protobuf}
use sysadmin.Wire.{
  wrap32, opt_size, sum_size, write_opt, write_each, all_initialized, opt_initialized, expect,
  merge_loop, message_size, opt_message_size, sum_message_size, write_message,
}

module _ ⦃P : Protobuf⦄ where
  pub record Rollback : Type 0 where
    pub id : Option ℕ
    pub unknown_fields : P.UnknownFields
    pub cached_size : ℕ

  unfoldable pub new : Rollback
  new = record { id = none; unknown_fields = P.no_fields; cached_size = 0 }

  unfoldable pub clear_id : Rollback → Rollback
  clear_id m = record m { id = none }

  unfoldable pub has_id : Rollback → Bool
  has_id m = is_some m.id

  unfoldable pub set_id : Rollback → ℕ → Rollback
  set_id m v = record m { id = some v }

  unfoldable pub get_id : Rollback → ℕ
  get_id m = unwrap_or m.id 0

  unfoldable pub is_initialized : Rollback → Bool
  is_initialized m = is_some m.id

  merge_field : ℕ → WireType → Rollback → Bytes → Result P.ProtobufError (Rollback × Bytes)
  merge_field field_number wire_type m is =
      if field_number == 1
      then expect varint wire_type
          (do (tmp, is') ← P.read_uint32 is; ok (record m { id = some tmp }, is'))
      else (do
        (tmp, is') ← P.read_unknown_or_skip_group field_number wire_type is m.unknown_fields
        ok (record m { unknown_fields = tmp }, is'))

  -- A round takes a byte at least, and the last one sees the end of the stream.
  unfoldable pub merge_from : Rollback → Bytes → Result P.ProtobufError (Rollback × Bytes)
  unfolding merge_field
  merge_from m is = merge_loop merge_field (suc (length is)) m is

  unfoldable pub compute_size : Rollback → ℕ × Rollback
  compute_size m =
      let my_size = wrap32 (
        opt_size (λ v. P.value_size_u32 1 v varint) m.id
        + P.unknown_fields_size m.unknown_fields) in
      (my_size, record m { cached_size = my_size })

  unfoldable pub write_to_with_cached_sizes : Rollback → Bytes → Result P.ProtobufError Bytes
  write_to_with_cached_sizes m os = do
    os1 ← write_opt (P.write_uint32 1) m.id os
    P.write_unknown_fields m.unknown_fields os1

  unfoldable pub get_cached_size : Rollback → ℕ
  get_cached_size m = m.cached_size

  unfoldable pub message : Message P.ProtobufError Rollback
  unfolding new is_initialized merge_from compute_size write_to_with_cached_sizes get_cached_size
  message = record {
    default = new;
    is_initialized = is_initialized;
    merge_from = merge_from;
    compute_size = compute_size;
    write_to_with_cached_sizes = write_to_with_cached_sizes;
    get_cached_size = get_cached_size;
  }
