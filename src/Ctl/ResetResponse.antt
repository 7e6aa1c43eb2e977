-- ===== src/Ctl/ResetResponse.antt =====
-- `ResetResponse`: clients/rust/src/sysadminctl.rs, lines 4820 to 4977.
pub mod Laws
pub mod Totals
use sysadmin.Base.{
  ℕ, suc, ◌+◌, ℤ, pos, Bool, true, false, ◌&&◌, Option, none, some, is_some, unwrap_or, List, [],
  length, Result, ok, ◌>>=◌, ◌==◌, if◌then◌else◌,
}
use sysadmin.Protobuf.{Bytes, Text, WireType, varint, length_delimited, Message, Protobuf}
use sysadmin.Wire.{
  wrap32, opt_size, sum_size, write_opt, write_each, all_initialized, opt_initialized, expect,
  merge_loop, message_size, opt_message_size, sum_message_size, write_message,
}

module _ ⦃P : Protobuf⦄ where
  pub record ResetResponse : Type 0 where
    pub commit_id : Option ℕ
    pub unknown_fields : P.UnknownFields
    pub cached_size : ℕ

  unfoldable pub new : ResetResponse
  new = record { commit_id = none; unknown_fields = P.no_fields; cached_size = 0 }

  unfoldable pub clear_commit_id : ResetResponse → ResetResponse
  clear_commit_id m = record m { commit_id = none }

  unfoldable pub has_commit_id : ResetResponse → Bool
  has_commit_id m = is_some m.commit_id

  unfoldable pub set_commit_id : ResetResponse → ℕ → ResetResponse
  set_commit_id m v = record m { commit_id = some v }

  unfoldable pub get_commit_id : ResetResponse → ℕ
  get_commit_id m = unwrap_or m.commit_id 0

  unfoldable pub is_initialized : ResetResponse → Bool
  is_initialized m = true

  merge_field :
      ℕ → WireType → ResetResponse → Bytes → Result P.ProtobufError (ResetResponse × Bytes)
  merge_field field_number wire_type m is =
      if field_number == 1
      then expect varint wire_type
          (do (tmp, is') ← P.read_uint32 is; ok (record m { commit_id = some tmp }, is'))
      else (do
        (tmp, is') ← P.read_unknown_or_skip_group field_number wire_type is m.unknown_fields
        ok (record m { unknown_fields = tmp }, is'))

  -- A round takes a byte at least, and the last one sees the end of the stream.
  unfoldable pub merge_from : ResetResponse → Bytes → Result P.ProtobufError (ResetResponse × Bytes)
  unfolding merge_field
  merge_from m is = merge_loop merge_field (suc (length is)) m is

  unfoldable pub compute_size : ResetResponse → ℕ × ResetResponse
  compute_size m =
      let my_size = wrap32 (
        opt_size (λ v. P.value_size_u32 1 v varint) m.commit_id
        + P.unknown_fields_size m.unknown_fields) in
      (my_size, record m { cached_size = my_size })

  unfoldable pub write_to_with_cached_sizes : ResetResponse → Bytes → Result P.ProtobufError Bytes
  write_to_with_cached_sizes m os = do
    os1 ← write_opt (P.write_uint32 1) m.commit_id os
    P.write_unknown_fields m.unknown_fields os1

  unfoldable pub get_cached_size : ResetResponse → ℕ
  get_cached_size m = m.cached_size

  unfoldable pub message : Message P.ProtobufError ResetResponse
  unfolding new is_initialized merge_from compute_size write_to_with_cached_sizes get_cached_size
  message = record {
    default = new;
    is_initialized = is_initialized;
    merge_from = merge_from;
    compute_size = compute_size;
    write_to_with_cached_sizes = write_to_with_cached_sizes;
    get_cached_size = get_cached_size;
  }
