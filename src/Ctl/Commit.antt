-- ===== src/Ctl/Commit.antt =====
-- `Commit`: clients/rust/src/sysadminctl.rs, lines 1517 to 1674.
pub mod Laws
pub mod Totals
use sysadmin.Base.{
  ℕ, suc, ◌+◌, ℤ, pos, Bool, true, false, ◌&&◌, Option, none, some, is_some, unwrap_or, List, [],
  length, Result, ok, ◌>>=◌, ◌==◌, if◌then◌else◌,
}
use sysadmin.Protobuf.{Bytes, Text, WireType, varint, length_delimited, Message, Protobuf}
use sysadmin.Wire.{
  wrap32, opt_size, sum_size, write_opt, write_each, all_initialized, opt_initialized, expect,
  merge_loop, message_size, opt_message_size, sum_message_size, write_message,
}
use sysadmin.Ctl.CommitConfig
use sysadmin.Ctl.CommitConfig.{CommitConfig}

module _ ⦃P : Protobuf⦄ where
  pub record Commit : Type 0 where
    pub config : Option CommitConfig
    pub unknown_fields : P.UnknownFields
    pub cached_size : ℕ

  unfoldable pub new : Commit
  new = record { config = none; unknown_fields = P.no_fields; cached_size = 0 }

  unfoldable pub clear_config : Commit → Commit
  clear_config m = record m { config = none }

  unfoldable pub has_config : Commit → Bool
  has_config m = is_some m.config

  unfoldable pub set_config : Commit → CommitConfig → Commit
  set_config m v = record m { config = some v }

  unfoldable pub get_config : Commit → CommitConfig
  get_config m = unwrap_or m.config CommitConfig.default

  unfoldable pub is_initialized : Commit → Bool
  is_initialized m = true

  merge_field : ℕ → WireType → Commit → Bytes → Result P.ProtobufError (Commit × Bytes)
  merge_field field_number wire_type m is =
      if field_number == 1
      then expect varint wire_type (do
        (tmp, is') ← P.read_enum CommitConfig.from_i32 is
        ok (record m { config = some tmp }, is'))
      else (do
        (tmp, is') ← P.read_unknown_or_skip_group field_number wire_type is m.unknown_fields
        ok (record m { unknown_fields = tmp }, is'))

  -- A round takes a byte at least, and the last one sees the end of the stream.
  unfoldable pub merge_from : Commit → Bytes → Result P.ProtobufError (Commit × Bytes)
  unfolding merge_field
  merge_from m is = merge_loop merge_field (suc (length is)) m is

  unfoldable pub compute_size : Commit → ℕ × Commit
  compute_size m =
      let my_size = wrap32 (
        opt_size (λ v. P.enum_size 1 (CommitConfig.value v)) m.config
        + P.unknown_fields_size m.unknown_fields) in
      (my_size, record m { cached_size = my_size })

  unfoldable pub write_to_with_cached_sizes : Commit → Bytes → Result P.ProtobufError Bytes
  write_to_with_cached_sizes m os = do
    os1 ← write_opt (λ v. P.write_enum 1 (CommitConfig.value v)) m.config os
    P.write_unknown_fields m.unknown_fields os1

  unfoldable pub get_cached_size : Commit → ℕ
  get_cached_size m = m.cached_size

  unfoldable pub message : Message P.ProtobufError Commit
  unfolding new is_initialized merge_from compute_size write_to_with_cached_sizes get_cached_size
  message = record {
    default = new;
    is_initialized = is_initialized;
    merge_from = merge_from;
    compute_size = compute_size;
    write_to_with_cached_sizes = write_to_with_cached_sizes;
    get_cached_size = get_cached_size;
  }
