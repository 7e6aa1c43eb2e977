-- ===== src/Ctl/Command.antt =====
-- `Command`: clients/rust/src/sysadminctl.rs, lines 3058 to 4191.
pub mod Fields
pub mod Oneof
pub mod Refusal
pub mod Laws
pub mod Totals
use sysadmin.Base.{
  ℕ, suc, ◌+◌, ℤ, pos, Bool, true, false, ◌&&◌, Option, none, some, is_some, unwrap_or, List, [],
  length, Result, ok, ◌>>=◌, ◌==◌, if◌then◌else◌,
}
use sysadmin.Protobuf.{Bytes, Text, WireType, varint, length_delimited, Message, Protobuf}
use sysadmin.Wire.{
  wrap32, opt_size, sum_size, write_opt, write_each, all_initialized, opt_initialized, expect,
  merge_loop, message_size, opt_message_size, sum_message_size, write_message,
}
use sysadmin.Ctl.Set
use sysadmin.Ctl.Set.{Set}
use sysadmin.Ctl.Get
use sysadmin.Ctl.Get.{Get}
use sysadmin.Ctl.Commit
use sysadmin.Ctl.Commit.{Commit}
use sysadmin.Ctl.Drop
use sysadmin.Ctl.Drop.{Drop}
use sysadmin.Ctl.FireHooks
use sysadmin.Ctl.FireHooks.{FireHooks}
use sysadmin.Ctl.EraseKey
use sysadmin.Ctl.EraseKey.{EraseKey}
use sysadmin.Ctl.Rollback
use sysadmin.Ctl.Rollback.{Rollback}
use sysadmin.Ctl.Reset
use sysadmin.Ctl.Reset.{Reset}
use sysadmin.Ctl.DumpHooks
use sysadmin.Ctl.DumpHooks.{DumpHooks}
use sysadmin.Ctl.TriggerHook
use sysadmin.Ctl.TriggerHook.{TriggerHook}
use sysadmin.Ctl.Blame
use sysadmin.Ctl.Blame.{Blame}
use sysadmin.Ctl.InFlight
use sysadmin.Ctl.InFlight.{InFlight}

module _ ⦃P : Protobuf⦄ where
  pub data CommandOneofPayload : Type 0 where
    set : Set → CommandOneofPayload
    get : Get → CommandOneofPayload
    commit : Commit → CommandOneofPayload
    drop : Drop → CommandOneofPayload
    firehooks : FireHooks → CommandOneofPayload
    erase : EraseKey → CommandOneofPayload
    rollback : Rollback → CommandOneofPayload
    reset : Reset → CommandOneofPayload
    dump : DumpHooks → CommandOneofPayload
    trigger : TriggerHook → CommandOneofPayload
    blame : Blame → CommandOneofPayload
    inflight : InFlight → CommandOneofPayload

  pub record Command : Type 0 where
    pub id : Option ℕ
    pub xid : Option ℕ
    pub payload : Option CommandOneofPayload
    pub unknown_fields : P.UnknownFields
    pub cached_size : ℕ

  unfoldable pub new : Command
  new = record {
    id = none;
    xid = none;
    payload = none;
    unknown_fields = P.no_fields;
    cached_size = 0;
  }

  pub payload_initialized : CommandOneofPayload → Bool
  payload_initialized (set v) = Set.is_initialized v
  payload_initialized (get v) = Get.is_initialized v
  payload_initialized (commit v) = Commit.is_initialized v
  payload_initialized (drop v) = Drop.is_initialized v
  payload_initialized (firehooks v) = FireHooks.is_initialized v
  payload_initialized (erase v) = EraseKey.is_initialized v
  payload_initialized (rollback v) = Rollback.is_initialized v
  payload_initialized (reset v) = Reset.is_initialized v
  payload_initialized (dump v) = DumpHooks.is_initialized v
  payload_initialized (trigger v) = TriggerHook.is_initialized v
  payload_initialized (blame v) = Blame.is_initialized v
  payload_initialized (inflight v) = InFlight.is_initialized v

  unfoldable pub is_initialized : Command → Bool
  unfolding payload_initialized
  is_initialized m = if is_some m.id then (opt_initialized payload_initialized m.payload) else false

  pub merge_field : ℕ → WireType → Command → Bytes → Result P.ProtobufError (Command × Bytes)
  merge_field field_number wire_type m is =
      if field_number == 1
      then expect length_delimited wire_type (do
        (tmp, is') ← P.read_message Set.message is
        ok (record m { payload = some (set tmp) }, is'))
      else if field_number == 2
      then expect length_delimited wire_type (do
        (tmp, is') ← P.read_message Get.message is
        ok (record m { payload = some (get tmp) }, is'))
      else if field_number == 3
      then expect length_delimited wire_type (do
        (tmp, is') ← P.read_message Commit.message is
        ok (record m { payload = some (commit tmp) }, is'))
      else if field_number == 4
      then expect length_delimited wire_type (do
        (tmp, is') ← P.read_message Drop.message is
        ok (record m { payload = some (drop tmp) }, is'))
      else if field_number == 7
      then expect length_delimited wire_type (do
        (tmp, is') ← P.read_message FireHooks.message is
        ok (record m { payload = some (firehooks tmp) }, is'))
      else if field_number == 8
      then expect length_delimited wire_type (do
        (tmp, is') ← P.read_message EraseKey.message is
        ok (record m { payload = some (erase tmp) }, is'))
      else if field_number == 11
      then expect length_delimited wire_type (do
        (tmp, is') ← P.read_message Rollback.message is
        ok (record m { payload = some (rollback tmp) }, is'))
      else if field_number == 12
      then expect length_delimited wire_type (do
        (tmp, is') ← P.read_message Reset.message is
        ok (record m { payload = some (reset tmp) }, is'))
      else if field_number == 13
      then expect length_delimited wire_type (do
        (tmp, is') ← P.read_message DumpHooks.message is
        ok (record m { payload = some (dump tmp) }, is'))
      else if field_number == 14
      then expect length_delimited wire_type (do
        (tmp, is') ← P.read_message TriggerHook.message is
        ok (record m { payload = some (trigger tmp) }, is'))
      else if field_number == 15
      then expect length_delimited wire_type (do
        (tmp, is') ← P.read_message Blame.message is
        ok (record m { payload = some (blame tmp) }, is'))
      else if field_number == 16
      then expect length_delimited wire_type (do
        (tmp, is') ← P.read_message InFlight.message is
        ok (record m { payload = some (inflight tmp) }, is'))
      else if field_number == 6
      then expect varint wire_type
          (do (tmp, is') ← P.read_uint32 is; ok (record m { id = some tmp }, is'))
      else if field_number == 10
      then expect varint wire_type
          (do (tmp, is') ← P.read_uint32 is; ok (record m { xid = some tmp }, is'))
      else (do
        (tmp, is') ← P.read_unknown_or_skip_group field_number wire_type is m.unknown_fields
        ok (record m { unknown_fields = tmp }, is'))

  -- A round takes a byte at least, and the last one sees the end of the stream.
  unfoldable pub merge_from : Command → Bytes → Result P.ProtobufError (Command × Bytes)
  unfolding merge_field
  merge_from m is = merge_loop merge_field (suc (length is)) m is

  pub payload_size : Option CommandOneofPayload → ℕ × Option CommandOneofPayload
  payload_size none = (0, none)
  payload_size (some (set v)) =
      let (my_size, v') = message_size Set.message 1 v in (my_size, some (set v'))
  payload_size (some (get v)) =
      let (my_size, v') = message_size Get.message 1 v in (my_size, some (get v'))
  payload_size (some (commit v)) =
      let (my_size, v') = message_size Commit.message 1 v in (my_size, some (commit v'))
  payload_size (some (drop v)) =
      let (my_size, v') = message_size Drop.message 1 v in (my_size, some (drop v'))
  payload_size (some (firehooks v)) =
      let (my_size, v') = message_size FireHooks.message 1 v in (my_size, some (firehooks v'))
  payload_size (some (erase v)) =
      let (my_size, v') = message_size EraseKey.message 1 v in (my_size, some (erase v'))
  payload_size (some (rollback v)) =
      let (my_size, v') = message_size Rollback.message 1 v in (my_size, some (rollback v'))
  payload_size (some (reset v)) =
      let (my_size, v') = message_size Reset.message 1 v in (my_size, some (reset v'))
  payload_size (some (dump v)) =
      let (my_size, v') = message_size DumpHooks.message 1 v in (my_size, some (dump v'))
  payload_size (some (trigger v)) =
      let (my_size, v') = message_size TriggerHook.message 1 v in (my_size, some (trigger v'))
  payload_size (some (blame v)) =
      let (my_size, v') = message_size Blame.message 1 v in (my_size, some (blame v'))
  payload_size (some (inflight v)) =
      let (my_size, v') = message_size InFlight.message 2 v in (my_size, some (inflight v'))

  unfoldable pub compute_size : Command → ℕ × Command
  unfolding payload_size
  compute_size m =
      let my_size = wrap32 (
        opt_size (λ v. P.value_size_u32 6 v varint) m.id
        + (opt_size (λ v. P.value_size_u32 10 v varint) m.xid
            + ((payload_size m.payload).0 + P.unknown_fields_size m.unknown_fields))) in
      (my_size, record m { payload = (payload_size m.payload).1; cached_size = my_size })

  pub write_payload : CommandOneofPayload → Bytes → Result P.ProtobufError Bytes
  write_payload (set v) = write_message Set.message 1 v
  write_payload (get v) = write_message Get.message 2 v
  write_payload (commit v) = write_message Commit.message 3 v
  write_payload (drop v) = write_message Drop.message 4 v
  write_payload (firehooks v) = write_message FireHooks.message 7 v
  write_payload (erase v) = write_message EraseKey.message 8 v
  write_payload (rollback v) = write_message Rollback.message 11 v
  write_payload (reset v) = write_message Reset.message 12 v
  write_payload (dump v) = write_message DumpHooks.message 13 v
  write_payload (trigger v) = write_message TriggerHook.message 14 v
  write_payload (blame v) = write_message Blame.message 15 v
  write_payload (inflight v) = write_message InFlight.message 16 v

  unfoldable pub write_to_with_cached_sizes : Command → Bytes → Result P.ProtobufError Bytes
  unfolding write_payload
  write_to_with_cached_sizes m os = do
    os1 ← write_opt (P.write_uint32 6) m.id os
    os2 ← write_opt (P.write_uint32 10) m.xid os1
    os3 ← write_opt write_payload m.payload os2
    P.write_unknown_fields m.unknown_fields os3

  unfoldable pub get_cached_size : Command → ℕ
  get_cached_size m = m.cached_size

  unfoldable pub message : Message P.ProtobufError Command
  unfolding new is_initialized merge_from compute_size write_to_with_cached_sizes get_cached_size
  message = record {
    default = new;
    is_initialized = is_initialized;
    merge_from = merge_from;
    compute_size = compute_size;
    write_to_with_cached_sizes = write_to_with_cached_sizes;
    get_cached_size = get_cached_size;
  }
