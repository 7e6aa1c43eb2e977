-- ===== src/Ctl/Response.antt =====
-- `Response`: clients/rust/src/sysadminctl.rs, lines 5953 to 6633.
pub mod Fields
pub mod Laws
pub mod Totals
use sysadmin.Base.{
  ℕ, suc, ◌+◌, ℤ, pos, Bool, true, false, ◌&&◌, Option, none, some, is_some, unwrap_or, List, [],
  length, Result, ok, ◌>>=◌, ◌==◌, if◌then◌else◌,
}
use sysadmin.Protobuf.{Bytes, Text, WireType, varint, length_delimited, Message, Protobuf}
use sysadmin.Wire.{
  wrap32, opt_size, sum_size, write_opt, write_each, all_initialized, opt_initialized, expect,
  merge_loop, message_size, opt_message_size, sum_message_size, write_message,
}
use sysadmin.Ctl.StatusCode
use sysadmin.Ctl.StatusCode.{StatusCode}
use sysadmin.Ctl.GetResponse
use sysadmin.Ctl.GetResponse.{GetResponse}
use sysadmin.Ctl.CommitResponse
use sysadmin.Ctl.CommitResponse.{CommitResponse}
use sysadmin.Ctl.ResetResponse
use sysadmin.Ctl.ResetResponse.{ResetResponse}
use sysadmin.Ctl.DumpResponse
use sysadmin.Ctl.DumpResponse.{DumpResponse}
use sysadmin.Ctl.BlameResponse
use sysadmin.Ctl.BlameResponse.{BlameResponse}
use sysadmin.Ctl.InFlightResponse
use sysadmin.Ctl.InFlightResponse.{InFlightResponse}

module _ ⦃P : Protobuf⦄ where
  pub data ResponseOneofPayload : Type 0 where
    get : GetResponse → ResponseOneofPayload
    commit : CommitResponse → ResponseOneofPayload
    reset : ResetResponse → ResponseOneofPayload
    dump : DumpResponse → ResponseOneofPayload
    blame : BlameResponse → ResponseOneofPayload
    inflight : InFlightResponse → ResponseOneofPayload

  pub record Response : Type 0 where
    pub id : Option ℕ
    pub status : Option StatusCode
    pub payload : Option ResponseOneofPayload
    pub unknown_fields : P.UnknownFields
    pub cached_size : ℕ

  unfoldable pub new : Response
  new = record {
    id = none;
    status = none;
    payload = none;
    unknown_fields = P.no_fields;
    cached_size = 0;
  }

  pub payload_initialized : ResponseOneofPayload → Bool
  payload_initialized (get v) = GetResponse.is_initialized v
  payload_initialized (commit v) = CommitResponse.is_initialized v
  payload_initialized (reset v) = ResetResponse.is_initialized v
  payload_initialized (dump v) = DumpResponse.is_initialized v
  payload_initialized (blame v) = BlameResponse.is_initialized v
  payload_initialized (inflight v) = InFlightResponse.is_initialized v

  unfoldable pub is_initialized : Response → Bool
  unfolding payload_initialized
  is_initialized m =
      if is_some m.id
      then (if is_some m.status then (opt_initialized payload_initialized m.payload) else false)
      else false

  pub merge_field : ℕ → WireType → Response → Bytes → Result P.ProtobufError (Response × Bytes)
  merge_field field_number wire_type m is =
      if field_number == 1
      then expect length_delimited wire_type (do
        (tmp, is') ← P.read_message GetResponse.message is
        ok (record m { payload = some (get tmp) }, is'))
      else if field_number == 2
      then expect length_delimited wire_type (do
        (tmp, is') ← P.read_message CommitResponse.message is
        ok (record m { payload = some (commit tmp) }, is'))
      else if field_number == 3
      then expect length_delimited wire_type (do
        (tmp, is') ← P.read_message ResetResponse.message is
        ok (record m { payload = some (reset tmp) }, is'))
      else if field_number == 4
      then expect length_delimited wire_type (do
        (tmp, is') ← P.read_message DumpResponse.message is
        ok (record m { payload = some (dump tmp) }, is'))
      else if field_number == 5
      then expect length_delimited wire_type (do
        (tmp, is') ← P.read_message BlameResponse.message is
        ok (record m { payload = some (blame tmp) }, is'))
      else if field_number == 8
      then expect length_delimited wire_type (do
        (tmp, is') ← P.read_message InFlightResponse.message is
        ok (record m { payload = some (inflight tmp) }, is'))
      else if field_number == 6
      then expect varint wire_type
          (do (tmp, is') ← P.read_uint32 is; ok (record m { id = some tmp }, is'))
      else if field_number == 7
      then expect varint wire_type (do
        (tmp, is') ← P.read_enum StatusCode.from_i32 is
        ok (record m { status = some tmp }, is'))
      else (do
        (tmp, is') ← P.read_unknown_or_skip_group field_number wire_type is m.unknown_fields
        ok (record m { unknown_fields = tmp }, is'))

  -- A round takes a byte at least, and the last one sees the end of the stream.
  unfoldable pub merge_from : Response → Bytes → Result P.ProtobufError (Response × Bytes)
  unfolding merge_field
  merge_from m is = merge_loop merge_field (suc (length is)) m is

  pub payload_size : Option ResponseOneofPayload → ℕ × Option ResponseOneofPayload
  payload_size none = (0, none)
  payload_size (some (get v)) =
      let (my_size, v') = message_size GetResponse.message 1 v in (my_size, some (get v'))
  payload_size (some (commit v)) =
      let (my_size, v') = message_size CommitResponse.message 1 v in (my_size, some (commit v'))
  payload_size (some (reset v)) =
      let (my_size, v') = message_size ResetResponse.message 1 v in (my_size, some (reset v'))
  payload_size (some (dump v)) =
      let (my_size, v') = message_size DumpResponse.message 1 v in (my_size, some (dump v'))
  payload_size (some (blame v)) =
      let (my_size, v') = message_size BlameResponse.message 1 v in (my_size, some (blame v'))
  payload_size (some (inflight v)) =
      let (my_size, v') = message_size InFlightResponse.message 1 v in (my_size, some (inflight v'))

  unfoldable pub compute_size : Response → ℕ × Response
  unfolding payload_size
  compute_size m =
      let my_size = wrap32 (
        opt_size (λ v. P.value_size_u32 6 v varint) m.id
        + (opt_size (λ v. P.enum_size 7 (StatusCode.value v)) m.status
            + ((payload_size m.payload).0 + P.unknown_fields_size m.unknown_fields))) in
      (my_size, record m { payload = (payload_size m.payload).1; cached_size = my_size })

  pub write_payload : ResponseOneofPayload → Bytes → Result P.ProtobufError Bytes
  write_payload (get v) = write_message GetResponse.message 1 v
  write_payload (commit v) = write_message CommitResponse.message 2 v
  write_payload (reset v) = write_message ResetResponse.message 3 v
  write_payload (dump v) = write_message DumpResponse.message 4 v
  write_payload (blame v) = write_message BlameResponse.message 5 v
  write_payload (inflight v) = write_message InFlightResponse.message 8 v

  unfoldable pub write_to_with_cached_sizes : Response → Bytes → Result P.ProtobufError Bytes
  unfolding write_payload
  write_to_with_cached_sizes m os = do
    os1 ← write_opt (P.write_uint32 6) m.id os
    os2 ← write_opt (λ v. P.write_enum 7 (StatusCode.value v)) m.status os1
    os3 ← write_opt write_payload m.payload os2
    P.write_unknown_fields m.unknown_fields os3

  unfoldable pub get_cached_size : Response → ℕ
  get_cached_size m = m.cached_size

  unfoldable pub message : Message P.ProtobufError Response
  unfolding new is_initialized merge_from compute_size write_to_with_cached_sizes get_cached_size
  message = record {
    default = new;
    is_initialized = is_initialized;
    merge_from = merge_from;
    compute_size = compute_size;
    write_to_with_cached_sizes = write_to_with_cached_sizes;
    get_cached_size = get_cached_size;
  }
