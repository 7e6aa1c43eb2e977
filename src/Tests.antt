-- ===== src/Tests.antt =====
-- Runs of the model on concrete inputs.
mod Sending
mod Receiving
mod Messages
mod Session
mod Responses
use sysadmin.Base.{pos, negsuc, none, true, some, [], ◌∷◌, length, ◌≡◌, refl, arith}
use sysadmin.Protobuf.Laws.{Fits}
use sysadmin.Protobuf.Sample
use sysadmin.Protobuf.Sample.{sample}
use sysadmin.Protobuf.Sample.Varint.{encode, decode}
use sysadmin.Wire.Sizes.{opt, each, message_bytes}
use sysadmin.Wire.Kinds.{u32_bytes, i32_bytes, bool_bytes, text_bytes}
use sysadmin.Ctl.Set as CtlSet
use sysadmin.Ctl.Set.Laws as SetLaws
use sysadmin.Ctl.ConfigValue
use sysadmin.Ctl.Response
use sysadmin.Ctl.StatusCode
use sysadmin.Ctl.Response.Fields as ResponseFields
use sysadmin.Ctl.Response.Laws as ResponseLaws
use sysadmin.Ctl.GetResponse as CtlGetResponse
use sysadmin.Ctl.GetResponse.Laws as GetResponseLaws
use sysadmin.Ctl.MappedField
use sysadmin.Ctl.MappedField.Laws as MappedFieldLaws
use sysadmin.Ctl.Int32List.Laws as Int32ListLaws
use sysadmin.Client.Responses.Reply.{Reply, get, to_response}
use sysadmin.Client.Responses.Sound.{IsReply}
use sysadmin.Client.Status as Status
use sysadmin.Client.Status.{from_ctl, to_ctl}
use sysadmin.Client.Responses.{generic_response_from}
use sysadmin.Client.Payload.{set_payload}
use sysadmin.Client.Net.Sample.{read_four, read_block, Socket, socket}
use sysadmin.Wire.{
  opt_initialized, message_size, opt_message_size, write_opt, write_message, wrap32, opt_size,
  merge_loop, expect, same_wire_type,
}
use sysadmin.Client.Request.Delivery.{send_request}
use sysadmin.Ctl.ConfigValue.Laws as ConfigValueLaws
use sysadmin.Ctl.Command as CtlCommand
use sysadmin.Ctl.Command.Fields as CommandFields
use sysadmin.Client.Value.{to_config_value}
use sysadmin.Protobuf.Sample.Lawful as Wire
use sysadmin.Ctl.Command.Laws as CommandLaws
use sysadmin.Client.Session.{send}
use sysadmin.Client.Session.Monad.{SysadminClient, IsOk}
use sysadmin.Client.Value
use sysadmin.Client.Request.{IsRequest, Request, to_command, set}

-- The socket holds the server's answer, a success for the command 300.
abbrev pub answered : Socket
answered = record { written = 1 ∷ []; inbox = 5 ∷ 0 ∷ 0 ∷ 0 ∷ 48 ∷ 172 ∷ 2 ∷ 56 ∷ 0 ∷ [] }

abbrev pub online : SysadminClient
online = record { timeout = 10; xid = 7; id = 300; stream = some answered }

abbrev pub offline : SysadminClient
offline = record online { stream = none }

abbrev pub set_hi : Request
set_hi = set (record { key = 104 ∷ 105 ∷ []; value = Value.int32 (pos 5) })

command_length : length (CommandLaws.encode Wire.lawful (to_command set_hi online)) ≡ 15
unfolding CommandLaws.encode to_command SetLaws.codec SetLaws.encode ConfigValueLaws.codec
    ConfigValueLaws.encode opt message_bytes u32_bytes i32_bytes text_bytes Sample.tag Sample.text
    Sample.int32 encode CtlCommand.new CommandFields.set_id CommandFields.set_xid
    CommandFields.set_set CtlSet.new CtlSet.set_key CtlSet.set_value to_config_value
command_length = refl

pub command-Fits : Fits (CommandLaws.encode Wire.lawful (to_command set_hi online))
command-Fits = omega (arith, command_length)

pub succeeds : IsOk (send_request set_hi online).0
unfolding send_request CtlCommand.new CommandFields.set_id CommandFields.set_xid
    CommandFields.set_set CtlSet.new CtlSet.set_key CtlSet.set_value to_config_value
    CtlCommand.is_initialized CtlCommand.compute_size CtlCommand.message CtlSet.message
    ConfigValue.message Response.message set_payload opt_initialized message_size opt_message_size
    write_opt write_message wrap32 opt_size Sample.tag encode decode Sample.text Sample.int32
    read_four read_block Sample.parse Sample.checked Sample.code Sample.from_code Sample.read_tag
    Sample.read_varint Sample.read_u32 Sample.read_int Sample.to_i32 Sample.read_enumerator
    Sample.at_end merge_loop expect same_wire_type StatusCode.from_i32 Response.new
    Response.is_initialized ResponseFields.get_id ResponseFields.get_status from_ctl
    generic_response_from
succeeds = tt

-- The same run of `send` alone.
pub sends : IsOk (send (to_command set_hi online) online).0
unfolding send to_command CtlCommand.new CommandFields.set_id CommandFields.set_xid
    CommandFields.set_set CtlSet.new CtlSet.set_key CtlSet.set_value to_config_value
    CtlCommand.is_initialized CtlCommand.compute_size CtlCommand.message CtlSet.message
    ConfigValue.message Response.message set_payload opt_initialized message_size opt_message_size
    write_opt write_message wrap32 opt_size Sample.tag encode decode Sample.text Sample.int32
    read_four read_block Sample.parse Sample.checked Sample.code Sample.from_code Sample.read_tag
    Sample.read_varint Sample.read_u32 Sample.read_int Sample.to_i32 Sample.read_enumerator
    Sample.at_end merge_loop expect same_wire_type StatusCode.from_i32 Response.new
    Response.is_initialized
sends = tt

-- An answer to `Get`, with a value, a blank and a value of another kind.
abbrev pub got : Reply
got = get (record {
  id = 300;
  status = Status.success;
  kvs =
      record { key = 97 ∷ []; value = some (Value.bool true) }
      ∷ record { key = 98 ∷ []; value = none }
      ∷ record { key = 99 ∷ []; value = some (Value.int32_list (pos 1 ∷ negsuc 0 ∷ [])) }
      ∷ [];
})

response_length : length (ResponseLaws.encode Wire.lawful (to_response got)) ≡ 43
unfolding ResponseLaws.encode to_response GetResponseLaws.codec GetResponseLaws.encode
    MappedFieldLaws.codec MappedFieldLaws.encode ConfigValueLaws.codec ConfigValueLaws.encode
    Int32ListLaws.codec Int32ListLaws.encode opt each message_bytes u32_bytes i32_bytes bool_bytes
    text_bytes Sample.tag Sample.text Sample.int32 Sample.bool encode Response.new
    ResponseFields.set_id ResponseFields.set_status ResponseFields.set_get CtlGetResponse.new
    CtlGetResponse.set_kvs MappedField.new MappedField.set_key MappedField.set_value to_config_value
    to_ctl StatusCode.value
response_length = refl

pub response-Fits : Fits (ResponseLaws.encode Wire.lawful (to_response got))
response-Fits = omega (arith, response_length)

pub got-IsReply : IsReply Wire.lawful got
unfolding Sample.is_ascii
got-IsReply =
    (omega arith, ((refl, tt), ((refl, tt), ((refl, (omega arith, (omega arith, tt))), tt))))

pub set_hi-IsRequest : IsRequest Wire.lawful set_hi
unfolding Sample.is_ascii
set_hi-IsRequest = (refl, omega arith)
