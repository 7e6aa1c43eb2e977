-- ===== src/Tests/Messages.antt =====
-- The messages that travel, on concrete inputs.
use sysadmin.Base.{◌∷◌, [], ◌++◌, err, refl, is_some, if◌then◌else◌, length, ◌≡◌, ok, arith}
use sysadmin.Protobuf.{varint, length_delimited, Bytes}
use sysadmin.Protobuf.Sample.{sample}
use sysadmin.Protobuf.Sample.Lawful as Wire
use sysadmin.Ctl.Command
use sysadmin.Ctl.Command.Laws as CommandLaws
use sysadmin.Ctl.Response
use sysadmin.Ctl.Response.Laws as ResponseLaws
use sysadmin.Ctl.Command.Oneof.{count, members, count-members}
use sysadmin.Ctl.Command.Refusal.{wire_type_of, merge_from-refuses}
use sysadmin.Wire.{same_wire_type}
use sysadmin.Protobuf.Sample as Sample
use sysadmin.Ctl.RoundTrip.{parse-write_command, parse-write_response}
use sysadmin.Client.Net.Sample.{socket}
use sysadmin.Client.Request.{to_command}
use sysadmin.Client.Request.Built.{to_command-initialized, to_command-IsValid}
use sysadmin.Client.Responses.Reply.{to_response}
use sysadmin.Client.Responses.Sound.{to_response-Sound}
use sysadmin.Tests.{set_hi-IsRequest, online, set_hi, command-Fits, got, got-IsReply, response-Fits}

parse-write_command_example :
    (bs : Bytes) × (sample.write_to_bytes Command.message (to_command set_hi online) ≡ ok bs)
    × ((Command.compute_size (to_command set_hi online)).0 ≡ length bs)
    × (sample.parse_from_bytes Command.message bs
        ≡ ok (CommandLaws.fresh Wire.lawful (to_command set_hi online)))
parse-write_command_example =
    parse-write_command Wire.lawful (to_command set_hi online)
      (to_command-initialized set_hi online)
      (to_command-IsValid Wire.lawful set_hi online set_hi-IsRequest (omega arith) (omega arith))
      command-Fits

parse-write_response_example :
    (bs : Bytes) × (sample.write_to_bytes Response.message (to_response got) ≡ ok bs)
    × ((Response.compute_size (to_response got)).0 ≡ length bs)
    × (sample.parse_from_bytes Response.message bs
        ≡ ok (ResponseLaws.fresh Wire.lawful (to_response got)))
parse-write_response_example =
    parse-write_response Wire.lawful (to_response got)
      (to_response-Sound Wire.lawful got got-IsReply).0
      (to_response-Sound Wire.lawful got got-IsReply).1 response-Fits

count-members_example :
    count (members (to_command set_hi online))
    ≡ (if is_some (to_command set_hi online).payload then 1 else 0)
count-members_example = count-members (to_command set_hi online)

merge_from-refuses_example :
    Command.merge_from Command.new (Sample.tag 6 length_delimited ++ (1 ∷ 0 ∷ []))
    ≡ err (Sample.wire_type_error length_delimited)
unfolding wire_type_of same_wire_type
merge_from-refuses_example =
    merge_from-refuses Wire.lawful 6 length_delimited varint Command.new (1 ∷ 0 ∷ []) refl refl
