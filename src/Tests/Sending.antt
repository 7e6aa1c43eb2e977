-- ===== src/Tests/Sending.antt =====
-- Sending, on concrete inputs.
use sysadmin.Base.{some, ◌++◌, length, ◌≡◌, ◌≢◌, refl, ok, err, panic, arith}
use sysadmin.Protobuf.{Bytes}
use sysadmin.Protobuf.Sample.{sample}
use sysadmin.Protobuf.Sample.Lawful as Wire
use sysadmin.Protobuf.Sample.Totals.{total}
use sysadmin.Ctl.Command
use sysadmin.Ctl.Command.Laws as CommandLaws
use sysadmin.Client.Net.Sample.{Socket, socket, little_endian32}
use sysadmin.Client.Net.Sample.Lawful as Net
use sysadmin.Client.Session.{send}
use sysadmin.Client.Session.Monad.{sysadmin_connection_error}
use sysadmin.Client.Send.Exchange.{send-ne-panic, send-frame}
use sysadmin.Client.Request.{to_command, read_command}
use sysadmin.Client.Request.Built.{to_command-initialized}
use sysadmin.Client.Request.Delivery.{
  send_request, parse-to_command, send_request-delivers, send-to_command, send_request-unconnected,
}
use sysadmin.Tests.{
  set_hi-IsRequest, online, offline, answered, set_hi, command-Fits, succeeds, sends,
}

send_request-delivers_example :
    (t : Socket) × (bs : Bytes) × (m : Command.Command) × ((send_request set_hi online).1
      ≡ record online { stream = some t })
    × (t.written ≡ answered.written ++ (little_endian32 (length bs) ++ bs))
    × (sample.parse_from_bytes Command.message bs ≡ ok m)
    × (read_command m ≡ some set_hi)
    × (m.id ≡ some 300)
    × (m.xid ≡ some 7)
send_request-delivers_example =
    send_request-delivers Wire.lawful total Net.lawful set_hi online answered refl set_hi-IsRequest
      (omega arith) (omega arith) command-Fits succeeds

parse-to_command_example :
    (m : Command.Command) × (sample.parse_from_bytes Command.message
        (CommandLaws.encode Wire.lawful (to_command set_hi online))
      ≡ ok m)
    × (read_command m ≡ some set_hi)
    × (m.id ≡ some 300)
    × (m.xid ≡ some 7)
parse-to_command_example =
    parse-to_command Wire.lawful set_hi online set_hi-IsRequest (omega arith) (omega arith)
      command-Fits

send-to_command_example : (send (to_command set_hi online) online).0 ≢ panic
send-to_command_example =
    send-to_command Wire.lawful total Net.lawful set_hi online answered refl command-Fits

send_request-unconnected_example :
    send_request set_hi offline
    ≡ (err (sysadmin_connection_error "Command issued before connection was init"), offline)
send_request-unconnected_example = send_request-unconnected set_hi offline refl

send-ne-panic_example :
    ((send (to_command set_hi online) online).0 ≢ panic)
    × ((t : Socket) × ((send (to_command set_hi online) online).1
          ≡ record online { stream = some t }))
send-ne-panic_example =
    send-ne-panic Wire.lawful total Net.lawful (to_command set_hi online) online answered refl
      (to_command-initialized set_hi online) command-Fits

send-frame_example :
    (t : Socket) × ((send (to_command set_hi online) online).1 ≡ record online { stream = some t })
    × (t.written
        ≡ answered.written
          ++ (little_endian32 (length (CommandLaws.encode Wire.lawful (to_command set_hi online)))
              ++ CommandLaws.encode Wire.lawful (to_command set_hi online)))
send-frame_example =
    send-frame Wire.lawful total Net.lawful (to_command set_hi online) online answered refl
      (to_command-initialized set_hi online) command-Fits sends
