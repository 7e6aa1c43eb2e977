-- ===== src/Tests/Receiving.antt =====
-- Receiving, on concrete inputs.
use sysadmin.Base.{some, ◌∷◌, [], ◌++◌, length, ◌≡◌, refl, ok}
use sysadmin.Protobuf.Sample.{sample, Failure}
use sysadmin.Protobuf.Sample.Lawful as Wire
use sysadmin.Protobuf.Sample.Totals.{total}
use sysadmin.Protobuf.Totality.{Returns}
use sysadmin.Ctl.Response
use sysadmin.Ctl.Response.Laws as ResponseLaws
use sysadmin.Client.Net.Sample.{Socket, socket, little_endian32}
use sysadmin.Client.Net.Sample.Lawful as Net
use sysadmin.Client.Session.{receive}
use sysadmin.Client.Session.Monad.{SysadminClient}
use sysadmin.Client.Send.Exchange.{parse_response-returns}
use sysadmin.Client.Send.Arrival.{receive-frame}
use sysadmin.Client.Responses.Reply.{to_response}
use sysadmin.Client.Responses.Faithful.{reply_from}
use sysadmin.Client.Responses.Receipt.{receive-to_response}
use sysadmin.Client.Responses.Sound.{to_response-Sound}
use sysadmin.Tests.{online, got, got-IsReply, response-Fits}

-- The response, and a byte of the next one.
abbrev arrived : Socket
arrived = record {
  written = [];
  inbox =
      little_endian32 (length (ResponseLaws.encode Wire.lawful (to_response got)))
      ++ (ResponseLaws.encode Wire.lawful (to_response got) ++ (9 ∷ []));
}

abbrev waiting : SysadminClient
waiting = record online { stream = some arrived }

receive-to_response_example :
    (m : Response.Response) × ((receive waiting).0 ≡ ok m)
    × (reply_from {E = Failure} got m ≡ ok got)
receive-to_response_example =
    receive-to_response Wire.lawful Net.lawful got waiting arrived (9 ∷ []) got-IsReply refl
      response-Fits refl

receive-frame_example : (receive waiting).0 ≡ ok (ResponseLaws.fresh Wire.lawful (to_response got))
receive-frame_example =
    receive-frame Wire.lawful Net.lawful (to_response got) waiting arrived (9 ∷ []) refl
      (to_response-Sound Wire.lawful got got-IsReply).0
      (to_response-Sound Wire.lawful got got-IsReply).1 response-Fits refl

parse_response-returns_example :
    Returns (sample.parse_from_bytes Response.message (48 ∷ 172 ∷ 2 ∷ 56 ∷ []))
parse_response-returns_example = parse_response-returns total (48 ∷ 172 ∷ 2 ∷ 56 ∷ [])
