-- ===== src/Client/Responses/Receipt.antt =====
-- A reply that arrives: `send` of clients/rust/src/lib.rs from the first read on, and the conversion.
use sysadmin.Base.{some, ◌++◌, length, ◌≡◌, ok}
use sysadmin.Protobuf.{Bytes, Protobuf}
use sysadmin.Protobuf.Laws.{IsLawful, Fits}
use sysadmin.Ctl.Response.{Response}
use sysadmin.Ctl.Response.Laws as ResponseLaws
use sysadmin.Client.Net.{Net}
use sysadmin.Client.Net.Laws as NetLaws
use sysadmin.Client.Session.{receive}
use sysadmin.Client.Session.Monad.{SysadminClient}
use sysadmin.Client.Send.Arrival.{receive-frame}
use sysadmin.Client.Responses.Reply.{Reply, to_response}
use sysadmin.Client.Responses.Faithful.{reply_from, from-to_response}
use sysadmin.Client.Responses.Sound.{IsReply, to_response-Sound}

module _ ⦃P : Protobuf⦄ (L : IsLawful P) where
  -- On a connected client, if the next bytes of the socket are the frame of the response that a
  -- peer has built for a reply with values of their Rust types, and a `u32` can count its
  -- encoding, then `receive` succeeds with a response whose conversion is that reply, whatever
  -- bytes follow. A commit without its identifier is not such a reply.
  pub receive-to_response :
      {E : Type 0} ⦃N : Net P⦄ (K : NetLaws.IsLawful N) (r : Reply) (c : SysadminClient)
      (s : N.TcpStream) (rest : Bytes)
      → IsReply L r
      → c.stream ≡ some s
      → Fits (ResponseLaws.encode L (to_response r))
      → K.incoming (N.coded s)
        ≡ N.little_endian32 (length (ResponseLaws.encode L (to_response r)))
          ++ (ResponseLaws.encode L (to_response r) ++ rest)
      → (m : Response) × ((receive c).0 ≡ ok m) × (reply_from {E = E} r m ≡ ok r)
  receive-to_response K r c s rest h up fits e =
      let (init, valid) = to_response-Sound L r h in
      (
        ResponseLaws.fresh L (to_response r),
        receive-frame L K (to_response r) c s rest up init valid fits e,
        from-to_response L r,
      )
