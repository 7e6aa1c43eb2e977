-- ===== src/Client/Send/Arrival.antt =====
-- The reading of a response in `send` of clients/rust/src/lib.rs.
use sysadmin.Base.{true, some, ◌++◌, length, ◌≡◌, ok}
use sysadmin.Protobuf.{Bytes, Protobuf}
use sysadmin.Protobuf.Laws.{IsLawful, Fits}
use sysadmin.Wire.Transfer.{parse_from_bytes-encode}
use sysadmin.Ctl.Response
use sysadmin.Ctl.Response.{Response}
use sysadmin.Ctl.Response.Laws as ResponseLaws
use sysadmin.Client.Net.{Net}
use sysadmin.Client.Net.Laws as NetLaws
use sysadmin.Client.Session.{receive, read_response}
use sysadmin.Client.Session.Monad.{SysadminClient}

module _ ⦃P : Protobuf⦄ ⦃N : Net P⦄ (L : IsLawful P) (K : NetLaws.IsLawful N) where
  response_body :
      (r : Response)
      → Response.is_initialized r ≡ true
      → ResponseLaws.IsValid L r
      → Fits (ResponseLaws.encode L r)
      → P.parse_from_bytes Response.message (ResponseLaws.encode L r) ≡ ok (ResponseLaws.fresh L r)
  unfolding Response.message ResponseLaws.codec
  response_body r init valid fits =
      parse_from_bytes-encode L (ResponseLaws.codec L) r init fits valid

  read_response-frame :
      (s : N.TcpStream) (bs rest : Bytes)
      → Fits bs
      → K.incoming (N.coded s) ≡ N.little_endian32 (length bs) ++ (bs ++ rest)
      → (read_response s).0 ≡ ok bs
  unfolding read_response
  read_response-frame s bs rest fits e =
      let (size, left) =
        K.read_raw_little_endian32_lem (length bs) (bs ++ rest) (N.coded s) fits e in
      rw (size, K.read_raw_bytes_lem bs rest _ left)

  -- On a connected client, if the next bytes of the socket are the frame of a response that is
  -- initialized, holds values of their types and no unknown field, and whose encoding a `u32` can
  -- count, then `receive` returns that response, apart from the cached sizes, whatever bytes follow.
  pub receive-frame :
      (r : Response) (c : SysadminClient) (s : N.TcpStream) (rest : Bytes)
      → c.stream ≡ some s
      → Response.is_initialized r ≡ true
      → ResponseLaws.IsValid L r
      → Fits (ResponseLaws.encode L r)
      → K.incoming (N.coded s)
        ≡ N.little_endian32 (length (ResponseLaws.encode L r)) ++ (ResponseLaws.encode L r ++ rest)
      → (receive c).0 ≡ ok (ResponseLaws.fresh L r)
  unfolding receive
  receive-frame r c s rest up init valid fits e = simp (
    up,
    read_response-frame s (ResponseLaws.encode L r) rest fits e,
    response_body r init valid fits,
  )
