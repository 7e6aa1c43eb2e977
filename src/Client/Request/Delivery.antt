-- ===== src/Client/Request/Delivery.antt =====
-- What a peer receives of a command: `send_command` of clients/rust/src/lib.rs, for all twelve.
use sysadmin.Base.{
  none, ◌≢◌, ap, ap₂, ◌∙◌, IsU32, some, ◌++◌, length, ◌≡◌, refl, Result, ok, err, panic, stuck,
}
use sysadmin.Protobuf.{Bytes, Protobuf}
use sysadmin.Protobuf.Laws.{IsLawful, Fits}
use sysadmin.Protobuf.Totality.{IsTotal}
use sysadmin.Wire.Transfer.{parse_from_bytes-encode}
use sysadmin.Ctl.Command
use sysadmin.Ctl.Command.Laws as CommandLaws
use sysadmin.Ctl.Response.{Response}
use sysadmin.Client.Net.{Net}
use sysadmin.Client.Net.Laws as NetLaws
use sysadmin.Client.Session.{request, send}
use sysadmin.Client.Session.Monad
use sysadmin.Client.Session.Monad.{
  SysadminError, sysadmin_connection_error, SysadminClient, M, IsOk,
}
use sysadmin.Client.Send.Exchange.{send-frame, send-ne-panic, send_unconnected}
use sysadmin.Client.Commands.{
  request_into, send_set, send_commit, send_drop, send_fire_hooks, send_reset, send_dump_hooks,
  send_in_flight, send_erase_key, send_trigger_hook, send_blame, send_get, send_rollback,
}
use sysadmin.Client.Request.{
  Request, IsRequest, to_command, read_command, set, commit, drop, fire_hooks, reset, dump_hooks,
  in_flight, erase_key, trigger_hook, blame, get, rollback,
}
use sysadmin.Client.Request.Built.{to_command-initialized, to_command-IsValid}
use sysadmin.Client.Request.Reading.{read_command-fresh, ids-fresh}

module _ ⦃P : Protobuf⦄ ⦃N : Net P⦄ where
  -- An outcome whose response is forgotten.
  abbrev pub discard : {A : Type 0} → Result SysadminError A → Result SysadminError (Unit {0})
  discard (ok a) = ok tt
  discard (err e) = err e
  discard panic = panic
  discard stuck = stuck

  abbrev pub forget :
      {A : Type 0}
      → Result SysadminError A × SysadminClient
      → Result SysadminError (Unit {0}) × SysadminClient
  forget (r, c) = (discard r, c)

  -- `send_command` of the request's own struct.
  unfoldable pub send_request : Request → M (Unit {0})
  unfolding send_set send_commit send_drop send_fire_hooks send_reset send_dump_hooks send_in_flight
      send_erase_key send_trigger_hook send_blame send_get send_rollback
  send_request (set x) c = forget (send_set x c)
  send_request (commit x) c = forget (send_commit x c)
  send_request (drop x) c = forget (send_drop x c)
  send_request (fire_hooks x) c = forget (send_fire_hooks x c)
  send_request (reset x) c = forget (send_reset x c)
  send_request (dump_hooks x) c = forget (send_dump_hooks x c)
  send_request (in_flight x) c = forget (send_in_flight x c)
  send_request (erase_key x) c = forget (send_erase_key x c)
  send_request (trigger_hook x) c = forget (send_trigger_hook x c)
  send_request (blame x) c = forget (send_blame x c)
  send_request (get x) c = forget (send_get x c)
  send_request (rollback x) c = forget (send_rollback x c)

  -- The outcome `r` is that of `s`, except that a success may fail in the conversion: an error is the
  -- same error.
  abbrev Follows :
      Result SysadminError (Unit {0}) × SysadminClient
      → Result SysadminError Response × SysadminClient
      → Type 0
  Follows r s =
      (IsOk r.0 → IsOk s.0) × (r.1 ≡ s.1) × ((e : SysadminError) → s.0 ≡ err e → r.0 ≡ err e)

  converted :
      {A : Type 0} (f : Response → Result SysadminError A)
      (s : Result SysadminError Response × SysadminClient)
      → Follows (forget (Monad.and_then s λ resp. Monad.lift (λ e. e) (f resp))) s
  converted f (ok resp, c) = (λ o. tt, refl, λ e p. cc)
  converted f (err x, c) = (λ o. o, refl, λ e p. ap discard p)
  converted f (panic, c) = (λ o. o, refl, λ e p. cc)
  converted f (stuck, c) = (λ o. o, refl, λ e p. cc)

  follows :
      (r : Request) (c : SysadminClient) → Follows (send_request r c) (send (to_command r c) c)
  unfolding send_request to_command request_into request
  follows (set x) c = converted _ _
  follows (commit x) c = converted _ _
  follows (drop x) c = converted _ _
  follows (fire_hooks x) c = converted _ _
  follows (reset x) c = converted _ _
  follows (dump_hooks x) c = converted _ _
  follows (in_flight x) c = converted _ _
  follows (erase_key x) c = converted _ _
  follows (trigger_hook x) c = converted _ _
  follows (blame x) c = converted _ _
  follows (get x) c = converted _ _
  follows (rollback x) c = converted _ _

  module _ (L : IsLawful P) where
    -- The bytes of the command of a request whose values and identifiers are of their Rust types,
    -- and whose encoding a `u32` can count, are parsed into a command that stands for the same
    -- request and carries the identifiers of the client.
    pub parse-to_command :
        (r : Request) (c : SysadminClient)
        → IsRequest L r
        → IsU32 c.id
        → IsU32 c.xid
        → Fits (CommandLaws.encode L (to_command r c))
        → (m : Command.Command) × (P.parse_from_bytes Command.message
              (CommandLaws.encode L (to_command r c))
            ≡ ok m)
          × (read_command m ≡ some r)
          × (m.id ≡ some c.id)
          × (m.xid ≡ some c.xid)
    unfolding Command.message CommandLaws.codec
    parse-to_command r c valid id xid fits =
        let (same_id, same_xid) = ids-fresh L r c in
        (
          CommandLaws.fresh L (to_command r c),
          parse_from_bytes-encode L (CommandLaws.codec L) (to_command r c)
              (to_command-initialized r c) fits (to_command-IsValid L r c valid id xid),
          read_command-fresh L r c,
          same_id,
          same_xid,
        )

    -- On a connected client, for a request whose values and identifiers are of their Rust types and
    -- whose encoding a `u32` can count: when `send_command` of any of the twelve commands succeeds,
    -- what it has handed over to the socket is one frame, a length and that many bytes, which a peer
    -- parses into a command that stands for the same request with the identifiers of the client. Of
    -- the client, only the stream has changed.
    pub send_request-delivers :
        (T : IsTotal P) (K : NetLaws.IsLawful N) (r : Request) (c : SysadminClient)
        (s : N.TcpStream)
        → c.stream ≡ some s
        → IsRequest L r
        → IsU32 c.id
        → IsU32 c.xid
        → Fits (CommandLaws.encode L (to_command r c))
        → IsOk (send_request r c).0
        → (t : N.TcpStream) × (bs : Bytes) × (m : Command.Command) × ((send_request r c).1
            ≡ record c { stream = some t })
          × (K.sent t ≡ K.sent s ++ (N.little_endian32 (length bs) ++ bs))
          × (P.parse_from_bytes Command.message bs ≡ ok m)
          × (read_command m ≡ some r)
          × (m.id ≡ some c.id)
          × (m.xid ≡ some c.xid)
    send_request-delivers T K r c s up valid id xid fits o =
        let (success, after, failure) = follows r c in
        let (t, still, wrote) =
          send-frame L T K (to_command r c) c s up (to_command-initialized r c) fits (success o) in
        let (m, parsed, reads, same_id, same_xid) = parse-to_command r c valid id xid fits in
        (
          t,
          CommandLaws.encode L (to_command r c),
          m,
          rw (after, still),
          wrote,
          parsed,
          reads,
          same_id,
          same_xid,
        )

    -- On a connected client none of the twelve commands makes `send` panic, if a `u32` can count its
    -- encoding: both of its assertions hold, whatever the socket does and whatever it answers.
    pub send-to_command :
        (T : IsTotal P) (K : NetLaws.IsLawful N) (r : Request) (c : SysadminClient)
        (s : N.TcpStream)
        → c.stream ≡ some s
        → Fits (CommandLaws.encode L (to_command r c))
        → (send (to_command r c) c).0 ≢ panic
    send-to_command T K r c s up fits =
        (send-ne-panic L T K (to_command r c) c s up (to_command-initialized r c) fits).0

  -- Without a connection `send_command` of each of the twelve commands returns the error of the source,
  -- a connection error with its text, and leaves the client as it was.
  pub send_request-unconnected :
      (r : Request) (c : SysadminClient)
      → c.stream ≡ none
      → send_request r c
        ≡ (err (sysadmin_connection_error "Command issued before connection was init"), c)
  send_request-unconnected r c down =
      let (success, after, failure) = follows r c in
      let e = send_unconnected (to_command r c) c down in
      ap₂ (λ r d. (r, d)) (failure _ (ap (λ x. x.0) e)) (after ∙ ap (λ x. x.1) e)
