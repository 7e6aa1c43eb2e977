-- ===== src/Client/Send/Exchange.antt =====
-- The contract of `send`: what it hands over and what it returns.
use sysadmin.Base.{
  true, none, some, [], ◌++◌, length, ◌≡◌, ◌≢◌, refl, ◌∙◌, ap, subst, append-nil, Result, err,
  panic,
}
use sysadmin.Protobuf.{Bytes, Protobuf}
use sysadmin.Protobuf.Laws.{IsLawful, Fits}
use sysadmin.Protobuf.Totality.{Returns, IsTotal}
use sysadmin.Ctl.Command
use sysadmin.Ctl.Command.{Command}
use sysadmin.Ctl.Command.Laws as CommandLaws
use sysadmin.Ctl.Response
use sysadmin.Ctl.Response.{Response}
use sysadmin.Ctl.Response.Totals as ResponseTotals
use sysadmin.Client.Net.{Net}
use sysadmin.Client.Net.Laws as NetLaws
use sysadmin.Client.Session.{send}
use sysadmin.Client.Session.Monad.{sysadmin_connection_error, SysadminClient, IsOk}
use sysadmin.Client.Send.{send_connected}
use sysadmin.Client.Send.Outcome.{Ran, and_then-Ran, transmit-Ran, await-Ran, receive-Ran}

Returns-ne-panic : {E A : Type 0} {r : Result E A} → Returns r → r ≢ panic
Returns-ne-panic Returns.value e = cc
Returns-ne-panic Returns.error e = cc

module _ ⦃P : Protobuf⦄ where
  -- With readers of the crate that return on every input, parsing a response returns a value or an
  -- error on every input: the loops of `merge_from` end, in all the nested messages too.
  pub parse_response-returns :
      IsTotal P → (bs : Bytes) → Returns (P.parse_from_bytes Response.message bs)
  parse_response-returns T bs =
      T.parse_from_bytes-total Response.message bs (ResponseTotals.parser T)

  module _ ⦃N : Net P⦄ where
    -- Without a connection `send` fails with the error of the source and leaves the client as it was.
    pub send_unconnected :
        (command : Command) (c : SysadminClient)
        → c.stream ≡ none
        → send command c
          ≡ (err (sysadmin_connection_error "Command issued before connection was init"), c)
    unfolding send
    send_unconnected command c down = simp down

    module _ (L : IsLawful P) (T : IsTotal P) (K : NetLaws.IsLawful N) where
      frame : Command → Bytes
      frame command =
          N.little_endian32 (length (CommandLaws.encode L command)) ++ CommandLaws.encode L command

      -- The frame, as the steps of `send` put it together.
      abbrev pieces : Command → Bytes
      pieces command =
          (N.little_endian32 (length (CommandLaws.encode L command))
            ++ (CommandLaws.encode L command ++ []))
          ++ (([] ++ []) ++ ([] ++ []))

      pieces-frame : (command : Command) → pieces command ≡ frame command
      unfolding frame
      pieces-frame command = simp append-nil

      send-Ran :
          (command : Command) (c : SysadminClient) (s : N.TcpStream)
          → Command.is_initialized command ≡ true
          → Fits (CommandLaws.encode L command)
          → Ran K
              (record c { stream = some s })
              s
              (pieces command)
              (send command (record c { stream = some s }))
      send-Ran command c s init fits =
          rw (send_connected L command (record c { stream = some s }) s refl init fits) (
            and_then-Ran K _ _ (transmit-Ran K _ (CommandLaws.encode L command) c s) λ _ t.
              and_then-Ran K _ _ (await-Ran K c t)
                λ _ u. receive-Ran K c u (λ bs. Returns-ne-panic (parse_response-returns T bs)))

      -- What `send` comes to on a client that is connected.
      abbrev Sends : Command → SysadminClient → N.TcpStream → Type 0
      Sends command c s =
          ((send command c).0 ≢ panic)
          × ((t : N.TcpStream) × ((send command c).1 ≡ record c { stream = some t })
              × (IsOk (send command c).0 → K.sent t ≡ K.sent s ++ frame command))

      sends :
          (command : Command) (c : SysadminClient) (s : N.TcpStream)
          → Command.is_initialized command ≡ true
          → Fits (CommandLaws.encode L command)
          → Sends command (record c { stream = some s }) s
      sends command c s init fits =
          let r = send-Ran command c s init fits in
          (
            r.calm,
            (r.after, r.still, λ o. r.wrote o ∙ ap (λ bs. K.sent s ++ bs) (pieces-frame command)),
          )

      Sends-at :
          (command : Command) (c : SysadminClient) (s : N.TcpStream)
          → c.stream ≡ some s
          → Command.is_initialized command ≡ true
          → Fits (CommandLaws.encode L command)
          → Sends command c s
      Sends-at command c s up init fits =
          let e : record c { stream = some s } ≡ c = rw (← up) in
          subst (λ d. Sends command d s) e (sends command c s init fits)

      -- On a connected client, `send` of a command that is initialized, and whose encoding a `u32` can
      -- count, does not panic, so that both of its assertions hold; and of the client it changes the
      -- stream alone, whatever the socket does.
      pub send-ne-panic :
          (command : Command) (c : SysadminClient) (s : N.TcpStream)
          → c.stream ≡ some s
          → Command.is_initialized command ≡ true
          → Fits (CommandLaws.encode L command)
          → ((send command c).0 ≢ panic)
            × ((t : N.TcpStream) × ((send command c).1 ≡ record c { stream = some t }))
      send-ne-panic command c s up init fits =
          let (calm, (t, still, wrote)) = Sends-at command c s up init fits in (calm, (t, still))

      -- On a connected client, if `send` of a command that is initialized, and whose encoding a
      -- `u32` can count, succeeds, it has handed over to the socket exactly the frame, the length of
      -- the encoding as a little-endian `u32` and the encoding, and of the client only the stream
      -- has changed.
      pub send-frame :
          (command : Command) (c : SysadminClient) (s : N.TcpStream)
          → c.stream ≡ some s
          → Command.is_initialized command ≡ true
          → Fits (CommandLaws.encode L command)
          → IsOk (send command c).0
          → (t : N.TcpStream) × ((send command c).1 ≡ record c { stream = some t })
            × (K.sent t
                ≡ K.sent s
                  ++ (N.little_endian32 (length (CommandLaws.encode L command))
                      ++ CommandLaws.encode L command))
      unfolding frame
      send-frame command c s up init fits o =
          let (calm, (t, still, wrote)) = Sends-at command c s up init fits in (t, still, wrote o)
