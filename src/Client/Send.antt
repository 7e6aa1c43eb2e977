-- ===== src/Client/Send.antt =====
-- `send` of clients/rust/src/lib.rs, step by step.
pub mod Outcome
pub mod Exchange
pub mod Arrival
use sysadmin.Base.{
  ℕ, ◌%◌, ◌^◌, ◌<◌, true, false, none, some, ◌++◌, length, ◌≡◌, refl, sym, ◌∙◌, Result, ok, err,
  arith, ◌==◌,
}
use sysadmin.Protobuf.{Bytes, Protobuf}
use sysadmin.Protobuf.Laws.{IsLawful, Fits}
use sysadmin.Wire.Transfer.{write_to_bytes-compute_size, compute_size-length}
use sysadmin.Ctl.Command
use sysadmin.Ctl.Command.{Command}
use sysadmin.Ctl.Command.Laws as CommandLaws
use sysadmin.Client.Net.{Net}
use sysadmin.Client.Session.{send, transmit, await, receive}
use sysadmin.Client.Session.Monad.{SysadminClient, ◌>>=◌, ◌>>◌}

length_mod : (n : ℕ) → n < 2 ^ 32 → (n == n % 2 ^ 32) ≡ true
length_mod n h = ground arith

module _ ⦃P : Protobuf⦄ ⦃N : Net P⦄ (L : IsLawful P) where
  module _ (command : Command) (init : Command.is_initialized command ≡ true)
      (fits : Fits (CommandLaws.encode L command)) where
    size : (Command.compute_size command).0 ≡ length (CommandLaws.encode L command)
    unfolding Command.message CommandLaws.codec
    size = compute_size-length L (CommandLaws.codec L) command init fits

    written :
        P.write_to_bytes Command.message (Command.compute_size command).1
        ≡ ok (CommandLaws.encode L command)
    unfolding Command.message CommandLaws.codec
    written = write_to_bytes-compute_size L (CommandLaws.codec L) command init fits

  -- Both assertions hold, and what is left is to write the frame, to wait and to read.
  pub send_connected :
      (command : Command) (c : SysadminClient) (s : N.TcpStream)
      → c.stream ≡ some s
      → Command.is_initialized command ≡ true
      → Fits (CommandLaws.encode L command)
      → send command c
        ≡ (transmit
                (N.little_endian32 (length (CommandLaws.encode L command)))
                (CommandLaws.encode L command)
              >>= λ _. await >>= λ _. receive)
            c
  unfolding send
  send_connected command c s up init fits = simp (
    up,
    init,
    size command init fits,
    written command init fits,
    length_mod (length (CommandLaws.encode L command)) fits,
  )
