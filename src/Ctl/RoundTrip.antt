-- ===== src/Ctl/RoundTrip.antt =====
-- `write_to_bytes`, `compute_size` and `parse_from_bytes` on the two messages that travel: `Command`
-- and `Response` of clients/rust/src/sysadminctl.rs, with all the messages that they hold.
use sysadmin.Base.{length, ◌≡◌, ok, true}
use sysadmin.Protobuf.{Bytes, Protobuf}
use sysadmin.Protobuf.Laws.{IsLawful, Fits}
use sysadmin.Wire.Transfer.{write_to_bytes-encode, compute_size-length, parse_from_bytes-encode}
use sysadmin.Ctl.Command
use sysadmin.Ctl.Command.{Command}
use sysadmin.Ctl.Command.Laws as CommandLaws
use sysadmin.Ctl.Response
use sysadmin.Ctl.Response.{Response}
use sysadmin.Ctl.Response.Laws as ResponseLaws

module _ ⦃P : Protobuf⦄ (L : IsLawful P) where
  -- A command that is initialized, holds values of their types and no unknown field, and whose encoding
  -- a `u32` can count, is written; its computed size is the number of the bytes; and parsing the bytes
  -- gives the command back, apart from the cached sizes.
  pub parse-write_command :
      (m : Command)
      → Command.is_initialized m ≡ true
      → CommandLaws.IsValid L m
      → Fits (CommandLaws.encode L m)
      → (bs : Bytes) × (P.write_to_bytes Command.message m ≡ ok bs)
        × ((Command.compute_size m).0 ≡ length bs)
        × (P.parse_from_bytes Command.message bs ≡ ok (CommandLaws.fresh L m))
  unfolding Command.message CommandLaws.codec
  parse-write_command m init valid fits = (
    CommandLaws.encode L m,
    write_to_bytes-encode L (CommandLaws.codec L) m init fits,
    compute_size-length L (CommandLaws.codec L) m init fits,
    parse_from_bytes-encode L (CommandLaws.codec L) m init fits valid,
  )

  -- A response that is initialized, holds values of their types and no unknown field, and whose
  -- encoding a `u32` can count, is written; its computed size is the number of the bytes; and parsing
  -- the bytes gives the response back, apart from the cached sizes.
  pub parse-write_response :
      (m : Response)
      → Response.is_initialized m ≡ true
      → ResponseLaws.IsValid L m
      → Fits (ResponseLaws.encode L m)
      → (bs : Bytes) × (P.write_to_bytes Response.message m ≡ ok bs)
        × ((Response.compute_size m).0 ≡ length bs)
        × (P.parse_from_bytes Response.message bs ≡ ok (ResponseLaws.fresh L m))
  unfolding Response.message ResponseLaws.codec
  parse-write_response m init valid fits = (
    ResponseLaws.encode L m,
    write_to_bytes-encode L (ResponseLaws.codec L) m init fits,
    compute_size-length L (ResponseLaws.codec L) m init fits,
    parse_from_bytes-encode L (ResponseLaws.codec L) m init fits valid,
  )
