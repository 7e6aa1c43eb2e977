-- ===== src/Client/Session.antt =====
-- `SysadminClient` of clients/rust/src/lib.rs: a connection and what is sent with
-- each command. A method takes the client and returns its outcome with the client after it.
pub mod Monad
pub mod Timeouts
use sysadmin.Base.{
  ℕ, ◌*◌, ◌%◌, ◌^◌, Bool, true, false, Option, none, some, String, Result, ok, err, panic, stuck,
  length, ◌==◌, if◌then◌else◌,
}
use sysadmin.Protobuf.{Bytes, Protobuf}
use sysadmin.Ctl.Command
use sysadmin.Ctl.Command.{Command}
use sysadmin.Ctl.Command.Fields as CommandFields
use sysadmin.Ctl.Response
use sysadmin.Ctl.Response.{Response}
use sysadmin.Client.Net.{Net, Duration}
use Prim.Native.String.{◌++◌ as str_append}
use Monad.{
  SysadminError, sysadmin_connection_error, io_error, protobuf_error, context, SysadminClient, M,
  pure, map_err, bail, assert, lift, get_client, put_client, on_stream, ◌>>=◌, ◌>>◌,
}

abbrev pub default_command_timeout : ℕ
default_command_timeout = 10

-- `Duration::from_secs`
abbrev from_secs : ℕ → Duration
from_secs s = s * 1_000_000_000

module _ ⦃P : Protobuf⦄ ⦃N : Net P⦄ where
  unfoldable pub new : Duration → ℕ → ℕ → SysadminClient
  new timeout xid id = record { timeout = timeout; xid = xid; id = id; stream = none }

  unfoldable pub default : SysadminClient
  unfolding new
  default = new (from_secs default_command_timeout) 1 1

  -- `attempt` is what `TcpStream::connect(address)` returned. The stream is kept only if both
  -- timeouts are set on it.
  unfoldable pub connect : Result N.IoError N.TcpStream → M (Unit {0})
  connect attempt = do
    stream ← lift (λ e. context "failed to connect to sysadmin" (io_error e)) attempt
    client ← get_client
    let (w, stream') = N.set_write_timeout client.timeout stream
    _ ← lift (λ e. context "error setting write timeout" (io_error e)) w
    let (r, stream'') = N.set_read_timeout client.timeout stream'
    _ ← lift (λ e. context "error setting read timeout" (io_error e)) r
    put_client (record client { stream = some stream'' })

  unfoldable pub set_timeout : Duration → M (Unit {0})
  set_timeout timeout = do
    client ← get_client
    elim client.stream [
      | none ↦ bail (sysadmin_connection_error "Command issued before connection was initialized")
      | some _ ↦ do
        put_client (record client { timeout = timeout })
        on_stream (λ e. context "Error setting write timeout" (io_error e))
            (N.set_write_timeout timeout)
        on_stream (λ e. context "Error setting read timeout" (io_error e))
            (N.set_read_timeout timeout)
    ]

  unfoldable pub reset_timeout_to_default : M (Unit {0})
  unfolding set_timeout
  reset_timeout_to_default = set_timeout (from_secs default_command_timeout)

  unfoldable pub make_command : SysadminClient → Command
  make_command c = CommandFields.set_id (CommandFields.set_xid Command.new c.xid) c.id

  -- The two reads from one `CodedInputStream`, and the stream that they leave.
  unfoldable pub read_body :
      Result P.ProtobufError ℕ → N.CodedInputStream → Result SysadminError Bytes × N.TcpStream
  read_body (ok resp_size) cis =
      let (bytes, cis') = N.read_raw_bytes resp_size cis in
      (
        map_err (λ e. context "error reading response from sysadmin" (protobuf_error e)) bytes,
        N.stream cis',
      )
  read_body (err e) cis =
      (err (context "error reading message size" (protobuf_error e)), N.stream cis)
  read_body panic cis = (panic, N.stream cis)
  read_body stuck cis = (stuck, N.stream cis)

  unfoldable pub read_response : N.TcpStream → Result SysadminError Bytes × N.TcpStream
  unfolding read_body
  read_response s = let (size, cis) = N.read_raw_little_endian32 (N.coded s) in read_body size cis

  -- What is read once the command is written.
  unfoldable pub receive : M Response
  unfolding read_response
  receive = do
    response_bytes ← on_stream (λ e. e) read_response
    lift (λ e. context "error parsing response from sysadmin" (protobuf_error e))
        (P.parse_from_bytes Response.message response_bytes)

  unfoldable pub transmit : Bytes → Bytes → M (Unit {0})
  transmit wtr bytes = do
    on_stream io_error (N.write_all wtr)
    on_stream io_error (N.write_all bytes)
    on_stream io_error N.flush

  -- `stream.peek(&mut buf)`, whose result is only tested for an error.
  unfoldable pub await : M (Unit {0})
  await = do
    _ ←
        on_stream
          (λ e.
            sysadmin_connection_error
              (str_append "Unable to read response, command may have timed out: " (N.display e)))
          (N.peek 10)
    pure tt

  unfoldable pub send : Command → M Response
  unfolding transmit await receive
  send command = do
    client ← get_client
    elim client.stream [
      | none ↦ bail (sysadmin_connection_error "Command issued before connection was init")
      | some _ ↦ do
        assert (Command.is_initialized command)
        let (size, command') = Command.compute_size command
        bytes ← lift protobuf_error (P.write_to_bytes Command.message command')
        assert (size == length bytes % 2 ^ 32)
        transmit (N.little_endian32 size) bytes
        await
        receive
    ]

  unfoldable pub set_xid : ℕ → SysadminClient → SysadminClient
  set_xid xid c = record c { xid = xid }

  unfoldable pub set_id : ℕ → SysadminClient → SysadminClient
  set_id id c = record c { id = id }

  -- The method `set_payload` of the trait `Payload` is an argument.
  unfoldable pub request : {T : Type 0} → (T → Command → Command) → T → M Response
  unfolding send make_command
  request set_payload msg = do client ← get_client; send (set_payload msg (make_command client))
