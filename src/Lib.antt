-- ===== src/Lib.antt =====
-- The Rust client of the sysadmin daemon: a model of clients/rust/src and the theorems about it.
--
-- The program. sysadmind keeps a device's configuration; a client talks to it over TCP. A client builds
-- a `Command` (clients/rust/src/sysadminctl.rs, the messages that protoc made from
-- sysadmin-api/sysadminctl.proto), sends it behind its length as a little-endian `u32`, and reads a
-- `Response` in the same frame (clients/rust/src/lib.rs). The structs of the client are not the messages:
-- each command is converted into one, and each response from one.
--
-- Files.
-- - Base: shared names, lists over native numbers, `Result` with a panic and with `stuck`, integers.
-- - Protobuf: the crate `protobuf` as a record of the functions that the code calls. Protobuf/Laws says
--   what the code relies on in it, Protobuf/Totality that its readers return on any input. Protobuf/Sample
--   is an instance over lists of bytes that meets both.
-- - Wire: the lines that every generated message repeats. Wire/Codec is the contract of a message: its
--   size, its bytes and its parser agree. The other children prove it field by field.
-- - Ctl: the messages of clients/rust/src/sysadminctl.rs, a module each with its struct, accessors,
--   `is_initialized`, `merge_from`, `compute_size` and `write_to_with_cached_sizes`; in `Laws` its codec,
--   with that of its `oneof` in the modules below; in `Totals` that its parser returns. Ctl/RoundTrip is
--   about the two messages that travel, Ctl/Command/Oneof and Ctl/Command/Refusal about `Command`.
-- - Client/Net: the socket and the reader on it, with laws and an instance.
-- - Client/Session: `SysadminClient` of clients/rust/src/lib.rs, with a method as a function from the
--   client to its outcome and the client after it. Client/Session/Timeouts, Client/Send: what they do.
-- - Client/Payload, Client/Commands: the twelve commands. Client/Request: what they should mean to a
--   peer.
-- - Client/Responses: the conversions. Client/Responses/Reply: what a peer builds for them.
-- - Client/Value, Client/Status: the values and the status codes.
-- - Tests: runs on concrete inputs.
--
-- Choices. A string is its bytes, a number the number that it stands for; sums of sizes are taken modulo
-- 2^32 as on `u32`. `compute_size` also fills `cached_size`, so it returns the message too, and `fresh`
-- is a message as a parser leaves it, with no size cached. The loop of `merge_from` runs on fuel, one more
-- round than there are bytes: a round takes a byte at least, so it is enough, and `stuck`, which stands
-- for a loop out of fuel, is never reached with a crate that keeps to Protobuf/Totality. A panic is an
-- outcome. The macros of lib.rs are written out for each command.
--
-- Not modelled: the reflection of the generated code and its `mut_` accessors, serde, `get_xid` and
-- `get_id`, the server and its C++ libraries, and the Python client.
pub mod Base
pub mod Protobuf
pub mod Wire
pub mod Ctl
pub mod Client
mod Tests
