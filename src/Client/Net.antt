-- ===== src/Client/Net.antt =====
-- What clients/rust/src/lib.rs calls in `std::net`, in the crate `byteorder` and, on a socket, in the
-- crate `protobuf`. A call returns its outcome and the stream after it.
pub mod Laws
pub mod Sample
use sysadmin.Base.{ℕ, String, Result}
use sysadmin.Protobuf.{Bytes, Protobuf}

-- A `Duration` counts nanoseconds.
abbrev pub Duration : Type 0
Duration = ℕ

pub record Net (P : Protobuf) : Type 1 where
  -- `TcpStream`
  pub TcpStream : Type 0
  pub IoError : Type 0
  -- `Display` of an I/O error.
  pub display : IoError → String
  pub set_write_timeout : Duration → TcpStream → Result IoError (Unit {0}) × TcpStream
  pub set_read_timeout : Duration → TcpStream → Result IoError (Unit {0}) × TcpStream
  pub write_all : Bytes → TcpStream → Result IoError (Unit {0}) × TcpStream
  pub flush : TcpStream → Result IoError (Unit {0}) × TcpStream
  -- `peek` into a buffer of this length.
  pub peek : ℕ → TcpStream → Result IoError ℕ × TcpStream
  -- `CodedInputStream::new(&mut stream)`, which buffers what it reads, and the stream when it is gone.
  pub CodedInputStream : Type 0
  pub coded : TcpStream → CodedInputStream
  pub stream : CodedInputStream → TcpStream
  pub read_raw_little_endian32 : CodedInputStream → Result P.ProtobufError ℕ × CodedInputStream
  pub read_raw_bytes : ℕ → CodedInputStream → Result P.ProtobufError Bytes × CodedInputStream
  -- `WriteBytesExt::write_u32::<LittleEndian>`
  pub little_endian32 : ℕ → Bytes
