-- ===== src/Client.antt =====
-- The client of clients/rust/src/lib.rs and errors.rs.
pub mod Net
pub mod Session
pub mod Value
pub mod Status
pub mod Payload
pub mod Commands
pub mod Responses
pub mod Send
pub mod Request
