-- ===== src/Ctl.antt =====
-- The messages of clients/rust/src/sysadminctl.rs, a module for each, in the order of their use.
pub mod CommitConfig
pub mod StatusCode
pub mod Int32List
pub mod BoolList
pub mod StringList
pub mod ConfigValue
pub mod Set
pub mod Get
pub mod Commit
pub mod Drop
pub mod FireHooks
pub mod Rollback
pub mod EraseKey
pub mod Reset
pub mod DumpHooks
pub mod TriggerHook
pub mod Blame
pub mod InFlight
pub mod Command
pub mod MappedField
pub mod GetResponse
pub mod CommitResponse
pub mod ResetResponse
pub mod DumpResponse
pub mod BlameEntry
pub mod BlameResponse
pub mod InFlightResponse
pub mod Response
pub mod RoundTrip
