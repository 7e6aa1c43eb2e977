-- ===== src/Ctl/Response/Fields.antt =====
-- The accessors of `Response` in clients/rust/src/sysadminctl.rs. A method that changes the message
-- returns the new one, behind its result.
use sysadmin.Base.{ℕ, Bool, true, false, none, some, is_some, unwrap_or}
use sysadmin.Protobuf.{Protobuf}
use sysadmin.Ctl.StatusCode.{StatusCode}
use sysadmin.Ctl.GetResponse
use sysadmin.Ctl.GetResponse.{GetResponse}
use sysadmin.Ctl.CommitResponse
use sysadmin.Ctl.CommitResponse.{CommitResponse}
use sysadmin.Ctl.ResetResponse
use sysadmin.Ctl.ResetResponse.{ResetResponse}
use sysadmin.Ctl.DumpResponse
use sysadmin.Ctl.DumpResponse.{DumpResponse}
use sysadmin.Ctl.BlameResponse
use sysadmin.Ctl.BlameResponse.{BlameResponse}
use sysadmin.Ctl.InFlightResponse
use sysadmin.Ctl.InFlightResponse.{InFlightResponse}
use sysadmin.Ctl.Response.{Response, get, commit, reset, dump, blame, inflight}

module _ ⦃P : Protobuf⦄ where
  unfoldable pub clear_id : Response → Response
  clear_id m = record m { id = none }

  unfoldable pub has_id : Response → Bool
  has_id m = is_some m.id

  unfoldable pub set_id : Response → ℕ → Response
  set_id m v = record m { id = some v }

  unfoldable pub get_id : Response → ℕ
  get_id m = unwrap_or m.id 0

  unfoldable pub clear_status : Response → Response
  clear_status m = record m { status = none }

  unfoldable pub has_status : Response → Bool
  has_status m = is_some m.status

  unfoldable pub set_status : Response → StatusCode → Response
  set_status m v = record m { status = some v }

  unfoldable pub get_status : Response → StatusCode
  get_status m = unwrap_or m.status StatusCode.success

  unfoldable pub clear_get : Response → Response
  clear_get m = record m { payload = none }

  unfoldable pub has_get : Response → Bool
  has_get m = elim m.payload [ some (get _) ↦ true | _ ↦ false ]

  unfoldable pub set_get : Response → GetResponse → Response
  set_get m v = record m { payload = some (get v) }

  unfoldable pub take_get : Response → GetResponse × Response
  take_get m = elim m.payload [
    | some (get v) ↦ (v, record m { payload = none })
    | _ ↦ (GetResponse.new, m)
  ]

  unfoldable pub get_get : Response → GetResponse
  get_get m = elim m.payload [ some (get v) ↦ v | _ ↦ GetResponse.new ]

  unfoldable pub clear_commit : Response → Response
  clear_commit m = record m { payload = none }

  unfoldable pub has_commit : Response → Bool
  has_commit m = elim m.payload [ some (commit _) ↦ true | _ ↦ false ]

  unfoldable pub set_commit : Response → CommitResponse → Response
  set_commit m v = record m { payload = some (commit v) }

  unfoldable pub take_commit : Response → CommitResponse × Response
  take_commit m = elim m.payload [
    | some (commit v) ↦ (v, record m { payload = none })
    | _ ↦ (CommitResponse.new, m)
  ]

  unfoldable pub get_commit : Response → CommitResponse
  get_commit m = elim m.payload [ some (commit v) ↦ v | _ ↦ CommitResponse.new ]

  unfoldable pub clear_reset : Response → Response
  clear_reset m = record m { payload = none }

  unfoldable pub has_reset : Response → Bool
  has_reset m = elim m.payload [ some (reset _) ↦ true | _ ↦ false ]

  unfoldable pub set_reset : Response → ResetResponse → Response
  set_reset m v = record m { payload = some (reset v) }

  unfoldable pub take_reset : Response → ResetResponse × Response
  take_reset m = elim m.payload [
    | some (reset v) ↦ (v, record m { payload = none })
    | _ ↦ (ResetResponse.new, m)
  ]

  unfoldable pub get_reset : Response → ResetResponse
  get_reset m = elim m.payload [ some (reset v) ↦ v | _ ↦ ResetResponse.new ]

  unfoldable pub clear_dump : Response → Response
  clear_dump m = record m { payload = none }

  unfoldable pub has_dump : Response → Bool
  has_dump m = elim m.payload [ some (dump _) ↦ true | _ ↦ false ]

  unfoldable pub set_dump : Response → DumpResponse → Response
  set_dump m v = record m { payload = some (dump v) }

  unfoldable pub take_dump : Response → DumpResponse × Response
  take_dump m = elim m.payload [
    | some (dump v) ↦ (v, record m { payload = none })
    | _ ↦ (DumpResponse.new, m)
  ]

  unfoldable pub get_dump : Response → DumpResponse
  get_dump m = elim m.payload [ some (dump v) ↦ v | _ ↦ DumpResponse.new ]

  unfoldable pub clear_blame : Response → Response
  clear_blame m = record m { payload = none }

  unfoldable pub has_blame : Response → Bool
  has_blame m = elim m.payload [ some (blame _) ↦ true | _ ↦ false ]

  unfoldable pub set_blame : Response → BlameResponse → Response
  set_blame m v = record m { payload = some (blame v) }

  unfoldable pub take_blame : Response → BlameResponse × Response
  take_blame m = elim m.payload [
    | some (blame v) ↦ (v, record m { payload = none })
    | _ ↦ (BlameResponse.new, m)
  ]

  unfoldable pub get_blame : Response → BlameResponse
  get_blame m = elim m.payload [ some (blame v) ↦ v | _ ↦ BlameResponse.new ]

  unfoldable pub clear_inflight : Response → Response
  clear_inflight m = record m { payload = none }

  unfoldable pub has_inflight : Response → Bool
  has_inflight m = elim m.payload [ some (inflight _) ↦ true | _ ↦ false ]

  unfoldable pub set_inflight : Response → InFlightResponse → Response
  set_inflight m v = record m { payload = some (inflight v) }

  unfoldable pub take_inflight : Response → InFlightResponse × Response
  take_inflight m = elim m.payload [
    | some (inflight v) ↦ (v, record m { payload = none })
    | _ ↦ (InFlightResponse.new, m)
  ]

  unfoldable pub get_inflight : Response → InFlightResponse
  get_inflight m = elim m.payload [ some (inflight v) ↦ v | _ ↦ InFlightResponse.new ]
