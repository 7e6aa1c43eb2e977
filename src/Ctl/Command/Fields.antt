-- ===== src/Ctl/Command/Fields.antt =====
-- The accessors of `Command` in clients/rust/src/sysadminctl.rs. A method that changes the message
-- returns the new one, behind its result.
use sysadmin.Base.{ℕ, Bool, true, false, none, some, is_some, unwrap_or}
use sysadmin.Protobuf.{Protobuf}
use sysadmin.Ctl.Set
use sysadmin.Ctl.Set.{Set}
use sysadmin.Ctl.Get
use sysadmin.Ctl.Get.{Get}
use sysadmin.Ctl.Commit
use sysadmin.Ctl.Commit.{Commit}
use sysadmin.Ctl.Drop
use sysadmin.Ctl.Drop.{Drop}
use sysadmin.Ctl.FireHooks
use sysadmin.Ctl.FireHooks.{FireHooks}
use sysadmin.Ctl.EraseKey
use sysadmin.Ctl.EraseKey.{EraseKey}
use sysadmin.Ctl.Rollback
use sysadmin.Ctl.Rollback.{Rollback}
use sysadmin.Ctl.Reset
use sysadmin.Ctl.Reset.{Reset}
use sysadmin.Ctl.DumpHooks
use sysadmin.Ctl.DumpHooks.{DumpHooks}
use sysadmin.Ctl.TriggerHook
use sysadmin.Ctl.TriggerHook.{TriggerHook}
use sysadmin.Ctl.Blame
use sysadmin.Ctl.Blame.{Blame}
use sysadmin.Ctl.InFlight
use sysadmin.Ctl.InFlight.{InFlight}
use sysadmin.Ctl.Command.{
  Command, set, get, commit, drop, firehooks, erase, rollback, reset, dump, trigger, blame,
  inflight,
}

module _ ⦃P : Protobuf⦄ where
  unfoldable pub clear_id : Command → Command
  clear_id m = record m { id = none }

  unfoldable pub has_id : Command → Bool
  has_id m = is_some m.id

  unfoldable pub set_id : Command → ℕ → Command
  set_id m v = record m { id = some v }

  unfoldable pub get_id : Command → ℕ
  get_id m = unwrap_or m.id 0

  unfoldable pub clear_xid : Command → Command
  clear_xid m = record m { xid = none }

  unfoldable pub has_xid : Command → Bool
  has_xid m = is_some m.xid

  unfoldable pub set_xid : Command → ℕ → Command
  set_xid m v = record m { xid = some v }

  unfoldable pub get_xid : Command → ℕ
  get_xid m = unwrap_or m.xid 0

  unfoldable pub clear_set : Command → Command
  clear_set m = record m { payload = none }

  unfoldable pub has_set : Command → Bool
  has_set m = elim m.payload [ some (set _) ↦ true | _ ↦ false ]

  unfoldable pub set_set : Command → Set → Command
  set_set m v = record m { payload = some (set v) }

  unfoldable pub take_set : Command → Set × Command
  take_set m = elim m.payload [ some (set v) ↦ (v, record m { payload = none }) | _ ↦ (Set.new, m) ]

  unfoldable pub get_set : Command → Set
  get_set m = elim m.payload [ some (set v) ↦ v | _ ↦ Set.new ]

  unfoldable pub clear_get : Command → Command
  clear_get m = record m { payload = none }

  unfoldable pub has_get : Command → Bool
  has_get m = elim m.payload [ some (get _) ↦ true | _ ↦ false ]

  unfoldable pub set_get : Command → Get → Command
  set_get m v = record m { payload = some (get v) }

  unfoldable pub take_get : Command → Get × Command
  take_get m = elim m.payload [ some (get v) ↦ (v, record m { payload = none }) | _ ↦ (Get.new, m) ]

  unfoldable pub get_get : Command → Get
  get_get m = elim m.payload [ some (get v) ↦ v | _ ↦ Get.new ]

  unfoldable pub clear_commit : Command → Command
  clear_commit m = record m { payload = none }

  unfoldable pub has_commit : Command → Bool
  has_commit m = elim m.payload [ some (commit _) ↦ true | _ ↦ false ]

  unfoldable pub set_commit : Command → Commit → Command
  set_commit m v = record m { payload = some (commit v) }

  unfoldable pub take_commit : Command → Commit × Command
  take_commit m = elim m.payload [
    | some (commit v) ↦ (v, record m { payload = none })
    | _ ↦ (Commit.new, m)
  ]

  unfoldable pub get_commit : Command → Commit
  get_commit m = elim m.payload [ some (commit v) ↦ v | _ ↦ Commit.new ]

  unfoldable pub clear_drop : Command → Command
  clear_drop m = record m { payload = none }

  unfoldable pub has_drop : Command → Bool
  has_drop m = elim m.payload [ some (drop _) ↦ true | _ ↦ false ]

  unfoldable pub set_drop : Command → Drop → Command
  set_drop m v = record m { payload = some (drop v) }

  unfoldable pub take_drop : Command → Drop × Command
  take_drop m = elim m.payload [
    | some (drop v) ↦ (v, record m { payload = none })
    | _ ↦ (Drop.new, m)
  ]

  unfoldable pub get_drop : Command → Drop
  get_drop m = elim m.payload [ some (drop v) ↦ v | _ ↦ Drop.new ]

  unfoldable pub clear_firehooks : Command → Command
  clear_firehooks m = record m { payload = none }

  unfoldable pub has_firehooks : Command → Bool
  has_firehooks m = elim m.payload [ some (firehooks _) ↦ true | _ ↦ false ]

  unfoldable pub set_firehooks : Command → FireHooks → Command
  set_firehooks m v = record m { payload = some (firehooks v) }

  unfoldable pub take_firehooks : Command → FireHooks × Command
  take_firehooks m = elim m.payload [
    | some (firehooks v) ↦ (v, record m { payload = none })
    | _ ↦ (FireHooks.new, m)
  ]

  unfoldable pub get_firehooks : Command → FireHooks
  get_firehooks m = elim m.payload [ some (firehooks v) ↦ v | _ ↦ FireHooks.new ]

  unfoldable pub clear_erase : Command → Command
  clear_erase m = record m { payload = none }

  unfoldable pub has_erase : Command → Bool
  has_erase m = elim m.payload [ some (erase _) ↦ true | _ ↦ false ]

  unfoldable pub set_erase : Command → EraseKey → Command
  set_erase m v = record m { payload = some (erase v) }

  unfoldable pub take_erase : Command → EraseKey × Command
  take_erase m = elim m.payload [
    | some (erase v) ↦ (v, record m { payload = none })
    | _ ↦ (EraseKey.new, m)
  ]

  unfoldable pub get_erase : Command → EraseKey
  get_erase m = elim m.payload [ some (erase v) ↦ v | _ ↦ EraseKey.new ]

  unfoldable pub clear_rollback : Command → Command
  clear_rollback m = record m { payload = none }

  unfoldable pub has_rollback : Command → Bool
  has_rollback m = elim m.payload [ some (rollback _) ↦ true | _ ↦ false ]

  unfoldable pub set_rollback : Command → Rollback → Command
  set_rollback m v = record m { payload = some (rollback v) }

  unfoldable pub take_rollback : Command → Rollback × Command
  take_rollback m = elim m.payload [
    | some (rollback v) ↦ (v, record m { payload = none })
    | _ ↦ (Rollback.new, m)
  ]

  unfoldable pub get_rollback : Command → Rollback
  get_rollback m = elim m.payload [ some (rollback v) ↦ v | _ ↦ Rollback.new ]

  unfoldable pub clear_reset : Command → Command
  clear_reset m = record m { payload = none }

  unfoldable pub has_reset : Command → Bool
  has_reset m = elim m.payload [ some (reset _) ↦ true | _ ↦ false ]

  unfoldable pub set_reset : Command → Reset → Command
  set_reset m v = record m { payload = some (reset v) }

  unfoldable pub take_reset : Command → Reset × Command
  take_reset m = elim m.payload [
    | some (reset v) ↦ (v, record m { payload = none })
    | _ ↦ (Reset.new, m)
  ]

  unfoldable pub get_reset : Command → Reset
  get_reset m = elim m.payload [ some (reset v) ↦ v | _ ↦ Reset.new ]

  unfoldable pub clear_dump : Command → Command
  clear_dump m = record m { payload = none }

  unfoldable pub has_dump : Command → Bool
  has_dump m = elim m.payload [ some (dump _) ↦ true | _ ↦ false ]

  unfoldable pub set_dump : Command → DumpHooks → Command
  set_dump m v = record m { payload = some (dump v) }

  unfoldable pub take_dump : Command → DumpHooks × Command
  take_dump m = elim m.payload [
    | some (dump v) ↦ (v, record m { payload = none })
    | _ ↦ (DumpHooks.new, m)
  ]

  unfoldable pub get_dump : Command → DumpHooks
  get_dump m = elim m.payload [ some (dump v) ↦ v | _ ↦ DumpHooks.new ]

  unfoldable pub clear_trigger : Command → Command
  clear_trigger m = record m { payload = none }

  unfoldable pub has_trigger : Command → Bool
  has_trigger m = elim m.payload [ some (trigger _) ↦ true | _ ↦ false ]

  unfoldable pub set_trigger : Command → TriggerHook → Command
  set_trigger m v = record m { payload = some (trigger v) }

  unfoldable pub take_trigger : Command → TriggerHook × Command
  take_trigger m = elim m.payload [
    | some (trigger v) ↦ (v, record m { payload = none })
    | _ ↦ (TriggerHook.new, m)
  ]

  unfoldable pub get_trigger : Command → TriggerHook
  get_trigger m = elim m.payload [ some (trigger v) ↦ v | _ ↦ TriggerHook.new ]

  unfoldable pub clear_blame : Command → Command
  clear_blame m = record m { payload = none }

  unfoldable pub has_blame : Command → Bool
  has_blame m = elim m.payload [ some (blame _) ↦ true | _ ↦ false ]

  unfoldable pub set_blame : Command → Blame → Command
  set_blame m v = record m { payload = some (blame v) }

  unfoldable pub take_blame : Command → Blame × Command
  take_blame m = elim m.payload [
    | some (blame v) ↦ (v, record m { payload = none })
    | _ ↦ (Blame.new, m)
  ]

  unfoldable pub get_blame : Command → Blame
  get_blame m = elim m.payload [ some (blame v) ↦ v | _ ↦ Blame.new ]

  unfoldable pub clear_inflight : Command → Command
  clear_inflight m = record m { payload = none }

  unfoldable pub has_inflight : Command → Bool
  has_inflight m = elim m.payload [ some (inflight _) ↦ true | _ ↦ false ]

  unfoldable pub set_inflight : Command → InFlight → Command
  set_inflight m v = record m { payload = some (inflight v) }

  unfoldable pub take_inflight : Command → InFlight × Command
  take_inflight m = elim m.payload [
    | some (inflight v) ↦ (v, record m { payload = none })
    | _ ↦ (InFlight.new, m)
  ]

  unfoldable pub get_inflight : Command → InFlight
  get_inflight m = elim m.payload [ some (inflight v) ↦ v | _ ↦ InFlight.new ]
