-- ===== src/Ctl/Command/Laws/Sized.antt =====
-- What filling the cached sizes of the `oneof` of `Command` leaves alone.
use sysadmin.Base.{Option, none, some, ◌≡◌, refl}
use sysadmin.Protobuf.{Protobuf}
use sysadmin.Protobuf.Laws.{IsLawful}
use sysadmin.Wire.{opt_initialized, message_size}
use sysadmin.Wire.Sized.{message_bytes-sized}
use sysadmin.Wire.Sizes.{opt}
use sysadmin.Ctl.Set.Laws as SetLaws
use sysadmin.Ctl.Get.Laws as GetLaws
use sysadmin.Ctl.Commit.Laws as CommitLaws
use sysadmin.Ctl.Drop.Laws as DropLaws
use sysadmin.Ctl.FireHooks.Laws as FireHooksLaws
use sysadmin.Ctl.EraseKey.Laws as EraseKeyLaws
use sysadmin.Ctl.Rollback.Laws as RollbackLaws
use sysadmin.Ctl.Reset.Laws as ResetLaws
use sysadmin.Ctl.DumpHooks.Laws as DumpHooksLaws
use sysadmin.Ctl.TriggerHook.Laws as TriggerHookLaws
use sysadmin.Ctl.Blame.Laws as BlameLaws
use sysadmin.Ctl.InFlight.Laws as InFlightLaws
use sysadmin.Ctl.Set
use sysadmin.Ctl.Get
use sysadmin.Ctl.Commit
use sysadmin.Ctl.Drop
use sysadmin.Ctl.FireHooks
use sysadmin.Ctl.EraseKey
use sysadmin.Ctl.Rollback
use sysadmin.Ctl.Reset
use sysadmin.Ctl.DumpHooks
use sysadmin.Ctl.TriggerHook
use sysadmin.Ctl.Blame
use sysadmin.Ctl.InFlight
use sysadmin.Ctl.Command.{
  payload_initialized, CommandOneofPayload, set, get, commit, drop, firehooks, erase, rollback,
  reset, dump, trigger, blame, inflight, payload_size,
}
use sysadmin.Ctl.Command.Laws.Payload.{payload_bytes, fresh_payload}

module _ ⦃P : Protobuf⦄ (L : IsLawful P) where
  pub payload_initialized-fresh :
      (o : CommandOneofPayload) → payload_initialized (fresh_payload L o) ≡ payload_initialized o
  unfolding payload_initialized fresh_payload Set.message Get.message Commit.message Drop.message
      FireHooks.message EraseKey.message Rollback.message Reset.message DumpHooks.message
      TriggerHook.message Blame.message InFlight.message
  payload_initialized-fresh (set v) = (SetLaws.codec L).is_initialized-fresh v
  payload_initialized-fresh (get v) = (GetLaws.codec L).is_initialized-fresh v
  payload_initialized-fresh (commit v) = (CommitLaws.codec L).is_initialized-fresh v
  payload_initialized-fresh (drop v) = (DropLaws.codec L).is_initialized-fresh v
  payload_initialized-fresh (firehooks v) = (FireHooksLaws.codec L).is_initialized-fresh v
  payload_initialized-fresh (erase v) = (EraseKeyLaws.codec L).is_initialized-fresh v
  payload_initialized-fresh (rollback v) = (RollbackLaws.codec L).is_initialized-fresh v
  payload_initialized-fresh (reset v) = (ResetLaws.codec L).is_initialized-fresh v
  payload_initialized-fresh (dump v) = (DumpHooksLaws.codec L).is_initialized-fresh v
  payload_initialized-fresh (trigger v) = (TriggerHookLaws.codec L).is_initialized-fresh v
  payload_initialized-fresh (blame v) = (BlameLaws.codec L).is_initialized-fresh v
  payload_initialized-fresh (inflight v) = (InFlightLaws.codec L).is_initialized-fresh v

  pub payload_bytes-sized :
      (o : Option CommandOneofPayload)
      → opt (payload_bytes L) (payload_size o).1 ≡ opt (payload_bytes L) o
  unfolding opt payload_bytes payload_size
  payload_bytes-sized none = refl
  payload_bytes-sized (some (set v)) = message_bytes-sized L (SetLaws.codec L) 1 1 v
  payload_bytes-sized (some (get v)) = message_bytes-sized L (GetLaws.codec L) 1 2 v
  payload_bytes-sized (some (commit v)) = message_bytes-sized L (CommitLaws.codec L) 1 3 v
  payload_bytes-sized (some (drop v)) = message_bytes-sized L (DropLaws.codec L) 1 4 v
  payload_bytes-sized (some (firehooks v)) = message_bytes-sized L (FireHooksLaws.codec L) 1 7 v
  payload_bytes-sized (some (erase v)) = message_bytes-sized L (EraseKeyLaws.codec L) 1 8 v
  payload_bytes-sized (some (rollback v)) = message_bytes-sized L (RollbackLaws.codec L) 1 11 v
  payload_bytes-sized (some (reset v)) = message_bytes-sized L (ResetLaws.codec L) 1 12 v
  payload_bytes-sized (some (dump v)) = message_bytes-sized L (DumpHooksLaws.codec L) 1 13 v
  payload_bytes-sized (some (trigger v)) = message_bytes-sized L (TriggerHookLaws.codec L) 1 14 v
  payload_bytes-sized (some (blame v)) = message_bytes-sized L (BlameLaws.codec L) 1 15 v
  payload_bytes-sized (some (inflight v)) = message_bytes-sized L (InFlightLaws.codec L) 2 16 v

  pub payload_initialized-sized :
      (o : Option CommandOneofPayload)
      → opt_initialized payload_initialized (payload_size o).1
        ≡ opt_initialized payload_initialized o
  unfolding opt_initialized message_size payload_initialized payload_size Set.message Get.message
      Commit.message Drop.message FireHooks.message EraseKey.message Rollback.message Reset.message
      DumpHooks.message TriggerHook.message Blame.message InFlight.message
  payload_initialized-sized none = refl
  payload_initialized-sized (some (set v)) = (SetLaws.codec L).is_initialized-compute_size v
  payload_initialized-sized (some (get v)) = (GetLaws.codec L).is_initialized-compute_size v
  payload_initialized-sized (some (commit v)) = (CommitLaws.codec L).is_initialized-compute_size v
  payload_initialized-sized (some (drop v)) = (DropLaws.codec L).is_initialized-compute_size v
  payload_initialized-sized (some (firehooks v)) =
      (FireHooksLaws.codec L).is_initialized-compute_size v
  payload_initialized-sized (some (erase v)) = (EraseKeyLaws.codec L).is_initialized-compute_size v
  payload_initialized-sized (some (rollback v)) =
      (RollbackLaws.codec L).is_initialized-compute_size v
  payload_initialized-sized (some (reset v)) = (ResetLaws.codec L).is_initialized-compute_size v
  payload_initialized-sized (some (dump v)) = (DumpHooksLaws.codec L).is_initialized-compute_size v
  payload_initialized-sized (some (trigger v)) =
      (TriggerHookLaws.codec L).is_initialized-compute_size v
  payload_initialized-sized (some (blame v)) = (BlameLaws.codec L).is_initialized-compute_size v
  payload_initialized-sized (some (inflight v)) =
      (InFlightLaws.codec L).is_initialized-compute_size v
