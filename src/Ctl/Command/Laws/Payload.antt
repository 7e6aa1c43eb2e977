-- ===== src/Ctl/Command/Laws/Payload.antt =====
-- The bytes of the `oneof` of `Command`, its size and its writer.
use sysadmin.Base.{true, Option, none, some, ◌≡◌, arith}
use sysadmin.Protobuf.{Bytes, length_delimited, Protobuf}
use sysadmin.Protobuf.Laws.{IsLawful}
use sysadmin.Wire.{write_opt}
use sysadmin.Wire.Codec.{Sizes, Writes}
use sysadmin.Wire.Sizes.{opt, nil-Sizes, message_bytes, message-Sizes}
use sysadmin.Wire.Writes.{nil-Writes, message-Writes}
use sysadmin.Ctl.Set.Laws as SetLaws
use sysadmin.Ctl.Get.Laws as GetLaws
use sysadmin.Ctl.Commit.Laws as CommitLaws
use sysadmin.Ctl.Drop.Laws as DropLaws
use sysadmin.Ctl.FireHooks.Laws as FireHooksLaws
use sysadmin.Ctl.EraseKey.Laws as EraseKeyLaws
use sysadmin.Ctl.Rollback.Laws as RollbackLaws
use sysadmin.Ctl.Reset.Laws as ResetLaws
use sysadmin.Ctl.DumpHooks.Laws as DumpHooksLaws
use sysadmin.Ctl.TriggerHook.Laws as TriggerHookLaws
use sysadmin.Ctl.Blame.Laws as BlameLaws
use sysadmin.Ctl.InFlight.Laws as InFlightLaws
use sysadmin.Ctl.Set
use sysadmin.Ctl.Get
use sysadmin.Ctl.Commit
use sysadmin.Ctl.Drop
use sysadmin.Ctl.FireHooks
use sysadmin.Ctl.EraseKey
use sysadmin.Ctl.Rollback
use sysadmin.Ctl.Reset
use sysadmin.Ctl.DumpHooks
use sysadmin.Ctl.TriggerHook
use sysadmin.Ctl.Blame
use sysadmin.Ctl.InFlight
use sysadmin.Ctl.Command.{
  CommandOneofPayload, set, get, commit, drop, firehooks, erase, rollback, reset, dump, trigger,
  blame, inflight, payload_size, write_payload,
}

module _ ⦃P : Protobuf⦄ (L : IsLawful P) where
  unfoldable pub payload_bytes : CommandOneofPayload → Bytes
  payload_bytes (set v) = message_bytes L (SetLaws.codec L).encode 1 v
  payload_bytes (get v) = message_bytes L (GetLaws.codec L).encode 2 v
  payload_bytes (commit v) = message_bytes L (CommitLaws.codec L).encode 3 v
  payload_bytes (drop v) = message_bytes L (DropLaws.codec L).encode 4 v
  payload_bytes (firehooks v) = message_bytes L (FireHooksLaws.codec L).encode 7 v
  payload_bytes (erase v) = message_bytes L (EraseKeyLaws.codec L).encode 8 v
  payload_bytes (rollback v) = message_bytes L (RollbackLaws.codec L).encode 11 v
  payload_bytes (reset v) = message_bytes L (ResetLaws.codec L).encode 12 v
  payload_bytes (dump v) = message_bytes L (DumpHooksLaws.codec L).encode 13 v
  payload_bytes (trigger v) = message_bytes L (TriggerHookLaws.codec L).encode 14 v
  payload_bytes (blame v) = message_bytes L (BlameLaws.codec L).encode 15 v
  payload_bytes (inflight v) = message_bytes L (InFlightLaws.codec L).encode 16 v

  unfoldable pub fresh_payload : CommandOneofPayload → CommandOneofPayload
  fresh_payload (set v) = set ((SetLaws.codec L).fresh v)
  fresh_payload (get v) = get ((GetLaws.codec L).fresh v)
  fresh_payload (commit v) = commit ((CommitLaws.codec L).fresh v)
  fresh_payload (drop v) = drop ((DropLaws.codec L).fresh v)
  fresh_payload (firehooks v) = firehooks ((FireHooksLaws.codec L).fresh v)
  fresh_payload (erase v) = erase ((EraseKeyLaws.codec L).fresh v)
  fresh_payload (rollback v) = rollback ((RollbackLaws.codec L).fresh v)
  fresh_payload (reset v) = reset ((ResetLaws.codec L).fresh v)
  fresh_payload (dump v) = dump ((DumpHooksLaws.codec L).fresh v)
  fresh_payload (trigger v) = trigger ((TriggerHookLaws.codec L).fresh v)
  fresh_payload (blame v) = blame ((BlameLaws.codec L).fresh v)
  fresh_payload (inflight v) = inflight ((InFlightLaws.codec L).fresh v)

  abbrev pub IsValidPayload : CommandOneofPayload → Type 0
  IsValidPayload (set v) = (SetLaws.codec L).IsValid v × (Set.is_initialized v ≡ true)
  IsValidPayload (get v) = (GetLaws.codec L).IsValid v × (Get.is_initialized v ≡ true)
  IsValidPayload (commit v) = (CommitLaws.codec L).IsValid v × (Commit.is_initialized v ≡ true)
  IsValidPayload (drop v) = (DropLaws.codec L).IsValid v × (Drop.is_initialized v ≡ true)
  IsValidPayload (firehooks v) =
      (FireHooksLaws.codec L).IsValid v × (FireHooks.is_initialized v ≡ true)
  IsValidPayload (erase v) = (EraseKeyLaws.codec L).IsValid v × (EraseKey.is_initialized v ≡ true)
  IsValidPayload (rollback v) =
      (RollbackLaws.codec L).IsValid v × (Rollback.is_initialized v ≡ true)
  IsValidPayload (reset v) = (ResetLaws.codec L).IsValid v × (Reset.is_initialized v ≡ true)
  IsValidPayload (dump v) = (DumpHooksLaws.codec L).IsValid v × (DumpHooks.is_initialized v ≡ true)
  IsValidPayload (trigger v) =
      (TriggerHookLaws.codec L).IsValid v × (TriggerHook.is_initialized v ≡ true)
  IsValidPayload (blame v) = (BlameLaws.codec L).IsValid v × (Blame.is_initialized v ≡ true)
  IsValidPayload (inflight v) =
      (InFlightLaws.codec L).IsValid v × (InFlight.is_initialized v ≡ true)

  pub payload-Sizes :
      (o : Option CommandOneofPayload) → Sizes (payload_size o).0 (opt payload_bytes o)
  unfolding payload_size payload_bytes opt
  payload-Sizes none = nil-Sizes
  payload-Sizes (some (set v)) =
      message-Sizes L (SetLaws.codec L) 1 1
        (L.length-tag 1 length_delimited (omega arith) (omega arith)) v
  payload-Sizes (some (get v)) =
      message-Sizes L (GetLaws.codec L) 1 2
        (L.length-tag 2 length_delimited (omega arith) (omega arith)) v
  payload-Sizes (some (commit v)) =
      message-Sizes L (CommitLaws.codec L) 1 3
        (L.length-tag 3 length_delimited (omega arith) (omega arith)) v
  payload-Sizes (some (drop v)) =
      message-Sizes L (DropLaws.codec L) 1 4
        (L.length-tag 4 length_delimited (omega arith) (omega arith)) v
  payload-Sizes (some (firehooks v)) =
      message-Sizes L (FireHooksLaws.codec L) 1 7
        (L.length-tag 7 length_delimited (omega arith) (omega arith)) v
  payload-Sizes (some (erase v)) =
      message-Sizes L (EraseKeyLaws.codec L) 1 8
        (L.length-tag 8 length_delimited (omega arith) (omega arith)) v
  payload-Sizes (some (rollback v)) =
      message-Sizes L (RollbackLaws.codec L) 1 11
        (L.length-tag 11 length_delimited (omega arith) (omega arith)) v
  payload-Sizes (some (reset v)) =
      message-Sizes L (ResetLaws.codec L) 1 12
        (L.length-tag 12 length_delimited (omega arith) (omega arith)) v
  payload-Sizes (some (dump v)) =
      message-Sizes L (DumpHooksLaws.codec L) 1 13
        (L.length-tag 13 length_delimited (omega arith) (omega arith)) v
  payload-Sizes (some (trigger v)) =
      message-Sizes L (TriggerHookLaws.codec L) 1 14
        (L.length-tag 14 length_delimited (omega arith) (omega arith)) v
  payload-Sizes (some (blame v)) =
      message-Sizes L (BlameLaws.codec L) 1 15
        (L.length-tag 15 length_delimited (omega arith) (omega arith)) v
  payload-Sizes (some (inflight v)) =
      message-Sizes L (InFlightLaws.codec L) 2 16
        (L.length-tag_two 16 length_delimited (omega arith) (omega arith)) v

  pub payload-Writes :
      (o : Option CommandOneofPayload)
      → Writes (write_opt write_payload (payload_size o).1) (opt payload_bytes o)
  unfolding payload_size payload_bytes opt write_payload write_opt
  payload-Writes none = nil-Writes
  payload-Writes (some (set v)) = message-Writes L (SetLaws.codec L) 1 1 v
  payload-Writes (some (get v)) = message-Writes L (GetLaws.codec L) 1 2 v
  payload-Writes (some (commit v)) = message-Writes L (CommitLaws.codec L) 1 3 v
  payload-Writes (some (drop v)) = message-Writes L (DropLaws.codec L) 1 4 v
  payload-Writes (some (firehooks v)) = message-Writes L (FireHooksLaws.codec L) 1 7 v
  payload-Writes (some (erase v)) = message-Writes L (EraseKeyLaws.codec L) 1 8 v
  payload-Writes (some (rollback v)) = message-Writes L (RollbackLaws.codec L) 1 11 v
  payload-Writes (some (reset v)) = message-Writes L (ResetLaws.codec L) 1 12 v
  payload-Writes (some (dump v)) = message-Writes L (DumpHooksLaws.codec L) 1 13 v
  payload-Writes (some (trigger v)) = message-Writes L (TriggerHookLaws.codec L) 1 14 v
  payload-Writes (some (blame v)) = message-Writes L (BlameLaws.codec L) 1 15 v
  payload-Writes (some (inflight v)) = message-Writes L (InFlightLaws.codec L) 2 16 v
