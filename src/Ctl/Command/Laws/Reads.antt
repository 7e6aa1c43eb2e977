-- ===== src/Ctl/Command/Laws/Reads.antt =====
-- The parser of the `oneof` of `Command`.
use sysadmin.Base.{ℕ, Option, none, some, OptAll, opt_map, refl, arith}
use sysadmin.Protobuf.{length_delimited, Protobuf}
use sysadmin.Protobuf.Laws.{IsLawful}
use sysadmin.Wire.{expect}
use sysadmin.Wire.Sizes.{opt}
use sysadmin.Wire.Kinds.{i32_bytes, bool_bytes, text_bytes}
use sysadmin.Wire.Reads.{Parses, nil-Parses}
use sysadmin.Wire.Reads.Messages.{oneof_message_reads}
use sysadmin.Ctl.Set.Laws as SetLaws
use sysadmin.Ctl.Get.Laws as GetLaws
use sysadmin.Ctl.Commit.Laws as CommitLaws
use sysadmin.Ctl.Drop.Laws as DropLaws
use sysadmin.Ctl.FireHooks.Laws as FireHooksLaws
use sysadmin.Ctl.EraseKey.Laws as EraseKeyLaws
use sysadmin.Ctl.Rollback.Laws as RollbackLaws
use sysadmin.Ctl.Reset.Laws as ResetLaws
use sysadmin.Ctl.DumpHooks.Laws as DumpHooksLaws
use sysadmin.Ctl.TriggerHook.Laws as TriggerHookLaws
use sysadmin.Ctl.Blame.Laws as BlameLaws
use sysadmin.Ctl.InFlight.Laws as InFlightLaws
use sysadmin.Ctl.Set
use sysadmin.Ctl.Get
use sysadmin.Ctl.Commit
use sysadmin.Ctl.Drop
use sysadmin.Ctl.FireHooks
use sysadmin.Ctl.EraseKey
use sysadmin.Ctl.Rollback
use sysadmin.Ctl.Reset
use sysadmin.Ctl.DumpHooks
use sysadmin.Ctl.TriggerHook
use sysadmin.Ctl.Blame
use sysadmin.Ctl.InFlight
use sysadmin.Ctl.Command.{
  Command, merge_field, CommandOneofPayload, set, get, commit, drop, firehooks, erase, rollback,
  reset, dump, trigger, blame, inflight,
}
use sysadmin.Ctl.Command.Laws.Payload.{payload_bytes, fresh_payload, IsValidPayload}

module _ ⦃P : Protobuf⦄ (L : IsLawful P) where
  module _ (id : Option ℕ) (xid : Option ℕ) where
    unfoldable pub with_payload : Option CommandOneofPayload → Command
    with_payload o = record {
      id = id;
      xid = xid;
      payload = o;
      unknown_fields = P.no_fields;
      cached_size = 0;
    }

    pub payload-Parses :
        (o : Option CommandOneofPayload)
        → OptAll (IsValidPayload L) o
        → Parses merge_field
            (with_payload none)
            (opt (payload_bytes L) o)
            (with_payload (opt_map (fresh_payload L) o))
    unfolding merge_field expect payload_bytes fresh_payload opt with_payload i32_bytes bool_bytes
        text_bytes Set.message Get.message Commit.message Drop.message FireHooks.message
        EraseKey.message Rollback.message Reset.message DumpHooks.message TriggerHook.message
        Blame.message InFlight.message
    payload-Parses none v = nil-Parses
    payload-Parses (some (set v)) q = record {
      parse =
          oneof_message_reads L (SetLaws.codec L) merge_field 1 (omega arith)
            (omega (arith, (L.length-tag 1 length_delimited (omega arith) (omega arith))))
            (with_payload none) (λ w. with_payload (some (set w))) (λ is. refl) v q;
    }
    payload-Parses (some (get v)) q = record {
      parse =
          oneof_message_reads L (GetLaws.codec L) merge_field 2 (omega arith)
            (omega (arith, (L.length-tag 2 length_delimited (omega arith) (omega arith))))
            (with_payload none) (λ w. with_payload (some (get w))) (λ is. refl) v q;
    }
    payload-Parses (some (commit v)) q = record {
      parse =
          oneof_message_reads L (CommitLaws.codec L) merge_field 3 (omega arith)
            (omega (arith, (L.length-tag 3 length_delimited (omega arith) (omega arith))))
            (with_payload none) (λ w. with_payload (some (commit w))) (λ is. refl) v q;
    }
    payload-Parses (some (drop v)) q = record {
      parse =
          oneof_message_reads L (DropLaws.codec L) merge_field 4 (omega arith)
            (omega (arith, (L.length-tag 4 length_delimited (omega arith) (omega arith))))
            (with_payload none) (λ w. with_payload (some (drop w))) (λ is. refl) v q;
    }
    payload-Parses (some (firehooks v)) q = record {
      parse =
          oneof_message_reads L (FireHooksLaws.codec L) merge_field 7 (omega arith)
            (omega (arith, (L.length-tag 7 length_delimited (omega arith) (omega arith))))
            (with_payload none) (λ w. with_payload (some (firehooks w))) (λ is. refl) v q;
    }
    payload-Parses (some (erase v)) q = record {
      parse =
          oneof_message_reads L (EraseKeyLaws.codec L) merge_field 8 (omega arith)
            (omega (arith, (L.length-tag 8 length_delimited (omega arith) (omega arith))))
            (with_payload none) (λ w. with_payload (some (erase w))) (λ is. refl) v q;
    }
    payload-Parses (some (rollback v)) q = record {
      parse =
          oneof_message_reads L (RollbackLaws.codec L) merge_field 11 (omega arith)
            (omega (arith, (L.length-tag 11 length_delimited (omega arith) (omega arith))))
            (with_payload none) (λ w. with_payload (some (rollback w))) (λ is. refl) v q;
    }
    payload-Parses (some (reset v)) q = record {
      parse =
          oneof_message_reads L (ResetLaws.codec L) merge_field 12 (omega arith)
            (omega (arith, (L.length-tag 12 length_delimited (omega arith) (omega arith))))
            (with_payload none) (λ w. with_payload (some (reset w))) (λ is. refl) v q;
    }
    payload-Parses (some (dump v)) q = record {
      parse =
          oneof_message_reads L (DumpHooksLaws.codec L) merge_field 13 (omega arith)
            (omega (arith, (L.length-tag 13 length_delimited (omega arith) (omega arith))))
            (with_payload none) (λ w. with_payload (some (dump w))) (λ is. refl) v q;
    }
    payload-Parses (some (trigger v)) q = record {
      parse =
          oneof_message_reads L (TriggerHookLaws.codec L) merge_field 14 (omega arith)
            (omega (arith, (L.length-tag 14 length_delimited (omega arith) (omega arith))))
            (with_payload none) (λ w. with_payload (some (trigger w))) (λ is. refl) v q;
    }
    payload-Parses (some (blame v)) q = record {
      parse =
          oneof_message_reads L (BlameLaws.codec L) merge_field 15 (omega arith)
            (omega (arith, (L.length-tag 15 length_delimited (omega arith) (omega arith))))
            (with_payload none) (λ w. with_payload (some (blame w))) (λ is. refl) v q;
    }
    payload-Parses (some (inflight v)) q = record {
      parse =
          oneof_message_reads L (InFlightLaws.codec L) merge_field 16 (omega arith)
            (omega (arith, (L.length-tag_two 16 length_delimited (omega arith) (omega arith))))
            (with_payload none) (λ w. with_payload (some (inflight w))) (λ is. refl) v q;
    }
