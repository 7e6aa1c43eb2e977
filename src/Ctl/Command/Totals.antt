-- ===== src/Ctl/Command/Totals.antt =====
-- Parsing a `Command` ends on every input, in a value or an error.
use sysadmin.Base.{ℕ, length, some}
use sysadmin.Protobuf.{Bytes, WireType, varint, length_delimited, Protobuf}
use sysadmin.Protobuf.Totality.{Total, Parser, IsTotal, then_total, if_total}
use sysadmin.Wire.Total.{expect_total, merge_loop-total}
use sysadmin.Ctl.Set.Totals as SetTotals
use sysadmin.Ctl.Set
use sysadmin.Ctl.Get.Totals as GetTotals
use sysadmin.Ctl.Get
use sysadmin.Ctl.Commit.Totals as CommitTotals
use sysadmin.Ctl.Commit
use sysadmin.Ctl.Drop.Totals as DropTotals
use sysadmin.Ctl.Drop
use sysadmin.Ctl.FireHooks.Totals as FireHooksTotals
use sysadmin.Ctl.FireHooks
use sysadmin.Ctl.EraseKey.Totals as EraseKeyTotals
use sysadmin.Ctl.EraseKey
use sysadmin.Ctl.Rollback.Totals as RollbackTotals
use sysadmin.Ctl.Rollback
use sysadmin.Ctl.Reset.Totals as ResetTotals
use sysadmin.Ctl.Reset
use sysadmin.Ctl.DumpHooks.Totals as DumpHooksTotals
use sysadmin.Ctl.DumpHooks
use sysadmin.Ctl.TriggerHook.Totals as TriggerHookTotals
use sysadmin.Ctl.TriggerHook
use sysadmin.Ctl.Blame.Totals as BlameTotals
use sysadmin.Ctl.Blame
use sysadmin.Ctl.InFlight.Totals as InFlightTotals
use sysadmin.Ctl.InFlight
use sysadmin.Ctl.Command.{
  Command, merge_field, merge_from, message, set, get, commit, drop, firehooks, erase, rollback,
  reset, dump, trigger, blame, inflight,
}

module _ ⦃P : Protobuf⦄ (T : IsTotal P) where
  merge_field-total :
      (n : ℕ) (wt : WireType) (m : Command) (is : Bytes) → Total (length is) (merge_field n wt m is)
  unfolding merge_field
  merge_field-total n wt m is =
      if_total _
        (expect_total length_delimited wt (
          then_total (λ tmp. record m { payload = some (set tmp) })
            (T.read_message-total Set.message is (SetTotals.parser T))))
        (if_total _
          (expect_total length_delimited wt (
            then_total (λ tmp. record m { payload = some (get tmp) })
              (T.read_message-total Get.message is (GetTotals.parser T))))
          (if_total _
            (expect_total length_delimited wt (
              then_total (λ tmp. record m { payload = some (commit tmp) })
                (T.read_message-total Commit.message is (CommitTotals.parser T))))
            (if_total _
              (expect_total length_delimited wt (
                then_total (λ tmp. record m { payload = some (drop tmp) })
                  (T.read_message-total Drop.message is (DropTotals.parser T))))
              (if_total _
                (expect_total length_delimited wt (
                  then_total (λ tmp. record m { payload = some (firehooks tmp) })
                    (T.read_message-total FireHooks.message is (FireHooksTotals.parser T))))
                (if_total _
                  (expect_total length_delimited wt (
                    then_total (λ tmp. record m { payload = some (erase tmp) })
                      (T.read_message-total EraseKey.message is (EraseKeyTotals.parser T))))
                  (if_total _
                    (expect_total length_delimited wt (
                      then_total (λ tmp. record m { payload = some (rollback tmp) })
                        (T.read_message-total Rollback.message is (RollbackTotals.parser T))))
                    (if_total _
                      (expect_total length_delimited wt (
                        then_total (λ tmp. record m { payload = some (reset tmp) })
                          (T.read_message-total Reset.message is (ResetTotals.parser T))))
                      (if_total _
                        (expect_total length_delimited wt (
                          then_total (λ tmp. record m { payload = some (dump tmp) })
                            (T.read_message-total DumpHooks.message is (DumpHooksTotals.parser T))))
                        (if_total _
                          (expect_total length_delimited wt (
                            then_total (λ tmp. record m { payload = some (trigger tmp) })
                              (T.read_message-total TriggerHook.message is
                                (TriggerHookTotals.parser T))))
                          (if_total _
                            (expect_total length_delimited wt (
                              then_total (λ tmp. record m { payload = some (blame tmp) })
                                (T.read_message-total Blame.message is (BlameTotals.parser T))))
                            (if_total _
                              (expect_total length_delimited wt (
                                then_total (λ tmp. record m { payload = some (inflight tmp) })
                                  (T.read_message-total InFlight.message is
                                    (InFlightTotals.parser T))))
                              (if_total _
                                (expect_total varint wt (
                                  then_total (λ tmp. record m { id = some tmp })
                                    (T.read_uint32-total is)))
                                (if_total _
                                  (expect_total varint wt (
                                    then_total (λ tmp. record m { xid = some tmp })
                                      (T.read_uint32-total is)))
                                  (then_total (λ tmp. record m { unknown_fields = tmp })
                                    (T.read_unknown_or_skip_group-total n wt is
                                      m.unknown_fields)))))))))))))))

  pub parser : Parser message
  unfolding message merge_from
  parser m is = merge_loop-total T merge_field merge_field-total m is
