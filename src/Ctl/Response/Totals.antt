-- ===== src/Ctl/Response/Totals.antt =====
-- Parsing a `Response` ends on every input, in a value or an error.
use sysadmin.Base.{ℕ, length, some}
use sysadmin.Protobuf.{Bytes, WireType, varint, length_delimited, Protobuf}
use sysadmin.Protobuf.Totality.{Total, Parser, IsTotal, then_total, if_total}
use sysadmin.Wire.Total.{expect_total, merge_loop-total}
use sysadmin.Ctl.StatusCode
use sysadmin.Ctl.GetResponse.Totals as GetResponseTotals
use sysadmin.Ctl.GetResponse
use sysadmin.Ctl.CommitResponse.Totals as CommitResponseTotals
use sysadmin.Ctl.CommitResponse
use sysadmin.Ctl.ResetResponse.Totals as ResetResponseTotals
use sysadmin.Ctl.ResetResponse
use sysadmin.Ctl.DumpResponse.Totals as DumpResponseTotals
use sysadmin.Ctl.DumpResponse
use sysadmin.Ctl.BlameResponse.Totals as BlameResponseTotals
use sysadmin.Ctl.BlameResponse
use sysadmin.Ctl.InFlightResponse.Totals as InFlightResponseTotals
use sysadmin.Ctl.InFlightResponse
use sysadmin.Ctl.Response.{
  Response, merge_field, merge_from, message, get, commit, reset, dump, blame, inflight,
}

module _ ⦃P : Protobuf⦄ (T : IsTotal P) where
  merge_field-total :
      (n : ℕ) (wt : WireType) (m : Response) (is : Bytes)
      → Total (length is) (merge_field n wt m is)
  unfolding merge_field
  merge_field-total n wt m is =
      if_total _
        (expect_total length_delimited wt (
          then_total (λ tmp. record m { payload = some (get tmp) })
            (T.read_message-total GetResponse.message is (GetResponseTotals.parser T))))
        (if_total _
          (expect_total length_delimited wt (
            then_total (λ tmp. record m { payload = some (commit tmp) })
              (T.read_message-total CommitResponse.message is (CommitResponseTotals.parser T))))
          (if_total _
            (expect_total length_delimited wt (
              then_total (λ tmp. record m { payload = some (reset tmp) })
                (T.read_message-total ResetResponse.message is (ResetResponseTotals.parser T))))
            (if_total _
              (expect_total length_delimited wt (
                then_total (λ tmp. record m { payload = some (dump tmp) })
                  (T.read_message-total DumpResponse.message is (DumpResponseTotals.parser T))))
              (if_total _
                (expect_total length_delimited wt (
                  then_total (λ tmp. record m { payload = some (blame tmp) })
                    (T.read_message-total BlameResponse.message is (BlameResponseTotals.parser T))))
                (if_total _
                  (expect_total length_delimited wt (
                    then_total (λ tmp. record m { payload = some (inflight tmp) })
                      (T.read_message-total InFlightResponse.message is
                        (InFlightResponseTotals.parser T))))
                  (if_total _
                    (expect_total varint wt
                      (then_total (λ tmp. record m { id = some tmp }) (T.read_uint32-total is)))
                    (if_total _
                      (expect_total varint wt (
                        then_total (λ tmp. record m { status = some tmp })
                          (T.read_enum-total StatusCode.from_i32 is)))
                      (then_total (λ tmp. record m { unknown_fields = tmp })
                        (T.read_unknown_or_skip_group-total n wt is m.unknown_fields)))))))))

  pub parser : Parser message
  unfolding message merge_from
  parser m is = merge_loop-total T merge_field merge_field-total m is
