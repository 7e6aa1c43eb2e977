-- ===== src/Ctl/ResetResponse/Totals.antt =====
-- Parsing a `ResetResponse` ends on every input, in a value or an error.
use sysadmin.Base.{ℕ, length, some}
use sysadmin.Protobuf.{Bytes, WireType, varint, Protobuf}
use sysadmin.Protobuf.Totality.{Total, Parser, IsTotal, then_total, if_total}
use sysadmin.Wire.Total.{expect_total, merge_loop-total}
use sysadmin.Ctl.ResetResponse.{ResetResponse, merge_field, merge_from, message}

module _ ⦃P : Protobuf⦄ (T : IsTotal P) where
  merge_field-total :
      (n : ℕ) (wt : WireType) (m : ResetResponse) (is : Bytes)
      → Total (length is) (merge_field n wt m is)
  unfolding merge_field
  merge_field-total n wt m is =
      if_total _
        (expect_total varint wt
          (then_total (λ tmp. record m { commit_id = some tmp }) (T.read_uint32-total is)))
        (then_total (λ tmp. record m { unknown_fields = tmp })
          (T.read_unknown_or_skip_group-total n wt is m.unknown_fields))

  pub parser : Parser message
  unfolding message merge_from
  parser m is = merge_loop-total T merge_field merge_field-total m is
