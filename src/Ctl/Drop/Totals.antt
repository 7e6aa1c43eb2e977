-- ===== src/Ctl/Drop/Totals.antt =====
-- Parsing a `Drop` ends on every input, in a value or an error.
use sysadmin.Base.{ℕ, length}
use sysadmin.Protobuf.{Bytes, WireType, Protobuf}
use sysadmin.Protobuf.Totality.{Total, Parser, IsTotal, then_total}
use sysadmin.Wire.Total.{merge_loop-total}
use sysadmin.Ctl.Drop.{Drop, merge_field, merge_from, message}

module _ ⦃P : Protobuf⦄ (T : IsTotal P) where
  merge_field-total :
      (n : ℕ) (wt : WireType) (m : Drop) (is : Bytes) → Total (length is) (merge_field n wt m is)
  unfolding merge_field
  merge_field-total n wt m is =
      then_total (λ tmp. record m { unknown_fields = tmp })
        (T.read_unknown_or_skip_group-total n wt is m.unknown_fields)

  pub parser : Parser message
  unfolding message merge_from
  parser m is = merge_loop-total T merge_field merge_field-total m is
