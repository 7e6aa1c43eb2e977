-- ===== src/Ctl/DumpResponse/Totals.antt =====
-- Parsing a `DumpResponse` ends on every input, in a value or an error.
use sysadmin.Base.{ℕ, length}
use sysadmin.Protobuf.{Bytes, WireType, Protobuf}
use sysadmin.Protobuf.Totality.{Total, Parser, IsTotal, then_total, if_total}
use sysadmin.Wire.Total.{merge_loop-total}
use sysadmin.Ctl.DumpResponse.{DumpResponse, merge_field, merge_from, message}

module _ ⦃P : Protobuf⦄ (T : IsTotal P) where
  merge_field-total :
      (n : ℕ) (wt : WireType) (m : DumpResponse) (is : Bytes)
      → Total (length is) (merge_field n wt m is)
  unfolding merge_field
  merge_field-total n wt m is =
      if_total _
        (then_total (λ tmp. record m { templatehooks = tmp })
          (T.read_repeated_string_into-total wt is m.templatehooks))
        (if_total _
          (then_total (λ tmp. record m { servicehooks = tmp })
            (T.read_repeated_string_into-total wt is m.servicehooks))
          (then_total (λ tmp. record m { unknown_fields = tmp })
            (T.read_unknown_or_skip_group-total n wt is m.unknown_fields)))

  pub parser : Parser message
  unfolding message merge_from
  parser m is = merge_loop-total T merge_field merge_field-total m is
