-- ===== src/Ctl/ConfigValue/Totals.antt =====
-- Parsing a `ConfigValue` ends on every input, in a value or an error.
use sysadmin.Base.{ℕ, length, some}
use sysadmin.Protobuf.{Bytes, WireType, varint, length_delimited, Protobuf}
use sysadmin.Protobuf.Totality.{Total, Parser, IsTotal, then_total, if_total}
use sysadmin.Wire.Total.{expect_total, merge_loop-total}
use sysadmin.Ctl.Int32List.Totals as Int32ListTotals
use sysadmin.Ctl.Int32List
use sysadmin.Ctl.BoolList.Totals as BoolListTotals
use sysadmin.Ctl.BoolList
use sysadmin.Ctl.StringList.Totals as StringListTotals
use sysadmin.Ctl.StringList
use sysadmin.Ctl.ConfigValue.{
  ConfigValue, merge_field, merge_from, message, int32val, strval, boolval, int32list, boollist,
  stringlist,
}

module _ ⦃P : Protobuf⦄ (T : IsTotal P) where
  merge_field-total :
      (n : ℕ) (wt : WireType) (m : ConfigValue) (is : Bytes)
      → Total (length is) (merge_field n wt m is)
  unfolding merge_field
  merge_field-total n wt m is =
      if_total _
        (expect_total varint wt
          (then_total (λ tmp. record m { value = some (int32val tmp) }) (T.read_int32-total is)))
        (if_total _
          (expect_total length_delimited wt
            (then_total (λ tmp. record m { value = some (strval tmp) }) (T.read_string-total is)))
          (if_total _
            (expect_total varint wt
              (then_total (λ tmp. record m { value = some (boolval tmp) }) (T.read_bool-total is)))
            (if_total _
              (expect_total length_delimited wt (
                then_total (λ tmp. record m { value = some (int32list tmp) })
                  (T.read_message-total Int32List.message is (Int32ListTotals.parser T))))
              (if_total _
                (expect_total length_delimited wt (
                  then_total (λ tmp. record m { value = some (boollist tmp) })
                    (T.read_message-total BoolList.message is (BoolListTotals.parser T))))
                (if_total _
                  (expect_total length_delimited wt (
                    then_total (λ tmp. record m { value = some (stringlist tmp) })
                      (T.read_message-total StringList.message is (StringListTotals.parser T))))
                  (then_total (λ tmp. record m { unknown_fields = tmp })
                    (T.read_unknown_or_skip_group-total n wt is m.unknown_fields)))))))

  pub parser : Parser message
  unfolding message merge_from
  parser m is = merge_loop-total T merge_field merge_field-total m is
