-- ===== src/Ctl/ConfigValue/Laws/Reads.antt =====
-- The parser of the `oneof` of `ConfigValue`.
use sysadmin.Base.{Option, none, some, OptAll, opt_map, refl, arith}
use sysadmin.Protobuf.{varint, length_delimited, Protobuf}
use sysadmin.Protobuf.Laws.{IsLawful}
use sysadmin.Wire.{expect}
use sysadmin.Wire.Sizes.{Fits-right, opt}
use sysadmin.Wire.Kinds.{i32_bytes, bool_bytes, text_bytes}
use sysadmin.Wire.Reads.{Parses, nil-Parses}
use sysadmin.Wire.Reads.Fields.{small_reads}
use sysadmin.Wire.Reads.Messages.{oneof_message_reads}
use sysadmin.Ctl.Int32List.Laws as Int32ListLaws
use sysadmin.Ctl.BoolList.Laws as BoolListLaws
use sysadmin.Ctl.StringList.Laws as StringListLaws
use sysadmin.Ctl.Int32List
use sysadmin.Ctl.BoolList
use sysadmin.Ctl.StringList
use sysadmin.Ctl.ConfigValue.{
  ConfigValue, merge_field, ConfigValueOneofValue, int32val, strval, boolval, int32list, boollist,
  stringlist,
}
use sysadmin.Ctl.ConfigValue.Laws.Value.{value_bytes, fresh_value, IsValidValue}

module _ ⦃P : Protobuf⦄ (L : IsLawful P) where
  -- The member that is set.
  unfoldable pub with_value : Option ConfigValueOneofValue → ConfigValue
  with_value o = record { value = o; unknown_fields = P.no_fields; cached_size = 0 }

  pub value-Parses :
      (o : Option ConfigValueOneofValue)
      → OptAll (IsValidValue L) o
      → Parses merge_field
          (with_value none)
          (opt (value_bytes L) o)
          (with_value (opt_map (fresh_value L) o))
  unfolding merge_field expect value_bytes fresh_value opt with_value i32_bytes bool_bytes
      text_bytes Int32List.message BoolList.message StringList.message
  value-Parses none v = nil-Parses
  value-Parses (some (int32val v)) q = record {
    parse = λ h.
        small_reads L merge_field 1 varint (L.int32 v) (with_value none)
          (with_value (some (int32val v))) (omega arith) λ is. rw (L.read_int32_lem v is q);
  }
  value-Parses (some (strval v)) q = record {
    parse = λ h.
        small_reads L merge_field 2 length_delimited (L.text v) (with_value none)
          (with_value (some (strval v))) (omega arith)
          λ is. rw (L.read_string_lem v is q (Fits-right (L.tag 2 length_delimited) (L.text v) h));
  }
  value-Parses (some (boolval v)) q = record {
    parse = λ h.
        small_reads L merge_field 3 varint (L.bool v) (with_value none)
          (with_value (some (boolval v))) (omega arith) λ is. rw (L.read_bool_lem v is);
  }
  value-Parses (some (int32list v)) q = record {
    parse =
        oneof_message_reads L (Int32ListLaws.codec L) merge_field 4 (omega arith)
          (omega (arith, (L.length-tag 4 length_delimited (omega arith) (omega arith))))
          (with_value none) (λ w. with_value (some (int32list w))) (λ is. refl) v q;
  }
  value-Parses (some (boollist v)) q = record {
    parse =
        oneof_message_reads L (BoolListLaws.codec L) merge_field 5 (omega arith)
          (omega (arith, (L.length-tag 5 length_delimited (omega arith) (omega arith))))
          (with_value none) (λ w. with_value (some (boollist w))) (λ is. refl) v q;
  }
  value-Parses (some (stringlist v)) q = record {
    parse =
        oneof_message_reads L (StringListLaws.codec L) merge_field 6 (omega arith)
          (omega (arith, (L.length-tag 6 length_delimited (omega arith) (omega arith))))
          (with_value none) (λ w. with_value (some (stringlist w))) (λ is. refl) v q;
  }
