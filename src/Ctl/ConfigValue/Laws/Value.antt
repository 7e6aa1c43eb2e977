-- ===== src/Ctl/ConfigValue/Laws/Value.antt =====
-- The bytes of the `oneof` of `ConfigValue`, its size and its writer.
use sysadmin.Base.{true, IsI32, Option, none, some, ◌≡◌, arith}
use sysadmin.Protobuf.{Bytes, length_delimited, Protobuf}
use sysadmin.Protobuf.Laws.{IsLawful}
use sysadmin.Wire.{write_opt}
use sysadmin.Wire.Codec.{Sizes, Writes}
use sysadmin.Wire.Sizes.{opt, nil-Sizes, message_bytes, message-Sizes}
use sysadmin.Wire.Kinds.{
  i32_bytes, bool_bytes, text_bytes, i32-Sizes, bool-Sizes, text-Sizes, i32-Writes, bool-Writes,
  text-Writes,
}
use sysadmin.Wire.Writes.{nil-Writes, message-Writes}
use sysadmin.Ctl.Int32List.Laws as Int32ListLaws
use sysadmin.Ctl.BoolList.Laws as BoolListLaws
use sysadmin.Ctl.StringList.Laws as StringListLaws
use sysadmin.Ctl.Int32List
use sysadmin.Ctl.BoolList
use sysadmin.Ctl.StringList
use sysadmin.Ctl.ConfigValue.{
  ConfigValueOneofValue, int32val, strval, boolval, int32list, boollist, stringlist, value_size,
  write_value,
}

module _ ⦃P : Protobuf⦄ (L : IsLawful P) where
  unfoldable pub value_bytes : ConfigValueOneofValue → Bytes
  value_bytes (int32val v) = i32_bytes L 1 v
  value_bytes (strval v) = text_bytes L 2 v
  value_bytes (boolval v) = bool_bytes L 3 v
  value_bytes (int32list v) = message_bytes L (Int32ListLaws.codec L).encode 4 v
  value_bytes (boollist v) = message_bytes L (BoolListLaws.codec L).encode 5 v
  value_bytes (stringlist v) = message_bytes L (StringListLaws.codec L).encode 6 v

  unfoldable pub fresh_value : ConfigValueOneofValue → ConfigValueOneofValue
  fresh_value (int32val v) = int32val v
  fresh_value (strval v) = strval v
  fresh_value (boolval v) = boolval v
  fresh_value (int32list v) = int32list ((Int32ListLaws.codec L).fresh v)
  fresh_value (boollist v) = boollist ((BoolListLaws.codec L).fresh v)
  fresh_value (stringlist v) = stringlist ((StringListLaws.codec L).fresh v)

  abbrev pub IsValidValue : ConfigValueOneofValue → Type 0
  IsValidValue (int32val v) = IsI32 v
  IsValidValue (strval v) = L.IsUtf8 v
  IsValidValue (boolval v) = Unit
  IsValidValue (int32list v) =
      (Int32ListLaws.codec L).IsValid v × (Int32List.is_initialized v ≡ true)
  IsValidValue (boollist v) = (BoolListLaws.codec L).IsValid v × (BoolList.is_initialized v ≡ true)
  IsValidValue (stringlist v) =
      (StringListLaws.codec L).IsValid v × (StringList.is_initialized v ≡ true)

  pub value-Sizes : (o : Option ConfigValueOneofValue) → Sizes (value_size o).0 (opt value_bytes o)
  unfolding value_size value_bytes opt
  value-Sizes none = nil-Sizes
  value-Sizes (some (int32val v)) = i32-Sizes L 1 v
  value-Sizes (some (strval v)) = text-Sizes L 2 v
  value-Sizes (some (boolval v)) = bool-Sizes L 3 (omega arith) (omega arith) v
  value-Sizes (some (int32list v)) =
      message-Sizes L (Int32ListLaws.codec L) 1 4
        (L.length-tag 4 length_delimited (omega arith) (omega arith)) v
  value-Sizes (some (boollist v)) =
      message-Sizes L (BoolListLaws.codec L) 1 5
        (L.length-tag 5 length_delimited (omega arith) (omega arith)) v
  value-Sizes (some (stringlist v)) =
      message-Sizes L (StringListLaws.codec L) 1 6
        (L.length-tag 6 length_delimited (omega arith) (omega arith)) v

  pub value-Writes :
      (o : Option ConfigValueOneofValue)
      → Writes (write_opt write_value (value_size o).1) (opt value_bytes o)
  unfolding value_size value_bytes opt write_value write_opt
  value-Writes none = nil-Writes
  value-Writes (some (int32val v)) = i32-Writes L 1 v
  value-Writes (some (strval v)) = text-Writes L 2 v
  value-Writes (some (boolval v)) = bool-Writes L 3 v
  value-Writes (some (int32list v)) = message-Writes L (Int32ListLaws.codec L) 1 4 v
  value-Writes (some (boollist v)) = message-Writes L (BoolListLaws.codec L) 1 5 v
  value-Writes (some (stringlist v)) = message-Writes L (StringListLaws.codec L) 1 6 v
