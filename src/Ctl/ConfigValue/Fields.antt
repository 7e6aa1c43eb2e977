-- ===== src/Ctl/ConfigValue/Fields.antt =====
-- The accessors of `ConfigValue` in clients/rust/src/sysadminctl.rs. A method that changes the message
-- returns the new one, behind its result.
use sysadmin.Base.{ℤ, pos, Bool, true, false, none, some, []}
use sysadmin.Protobuf.{Text, Protobuf}
use sysadmin.Ctl.Int32List
use sysadmin.Ctl.Int32List.{Int32List}
use sysadmin.Ctl.BoolList
use sysadmin.Ctl.BoolList.{BoolList}
use sysadmin.Ctl.StringList
use sysadmin.Ctl.StringList.{StringList}
use sysadmin.Ctl.ConfigValue.{
  ConfigValue, int32val, strval, boolval, int32list, boollist, stringlist,
}

module _ ⦃P : Protobuf⦄ where
  unfoldable pub clear_int32val : ConfigValue → ConfigValue
  clear_int32val m = record m { value = none }

  unfoldable pub has_int32val : ConfigValue → Bool
  has_int32val m = elim m.value [ some (int32val _) ↦ true | _ ↦ false ]

  unfoldable pub set_int32val : ConfigValue → ℤ → ConfigValue
  set_int32val m v = record m { value = some (int32val v) }

  unfoldable pub get_int32val : ConfigValue → ℤ
  get_int32val m = elim m.value [ some (int32val v) ↦ v | _ ↦ pos 0 ]

  unfoldable pub clear_strval : ConfigValue → ConfigValue
  clear_strval m = record m { value = none }

  unfoldable pub has_strval : ConfigValue → Bool
  has_strval m = elim m.value [ some (strval _) ↦ true | _ ↦ false ]

  unfoldable pub set_strval : ConfigValue → Text → ConfigValue
  set_strval m v = record m { value = some (strval v) }

  unfoldable pub take_strval : ConfigValue → Text × ConfigValue
  take_strval m = elim m.value [ some (strval v) ↦ (v, record m { value = none }) | _ ↦ ([], m) ]

  unfoldable pub get_strval : ConfigValue → Text
  get_strval m = elim m.value [ some (strval v) ↦ v | _ ↦ [] ]

  unfoldable pub clear_boolval : ConfigValue → ConfigValue
  clear_boolval m = record m { value = none }

  unfoldable pub has_boolval : ConfigValue → Bool
  has_boolval m = elim m.value [ some (boolval _) ↦ true | _ ↦ false ]

  unfoldable pub set_boolval : ConfigValue → Bool → ConfigValue
  set_boolval m v = record m { value = some (boolval v) }

  unfoldable pub get_boolval : ConfigValue → Bool
  get_boolval m = elim m.value [ some (boolval v) ↦ v | _ ↦ false ]

  unfoldable pub clear_int32list : ConfigValue → ConfigValue
  clear_int32list m = record m { value = none }

  unfoldable pub has_int32list : ConfigValue → Bool
  has_int32list m = elim m.value [ some (int32list _) ↦ true | _ ↦ false ]

  unfoldable pub set_int32list : ConfigValue → Int32List → ConfigValue
  set_int32list m v = record m { value = some (int32list v) }

  unfoldable pub take_int32list : ConfigValue → Int32List × ConfigValue
  take_int32list m = elim m.value [
    | some (int32list v) ↦ (v, record m { value = none })
    | _ ↦ (Int32List.new, m)
  ]

  unfoldable pub get_int32list : ConfigValue → Int32List
  get_int32list m = elim m.value [ some (int32list v) ↦ v | _ ↦ Int32List.new ]

  unfoldable pub clear_boollist : ConfigValue → ConfigValue
  clear_boollist m = record m { value = none }

  unfoldable pub has_boollist : ConfigValue → Bool
  has_boollist m = elim m.value [ some (boollist _) ↦ true | _ ↦ false ]

  unfoldable pub set_boollist : ConfigValue → BoolList → ConfigValue
  set_boollist m v = record m { value = some (boollist v) }

  unfoldable pub take_boollist : ConfigValue → BoolList × ConfigValue
  take_boollist m = elim m.value [
    | some (boollist v) ↦ (v, record m { value = none })
    | _ ↦ (BoolList.new, m)
  ]

  unfoldable pub get_boollist : ConfigValue → BoolList
  get_boollist m = elim m.value [ some (boollist v) ↦ v | _ ↦ BoolList.new ]

  unfoldable pub clear_stringlist : ConfigValue → ConfigValue
  clear_stringlist m = record m { value = none }

  unfoldable pub has_stringlist : ConfigValue → Bool
  has_stringlist m = elim m.value [ some (stringlist _) ↦ true | _ ↦ false ]

  unfoldable pub set_stringlist : ConfigValue → StringList → ConfigValue
  set_stringlist m v = record m { value = some (stringlist v) }

  unfoldable pub take_stringlist : ConfigValue → StringList × ConfigValue
  take_stringlist m = elim m.value [
    | some (stringlist v) ↦ (v, record m { value = none })
    | _ ↦ (StringList.new, m)
  ]

  unfoldable pub get_stringlist : ConfigValue → StringList
  get_stringlist m = elim m.value [ some (stringlist v) ↦ v | _ ↦ StringList.new ]
