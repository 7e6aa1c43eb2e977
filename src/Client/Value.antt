-- ===== src/Client/Value.antt =====
-- `SysadminValue` of clients/rust/src/lib.rs, and its conversions.
pub mod RoundTrip
pub mod Valid
use sysadmin.Base.{ℤ, Bool, true, false, List, Result, ok, panic, if◌then◌else◌}
use sysadmin.Protobuf.{Text, Protobuf}
use sysadmin.Ctl.Int32List
use sysadmin.Ctl.BoolList
use sysadmin.Ctl.StringList
use sysadmin.Ctl.ConfigValue
use sysadmin.Ctl.ConfigValue.{ConfigValue}
use sysadmin.Ctl.ConfigValue.Fields as Fields

pub data SysadminValue : Type 0 where
  int32 : ℤ → SysadminValue
  strval : Text → SysadminValue
  bool : Bool → SysadminValue
  int32_list : List ℤ → SysadminValue
  bool_list : List Bool → SysadminValue
  strval_list : List Text → SysadminValue

module _ ⦃P : Protobuf⦄ where
  -- `impl From<SysadminValue> for sysadminctl::ConfigValue`
  unfoldable pub to_config_value : SysadminValue → ConfigValue
  unfolding ConfigValue.new Fields.set_int32val Fields.set_strval Fields.set_boolval
      Fields.set_int32list Fields.set_boollist Fields.set_stringlist Int32List.new BoolList.new
      StringList.new Int32List.set_list BoolList.set_list StringList.set_list
  to_config_value (int32 x) = Fields.set_int32val ConfigValue.new x
  to_config_value (strval x) = Fields.set_strval ConfigValue.new x
  to_config_value (bool x) = Fields.set_boolval ConfigValue.new x
  to_config_value (int32_list x) =
      Fields.set_int32list ConfigValue.new (Int32List.set_list Int32List.new x)
  to_config_value (bool_list x) =
      Fields.set_boollist ConfigValue.new (BoolList.set_list BoolList.new x)
  to_config_value (strval_list x) =
      Fields.set_stringlist ConfigValue.new (StringList.set_list StringList.new x)

  -- `impl From<sysadminctl::ConfigValue> for SysadminValue`: the guards in their order.
  unfoldable pub from_config_value : {E : Type 0} → ConfigValue → Result E SysadminValue
  unfolding Fields.has_int32val Fields.has_strval Fields.has_boolval Fields.has_int32list
      Fields.has_boollist Fields.has_stringlist Fields.get_int32val Fields.take_strval
      Fields.get_boolval Fields.take_int32list Fields.take_boollist Fields.take_stringlist
      Int32List.take_list BoolList.take_list StringList.take_list
  from_config_value cv =
      if Fields.has_int32val cv
      then ok (int32 (Fields.get_int32val cv))
      else if Fields.has_strval cv
      then ok (strval (Fields.take_strval cv).0)
      else if Fields.has_boolval cv
      then ok (bool (Fields.get_boolval cv))
      else if Fields.has_int32list cv
      then ok (int32_list (Int32List.take_list (Fields.take_int32list cv).0).0)
      else if Fields.has_boollist cv
      then ok (bool_list (BoolList.take_list (Fields.take_boollist cv).0).0)
      else if Fields.has_stringlist cv
      then ok (strval_list (StringList.take_list (Fields.take_stringlist cv).0).0)
      else panic
