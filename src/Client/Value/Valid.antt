-- ===== src/Client/Value/Valid.antt =====
-- A value of Rust, converted to a `ConfigValue`, is complete and well formed.
use sysadmin.Base.{IsI32, All, true, ◌≡◌, refl}
use sysadmin.Protobuf.{Protobuf}
use sysadmin.Protobuf.Laws.{IsLawful}
use sysadmin.Wire.{opt_initialized}
use sysadmin.Ctl.ConfigValue
use sysadmin.Ctl.ConfigValue.Laws as ConfigValueLaws
use sysadmin.Ctl.Int32List
use sysadmin.Ctl.Int32List.Laws as Int32ListLaws
use sysadmin.Ctl.BoolList
use sysadmin.Ctl.BoolList.Laws as BoolListLaws
use sysadmin.Ctl.StringList
use sysadmin.Ctl.StringList.Laws as StringListLaws
use sysadmin.Client.Value
use sysadmin.Client.Value.{SysadminValue, to_config_value}

-- The values of Rust: an `i32`, or text in UTF-8.
module _ ⦃P : Protobuf⦄ (L : IsLawful P) where
  abbrev pub IsValue : SysadminValue → Type 0
  IsValue (Value.int32 x) = IsI32 x
  IsValue (Value.strval x) = L.IsUtf8 x
  IsValue (Value.bool x) = Unit
  IsValue (Value.int32_list x) = All IsI32 x
  IsValue (Value.bool_list x) = Unit
  IsValue (Value.strval_list x) = All L.IsUtf8 x

module _ ⦃P : Protobuf⦄ where
  pub to_config_value-initialized :
      (v : SysadminValue) → ConfigValue.is_initialized (to_config_value v) ≡ true
  unfolding to_config_value ConfigValue.is_initialized Int32List.is_initialized
      BoolList.is_initialized StringList.is_initialized opt_initialized
  to_config_value-initialized (Value.int32 x) = refl
  to_config_value-initialized (Value.strval x) = refl
  to_config_value-initialized (Value.bool x) = refl
  to_config_value-initialized (Value.int32_list x) = refl
  to_config_value-initialized (Value.bool_list x) = refl
  to_config_value-initialized (Value.strval_list x) = refl

  module _ (L : IsLawful P) where
    pub to_config_value-IsValid :
        (v : SysadminValue) → IsValue L v → ConfigValueLaws.IsValid L (to_config_value v)
    unfolding to_config_value Int32ListLaws.codec BoolListLaws.codec StringListLaws.codec
        Int32List.is_initialized BoolList.is_initialized StringList.is_initialized
    to_config_value-IsValid (Value.int32 x) h = record { valid_value = h; no_unknown = refl }
    to_config_value-IsValid (Value.strval x) h = record { valid_value = h; no_unknown = refl }
    to_config_value-IsValid (Value.bool x) h = record { valid_value = tt; no_unknown = refl }
    to_config_value-IsValid (Value.int32_list x) h = record {
      valid_value = (record { valid_list = h; no_unknown = refl }, refl);
      no_unknown = refl;
    }
    to_config_value-IsValid (Value.bool_list x) h = record {
      valid_value = (record { no_unknown = refl }, refl);
      no_unknown = refl;
    }
    to_config_value-IsValid (Value.strval_list x) h = record {
      valid_value = (record { valid_list = h; no_unknown = refl }, refl);
      no_unknown = refl;
    }
