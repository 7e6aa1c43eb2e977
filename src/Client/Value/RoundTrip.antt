-- ===== src/Client/Value/RoundTrip.antt =====
-- The conversions of values between `SysadminValue` and `ConfigValue`.
use sysadmin.Base.{Option, none, some, ◌≡◌, ◌↔◌, refl, ◌∙◌, Result, ok, panic}
use sysadmin.Protobuf.{Protobuf}
use sysadmin.Ctl.ConfigValue.{
  ConfigValue, ConfigValueOneofValue, int32val, strval, boolval, int32list, boollist, stringlist,
}
use sysadmin.Client.Value
use sysadmin.Client.Value.{SysadminValue, to_config_value, from_config_value}

module _ ⦃P : Protobuf⦄ where
  -- The value that a set member stands for.
  unfoldable pub meaning : ConfigValueOneofValue → SysadminValue
  meaning (int32val x) = Value.int32 x
  meaning (strval x) = Value.strval x
  meaning (boolval x) = Value.bool x
  meaning (int32list x) = Value.int32_list x.list
  meaning (boollist x) = Value.bool_list x.list
  meaning (stringlist x) = Value.strval_list x.list

  abbrev outcome : {E : Type 0} → Option ConfigValueOneofValue → Result E SysadminValue
  outcome none = panic
  outcome (some v) = ok (meaning v)

  module _ {E : Type 0} where
    from_config_value_at :
        (cv : ConfigValue) (o : Option ConfigValueOneofValue)
        → from_config_value {E = E} (record cv { value = o }) ≡ outcome o
    unfolding from_config_value meaning
    from_config_value_at cv none = refl
    from_config_value_at cv (some (int32val x)) = refl
    from_config_value_at cv (some (strval x)) = refl
    from_config_value_at cv (some (boolval x)) = refl
    from_config_value_at cv (some (int32list x)) = refl
    from_config_value_at cv (some (boollist x)) = refl
    from_config_value_at cv (some (stringlist x)) = refl

    pub from_config_value-meaning :
        (cv : ConfigValue) (v : ConfigValueOneofValue)
        → cv.value ≡ some v
        → from_config_value {E = E} cv ≡ ok (meaning v)
    from_config_value-meaning cv v e = from_config_value_at cv cv.value ∙ rw e

    outcome-panic : (o : Option ConfigValueOneofValue) → (outcome {E = E} o ≡ panic) ↔ (o ≡ none)
    outcome-panic none = (λ _. refl, λ _. refl)
    outcome-panic (some v) = (λ e. cc, λ e. cc)

    -- Every value, converted to a `ConfigValue` and back, is itself.
    pub from-to_config_value :
        (v : SysadminValue) → from_config_value {E = E} (to_config_value v) ≡ ok v
    unfolding to_config_value from_config_value
    from-to_config_value (Value.int32 x) = refl
    from-to_config_value (Value.strval x) = refl
    from-to_config_value (Value.bool x) = refl
    from-to_config_value (Value.int32_list x) = refl
    from-to_config_value (Value.bool_list x) = refl
    from-to_config_value (Value.strval_list x) = refl

    -- The conversion of a `ConfigValue` panics exactly when no member of its `oneof` is set.
    pub from_config_value-panic :
        (cv : ConfigValue) → (from_config_value {E = E} cv ≡ panic) ↔ (cv.value ≡ none)
    from_config_value-panic cv = rw (from_config_value_at cv cv.value) (outcome-panic cv.value)
