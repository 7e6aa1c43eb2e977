-- ===== src/Ctl/ConfigValue/Laws/Sized.antt =====
-- What filling the cached sizes of the `oneof` of `ConfigValue` leaves alone.
use sysadmin.Base.{Option, none, some, ◌≡◌, refl}
use sysadmin.Protobuf.{Protobuf}
use sysadmin.Protobuf.Laws.{IsLawful}
use sysadmin.Wire.{opt_initialized, message_size}
use sysadmin.Wire.Sized.{message_bytes-sized}
use sysadmin.Wire.Sizes.{opt}
use sysadmin.Ctl.Int32List.Laws as Int32ListLaws
use sysadmin.Ctl.BoolList.Laws as BoolListLaws
use sysadmin.Ctl.StringList.Laws as StringListLaws
use sysadmin.Ctl.Int32List
use sysadmin.Ctl.BoolList
use sysadmin.Ctl.StringList
use sysadmin.Ctl.ConfigValue.{
  value_initialized, ConfigValueOneofValue, int32val, strval, boolval, int32list, boollist,
  stringlist, value_size,
}
use sysadmin.Ctl.ConfigValue.Laws.Value.{value_bytes, fresh_value}

module _ ⦃P : Protobuf⦄ (L : IsLawful P) where
  pub value_initialized-fresh :
      (o : ConfigValueOneofValue) → value_initialized (fresh_value L o) ≡ value_initialized o
  unfolding value_initialized fresh_value Int32List.message BoolList.message StringList.message
  value_initialized-fresh (int32val v) = refl
  value_initialized-fresh (strval v) = refl
  value_initialized-fresh (boolval v) = refl
  value_initialized-fresh (int32list v) = (Int32ListLaws.codec L).is_initialized-fresh v
  value_initialized-fresh (boollist v) = (BoolListLaws.codec L).is_initialized-fresh v
  value_initialized-fresh (stringlist v) = (StringListLaws.codec L).is_initialized-fresh v

  pub value_bytes-sized :
      (o : Option ConfigValueOneofValue)
      → opt (value_bytes L) (value_size o).1 ≡ opt (value_bytes L) o
  unfolding opt value_bytes value_size
  value_bytes-sized none = refl
  value_bytes-sized (some (int32val v)) = refl
  value_bytes-sized (some (strval v)) = refl
  value_bytes-sized (some (boolval v)) = refl
  value_bytes-sized (some (int32list v)) = message_bytes-sized L (Int32ListLaws.codec L) 1 4 v
  value_bytes-sized (some (boollist v)) = message_bytes-sized L (BoolListLaws.codec L) 1 5 v
  value_bytes-sized (some (stringlist v)) = message_bytes-sized L (StringListLaws.codec L) 1 6 v

  pub value_initialized-sized :
      (o : Option ConfigValueOneofValue)
      → opt_initialized value_initialized (value_size o).1 ≡ opt_initialized value_initialized o
  unfolding opt_initialized message_size value_initialized value_size Int32List.message
      BoolList.message StringList.message
  value_initialized-sized none = refl
  value_initialized-sized (some (int32val v)) = refl
  value_initialized-sized (some (strval v)) = refl
  value_initialized-sized (some (boolval v)) = refl
  value_initialized-sized (some (int32list v)) =
      (Int32ListLaws.codec L).is_initialized-compute_size v
  value_initialized-sized (some (boollist v)) = (BoolListLaws.codec L).is_initialized-compute_size v
  value_initialized-sized (some (stringlist v)) =
      (StringListLaws.codec L).is_initialized-compute_size v
