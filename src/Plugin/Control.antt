-- ===== src/Plugin/Control.antt =====
-- The control objects of plugin/LatSOFAudioPlugin.c: LatSOF_HasControlProperty,
-- LatSOF_IsControlPropertySettable, LatSOF_GetControlPropertyDataSize, LatSOF_GetControlPropertyData
-- and LatSOF_SetControlPropertyData. Their switches over the object are here; what they do for each
-- kind of control is in Control/Volume, Control/Mute and Control/DataSource.
pub mod Volume
pub mod Mute
pub mod DataSource
pub mod Contract
pub mod Agree
pub mod Values
use lat_sofaudio.Prelude.{ℕ, Bool, true, false, Option, none, some, List, if◌then◌else◌}
use lat_sofaudio.Plugin.Types.{
  DriverRef, is_driver, ObjectId, volume_input_master, volume_output_master, mute_input_master,
  mute_output_master, data_source_input_master, data_source_output_master, Selector, Address,
  bad_object,
}
use lat_sofaudio.Plugin.Floats.{Floats}
use lat_sofaudio.Plugin.Monad.{M, ◌>>=◌, pure, fail}
use lat_sofaudio.Plugin.Property.{
  Abi, Request, Reply, check_get, check_place, Input, SetRequest, check_set,
}
use lat_sofaudio.Plugin.Control.Volume.{
  has_volume, volume_settable, volume_size_of, get_volume, set_volume,
}
use lat_sofaudio.Plugin.Control.Mute.{has_mute, mute_settable, mute_size_of, get_mute, set_mute}
use lat_sofaudio.Plugin.Control.DataSource.{
  has_source, source_settable, source_size_of, get_source, set_source,
}

-- The handlers' first checks leave the object to the switch.
abbrev pub any_object : ObjectId → Bool
any_object o = true

unfoldable pub has : ObjectId → Selector → Bool
unfolding has_volume has_mute has_source
has volume_input_master p = has_volume p
has volume_output_master p = has_volume p
has mute_input_master p = has_mute p
has mute_output_master p = has_mute p
has data_source_input_master p = has_source p
has data_source_output_master p = has_source p
has _ p = false

module _ {fl : Floats} where
  pub settable : ObjectId → Selector → M fl Bool
  unfolding volume_settable mute_settable source_settable
  settable volume_input_master p = volume_settable p
  settable volume_output_master p = volume_settable p
  settable mute_input_master p = mute_settable p
  settable mute_output_master p = mute_settable p
  settable data_source_input_master p = source_settable p
  settable data_source_output_master p = source_settable p
  settable _ p = fail bad_object

  pub is_control_property_settable : Request fl → M fl Bool
  unfolding settable
  is_control_property_settable r = do a ← check_place any_object r; settable r.object a.selector

  pub size_of : Abi → ObjectId → Selector → M fl ℕ
  unfolding volume_size_of mute_size_of source_size_of
  size_of abi volume_input_master p = volume_size_of abi.value_range_bytes p
  size_of abi volume_output_master p = volume_size_of abi.value_range_bytes p
  size_of abi mute_input_master p = mute_size_of p
  size_of abi mute_output_master p = mute_size_of p
  size_of abi data_source_input_master p = source_size_of p
  size_of abi data_source_output_master p = source_size_of p
  size_of abi _ p = fail bad_object

  pub get_control_property_data_size : Abi → Request fl → M fl ℕ
  unfolding size_of
  get_control_property_data_size abi r = do
    a ← check_place any_object r
    size_of abi r.object a.selector

  pub get : Abi → Request fl → ObjectId → Selector → M fl (Reply fl)
  unfolding get_volume get_mute get_source
  get abi r volume_input_master p = get_volume abi.value_range_bytes r p
  get abi r volume_output_master p = get_volume abi.value_range_bytes r p
  get abi r mute_input_master p = get_mute r p
  get abi r mute_output_master p = get_mute r p
  get abi r data_source_input_master p = get_source r p
  get abi r data_source_output_master p = get_source r p
  get abi r _ p = fail bad_object

  pub get_control_property_data : Abi → Request fl → M fl (Reply fl)
  unfolding get
  get_control_property_data abi r = do a ← check_get any_object r; get abi r r.object a.selector

  pub set : ℕ → ObjectId → Option (Input fl) → Selector → M fl (List Address)
  unfolding set_volume set_mute set_source
  set n volume_input_master i p = set_volume n volume_input_master i p
  set n volume_output_master i p = set_volume n volume_output_master i p
  set n mute_input_master i p = set_mute n mute_input_master i p
  set n mute_output_master i p = set_mute n mute_output_master i p
  set n data_source_input_master i p = set_source n data_source_input_master i p
  set n data_source_output_master i p = set_source n data_source_output_master i p
  set n _ i p = fail bad_object

  pub set_control_property_data : SetRequest fl → M fl (List Address)
  unfolding set
  set_control_property_data r = do
    a ← check_set any_object r
    set r.data_size r.object r.input a.selector

-- LatSOF_HasControlProperty
pub has_control_property : DriverRef → ObjectId → Option Address → Bool
has_control_property d o none = false
has_control_property d o (some a) = if is_driver d then has o a.selector else false
