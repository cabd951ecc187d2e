-- ===== src/Plugin/Dispatch.antt =====
-- The property entry points of the driver interface in plugin/LatSOFAudioPlugin.c, which send a
-- request to the handler of its object: LatSOF_HasProperty, LatSOF_IsPropertySettable,
-- LatSOF_GetPropertyDataSize, LatSOF_GetPropertyData and LatSOF_SetPropertyData.
pub mod Contract
pub mod Notify
use lat_sofaudio.Prelude.{
  ℕ, Bool, true, false, not, Option, none, some, List, [], ◌∷◌, if◌then◌else◌,
}
use lat_sofaudio.Plugin.Types.{
  DriverRef, is_driver, ObjectId, plug_in, box, device, stream_input, stream_output,
  volume_input_master, volume_output_master, mute_input_master, mute_output_master,
  data_source_input_master, data_source_output_master, Address, bad_object, illegal_operation,
}
use lat_sofaudio.Plugin.Floats.{Floats}
use lat_sofaudio.Plugin.State.{PlugIn, properties_changed}
use lat_sofaudio.Plugin.Monad.{M, ◌>>=◌, ◌>>◌, pure, modify, fail, fail_if}
use lat_sofaudio.Plugin.Property.{Abi, Request, Reply, SetRequest, address_of}
use lat_sofaudio.Plugin.RootObject.{
  has_plug_in_property, is_plug_in_property_settable, get_plug_in_property_data_size,
  get_plug_in_property_data, set_plug_in_property_data,
}
use lat_sofaudio.Plugin.BoxObject.{
  has_box_property, is_box_property_settable, get_box_property_data_size, get_box_property_data,
  set_box_property_data,
}
use lat_sofaudio.Plugin.Device.Queries.{
  has_device_property, is_device_property_settable, get_device_property_data_size,
}
use lat_sofaudio.Plugin.Device.{get_device_property_data, set_device_property_data}
use lat_sofaudio.Plugin.Stream.{
  has_stream_property, is_stream_property_settable, get_stream_property_data_size,
  get_stream_property_data, set_stream_property_data,
}
use lat_sofaudio.Plugin.Control.{
  has_control_property, is_control_property_settable, get_control_property_data_size,
  get_control_property_data, set_control_property_data,
}

-- The switch of LatSOF_HasProperty.
abbrev pub has_of : DriverRef → ObjectId → Option Address → Bool
has_of d plug_in a = has_plug_in_property d plug_in a
has_of d box a = has_box_property d box a
has_of d device a = has_device_property d device a
has_of d stream_input a = has_stream_property d stream_input a
has_of d stream_output a = has_stream_property d stream_output a
has_of d volume_input_master a = has_control_property d volume_input_master a
has_of d volume_output_master a = has_control_property d volume_output_master a
has_of d mute_input_master a = has_control_property d mute_input_master a
has_of d mute_output_master a = has_control_property d mute_output_master a
has_of d data_source_input_master a = has_control_property d data_source_input_master a
has_of d data_source_output_master a = has_control_property d data_source_output_master a
has_of d _ a = false

pub has_property : DriverRef → ObjectId → Option Address → Bool
has_property d o none = false
has_property d o (some a) = if is_driver d then has_of d o (some a) else false

module _ {fl : Floats} where
  -- The switch of LatSOF_IsPropertySettable.
  abbrev pub settable_of : Request fl → ObjectId → M fl Bool
  settable_of r plug_in = is_plug_in_property_settable r
  settable_of r box = is_box_property_settable r
  settable_of r device = is_device_property_settable r
  settable_of r stream_input = is_stream_property_settable r
  settable_of r stream_output = is_stream_property_settable r
  settable_of r volume_input_master = is_control_property_settable r
  settable_of r volume_output_master = is_control_property_settable r
  settable_of r mute_input_master = is_control_property_settable r
  settable_of r mute_output_master = is_control_property_settable r
  settable_of r data_source_input_master = is_control_property_settable r
  settable_of r data_source_output_master = is_control_property_settable r
  settable_of r _ = fail bad_object

  pub is_property_settable : Request fl → M fl Bool
  is_property_settable r = do
    fail_if (not (is_driver r.driver)) bad_object
    a ← address_of r.address
    fail_if (not r.size_place) illegal_operation
    settable_of r r.object

  -- The handlers that always store *outDataSize where they succeed.
  abbrev pub stored_size : M fl ℕ → M fl (Option ℕ)
  stored_size m = do n ← m; pure (some n)

  -- The switch of LatSOF_GetPropertyDataSize.
  abbrev pub size_in : Abi → Request fl → ObjectId → M fl (Option ℕ)
  size_in abi r plug_in = stored_size (get_plug_in_property_data_size r)
  size_in abi r box = stored_size (get_box_property_data_size r)
  size_in abi r device = get_device_property_data_size abi r
  size_in abi r stream_input = stored_size (get_stream_property_data_size abi r)
  size_in abi r stream_output = stored_size (get_stream_property_data_size abi r)
  size_in abi r volume_input_master = stored_size (get_control_property_data_size abi r)
  size_in abi r volume_output_master = stored_size (get_control_property_data_size abi r)
  size_in abi r mute_input_master = stored_size (get_control_property_data_size abi r)
  size_in abi r mute_output_master = stored_size (get_control_property_data_size abi r)
  size_in abi r data_source_input_master = stored_size (get_control_property_data_size abi r)
  size_in abi r data_source_output_master = stored_size (get_control_property_data_size abi r)
  size_in abi r _ = fail bad_object

  pub get_property_data_size : Abi → Request fl → M fl (Option ℕ)
  get_property_data_size abi r = do
    fail_if (not (is_driver r.driver)) bad_object
    a ← address_of r.address
    fail_if (not r.size_place) illegal_operation
    size_in abi r r.object

  -- The switch of LatSOF_GetPropertyData.
  abbrev pub data_in : Option (Option ℕ) → Abi → Request fl → ObjectId → M fl (Reply fl)
  data_in b abi r plug_in = get_plug_in_property_data r
  data_in b abi r box = get_box_property_data r
  data_in b abi r device = get_device_property_data b abi r
  data_in b abi r stream_input = get_stream_property_data abi r
  data_in b abi r stream_output = get_stream_property_data abi r
  data_in b abi r volume_input_master = get_control_property_data abi r
  data_in b abi r volume_output_master = get_control_property_data abi r
  data_in b abi r mute_input_master = get_control_property_data abi r
  data_in b abi r mute_output_master = get_control_property_data abi r
  data_in b abi r data_source_input_master = get_control_property_data abi r
  data_in b abi r data_source_output_master = get_control_property_data abi r
  data_in b abi r _ = fail bad_object

  pub get_property_data : Option (Option ℕ) → Abi → Request fl → M fl (Reply fl)
  get_property_data b abi r = do
    fail_if (not (is_driver r.driver)) bad_object
    a ← address_of r.address
    fail_if (not r.size_place) illegal_operation
    fail_if (not r.data_place) illegal_operation
    data_in b abi r r.object

  -- The switch of LatSOF_SetPropertyData.
  abbrev pub set_in : Abi → SetRequest fl → ObjectId → M fl (List Address)
  set_in abi r plug_in = set_plug_in_property_data r
  set_in abi r box = set_box_property_data r
  set_in abi r device = set_device_property_data r
  set_in abi r stream_input = set_stream_property_data abi r
  set_in abi r stream_output = set_stream_property_data abi r
  set_in abi r volume_input_master = set_control_property_data r
  set_in abi r volume_output_master = set_control_property_data r
  set_in abi r mute_input_master = set_control_property_data r
  set_in abi r mute_output_master = set_control_property_data r
  set_in abi r data_source_input_master = set_control_property_data r
  set_in abi r data_source_output_master = set_control_property_data r
  set_in abi r _ = fail bad_object

  -- The addresses that changed go to the host, if there are any.
  pub notify : ObjectId → List Address → M fl (Unit {0})
  notify o [] = pure tt
  notify o (a ∷ l) =
      modify (λ s. record s { host_calls = properties_changed o (a ∷ l) ∷ s.host_calls })

  -- The handler gets places for the changes of the entry point's own. Where it fails it has reported
  -- none, so that there is nothing to notify of.
  pub set_property_data : Abi → SetRequest fl → M fl (Unit {0})
  unfolding notify
  set_property_data abi r = do
    fail_if (not (is_driver r.driver)) bad_object
    a ← address_of r.address
    changes ← set_in abi (record r { count_place = true; addresses_place = true }) r.object
    notify r.object changes
