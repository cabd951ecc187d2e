-- ===== src/Plugin/Dispatch/Contract.antt =====
-- The property entry points as a whole: what LatSOF_GetPropertyData stores, and what
-- LatSOF_SetPropertyData leaves, for whichever object is asked.
use lat_sofaudio.Prelude.{is_none, ℕ, ◌≡◌, ◌≢◌, false, true, Option, some, arith}
use lat_sofaudio.Plugin.Types.{
  ObjectId, plug_in, box, device, stream_input, stream_output, volume_input_master,
  volume_output_master, mute_input_master, mute_output_master, data_source_input_master,
  data_source_output_master, Address, box_uid, resource_bundle,
}
use lat_sofaudio.Plugin.Floats.{Floats}
use lat_sofaudio.Plugin.State.{PlugIn}
use lat_sofaudio.Plugin.Property.{Abi, Request}
use lat_sofaudio.Plugin.Property.Sound.{IsSound, asked}
use lat_sofaudio.Plugin.RootObject.Contract.{get_plug_in_property_data-IsSound}
use lat_sofaudio.Plugin.BoxObject.Contract.{get_box_property_data-IsSound}
use lat_sofaudio.Plugin.Device.Contract.{asks_named, asks_rates, get_device_property_data-IsSound}
use lat_sofaudio.Plugin.Stream.Contract.{get_stream_property_data-IsSound}
use lat_sofaudio.Plugin.Control.Contract.{get_control_property_data-IsSound}
use lat_sofaudio.Plugin.Dispatch.{data_in, get_property_data}

-- The requests whose answer does not keep to the contract: the plug-in's resource bundle, the box's
-- UID, and the device's available sample rates and whatever is asked of it in a scope of no name.
abbrev pub Regular : Option Address → ObjectId → Type 0
Regular a plug_in = asked a ≢ some resource_bundle
Regular a box = asked a ≢ some box_uid
Regular a device = (asks_named a ≡ true) × (asks_rates a ≡ false)
Regular a _ = Unit {0}

module _ {fl : Floats} where
  data_in-IsSound :
      (b : Option (Option ℕ)) (abi : Abi) (r : Request fl) (o : ObjectId) (s : PlugIn fl)
      → s.state_mutex ≡ false
      → is_none r.qualifier ≡ false
      → Regular r.address o
      → IsSound abi r.data_size (data_in b abi r o s)
  data_in-IsSound b abi r plug_in s free q h = get_plug_in_property_data-IsSound abi r s h
  data_in-IsSound b abi r box s free q h = get_box_property_data-IsSound abi r s free h
  data_in-IsSound b abi r device s free q h =
      get_device_property_data-IsSound abi b r s free h.0 h.1
  data_in-IsSound b abi r stream_input s free q h = get_stream_property_data-IsSound abi r s free
  data_in-IsSound b abi r stream_output s free q h = get_stream_property_data-IsSound abi r s free
  data_in-IsSound b abi r volume_input_master s free q h =
      get_control_property_data-IsSound abi r s free q
  data_in-IsSound b abi r volume_output_master s free q h =
      get_control_property_data-IsSound abi r s free q
  data_in-IsSound b abi r mute_input_master s free q h =
      get_control_property_data-IsSound abi r s free q
  data_in-IsSound b abi r mute_output_master s free q h =
      get_control_property_data-IsSound abi r s free q
  data_in-IsSound b abi r data_source_input_master s free q h =
      get_control_property_data-IsSound abi r s free q
  data_in-IsSound b abi r data_source_output_master s free q h =
      get_control_property_data-IsSound abi r s free q
  data_in-IsSound b abi r _ s free q h = tt

  -- With the mutex free and a qualifier, a call of LatSOF_GetPropertyData ends, whatever object is
  -- asked for whatever property: it fails, or stores at most the bytes that the caller has room for
  -- and reports exactly the bytes stored. This is for all requests but the plug-in's resource bundle,
  -- the box's UID, and of the device the available sample rates and the requests in a scope that is
  -- neither global nor input nor output.
  pub get_property_data-IsSound :
      (b : Option (Option ℕ)) (abi : Abi) (r : Request fl) (s : PlugIn fl)
      → s.state_mutex ≡ false
      → is_none r.qualifier ≡ false
      → Regular r.address r.object
      → IsSound abi r.data_size (get_property_data b abi r s)
  unfolding get_property_data
  get_property_data-IsSound b abi r s free q h =
      ground (arith, data_in-IsSound b abi r r.object s free q h)
