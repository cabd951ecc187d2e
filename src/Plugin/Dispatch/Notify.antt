-- ===== src/Plugin/Dispatch/Notify.antt =====
-- What LatSOF_SetPropertyData leaves behind, for whichever object is asked.
use lat_sofaudio.Prelude.{◌≡◌, false, true, some, arith}
use lat_sofaudio.Plugin.Types.{
  ObjectId, plug_in, box, device, stream_input, stream_output, volume_input_master,
  volume_output_master, mute_input_master, mute_output_master, data_source_input_master,
  data_source_output_master,
}
use lat_sofaudio.Plugin.Floats.{Floats}
use lat_sofaudio.Plugin.State.{PlugIn}
use lat_sofaudio.Plugin.Property.{Abi, SetRequest, Input}
use lat_sofaudio.Plugin.Property.Sound.{Leaves}
use lat_sofaudio.Plugin.RootObject.Contract.{set_plug_in_property_data-Leaves}
use lat_sofaudio.Plugin.BoxObject.Locking.{set_box_property_data-Leaves}
use lat_sofaudio.Plugin.Device.Agree.{set_device_property_data-Leaves}
use lat_sofaudio.Plugin.Stream.Formats.{set_stream_property_data-Leaves}
use lat_sofaudio.Plugin.Control.Agree.{set_control_property_data-Leaves}
use lat_sofaudio.Plugin.Dispatch.{set_in, notify, set_property_data}

module _ {fl : Floats} where
  set_in-Leaves :
      (abi : Abi) (r : SetRequest fl) (o : ObjectId) (i : Input fl) (s : PlugIn fl)
      → r.input ≡ some i
      → s.state_mutex ≡ false
      → Leaves false (set_in abi r o s)
  set_in-Leaves abi r plug_in i s given free = set_plug_in_property_data-Leaves r s free
  set_in-Leaves abi r box i s given free = set_box_property_data-Leaves r i s given free
  set_in-Leaves abi r device i s given free = set_device_property_data-Leaves r i s given free
  set_in-Leaves abi r stream_input i s given free =
      set_stream_property_data-Leaves abi r i s given free
  set_in-Leaves abi r stream_output i s given free =
      set_stream_property_data-Leaves abi r i s given free
  set_in-Leaves abi r volume_input_master i s given free =
      set_control_property_data-Leaves r i s given free
  set_in-Leaves abi r volume_output_master i s given free =
      set_control_property_data-Leaves r i s given free
  set_in-Leaves abi r mute_input_master i s given free =
      set_control_property_data-Leaves r i s given free
  set_in-Leaves abi r mute_output_master i s given free =
      set_control_property_data-Leaves r i s given free
  set_in-Leaves abi r data_source_input_master i s given free =
      set_control_property_data-Leaves r i s given free
  set_in-Leaves abi r data_source_output_master i s given free =
      set_control_property_data-Leaves r i s given free
  set_in-Leaves abi r _ i s given free = free

  -- With the mutex free, a call of LatSOF_SetPropertyData that comes with data ends, whatever object
  -- and property it is for, and leaves the mutex free, no matter whether it fails.
  pub set_property_data-Leaves :
      (abi : Abi) (r : SetRequest fl) (i : Input fl) (s : PlugIn fl)
      → r.input ≡ some i
      → s.state_mutex ≡ false
      → Leaves false (set_property_data abi r s)
  unfolding set_property_data notify
  set_property_data-Leaves abi r i s given free = ground (
    arith,
    set_in-Leaves abi (record r { count_place = true; addresses_place = true }) r.object i s given
        free,
  )
