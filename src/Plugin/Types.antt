-- ===== src/Plugin/Types.antt =====
-- The constants that plugin/LatSOFAudioPlugin.c names: object IDs, property selectors, scopes,
-- status codes and class IDs. The code only compares them, so each is a constructor; a value that
-- the code does not name is `other`.
use lat_sofaudio.Prelude.{ℕ, Bool, true, false}

-- `inDriver`: gAudioServerPlugInDriverRef, or another pointer.
pub data DriverRef : Type 0 where
  driver_ref : DriverRef
  foreign : ℕ → DriverRef

abbrev pub is_driver : DriverRef → Bool
is_driver driver_ref = true
is_driver (foreign n) = false

pub data ObjectId : Type 0 where
  plug_in box device stream_input volume_input_master mute_input_master : ObjectId
  data_source_input_master stream_output volume_output_master : ObjectId
  mute_output_master data_source_output_master unknown_object : ObjectId
  other_object : ℕ → ObjectId

-- kAudioBoxPropertyTransportType and kAudioDevicePropertyTransportType are one selector of
-- CoreAudio, `transport_type`; so are kAudioDevicePropertyLatency and kAudioStreamPropertyLatency.
pub data Selector : Type 0 where
  base_class class owner name model_name manufacturer owned_objects identify : Selector
  serial_number firmware_version control_list : Selector
  box_list translate_uid_to_box plug_in_device_list translate_uid_to_device : Selector
  resource_bundle : Selector
  box_uid transport_type has_audio has_video has_midi is_protected acquired : Selector
  acquisition_failed box_device_list : Selector
  device_uid model_uid related_devices clock_domain device_is_alive : Selector
  device_is_running can_be_default_device can_be_default_system_device latency : Selector
  streams safety_offset nominal_sample_rate available_nominal_sample_rates : Selector
  is_hidden preferred_channels_for_stereo preferred_channel_layout : Selector
  zero_time_stamp_period icon : Selector
  is_active direction terminal_type starting_channel virtual_format : Selector
  physical_format available_virtual_formats available_physical_formats : Selector
  control_scope control_element scalar_value decibel_value decibel_range : Selector
  convert_scalar_to_decibels convert_decibels_to_scalar boolean_value : Selector
  current_item available_items item_name : Selector
  other_selector : ℕ → Selector

pub data Scope : Type 0 where
  scope_global scope_input scope_output : Scope
  other_scope : ℕ → Scope

-- AudioObjectPropertyAddress. No handler reads `mElement`.
pub record Address : Type 0 where
  pub selector : Selector
  pub scope : Scope
  pub element : ℕ

-- The errors that `theAnswer` takes; 0 is `returned`, in State.
pub data Status : Type 0 where
  bad_object illegal_operation bad_property_size unknown_property : Status
  unsupported_operation unsupported_format unspecified : Status

pub data ClassId : Type 0 where
  object_class plug_in_class box_class device_class stream_class : ClassId
  level_control_class volume_control_class boolean_control_class : ClassId
  mute_control_class selector_control_class data_source_control_class : ClassId
