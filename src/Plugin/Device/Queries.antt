-- ===== src/Plugin/Device/Queries.antt =====
-- What the device's handlers in plugin/LatSOFAudioPlugin.c tell of its properties:
-- LatSOF_HasDeviceProperty, LatSOF_IsDevicePropertySettable and LatSOF_GetDevicePropertyDataSize.
use lat_sofaudio.Prelude.{ℕ, ◌+◌, ◌*◌, Bool, true, false, Option, none, some, if◌then◌else◌}
use lat_sofaudio.Plugin.Types.{
  DriverRef, is_driver, ObjectId, device, Scope, scope_global, scope_input, scope_output,
  other_scope, Selector, base_class, class, owner, name, manufacturer, owned_objects, device_uid,
  model_uid, transport_type, related_devices, clock_domain, device_is_alive, device_is_running,
  can_be_default_device, can_be_default_system_device, latency, streams, control_list,
  safety_offset, nominal_sample_rate, available_nominal_sample_rates, is_hidden,
  preferred_channels_for_stereo, preferred_channel_layout, zero_time_stamp_period, icon, Address,
  unknown_property,
}
use lat_sofaudio.Plugin.Floats.{Floats}
use lat_sofaudio.Plugin.Monad.{M, ◌>>=◌, pure, fail}
use lat_sofaudio.Plugin.Property.{Abi, word, wide, Request, check_place}

abbrev pub is_the_device : ObjectId → Bool
is_the_device device = true
is_the_device _ = false

-- Whether the scope is that of the input or of the output.
abbrev pub is_directed : Scope → Bool
is_directed scope_input = true
is_directed scope_output = true
is_directed _ = false

-- The switch of LatSOF_HasDeviceProperty.
unfoldable pub has : Scope → Selector → Bool
has c base_class = true
has c class = true
has c owner = true
has c name = true
has c manufacturer = true
has c owned_objects = true
has c device_uid = true
has c model_uid = true
has c transport_type = true
has c related_devices = true
has c clock_domain = true
has c device_is_alive = true
has c device_is_running = true
has c control_list = true
has c nominal_sample_rate = true
has c available_nominal_sample_rates = true
has c is_hidden = true
has c zero_time_stamp_period = true
has c icon = true
has c streams = true
has c can_be_default_device = is_directed c
has c can_be_default_system_device = is_directed c
has c latency = is_directed c
has c safety_offset = is_directed c
has c preferred_channels_for_stereo = is_directed c
has c preferred_channel_layout = is_directed c
has c _ = false

-- sizeof of the channel layout, theACLSize
abbrev pub layout_bytes : Abi → ℕ
layout_bytes abi = abi.layout_header_bytes + 2 * abi.channel_description_bytes

-- kAudioObjectPropertyOwnedObjects in LatSOF_GetDevicePropertyDataSize; for another scope
-- *outDataSize is left as it was.
abbrev pub owned_bytes : Scope → Option ℕ
owned_bytes scope_global = some (4 * word)
owned_bytes scope_input = some (4 * word)
owned_bytes scope_output = some 0
owned_bytes (other_scope n) = none

-- kAudioDevicePropertyStreams likewise.
abbrev pub streams_bytes : Scope → Option ℕ
streams_bytes scope_global = some (1 * word)
streams_bytes scope_input = some (1 * word)
streams_bytes scope_output = some 0
streams_bytes (other_scope n) = none

-- 48000.0
abbrev pub nominal : (fl : Floats) → fl.F64
nominal fl = fl.literal64 "48000.0"

module _ {fl : Floats} where
  -- The switch of LatSOF_IsDevicePropertySettable.
  unfoldable pub settable : Selector → M fl Bool
  settable base_class = pure false
  settable class = pure false
  settable owner = pure false
  settable name = pure false
  settable manufacturer = pure false
  settable owned_objects = pure false
  settable device_uid = pure false
  settable model_uid = pure false
  settable transport_type = pure false
  settable related_devices = pure false
  settable clock_domain = pure false
  settable device_is_alive = pure false
  settable device_is_running = pure false
  settable control_list = pure false
  settable nominal_sample_rate = pure true
  settable available_nominal_sample_rates = pure false
  settable is_hidden = pure false
  settable zero_time_stamp_period = pure false
  settable icon = pure false
  settable streams = pure false
  settable can_be_default_device = pure false
  settable can_be_default_system_device = pure false
  settable latency = pure false
  settable safety_offset = pure false
  settable preferred_channels_for_stereo = pure false
  settable preferred_channel_layout = pure false
  settable _ = fail unknown_property

  pub is_device_property_settable : Request fl → M fl Bool
  unfolding settable
  is_device_property_settable r = do a ← check_place is_the_device r; settable a.selector

  -- The switch of LatSOF_GetDevicePropertyDataSize: *outDataSize, if it is stored.
  unfoldable pub size_of : Abi → Scope → Selector → M fl (Option ℕ)
  size_of abi c base_class = pure (some word)
  size_of abi c class = pure (some word)
  size_of abi c owner = pure (some word)
  size_of abi c name = pure (some wide)
  size_of abi c manufacturer = pure (some wide)
  size_of abi c owned_objects = pure (owned_bytes c)
  size_of abi c device_uid = pure (some wide)
  size_of abi c model_uid = pure (some wide)
  size_of abi c transport_type = pure (some word)
  size_of abi c related_devices = pure (some word)
  size_of abi c clock_domain = pure (some word)
  size_of abi c device_is_alive = pure (some word)
  size_of abi c device_is_running = pure (some word)
  size_of abi c control_list = pure (some (3 * word))
  size_of abi c nominal_sample_rate = pure (some wide)
  size_of abi c available_nominal_sample_rates = pure (some (2 * abi.value_range_bytes))
  size_of abi c is_hidden = pure (some word)
  size_of abi c zero_time_stamp_period = pure (some word)
  size_of abi c icon = pure (some wide)
  size_of abi c streams = pure (streams_bytes c)
  size_of abi c can_be_default_device = pure (some word)
  size_of abi c can_be_default_system_device = pure (some word)
  size_of abi c latency = pure (some word)
  size_of abi c safety_offset = pure (some word)
  size_of abi c preferred_channels_for_stereo = pure (some (2 * word))
  size_of abi c preferred_channel_layout = pure (some (layout_bytes abi))
  size_of abi c _ = fail unknown_property

  pub get_device_property_data_size : Abi → Request fl → M fl (Option ℕ)
  unfolding size_of
  get_device_property_data_size abi r = do
    a ← check_place is_the_device r
    size_of abi a.scope a.selector

-- LatSOF_HasDeviceProperty
pub has_device_property : DriverRef → ObjectId → Option Address → Bool
has_device_property d o none = false
has_device_property d o (some a) =
    if is_driver d then (if is_the_device o then has a.scope a.selector else false) else false
