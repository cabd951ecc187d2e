-- ===== src/Plugin/Device.antt =====
-- The device object of plugin/LatSOFAudioPlugin.c: LatSOF_GetDevicePropertyData and
-- LatSOF_SetDevicePropertyData. What is told of its properties is in Device/Queries.
mod Objects
pub mod Queries
pub mod Contract
pub mod Agree
use lat_sofaudio.Prelude.{
  ℕ, ◌+◌, ◌*◌, ◌/◌, Bool, true, false, not, Option, none, some, List, [], ◌∷◌, String, ltb,
  if◌then◌else◌,
}
use lat_sofaudio.Plugin.Types.{
  DriverRef, is_driver, ObjectId, plug_in, device, stream_input, Scope, scope_global, scope_input,
  scope_output, other_scope, Selector, base_class, class, owner, name, manufacturer, owned_objects,
  device_uid, model_uid, transport_type, related_devices, clock_domain, device_is_alive,
  device_is_running, can_be_default_device, can_be_default_system_device, latency, streams,
  control_list, safety_offset, nominal_sample_rate, available_nominal_sample_rates, is_hidden,
  preferred_channels_for_stereo, preferred_channel_layout, zero_time_stamp_period, icon,
  object_class, device_class, Address, unknown_property, illegal_operation, unspecified,
}
use lat_sofaudio.Plugin.Floats.{Floats}
use lat_sofaudio.Plugin.State.{PlugIn, request_configuration_change, dispatched}
use lat_sofaudio.Plugin.Monad.{
  M, ◌>>=◌, ◌>>◌, pure, read, modify, fail, fail_if, lock_state, unlock_state,
}
use lat_sofaudio.Plugin.Property.{
  Abi, word, wide, Item, class_id, object_id, text, u32, constant, f64, value_range, layout_header,
  channel_description, url, transport_type_built_in, Request, Reply, check_get, check_place, enough,
  give, Input, SetRequest, check_set, input_of, exactly,
}
use lat_sofaudio.Plugin.Clock.{ring_frames}
use lat_sofaudio.Plugin.Device.Objects.{
  offset, control_at, clamped_to, object_reply, owned_reply, streams_reply,
}
use lat_sofaudio.Plugin.Device.Queries.{is_the_device, layout_bytes, nominal}

-- theNumberItemsToFetch of kAudioDevicePropertyAvailableNominalSampleRates
pub rates_to_fetch : Abi → ℕ → ℕ
rates_to_fetch abi n = let fetch = n / abi.value_range_bytes in if ltb 2 fetch then 2 else fetch

module _ {fl : Floats} where
  -- kAudioDevicePropertyAvailableNominalSampleRates: of two ranges, only the first is stored.
  pub get_rates : Abi → ℕ → Reply fl
  unfolding rates_to_fetch
  get_rates abi n =
      let k = rates_to_fetch abi n in
      record {
        size = some (k * abi.value_range_bytes);
        items = if ltb 0 k then value_range (nominal fl) (nominal fl) ∷ [] else [];
      }

  -- kAudioDevicePropertyIcon, with the plug-in's bundle and the URL of the icon in it, where
  -- CoreFoundation finds them.
  pub get_icon : Option (Option ℕ) → ℕ → M fl (Reply fl)
  get_icon none n = do enough n wide; fail unspecified
  get_icon (some none) n = do enough n wide; fail unspecified
  get_icon (some (some u)) n = do enough n wide; give (url u) wide

  -- The switch of LatSOF_GetDevicePropertyData, with inDataSize `n`.
  pub get : Option (Option ℕ) → Abi → ℕ → Scope → Selector → M fl (Reply fl)
  unfolding get_rates get_icon object_reply owned_reply streams_reply clamped_to offset control_at
  get b abi n c base_class = do enough n word; give (class_id object_class) word
  get b abi n c class = do enough n word; give (class_id device_class) word
  get b abi n c owner = do enough n word; give (object_id plug_in) word
  get b abi n c name = do enough n wide; give (text (some "LatSOF Internal Microphone")) wide
  get b abi n c manufacturer = do enough n wide; give (text (some "Dell Latitude 3410")) wide
  get b abi n c owned_objects = pure (owned_reply n c)
  get b abi n c device_uid = do enough n wide; give (text (some "LatSOFMic_UID")) wide
  get b abi n c model_uid = do enough n wide; give (text (some "LatSOFMic_ModelUID")) wide
  get b abi n c transport_type = do enough n word; give (constant transport_type_built_in) word
  get b abi n c related_devices = pure (object_reply (λ i. device) (clamped_to 1 n))
  get b abi n c clock_domain = do enough n word; give (u32 0) word
  get b abi n c device_is_alive = do enough n word; give (u32 1) word
  get b abi n c device_is_running = do
    enough n word
    lock_state
    s ← read
    unlock_state
    give (u32 (if ltb 0 s.io_is_running then 1 else 0)) word
  get b abi n c can_be_default_device = do enough n word; give (u32 1) word
  get b abi n c can_be_default_system_device = do enough n word; give (u32 1) word
  get b abi n c latency = do enough n word; give (u32 0) word
  get b abi n c streams = pure (streams_reply n c)
  get b abi n c control_list = pure (object_reply control_at (clamped_to 3 n))
  get b abi n c safety_offset = do enough n word; give (u32 128) word
  get b abi n c nominal_sample_rate = do
    enough n wide
    lock_state
    s ← read
    unlock_state
    give (f64 s.sample_rate) wide
  get b abi n c available_nominal_sample_rates = pure (get_rates abi n)
  get b abi n c is_hidden = do enough n word; give (u32 0) word
  get b abi n c preferred_channels_for_stereo = do
    enough n (2 * word)
    pure (record { size = some (2 * word); items = u32 1 ∷ u32 2 ∷ [] })
  get b abi n c preferred_channel_layout = do
    enough n (layout_bytes abi)
    pure (record {
      size = some (layout_bytes abi);
      items = layout_header 2 ∷ channel_description 0 ∷ channel_description 1 ∷ [];
    })
  get b abi n c zero_time_stamp_period = do enough n word; give (u32 ring_frames) word
  get b abi n c icon = get_icon b n
  get b abi n c _ = fail unknown_property

  pub get_device_property_data : Option (Option ℕ) → Abi → Request fl → M fl (Reply fl)
  unfolding get
  get_device_property_data b abi r = do
    a ← check_get is_the_device r
    get b abi r.data_size a.scope a.selector

  -- kAudioDevicePropertyNominalSampleRate: a rate that differs from the device's is asked of the host
  -- in a dispatched block.
  pub set_rate : ℕ → Option (Input fl) → M fl (List Address)
  set_rate n input = do
    exactly n wide
    i ← input_of input
    fail_if (not (fl.eq64 i.as_f64 (nominal fl))) illegal_operation
    lock_state
    s ← read
    unlock_state
    if fl.eq64 i.as_f64 s.sample_rate then pure [] else (do
      modify (λ s. record s {
        host_calls = dispatched (request_configuration_change (fl.to_u64 i.as_f64)) ∷ s.host_calls;
      })
      pure [])

  -- The switch of LatSOF_SetDevicePropertyData.
  pub set : ℕ → Option (Input fl) → Selector → M fl (List Address)
  unfolding set_rate
  set n input nominal_sample_rate = set_rate n input
  set n input _ = fail unknown_property

  pub set_device_property_data : SetRequest fl → M fl (List Address)
  unfolding set
  set_device_property_data r = do a ← check_set is_the_device r; set r.data_size r.input a.selector
