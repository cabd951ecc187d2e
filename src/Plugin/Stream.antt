-- ===== src/Plugin/Stream.antt =====
-- The stream objects of plugin/LatSOFAudioPlugin.c: LatSOF_HasStreamProperty,
-- LatSOF_IsStreamPropertySettable, LatSOF_GetStreamPropertyDataSize, LatSOF_GetStreamPropertyData and
-- LatSOF_SetStreamPropertyData.
pub mod Contract
pub mod Formats
use lat_sofaudio.Prelude.{
  ℕ, ◌+◌, ◌-◌, ◌*◌, ◌/◌, Bool, true, false, not, Option, none, some, List, [], ◌∷◌, String, ltb,
  ◌==◌, if◌then◌else◌, differ,
}
use lat_sofaudio.Plugin.Types.{
  DriverRef, is_driver, ObjectId, stream_input, stream_output, device, Selector, base_class, class,
  owner, owned_objects, is_active, direction, terminal_type, starting_channel, latency,
  virtual_format, physical_format, available_virtual_formats, available_physical_formats,
  object_class, stream_class, Address, unknown_property, unsupported_format, illegal_operation,
}
use lat_sofaudio.Plugin.Floats.{Floats}
use lat_sofaudio.Plugin.State.{PlugIn, request_configuration_change, dispatched}
use lat_sofaudio.Plugin.Monad.{
  M, ◌>>=◌, ◌>>◌, pure, read, modify, fail, fail_if, lock_state, unlock_state,
}
use lat_sofaudio.Plugin.Property.{
  Abi, word, Item, class_id, object_id, u32, constant, format, ranged_format,
  terminal_type_microphone, terminal_type_speaker, Format, Request, Reply, check_get, check_place,
  enough, give, Input, SetRequest, changed, check_set, input_of, exactly,
}

abbrev pub is_input : ObjectId → Bool
is_input stream_input = true
is_input _ = false

abbrev pub is_stream : ObjectId → Bool
is_stream stream_input = true
is_stream stream_output = true
is_stream _ = false

-- The switch of LatSOF_HasStreamProperty.
pub has : Selector → Bool
has base_class = true
has class = true
has owner = true
has owned_objects = true
has is_active = true
has direction = true
has terminal_type = true
has starting_channel = true
has latency = true
has virtual_format = true
has physical_format = true
has available_virtual_formats = true
has available_physical_formats = true
has _ = false

-- 48000.0
abbrev pub fixed_rate : (fl : Floats) → fl.F64
fixed_rate fl = fl.literal64 "48000.0"

-- Two channels of packed 32-bit floats.
abbrev pub stereo : {fl : Floats} → fl.F64 → Format fl
stereo rate = record {
  sample_rate = rate;
  linear_pcm = true;
  packed_float = true;
  bytes_per_packet = 8;
  frames_per_packet = 1;
  bytes_per_frame = 8;
  channels_per_frame = 2;
  bits_per_channel = 32;
}

-- theNumberItemsToFetch of kAudioStreamPropertyAvailable…Formats
pub formats_to_fetch : Abi → ℕ → ℕ
formats_to_fetch abi n = let fetch = n / abi.ranged_format_bytes in if ltb 2 fetch then 2 else fetch

module _ {fl : Floats} where
  -- The switch of LatSOF_IsStreamPropertySettable.
  pub settable : Selector → M fl Bool
  settable base_class = pure false
  settable class = pure false
  settable owner = pure false
  settable owned_objects = pure false
  settable direction = pure false
  settable terminal_type = pure false
  settable starting_channel = pure false
  settable latency = pure false
  settable available_virtual_formats = pure false
  settable available_physical_formats = pure false
  settable is_active = pure true
  settable virtual_format = pure true
  settable physical_format = pure true
  settable _ = fail unknown_property

  pub is_stream_property_settable : Request fl → M fl Bool
  unfolding settable
  is_stream_property_settable r = do a ← check_place is_stream r; settable a.selector

  -- The switch of LatSOF_GetStreamPropertyDataSize: *outDataSize.
  unfoldable pub size_of : Abi → Selector → M fl ℕ
  size_of abi base_class = pure word
  size_of abi class = pure word
  size_of abi owner = pure word
  size_of abi owned_objects = pure 0
  size_of abi is_active = pure word
  size_of abi direction = pure word
  size_of abi terminal_type = pure word
  size_of abi starting_channel = pure word
  size_of abi latency = pure word
  size_of abi virtual_format = pure abi.format_bytes
  size_of abi physical_format = pure abi.format_bytes
  size_of abi available_virtual_formats = pure (2 * abi.ranged_format_bytes)
  size_of abi available_physical_formats = pure (2 * abi.ranged_format_bytes)
  size_of abi _ = fail unknown_property

  pub get_stream_property_data_size : Abi → Request fl → M fl ℕ
  unfolding size_of
  get_stream_property_data_size abi r = do a ← check_place is_stream r; size_of abi a.selector

  -- kAudioStreamPropertyVirtualFormat and …PhysicalFormat
  pub get_format : Abi → ℕ → M fl (Reply fl)
  get_format abi n = do
    enough n abi.format_bytes
    lock_state
    s ← read
    unlock_state
    give (format (stereo s.sample_rate)) abi.format_bytes

  abbrev pub available : Item fl
  available = ranged_format (stereo (fixed_rate fl)) (fixed_rate fl) (fixed_rate fl)

  -- The array of descriptions that is filled out.
  pub available_formats : ℕ → List (Item fl)
  available_formats k = if ltb 0 k then available ∷ (if ltb 1 k then available ∷ [] else []) else []

  -- kAudioStreamPropertyAvailableVirtualFormats and …PhysicalFormats
  pub get_available_formats : Abi → ℕ → M fl (Reply fl)
  unfolding formats_to_fetch available_formats
  get_available_formats abi n =
      let k = formats_to_fetch abi n in
      pure (record { size = some (k * abi.ranged_format_bytes); items = available_formats k })

  -- The switch of LatSOF_GetStreamPropertyData for the stream `o`, with inDataSize `n`.
  pub get : Abi → ℕ → ObjectId → Selector → M fl (Reply fl)
  unfolding get_format get_available_formats
  get abi n o base_class = do enough n word; give (class_id object_class) word
  get abi n o class = do enough n word; give (class_id stream_class) word
  get abi n o owner = do enough n word; give (object_id device) word
  get abi n o owned_objects = pure (record { size = some 0; items = [] })
  get abi n o is_active = do
    enough n word
    lock_state
    s ← read
    unlock_state
    give
        (u32
          (if (if is_input o then s.stream_input_active else s.stream_output_active) then 1 else 0))
        word
  get abi n o direction = do enough n word; give (u32 (if is_input o then 1 else 0)) word
  get abi n o terminal_type = do
    enough n word
    give (constant (if is_input o then terminal_type_microphone else terminal_type_speaker)) word
  get abi n o starting_channel = do enough n word; give (u32 1) word
  get abi n o latency = do enough n word; give (u32 512) word
  get abi n o virtual_format = get_format abi n
  get abi n o physical_format = get_format abi n
  get abi n o available_virtual_formats = get_available_formats abi n
  get abi n o available_physical_formats = get_available_formats abi n
  get abi n o _ = fail unknown_property

  pub get_stream_property_data : Abi → Request fl → M fl (Reply fl)
  unfolding get
  get_stream_property_data abi r = do
    a ← check_get is_stream r
    get abi r.data_size r.object a.selector

  -- kAudioStreamPropertyIsActive
  pub set_active : ℕ → ObjectId → Option (Input fl) → M fl (List Address)
  set_active n o input = do
    exactly n word
    lock_state
    i ← input_of input
    let new = not (i.as_u32 == 0)
    s ← read
    addresses ←
        (if is_input o
          then (if differ s.stream_input_active new
              then (do
                modify (λ s. record s { stream_input_active = new })
                pure (changed is_active ∷ []))
              else pure [])
          else (if differ s.stream_output_active new
              then (do
                modify (λ s. record s { stream_output_active = new })
                pure (changed is_active ∷ []))
              else pure []))
    unlock_state
    pure addresses

  -- kAudioStreamPropertyVirtualFormat and …PhysicalFormat: the one format is accepted, and a rate that
  -- differs from the device's is asked of the host in a dispatched block.
  pub set_format : Abi → ℕ → Option (Input fl) → M fl (List Address)
  set_format abi n input = do
    exactly n abi.format_bytes
    i ← input_of input
    let f = i.as_format
    fail_if (not f.linear_pcm) unsupported_format
    fail_if (not f.packed_float) unsupported_format
    fail_if (not (f.bytes_per_packet == 8)) unsupported_format
    fail_if (not (f.frames_per_packet == 1)) unsupported_format
    fail_if (not (f.bytes_per_frame == 8)) unsupported_format
    fail_if (not (f.channels_per_frame == 2)) unsupported_format
    fail_if (not (f.bits_per_channel == 32)) unsupported_format
    fail_if (not (fl.eq64 f.sample_rate (fixed_rate fl))) illegal_operation
    lock_state
    s ← read
    unlock_state
    if fl.eq64 f.sample_rate s.sample_rate then pure [] else (do
      modify (λ s. record s {
        host_calls =
            dispatched (request_configuration_change (fl.to_u64 f.sample_rate)) ∷ s.host_calls;
      })
      pure [])

  -- The switch of LatSOF_SetStreamPropertyData: the addresses that it reports as changed.
  pub set : Abi → ℕ → ObjectId → Option (Input fl) → Selector → M fl (List Address)
  unfolding set_active set_format
  set abi n o input is_active = set_active n o input
  set abi n o input virtual_format = set_format abi n input
  set abi n o input physical_format = set_format abi n input
  set abi n o input _ = fail unknown_property

  pub set_stream_property_data : Abi → SetRequest fl → M fl (List Address)
  unfolding set
  set_stream_property_data abi r = do
    a ← check_set is_stream r
    set abi r.data_size r.object r.input a.selector

-- LatSOF_HasStreamProperty
pub has_stream_property : DriverRef → ObjectId → Option Address → Bool
has_stream_property d o none = false
has_stream_property d o (some a) =
    if is_driver d then (if is_stream o then has a.selector else false) else false
