-- ===== src/Plugin/Tests.antt =====
-- Concrete values for the examples: an arithmetic in which everything computes, sizes of structures,
-- and states of the plug-in of plugin/LatSOFAudioPlugin.c.
mod Audio
mod Objects
mod Values
use lat_sofaudio.Prelude.{
  ℕ, ◌+◌, ◌-◌, ◌*◌, ◌/◌, ◌%◌, Bool, true, false, Option, none, some, List, [], ◌∷◌, String, ltb,
  ◌==◌, if◌then◌else◌, str_eq,
}
use lat_sofaudio.Plugin.Types.{
  DriverRef, driver_ref, ObjectId, Selector, Scope, scope_global, Address,
}
use lat_sofaudio.Plugin.Floats.{Floats}
use lat_sofaudio.Plugin.State.{PlugIn, HwClock, DcBlock}
use lat_sofaudio.Plugin.Property.{Abi, Request, Qualifier, SetRequest, Input, Format}

-- Offset numbers: `x` stands for x - 100.
abbrev pub literal : String → ℕ
literal t =
    if str_eq t "-96.0"
    then 4
    else if str_eq t "-1.0f"
    then 99
    else if str_eq t "1.0"
    then 101
    else if str_eq t "1.0f"
    then 101
    else if str_eq t "6.0"
    then 106
    else if str_eq t "48000.0"
    then 48000
    else 100

abbrev pub toy : Floats
toy = record {
  F32 = ℕ;
  literal32 = literal;
  add32 = λ x y. x + y;
  sub32 = λ x y. x - y;
  mul32 = λ x y. x * y;
  div32 = λ x y. x / y;
  sqrt32 = λ x. x + 100;
  lt32 = ltb;
  eq32 = λ x y. x == y;
  of_s32 = λ x. x;
  to_s16 = λ x. x % 65536;
  F64 = ℕ;
  literal64 = literal;
  add64 = λ x y. x + y;
  sub64 = λ x y. x - y;
  mul64 = λ x y. x * y;
  div64 = λ x y. x / y;
  eq64 = λ x y. x == y;
  of_f32 = λ x. x;
  of_u64 = λ x. x;
  to_u64 = λ x. x;
}

abbrev pub sizes : Abi
sizes = record {
  format_bytes = 40;
  ranged_format_bytes = 56;
  value_range_bytes = 16;
  layout_header_bytes = 12;
  channel_description_bytes = 20;
}

abbrev pub quiet : DcBlock toy
quiet = record { x1 = 100; y1 = 100 }

-- A plug-in with a connection to the kext and no client.
abbrev pub idle : PlugIn toy
idle = record {
  state_mutex = false;
  io_mutex = false;
  ref_count = 1;
  box_name = some "LatSOF Audio";
  box_acquired = true;
  sample_rate = 48000;
  io_is_running = 0;
  host_ticks_per_frame = 20;
  clock = record { wraps = 0; last_pos = 0; wrap_host_time = 0; primed = false };
  number_time_stamps = 0;
  anchor_host_time = 0;
  stream_input_active = true;
  stream_output_active = true;
  connection = 7;
  capture_buffer = none;
  capture_buffer_size = 0;
  shared_buffer = none;
  flags_buffer = none;
  volume_input = 101;
  volume_output = 100;
  mute_input = false;
  mute_output = false;
  data_source_input = 0;
  data_source_output = 0;
  left = quiet;
  right = quiet;
  kext_calls = [];
  host_calls = [];
}

abbrev pub address_for : Selector → Option Address
address_for p = some (record { selector = p; scope = scope_global; element = 0 })

-- A request for the property of the object, with room for `n` bytes.
abbrev pub asking : ObjectId → Selector → ℕ → Request toy
asking o p n = record {
  driver = driver_ref;
  object = o;
  address = address_for p;
  qualifier_size = 0;
  qualifier = none;
  data_size = n;
  size_place = true;
  data_place = true;
  out_f32 = 101;
}

abbrev pub given : ℕ → Input toy
given n = record {
  as_text = some "Microphone";
  as_u32 = n;
  as_f32 = n;
  as_f64 = 48000;
  as_format = record {
    sample_rate = 48000;
    linear_pcm = true;
    packed_float = true;
    bytes_per_packet = 8;
    frames_per_packet = 1;
    bytes_per_frame = 8;
    channels_per_frame = 2;
    bits_per_channel = 32;
  };
}
