-- ===== src/Plugin/State.antt =====
-- The globals of plugin/LatSOFAudioPlugin.c as one record.
use lat_sofaudio.Prelude.{ℕ, Bool, Option, List, String}
use lat_sofaudio.Plugin.Types.{Address, ObjectId}
use lat_sofaudio.Plugin.Floats.{Floats}

-- IOConnectCallScalarMethod and the mapping calls that reach the kext.
pub data KextCall : Type 0 where
  start_capture stop_capture : KextCall
  -- with the address, where the mapping succeeds
  map_capture : Option ℕ → KextCall
  unmap_capture : ℕ → KextCall
  update_spib : ℕ → KextCall

-- Calls of the HAL's interface `gPlugIn_Host`, dispatched blocks included.
pub data HostCall : Type 0 where
  properties_changed : ObjectId → List Address → HostCall
  write_box_acquired : Bool → HostCall
  request_configuration_change : ℕ → HostCall
  dispatched : HostCall → HostCall

-- gHWClk_*
pub record HwClock : Type 0 where
  pub wraps : ℕ
  pub last_pos : ℕ
  pub wrap_host_time : ℕ
  pub primed : Bool

-- gDCBlock_X1[c] and gDCBlock_Y1[c] of one channel c.
pub record DcBlock (fl : Floats) : Type 0 where
  pub x1 : fl.F32
  pub y1 : fl.F32

-- The globals, with the calls made to the kext and to the HAL so far, newest first.
pub record PlugIn (fl : Floats) : Type 0 where
  pub state_mutex : Bool
  pub io_mutex : Bool
  pub ref_count : ℕ
  pub box_name : Option String
  pub box_acquired : Bool
  pub sample_rate : fl.F64
  pub io_is_running : ℕ
  pub host_ticks_per_frame : fl.F64
  pub clock : HwClock
  pub number_time_stamps : ℕ
  pub anchor_host_time : ℕ
  pub stream_input_active : Bool
  pub stream_output_active : Bool
  pub connection : ℕ
  pub capture_buffer : Option ℕ
  pub capture_buffer_size : ℕ
  pub shared_buffer : Option ℕ
  pub flags_buffer : Option ℕ
  pub volume_input : fl.F32
  pub volume_output : fl.F32
  pub mute_input : Bool
  pub mute_output : Bool
  pub data_source_input : ℕ
  pub data_source_output : ℕ
  pub left : DcBlock fl
  pub right : DcBlock fl
  pub kext_calls : List KextCall
  pub host_calls : List HostCall
