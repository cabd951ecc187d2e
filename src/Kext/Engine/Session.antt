-- ===== src/Kext/Engine/Session.antt =====
-- The calls that the audio family makes to LatSOFKernelAudioEngine of
-- kext/LatSOFAudio/LatSOFKernelAudio.cpp, with the driver that they reach: performAudioEngineStart,
-- performAudioEngineStop, resumeAudioEngine, and the wrap timer's reading of the position.
pub mod Paired
use lat_sofaudio.Prelude.{ℕ, Bool, true, false, Option, none, some, List, String, if◌then◌else◌}
use lat_sofaudio.Plugin.Floats.{Floats}
use lat_sofaudio.Plugin.State.{DcBlock}
use lat_sofaudio.Plugin.Capture.{Filters}
use lat_sofaudio.Kext.Types.{Dsp, IoReturn, is_success}
use lat_sofaudio.Kext.State.{Kext}
use lat_sofaudio.Kext.Driver.{
  engine_start_capture, engine_stop_capture, engine_request_resume, get_capture_position,
  capture_position_valid,
}
use lat_sofaudio.Kext.Engine.{
  Engine, EdgeResult, current_sample_frame, engine_start, engine_stop, wrap_timer_fired,
}
use lat_sofaudio.Kext.Engine.Convert.{DcState, dc_seed_pending}

module _ (fl : Floats) where
  -- The driver, the engine's clock and its filters.
  pub record Session : Type 0 where
    pub device : Kext
    pub engine : Engine
    pub dc : DcState fl

  pub record Started : Type 0 where
    pub status : IoReturn
    pub session : Session

  abbrev pub at_rest : DcBlock fl
  at_rest = record { x1 = fl.literal32 "0.0f"; y1 = fl.literal32 "0.0f" }

  -- The filters at a start, before the first request.
  unfoldable pub fresh_dc : DcState fl
  fresh_dc = record { filters = record { l = at_rest; r = at_rest }; next_frame = dc_seed_pending }

  -- performAudioEngineStart(), by the clock, the position register and the edge read, where the
  -- driver has started the capture.
  unfoldable pub perform_audio_engine_start : Dsp → ℕ → ℕ → EdgeResult → Session → Started
  perform_audio_engine_start dsp now dpib edge s =
      let d = engine_start_capture dsp s.device in
      if is_success d.status
      then record {
        status = d.status;
        session = record {
          device = d.device;
          engine = engine_start now (get_capture_position dpib d.device) edge s.engine;
          dc = fresh_dc;
        };
      }
      else record { status = d.status; session = record s { device = d.device } }

  -- performAudioEngineStop()
  unfoldable pub perform_audio_engine_stop : Dsp → Session → Session
  perform_audio_engine_stop dsp s = record s {
    engine = engine_stop s.engine;
    device = engine_stop_capture dsp s.device;
  }

  -- resumeAudioEngine(), after the family's own part
  unfoldable pub resume_audio_engine : Session → Session
  resume_audio_engine s = record s { device = engine_request_resume s.device }

  -- readPosition()
  unfoldable pub read_position : ℕ → Kext → Option ℕ
  read_position dpib k =
      if capture_position_valid k
      then some (current_sample_frame (get_capture_position dpib k))
      else none

  -- The wrap timer
  unfoldable pub timer_fires : ℕ → ℕ → EdgeResult → Session → Session
  timer_fires now dpib edge s = record s {
    engine =
        wrap_timer_fired (record { now = now; position = read_position dpib s.device; edge = edge })
          s.engine;
  }
