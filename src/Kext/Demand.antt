-- ===== src/Kext/Demand.antt =====
-- The demand latch of kext/LatSOFAudio/LatSOFAudioDevice.cpp: the starts, and the session they leave on or
-- latched.
pub mod Run
use lat_sofaudio.Prelude.{
  ℕ, ◌+◌, ◌≡◌, refl, sym, subst, ◌∙◌, Bool, true, false, not, ◌&&◌, ◌||◌, List, [], ◌∷◌,
  if◌then◌else◌, branch, leb, ltb, arith,
}
use lat_sofaudio.Kext.Types.{Mmio, is_success, pcm_params, Dsp}
use lat_sofaudio.Kext.State.{Kext, Done}
use lat_sofaudio.Kext.Registers.{Sd, quiet, running, programmed, not_decoding, output_sd_busy_state}
use lat_sofaudio.Kext.Capture.{
  send, schedule_dsp_recovery, demand, decouple, couple, program_stream, start_timed_out, run_dma,
  capturing, halt_dma, start_dma, start_capture_gated, engine_start_gated,
}
use lat_sofaudio.Kext.Init.{Attempt, Tried, init_dsp, load, settle, make_ready}
use lat_sofaudio.Kext.Power.{
  Wake, Message, will_sleep, will_power_on, has_powered_on, will_not_sleep, clamshell_change,
  other_message, sleep_gated, shutdown_for_sleep, wake_gated, schedule_rebuild,
  power_interest_handler,
}
use lat_sofaudio.Kext.Resume.{AudioPower, Family, execute_resume, may_resume}
use lat_sofaudio.Kext.Retry.{retry, round, conclude, rearm, give_up, count_wait, attempts}
use lat_sofaudio.Kext.Driver.{
  start_capture, jack_poll, kernel_audio_tearing_down, engine_request_resume, Event, client_starts,
  client_stops, engine_starts, engine_stops, engine_resumes, audio_ends, ticks, sleeps, wakes,
  messages, apple_hda, handle, run,
}
use lat_sofaudio.Kext.Safety.{IsSafe}
use lat_sofaudio.Kext.Safety.Poll.{stops_stream, all_stop}

-- A session is on, or it is latched.
unfoldable pub is_held : Kext → Bool
is_held k = k.was_capturing || k.is_capturing

-- No stop of the session, and no start by the audio engine: neither a call of it, nor one that the
-- audio family makes at a tick that resumes the engine.
unfoldable pub keeps_session : Event → Bool
keeps_session client_stops = false
keeps_session engine_stops = false
keeps_session engine_starts = false
keeps_session (ticks t) = not t.family.performs
keeps_session _ = true

unfoldable pub all_keep : List Event → Bool
all_keep [] = true
all_keep (e ∷ es) = keeps_session e && all_keep es

start_timed_out-held : (k : Kext) → (start_timed_out k).was_capturing ≡ true
unfolding start_timed_out couple schedule_dsp_recovery
start_timed_out-held k = ground arith

pub start_capture_gated-held :
    (dsp : Dsp) (k : Kext) → is_held (start_capture_gated dsp k).device ≡ true
unfolding start_capture_gated start_dma capturing demand is_held
start_capture_gated-held dsp k =
    let a = send pcm_params (program_stream k) in
    let p = start_timed_out-held a in
    let q = start_timed_out-held (halt_dma (run_dma a)) in ground arith

pub record IsHeld (k : Kext) : Type 0 where
  pub held : is_held k ≡ true

start_timed_out-gate : (k : Kext) → (start_timed_out k).command_gate ≡ k.command_gate
unfolding start_timed_out couple schedule_dsp_recovery
start_timed_out-gate k = ground arith

program_stream-gate :
    (k : Kext) → (send pcm_params (program_stream k)).command_gate ≡ k.command_gate
unfolding send program_stream decouple couple
program_stream-gate k = ground arith

start_dma-gate : (dsp : Dsp) (k : Kext) → (start_dma dsp k).device.command_gate ≡ k.command_gate
unfolding start_dma capturing halt_dma run_dma send
start_dma-gate dsp k = let q = start_timed_out-gate (halt_dma (run_dma k)) in ground arith

pub start_capture_gated-gate :
    (dsp : Dsp) (k : Kext) → (start_capture_gated dsp k).device.command_gate ≡ k.command_gate
unfolding start_capture_gated demand
start_capture_gated-gate dsp k =
    let a = send pcm_params (program_stream k) in
    let o = program_stream-gate k in
    let p = start_timed_out-gate a in let q = start_dma-gate dsp a in ground arith

pub start_capture_gated-IsHeld : (dsp : Dsp) (k : Kext) → IsHeld (start_capture_gated dsp k).device
start_capture_gated-IsHeld dsp k = record { held = start_capture_gated-held dsp k }
