-- ===== src/Kext/Safety/Run.antt =====
-- Whatever happens to the driver, in whatever order, the capture stream stays safe.
use lat_sofaudio.Prelude.{◌≡◌, true, not, ◌&&◌, List, [], ◌∷◌, branch, arith}
use lat_sofaudio.Kext.Types.{Bits, Dsp}
use lat_sofaudio.Kext.State.{Kext, Done}
use lat_sofaudio.Kext.Power.{
  Wake, Message, will_sleep, will_power_on, has_powered_on, will_not_sleep, clamshell_change,
  other_message, sleep_gated, wake_gated, shutdown_for_sleep, schedule_rebuild,
  power_interest_handler,
}
use lat_sofaudio.Kext.Driver.{
  start_capture, stop_capture, engine_start_capture, engine_stop_capture, engine_request_resume,
  kernel_audio_tearing_down, jack_poll, Event, client_starts, client_stops, engine_starts,
  engine_stops, engine_resumes, audio_ends, ticks, sleeps, wakes, messages, apple_hda, keep_own,
  handle, run,
}
use lat_sofaudio.Kext.Safety.{IsSafe}
use lat_sofaudio.Kext.Safety.Sessions.{start_capture_gated-IsSafe, stop_capture_gated-IsSafe}
use lat_sofaudio.Kext.Safety.Poll.{
  stops_stream, all_stop, retry-IsSafe, engine_start_gated-IsSafe, execute_resume-IsSafe,
}

sleep_gated-IsSafe :
    (int pp spib ctl : Bits) (k : Kext)
    → IsSafe k
    → not (ctl 1) && not (pp 6) ≡ true
    → IsSafe (record (sleep_gated k) { intctl = int; ppctl = pp; spib_en = spib; cap_ctl = ctl })
unfolding sleep_gated shutdown_for_sleep
sleep_gated-IsSafe int pp spib ctl k h o = ground arith

wake_gated-IsSafe : (w : Wake) (k : Kext) → IsSafe k → IsSafe (wake_gated w k)
unfolding wake_gated schedule_rebuild
wake_gated-IsSafe w k h = ground arith

message-IsSafe : (m : Message) (k : Kext) → IsSafe k → IsSafe (power_interest_handler m k)
unfolding power_interest_handler
message-IsSafe (clamshell_change c) k h = ground arith
message-IsSafe will_sleep k h = ground arith
message-IsSafe other_message k h = h
message-IsSafe will_power_on k h = ground arith
message-IsSafe has_powered_on k h = ground arith
message-IsSafe will_not_sleep k h = ground arith

-- One event keeps the stream safe.
pub handle-IsSafe :
    (dsp : Dsp) (e : Event) (k : Kext) → IsSafe k → stops_stream e ≡ true → IsSafe (handle dsp e k)
unfolding handle start_capture stop_capture engine_start_capture engine_stop_capture
    engine_request_resume kernel_audio_tearing_down jack_poll keep_own stops_stream
handle-IsSafe dsp client_starts k h o =
    branch (λ (d : Done). IsSafe d.device) k.command_gate (λ _. start_capture_gated-IsSafe dsp k h)
      (λ _. h)
handle-IsSafe dsp client_stops k h o =
    branch (λ (d : Done). IsSafe d.device) k.command_gate (λ _. stop_capture_gated-IsSafe dsp k h)
      (λ _. h)
handle-IsSafe dsp engine_starts k h o =
    branch (λ (d : Done). IsSafe d.device) k.command_gate (λ _. engine_start_gated-IsSafe dsp k h)
      (λ _. h)
handle-IsSafe dsp engine_stops k h o =
    branch IsSafe k.command_gate (λ _. stop_capture_gated-IsSafe dsp k h) (λ _. h)
handle-IsSafe dsp engine_resumes k h o = ground arith
handle-IsSafe dsp audio_ends k h o = ground arith
handle-IsSafe dsp (ticks t) k h o =
    execute_resume-IsSafe t.power t.family dsp _ (retry-IsSafe t.bar0 t.attempt dsp k h)
handle-IsSafe dsp (sleeps int pp spib ctl) k h o = sleep_gated-IsSafe int pp spib ctl k h o
handle-IsSafe dsp (wakes w) k h o = wake_gated-IsSafe w k h
handle-IsSafe dsp (messages m) k h o = message-IsSafe m k h
handle-IsSafe dsp (apple_hda int pp spib out) k h o = ground arith

-- Whatever requests, ticks, sleeps, wakes, messages and writes of AppleHDA come, in whatever order,
-- whatever the DSP answers, and given that D3 stops the stream and resets its PPCTL bit: a safe
-- device stays safe. Its DMA runs exactly while a session is on, on ready hardware, into buffers
-- that exist, without interrupts, and the firmware is told to start, stop and free in that order.
pub run-IsSafe :
    (dsp : Dsp) (es : List Event) (k : Kext) → IsSafe k → all_stop es ≡ true → IsSafe (run dsp es k)
unfolding run all_stop
run-IsSafe dsp [] k h o = h
run-IsSafe dsp (e ∷ es) k h o =
    run-IsSafe dsp es (handle dsp e k) (handle-IsSafe dsp e k h (ground arith)) (ground arith)
