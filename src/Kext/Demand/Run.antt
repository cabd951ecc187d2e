-- ===== src/Kext/Demand/Run.antt =====
-- The demand latch of kext/LatSOFAudio/LatSOFAudioDevice.cpp: a client's session is not forgotten,
-- whatever sleeps, rebuilds and timeouts come between, and the engine's refusals leave no demand.
use lat_sofaudio.Prelude.{◌+◌, ◌≡◌, true, false, not, ◌&&◌, List, [], ◌∷◌, branch, leb, arith}
use lat_sofaudio.Kext.Types.{Mmio, is_success, Dsp}
use lat_sofaudio.Kext.State.{Kext, Done}
use lat_sofaudio.Kext.Registers.{Sd, quiet, running, programmed, not_decoding, output_sd_busy_state}
use lat_sofaudio.Kext.Capture.{send, capturing, start_dma, start_capture_gated}
use lat_sofaudio.Kext.Init.{Attempt, Tried, init_dsp, load, settle, make_ready}
use lat_sofaudio.Kext.Power.{
  Message, will_sleep, will_power_on, has_powered_on, will_not_sleep, clamshell_change,
  other_message, sleep_gated, shutdown_for_sleep, wake_gated, schedule_rebuild,
  power_interest_handler,
}
use lat_sofaudio.Kext.Resume.{
  AudioPower, Family, execute_resume, attempt_resume, complete_deferred_resume, start_audio_engine,
  count_resume,
}
use lat_sofaudio.Kext.Retry.{retry, round, conclude, rearm, give_up, count_wait, attempts}
use lat_sofaudio.Kext.Driver.{
  start_capture, jack_poll, kernel_audio_tearing_down, engine_request_resume, Event, client_starts,
  client_stops, engine_starts, engine_stops, engine_resumes, audio_ends, ticks, sleeps, wakes,
  messages, apple_hda, handle, run,
}
use lat_sofaudio.Kext.Safety.{IsSafe}
use lat_sofaudio.Kext.Safety.Run.{handle-IsSafe}
use lat_sofaudio.Kext.Safety.Poll.{all_stop}
use lat_sofaudio.Kext.Demand.{is_held, keeps_session, all_keep, start_capture_gated-IsHeld, IsHeld}

-- A latched demand through one attempt.
record IsLatched (k : Kext) : Type 0 where
  latched : k.was_capturing ≡ true

init_dsp-IsLatched : (a : Attempt) (k : Kext) → IsLatched k → IsLatched (init_dsp a k).device
unfolding init_dsp load settle make_ready send
init_dsp-IsLatched a k h = ground arith

success-captures :
    (dsp : Dsp) (k : Kext)
    → is_success (start_capture_gated dsp k).status ≡ true
    → (start_capture_gated dsp k).device.is_capturing ≡ true
unfolding start_capture_gated start_dma capturing is_success
success-captures dsp k s = ground arith

rearm-IsHeld : (dsp : Dsp) (k : Kext) → IsLatched k → IsHeld (rearm dsp k)
unfolding rearm is_held
rearm-IsHeld dsp k h =
    let s = start_capture_gated-IsHeld dsp k in
    let c = success-captures dsp k in
    branch IsHeld k.was_capturing
      (λ _.
        branch IsHeld (is_success (start_capture_gated dsp k).status)
          (λ f. let d = c f in ground arith) (λ _. s))
      (λ n. ground arith)

conclude-IsHeld : (dsp : Dsp) (t : Tried) → IsLatched t.device → IsHeld (conclude dsp t)
unfolding conclude give_up is_held
conclude-IsHeld dsp t h =
    branch IsHeld t.ok (λ _. rearm-IsHeld dsp _ (record { latched = h.latched }))
      (λ _. ground arith)

count_wait-IsLatched : (sd : Sd) (k : Kext) → IsLatched k → IsLatched (count_wait sd k)
unfolding count_wait
count_wait-IsLatched quiet k h = ground arith
count_wait-IsLatched programmed k h = ground arith
count_wait-IsLatched running k h = ground arith
count_wait-IsLatched not_decoding k h = ground arith

give_up-IsHeld : (k : Kext) → IsLatched k → IsHeld (give_up k)
unfolding give_up is_held
give_up-IsHeld k h = ground arith

retry-IsHeld :
    (m : Mmio) (a : Attempt) (dsp : Dsp) (k : Kext) → IsSafe k → IsHeld k → IsHeld (retry m a dsp k)
unfolding retry round is_held
retry-IsHeld m a dsp k s h =
    let sd = output_sd_busy_state m in
    let k0 = record k { tick_divider = 0 } in
    let w = count_wait sd k0 in
    branch IsHeld (k.reinit_pending && not k.hw_ready && k.pci_device && k.hda_base && k.dsp_base)
      (λ c.
        let l = count_wait-IsLatched sd k0 (ground arith) in
        branch IsHeld (leb 3 (k.tick_divider + 1))
          (λ _.
            branch IsHeld (attempts sd w)
              (λ _. conclude-IsHeld dsp _ (
                init_dsp-IsLatched a (record w { tries = w.tries + 1 })
                  (record { latched = l.latched })))
              (λ _. give_up-IsHeld w l))
          (λ _. ground arith))
      (λ _. h)

-- A resume that the family answers itself leaves the session.
execute_resume-IsHeld :
    (p : AudioPower) (f : Family) (dsp : Dsp) (k : Kext)
    → f.performs ≡ false
    → IsHeld k
    → IsHeld (execute_resume p f dsp k)
unfolding execute_resume attempt_resume complete_deferred_resume start_audio_engine count_resume
    is_held
execute_resume-IsHeld p f dsp k n h = ground arith

message-IsHeld : (m : Message) (k : Kext) → IsHeld k → IsHeld (power_interest_handler m k)
unfolding power_interest_handler is_held
message-IsHeld (clamshell_change c) k h = ground arith
message-IsHeld will_sleep k h = ground arith
message-IsHeld other_message k h = h
message-IsHeld will_power_on k h = ground arith
message-IsHeld has_powered_on k h = ground arith
message-IsHeld will_not_sleep k h = ground arith

handle-IsHeld :
    (dsp : Dsp) (e : Event) (k : Kext)
    → IsSafe k
    → keeps_session e ≡ true
    → IsHeld k
    → IsHeld (handle dsp e k)
unfolding handle start_capture engine_request_resume kernel_audio_tearing_down jack_poll
    keeps_session is_held sleep_gated shutdown_for_sleep wake_gated schedule_rebuild
handle-IsHeld dsp client_starts k s e h =
    branch (λ (d : Done). IsHeld d.device) k.command_gate (λ _. start_capture_gated-IsHeld dsp k)
      (λ _. h)
handle-IsHeld dsp client_stops k s e h = ground arith
handle-IsHeld dsp engine_starts k s e h = ground arith
handle-IsHeld dsp engine_stops k s e h = ground arith
handle-IsHeld dsp engine_resumes k s e h = ground arith
handle-IsHeld dsp audio_ends k s e h = ground arith
handle-IsHeld dsp (ticks t) k s e h =
    let r = retry-IsHeld t.bar0 t.attempt dsp k s h in
    execute_resume-IsHeld t.power t.family dsp _ (ground arith) r
handle-IsHeld dsp (sleeps int pp spib ctl) k s e h = ground arith
handle-IsHeld dsp (wakes w) k s e h = ground arith
handle-IsHeld dsp (messages m) k s e h = message-IsHeld m k h
handle-IsHeld dsp (apple_hda int pp spib out) k s e h = ground arith

-- From a safe device with a session on or latched, with the kernel audio device or without: whatever
-- requests, ticks, sleeps, wakes, timeouts and refused starts come, given that D3 stops the stream,
-- that nothing stops the session, and that the audio family starts the engine neither by a call nor
-- at a tick, the session is on or latched at the end.
pub run-is_held :
    (dsp : Dsp) (es : List Event) (k : Kext)
    → IsSafe k
    → all_stop es ≡ true
    → all_keep es ≡ true
    → is_held k ≡ true
    → is_held (run dsp es k) ≡ true
unfolding run all_keep all_stop
run-is_held dsp [] k s o e h = h
run-is_held dsp (x ∷ es) k s o e h =
    let n = handle-IsHeld dsp x k s (ground arith) (record { held = h }) in
    run-is_held dsp es (handle dsp x k) (handle-IsSafe dsp x k s (ground arith)) (ground arith)
      (ground arith) n.held
