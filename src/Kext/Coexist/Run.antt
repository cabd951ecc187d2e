-- ===== src/Kext/Coexist/Run.antt =====
-- What the driver of kext/LatSOFAudio does between two of AppleHDA's writes leaves PPCTL, INTCTL,
-- SPIBCTL and the output descriptor as they were, but for the capture stream's bits.
use lat_sofaudio.Prelude.{
  ◌+◌, ◌≡◌, refl, Bool, true, false, not, ◌&&◌, ◌||◌, List, [], ◌∷◌, if◌then◌else◌, branch, leb,
  ltb, arith,
}
use lat_sofaudio.Kext.Types.{is_success, Dsp}
use lat_sofaudio.Kext.State.{Kext, Done}
use lat_sofaudio.Kext.Power.{
  Wake, Message, will_sleep, will_power_on, has_powered_on, will_not_sleep, clamshell_change,
  other_message, wake_gated, schedule_rebuild, power_interest_handler,
}
use lat_sofaudio.Kext.Resume.{
  AudioPower, Family, execute_resume, attempt_resume, count_resume, may_resume,
}
use lat_sofaudio.Kext.Driver.{
  start_capture, stop_capture, engine_start_capture, engine_stop_capture, engine_request_resume,
  kernel_audio_tearing_down, jack_poll, Event, client_starts, client_stops, engine_starts,
  engine_stops, engine_resumes, audio_ends, ticks, sleeps, wakes, messages, apple_hda, handle, run,
}
use lat_sofaudio.Kext.Safety.{IsSafe}
use lat_sofaudio.Kext.Safety.Run.{handle-IsSafe}
use lat_sofaudio.Kext.Safety.Poll.{retry-IsSafe, stops_stream}
use lat_sofaudio.Kext.Coexist.{start_capture_gated-IsOwn, stop_capture_gated-IsOwn}
use lat_sofaudio.Kext.Coexist.Events.{
  IsLeft, own, IsLeft-trans, same, retry-IsLeft, engine_start_gated-IsLeft,
  complete_deferred_resume-IsLeft,
}

-- What the driver itself does: neither AppleHDA's writes nor a loss of power.
unfoldable pub is_driver_event : Event → Bool
is_driver_event (sleeps int pp spib ctl) = false
is_driver_event (apple_hda int pp spib out) = false
is_driver_event _ = true

unfoldable pub all_driver_events : List Event → Bool
all_driver_events [] = true
all_driver_events (e ∷ es) = is_driver_event e && all_driver_events es

-- A gated action.
gated : (b : Bool) (x k : Kext) → IsLeft x k → IsLeft (if b then x else k) k
gated true x k l = l
gated false x k l = same k k refl refl refl refl

capture_index : (k : Kext) → IsSafe k → k.is_capturing ≡ true → k.cap_idx ≡ 6
capture_index k h c = h.index (ground arith)

powered : (e : Event) → is_driver_event e ≡ true → stops_stream e ≡ true
unfolding is_driver_event stops_stream
powered (sleeps int pp spib ctl) d = ground arith
powered client_starts d = refl
powered client_stops d = refl
powered engine_starts d = refl
powered engine_stops d = refl
powered engine_resumes d = refl
powered audio_ends d = refl
powered (ticks t) d = refl
powered (wakes w) d = refl
powered (messages m) d = refl
powered (apple_hda int pp spib out) d = refl

finish-IsLeft :
    (d : Done) (k : Kext)
    → IsLeft d.device k
    → IsLeft
        (if is_success d.status
          then record d.device { resume_pending = false }
          else count_resume d.device)
        k
unfolding count_resume
finish-IsLeft d k l =
    branch (λ (k' : Kext). IsLeft k' k) (is_success d.status)
      (λ _. IsLeft-trans (same _ d.device refl refl refl refl) l)
      (λ _.
        branch (λ (k' : Kext). IsLeft k' k)
          (leb 3 (d.device.resume_tries + 1) || ltb 3 d.device.recovery_episodes)
          (λ _. IsLeft-trans (same _ d.device refl refl refl refl) l)
          (λ _. IsLeft-trans (same _ d.device refl refl refl refl) l))

execute_resume-IsLeft :
    (p : AudioPower) (f : Family) (dsp : Dsp) (k : Kext)
    → (k.hw_ready ≡ true → k.cap_idx ≡ 6)
    → IsLeft (execute_resume p f dsp k) k
unfolding execute_resume attempt_resume
execute_resume-IsLeft p f dsp k i =
    branch (λ (k' : Kext). IsLeft k' k) (may_resume p k)
      (λ _.
        branch (λ (k' : Kext). IsLeft k' k) k.engine
          (λ _. finish-IsLeft _ k (complete_deferred_resume-IsLeft f dsp k i))
          (λ _. same _ k refl refl refl refl))
      (λ _. same k k refl refl refl refl)

wake_gated-IsLeft : (w : Wake) (k : Kext) → IsLeft (wake_gated w k) k
unfolding wake_gated schedule_rebuild
wake_gated-IsLeft w k =
    branch (λ (k' : Kext). IsLeft k' k) (not k.hw_ready && k.pci_device && k.slept_once)
      (λ _.
        branch (λ (k' : Kext). IsLeft k' k) w.remaps (λ _. same _ k refl refl refl refl)
          (λ _. same _ k refl refl refl refl))
      (λ _. same _ k refl refl refl refl)

message-IsLeft : (m : Message) (k : Kext) → IsLeft (power_interest_handler m k) k
unfolding power_interest_handler
message-IsLeft other_message k = same k k refl refl refl refl
message-IsLeft will_sleep k = gated k.command_gate _ k (same _ k refl refl refl refl)
message-IsLeft will_power_on k = gated k.command_gate _ k (same _ k refl refl refl refl)
message-IsLeft has_powered_on k = gated k.command_gate _ k (same _ k refl refl refl refl)
message-IsLeft will_not_sleep k = gated k.command_gate _ k (same _ k refl refl refl refl)
message-IsLeft (clamshell_change c) k =
    gated (k.command_gate && k.flags_buf) _ k (same _ k refl refl refl refl)

handle-IsLeft :
    (dsp : Dsp) (e : Event) (k : Kext)
    → IsSafe k
    → is_driver_event e ≡ true
    → IsLeft (handle dsp e k) k
unfolding handle start_capture stop_capture engine_start_capture engine_stop_capture
    engine_request_resume kernel_audio_tearing_down jack_poll is_driver_event
handle-IsLeft dsp client_starts k h d =
    branch (λ (d : Done). IsLeft d.device k) k.command_gate
      (λ _. own (start_capture_gated-IsOwn dsp k h.index)) (λ _. same k k refl refl refl refl)
handle-IsLeft dsp client_stops k h d =
    branch (λ (d : Done). IsLeft d.device k) k.command_gate
      (λ _. own (stop_capture_gated-IsOwn dsp k (capture_index k h)))
      (λ _. same k k refl refl refl refl)
handle-IsLeft dsp engine_starts k h d =
    branch (λ (d : Done). IsLeft d.device k) k.command_gate
      (λ _. engine_start_gated-IsLeft dsp k h.index) (λ _. same k k refl refl refl refl)
handle-IsLeft dsp engine_stops k h d =
    gated k.command_gate _ k (own (stop_capture_gated-IsOwn dsp k (capture_index k h)))
handle-IsLeft dsp engine_resumes k h d = gated k.command_gate _ k (same _ k refl refl refl refl)
handle-IsLeft dsp audio_ends k h d = same _ k refl refl refl refl
handle-IsLeft dsp (ticks t) k h d =
    IsLeft-trans
      (execute_resume-IsLeft t.power t.family dsp _ (retry-IsSafe t.bar0 t.attempt dsp k h).index)
      (retry-IsLeft t.bar0 t.attempt dsp k)
handle-IsLeft dsp (wakes w) k h d = wake_gated-IsLeft w k
handle-IsLeft dsp (messages m) k h d = message-IsLeft m k
handle-IsLeft dsp (sleeps int pp spib ctl) k h d = ground arith
handle-IsLeft dsp (apple_hda int pp spib out) k h d = ground arith

-- Whatever requests, ticks, wakes and messages come without a sleep of the hardware and without a
-- write by AppleHDA, whatever the DSP answers: from a safe device, PPCTL, INTCTL and SPIBCTL are left
-- as they were but for the capture stream's bits (bit 6), and so are the output descriptor's registers
-- and its CTL below SDSTS, firmware loads included. The writes that initDSP makes to EM2, CGCTL,
-- WAKESTS and SD1's status are no part of this.
pub run-IsLeft :
    (dsp : Dsp) (es : List Event) (k : Kext)
    → IsSafe k
    → all_driver_events es ≡ true
    → IsLeft (run dsp es k) k
unfolding run all_driver_events
run-IsLeft dsp [] k h d = same k k refl refl refl refl
run-IsLeft dsp (e ∷ es) k h d =
    IsLeft-trans
      (run-IsLeft dsp es (handle dsp e k) (handle-IsSafe dsp e k h (powered e (ground arith)))
        (ground arith))
      (handle-IsLeft dsp e k h (ground arith))
