-- ===== src/Kext/Lifetime.antt =====
-- The driver's life in kext/LatSOFAudio/LatSOFAudioDevice.cpp, from start() to stop(): what makes the
-- device safe to begin with, and what frees its buffers.
use lat_sofaudio.Prelude.{
  ◌≡◌, refl, ◌∙◌, Bool, true, false, not, ◌||◌, List, ◌∷◌, if◌then◌else◌, branch, arith,
}
use lat_sofaudio.Kext.Types.{Bits, Dsp, trig_stop, pcm_free}
use lat_sofaudio.Kext.State.{Kext, Descriptor, initial}
use lat_sofaudio.Kext.Registers.{output_sd_busy_state}
use lat_sofaudio.Kext.Capture.{
  send, stop_capture_gated, close_pcm, halt_stream, couple, schedule_dsp_recovery,
}
use lat_sofaudio.Kext.Init.{Tried, init_dsp}
use lat_sofaudio.Kext.Power.{sleep_gated, shutdown_for_sleep}
use lat_sofaudio.Kext.Driver.{
  Load, start, stop, attach, publish, init_at_load, fail, defers_init, end_audio, end_streams,
  release_all, engine_stop_capture, kernel_audio_tearing_down, Event, run,
}
use lat_sofaudio.Kext.Safety.{IsSafe, is_ordered, after_start}
use lat_sofaudio.Kext.Safety.Sessions.{stop_capture_gated-IsSafe}
use lat_sofaudio.Kext.Safety.Run.{run-IsSafe}
use lat_sofaudio.Kext.Safety.Poll.{init_dsp-IsSafe, all_stop}

publish-IsSafe : (l : Load) (k : Kext) → IsSafe k → IsSafe (publish l k).device
unfolding publish
publish-IsSafe l k h = ground arith

-- A failed first initialisation leaves hardware that is not ready.
init_at_load-IsSafe :
    (l : Load) (t : Tried)
    → IsSafe t.device
    → (t.ok ≡ false → t.device.hw_ready ≡ false)
    → IsSafe (init_at_load l t).device
unfolding init_at_load fail
init_at_load-IsSafe l t h r =
    branch (λ (u : Tried). IsSafe u.device) t.ok (λ _. publish-IsSafe l t.device h)
      (λ o.
        let u = r o in
        branch (λ (u : Tried). IsSafe u.device) t.device.reinit_pending
          (λ _. publish-IsSafe l _ (ground arith)) (λ _. ground arith))

init_dsp-unready :
    (l : Load) (k : Kext)
    → k.hw_ready ≡ false
    → (init_dsp l.attempt k).ok ≡ false
    → (init_dsp l.attempt k).device.hw_ready ≡ false
unfolding init_dsp
init_dsp-unready l k r o = ground arith

attach-IsSafe : (l : Load) (k : Kext) → IsSafe k → k.hw_ready ≡ false → IsSafe (attach l k)
unfolding attach
attach-IsSafe l k h r = ground arith

attach-unready : (l : Load) (k : Kext) → (attach l k).hw_ready ≡ k.hw_ready
unfolding attach
attach-unready l k = refl

attach-present : (l : Load) (k : Kext) → (attach l k).pci_device ≡ true
unfolding attach
attach-present l k = refl

deferred-IsSafe :
    (k : Kext)
    → IsSafe k
    → IsSafe (record k {
      reinit_pending = true;
      tries = 0;
      tick_divider = 0;
      programmed_waits = 0;
      hot_recovery = true;
    })
deferred-IsSafe k h = ground arith

start-IsSafe : (l : Load) (k : Kext) → IsSafe k → k.hw_ready ≡ false → IsSafe (start l k).device
unfolding start fail
start-IsSafe l k h r =
    branch (λ (u : Tried). IsSafe u.device) (not l.finds) (λ _. h)
      (λ _.
        branch (λ (u : Tried). IsSafe u.device) (not l.maps) (λ _. ground arith)
          (λ _.
            branch (λ (u : Tried). IsSafe u.device) (not l.cap_dma || not l.cap_bdl)
              (λ _. ground arith)
              (λ _.
                branch (λ (u : Tried). IsSafe u.device)
                  (defers_init (output_sd_busy_state l.bar0) l.strict_borrow)
                  (λ _. publish-IsSafe l _ (deferred-IsSafe (attach l k) (attach-IsSafe l k h r)))
                  (λ _.
                    init_at_load-IsSafe l _
                      (init_dsp-IsSafe l.attempt (attach l k) (attach-IsSafe l k h r)
                        (attach-unready l k ∙ r) (attach-present l k))
                      (init_dsp-unready l (attach l k) (attach-unready l k ∙ r))))))

initial-IsSafe :
    (int pp spib ctl : Bits) (out : Descriptor)
    → ctl 1 || pp 6 ≡ false
    → IsSafe (initial int pp spib ctl out)
unfolding initial is_ordered after_start
initial-IsSafe int pp spib ctl out o = ground arith

unready :
    (int pp spib ctl : Bits) (out : Descriptor) → (initial int pp spib ctl out).hw_ready ≡ false
unfolding initial
unready int pp spib ctl out = refl

-- From a driver that start() leaves, whatever it meets, over whatever events up to stop(), on hardware
-- whose D3 stops the stream: the capture stream is safe throughout. Condition: at load the stream
-- does not run, and its PPCTL bit is clear.
pub start-run-IsSafe :
    (dsp : Dsp) (l : Load) (es : List Event) (int pp spib ctl : Bits) (out : Descriptor)
    → ctl 1 || pp 6 ≡ false
    → all_stop es ≡ true
    → IsSafe (run dsp es (start l (initial int pp spib ctl out)).device)
start-run-IsSafe dsp l es int pp spib ctl out o p =
    run-IsSafe dsp es _
      (start-IsSafe l (initial int pp spib ctl out) (initial-IsSafe int pp spib ctl out o)
        (unready int pp spib ctl out))
      p

end_audio-IsSafe : (runs : Bool) (dsp : Dsp) (k : Kext) → IsSafe k → IsSafe (end_audio runs dsp k)
unfolding end_audio engine_stop_capture kernel_audio_tearing_down
end_audio-IsSafe runs dsp k h = branch IsSafe k.kernel_audio (λ _. without (ending runs)) (λ _. h)
  where
    hidden : Kext
    hidden = record k { kernel_audio = false }

    without :
        {k' : Kext} → IsSafe k' → IsSafe (record k' { resume_pending = false; engine = false })
    without i = ground arith

    ending :
        (b : Bool)
        → IsSafe (
            if b
            then (if hidden.command_gate then (stop_capture_gated dsp hidden).device else hidden)
            else hidden)
    ending b =
        branch IsSafe b
          (λ _.
            branch IsSafe hidden.command_gate
              (λ _. stop_capture_gated-IsSafe dsp hidden (ground arith)) (λ _. ground arith))
          (λ _. ground arith)

stop_capture_gated-halts :
    (dsp : Dsp) (k : Kext) → (stop_capture_gated dsp k).device.is_capturing ≡ false
unfolding stop_capture_gated
stop_capture_gated-halts dsp k = ground arith

-- A stop tells the firmware to stop and free a capture that is on, and nothing otherwise.
stop_capture_gated-sent :
    (dsp : Dsp) (k : Kext)
    → (stop_capture_gated dsp k).device.sent
      ≡ (if k.is_capturing then pcm_free ∷ trig_stop ∷ k.sent else k.sent)
unfolding stop_capture_gated close_pcm halt_stream couple schedule_dsp_recovery send
stop_capture_gated-sent dsp k = ground arith

-- The capture's state and what was sent, through the end of the audio device and of the streams.
end_streams-sent :
    (dsp : Dsp) (k : Kext)
    → (end_streams dsp k).sent ≡ (if k.is_capturing then pcm_free ∷ trig_stop ∷ k.sent else k.sent)
unfolding end_streams
end_streams-sent dsp k = ground (arith, stop_capture_gated-sent dsp k)

end_audio-sent :
    (runs : Bool) (dsp : Dsp) (k : Kext)
    → let k' = end_audio runs dsp k in
      (if k'.is_capturing then pcm_free ∷ trig_stop ∷ k'.sent else k'.sent)
      ≡ (if k.is_capturing then pcm_free ∷ trig_stop ∷ k.sent else k.sent)
unfolding end_audio engine_stop_capture kernel_audio_tearing_down
end_audio-sent runs dsp k =
    let hidden : Kext = record k { kernel_audio = false } in
    ground (arith, stop_capture_gated-sent dsp hidden, stop_capture_gated-halts dsp hidden)

-- Before stop() frees the buffers, the DMA is off.
end_streams-halts :
    (dsp : Dsp) (k : Kext)
    → IsSafe k
    → let k' = end_streams dsp k in IsSafe k' × (k'.is_capturing ≡ false)
unfolding end_streams
end_streams-halts dsp k h =
    branch (λ (k' : Kext). IsSafe k' × (k'.is_capturing ≡ false)) (k.command_gate || k.is_capturing)
      (λ _. (stop_capture_gated-IsSafe dsp k h, stop_capture_gated-halts dsp k))
      (λ n. (h, ground arith))

-- stop() of a safe device, whether its audio engine runs or not, whatever the DSP answers: the
-- stream's DMA is off and its PPCTL bit clear when the buffers are freed, and the firmware has been
-- sent TRIG_STOP and then PCM_FREE, each once, if a capture was on, and nothing otherwise.
pub stop-halts :
    (runs : Bool) (dsp : Dsp) (k : Kext)
    → IsSafe k
    → let k' = stop runs dsp k in
      (k'.cap_ctl 1 ≡ false)
      × (k'.ppctl 6 ≡ false)
      × (is_ordered k'.sent ≡ true)
      × (k'.sent ≡ (if k.is_capturing then pcm_free ∷ trig_stop ∷ k.sent else k.sent))
      × (k'.hw_ready || k'.is_capturing || k'.cap_dma_buf || k'.cap_bdl_buf ≡ false)
unfolding stop release_all sleep_gated shutdown_for_sleep
stop-halts runs dsp k h =
    let (s, c) = end_streams-halts dsp (end_audio runs dsp k) (end_audio-IsSafe runs dsp k h) in
    let sent = end_streams-sent dsp (end_audio runs dsp k) ∙ end_audio-sent runs dsp k in
    (ground arith, ground arith, ground arith, sent, ground arith)
