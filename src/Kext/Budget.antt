-- ===== src/Kext/Budget.antt =====
-- The bound on rebuilds in kext/LatSOFAudio/LatSOFAudioDevice.cpp: ticks alone never load the
-- firmware without end, whatever the controller, the firmware and the audio engine do.
mod Spending
pub mod Bound
use lat_sofaudio.Prelude.{
  ℕ, ◌+◌, ◌-◌, ◌*◌, ◌≤◌, ◌≡◌, refl, Bool, true, false, not, ◌&&◌, ◌||◌, ◌==◌, List, [], ◌∷◌,
  if◌then◌else◌, branch, leb, ltb, arith,
}
use lat_sofaudio.Kext.Types.{
  Mmio, is_success, DspCommand, load_firmware, pcm_params, trig_start, trig_stop, pcm_free, Dsp,
}
use lat_sofaudio.Kext.State.{Kext, Done}
use lat_sofaudio.Kext.Registers.{Sd, quiet, running, programmed, not_decoding, output_sd_busy_state}
use lat_sofaudio.Kext.Capture.{
  send, schedule_dsp_recovery, demand, decouple, couple, program_stream, start_timed_out, run_dma,
  capturing, halt_dma, start_dma, start_capture_gated, engine_start_gated,
}
use lat_sofaudio.Kext.Init.{Attempt, Tried, init_dsp, load, settle, make_ready}
use lat_sofaudio.Kext.Resume.{
  AudioPower, Family, execute_resume, attempt_resume, count_resume, complete_deferred_resume,
  start_audio_engine, is_running, may_resume,
}
use lat_sofaudio.Kext.Retry.{retry, round, conclude, rearm, give_up, count_wait, attempts}
use lat_sofaudio.Kext.Driver.{Tick, jack_poll}
use lat_sofaudio.Kext.Ticks.{polls}

unfoldable pub count_loads : List DspCommand → ℕ
count_loads [] = 0
count_loads (load_firmware ∷ s) = count_loads s + 1
count_loads (pcm_params ∷ s) = count_loads s
count_loads (trig_start ∷ s) = count_loads s
count_loads (trig_stop ∷ s) = count_loads s
count_loads (pcm_free ∷ s) = count_loads s

-- The attempts that ticks can still make: those of the rebuild under way, and twelve for each recovery
-- episode that is left; none while the capture runs.
unfoldable pub attempts_left : Kext → ℕ
attempts_left k =
    if k.is_capturing
    then 0
    else (if k.reinit_pending && not k.hw_ready then 12 - k.tries else 0)
      + 12 * (3 - k.recovery_episodes)

-- A device with its buffers, whose rebuild has an attempt left where one is under way.
pub record IsBudgeted (k : Kext) : Type 0 where
  pub buffers : k.cap_dma_buf && k.cap_bdl_buf ≡ true
  pub ready : k.is_capturing && not k.hw_ready ≡ false
  pub tries : k.reinit_pending && not k.hw_ready && leb 12 k.tries ≡ false

-- What is spent, and kept, from one device to the next.
pub record IsSpent (k' k : Kext) : Type 0 where
  pub budget : IsBudgeted k'
  pub spent : count_loads k'.sent + attempts_left k' ≤ count_loads k.sent + attempts_left k

start_timed_out-IsSpent :
    (k : Kext)
    → IsBudgeted k
    → k.hw_ready ≡ true
    → k.is_capturing ≡ false
    → IsSpent (start_timed_out k) k
unfolding start_timed_out couple schedule_dsp_recovery attempts_left
start_timed_out-IsSpent k h r c = ground arith

-- Between the set-up and the DMA.
record IsSetUp (k' k : Kext) : Type 0 where
  buffers : k'.cap_dma_buf && k'.cap_bdl_buf ≡ true
  ready : k'.hw_ready ≡ true
  idle : k'.is_capturing ≡ false
  episodes : k'.recovery_episodes ≡ k.recovery_episodes
  loads : count_loads k'.sent ≡ count_loads k.sent

program_stream-IsSetUp :
    (k : Kext)
    → IsBudgeted k
    → k.hw_ready ≡ true
    → k.is_capturing ≡ false
    → IsSetUp (send pcm_params (program_stream k)) k
unfolding send program_stream decouple couple count_loads
program_stream-IsSetUp k h r c = ground arith

start_dma-IsSpent :
    (dsp : Dsp) (k' k : Kext)
    → IsSetUp k' k
    → k.hw_ready ≡ true
    → k.is_capturing ≡ false
    → IsSpent (start_dma dsp k').device k
unfolding start_dma run_dma halt_dma capturing send count_loads attempts_left
start_dma-IsSpent dsp k' k h r c =
    let q = start_timed_out-IsSpent (halt_dma (run_dma k')) (ground arith) h.ready h.idle in
    ground arith

pub start_capture_gated-IsSpent :
    (dsp : Dsp) (k : Kext)
    → IsBudgeted k
    → k.hw_ready ≡ true
    → IsSpent (start_capture_gated dsp k).device k
unfolding start_capture_gated attempts_left
start_capture_gated-IsSpent dsp k h r =
    branch (λ (d : Done). IsSpent d.device k) (k.hw_ready && k.cap_dma_buf && k.cap_bdl_buf)
      (λ _.
        branch (λ (d : Done). IsSpent d.device k) k.is_capturing (λ _. ground arith)
          (λ c.
            let a = send pcm_params (program_stream k) in
            let u = program_stream-IsSetUp k h r c in
            branch (λ (d : Done). IsSpent d.device k) (dsp a.sent)
              (λ _. start_dma-IsSpent dsp a k u r c)
              (λ _.
                let p = start_timed_out-IsSpent a (ground arith) u.ready u.idle in ground arith)))
      (λ n. ground arith)
