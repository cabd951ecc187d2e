-- ===== src/Kext/Safety/Sessions.antt =====
-- The capture operations of kext/LatSOFAudio/LatSOFAudioDevice.cpp keep the stream safe.
use lat_sofaudio.Prelude.{◌≡◌, refl, true, false, not, ◌&&◌, ◌||◌, if◌then◌else◌, branch, arith}
use lat_sofaudio.Kext.Types.{timeout, set_bit, clear_bit, no_bits, pcm_params, Dsp}
use lat_sofaudio.Kext.State.{Kext, Done}
use lat_sofaudio.Kext.Capture.{
  send, schedule_dsp_recovery, demand, mask_irqs, decouple, couple, program_stream, start_timed_out,
  run_dma, capturing, halt_dma, start_dma, done, start_capture_gated, halt_stream, close_pcm,
  stop_capture_gated,
}
use lat_sofaudio.Kext.Safety.{IsSafe, after_params, after_start, after_stop, is_ordered}

pub stop_capture_gated-IsSafe :
    (dsp : Dsp) (k : Kext) → IsSafe k → IsSafe (stop_capture_gated dsp k).device
unfolding stop_capture_gated close_pcm halt_stream couple schedule_dsp_recovery send mask_irqs
    set_bit clear_bit is_ordered after_params after_start after_stop
stop_capture_gated-IsSafe dsp k h = ground arith

-- Between the PCM_PARAMS IPC and the DMA's start.
record IsArmed (k : Kext) : Type 0 where
  stopped : k.cap_ctl 1 ≡ false
  masked : k.cap_ctl 2 || k.cap_ctl 3 || k.cap_ctl 4 ≡ false
  coupled : k.ppctl 6 && not k.pp_cap ≡ false
  fresh : k.is_capturing ≡ false
  ready : k.hw_ready ≡ true
  index : k.cap_idx ≡ 6
  mapped : k.pci_device && k.hda_base && k.dsp_base ≡ true
  buffers : k.cap_dma_buf && k.cap_bdl_buf ≡ true
  ordered : is_ordered k.sent ≡ true
  idle : k.is_playing ≡ false

start_timed_out-IsSafe : (k : Kext) → IsArmed k → IsSafe (start_timed_out k)
unfolding start_timed_out couple schedule_dsp_recovery clear_bit
start_timed_out-IsSafe k h = ground arith

params-IsArmed :
    (k : Kext)
    → IsSafe k
    → k.hw_ready && k.cap_dma_buf && k.cap_bdl_buf ≡ true
    → k.is_capturing ≡ false
    → IsArmed (send pcm_params (program_stream k))
unfolding program_stream decouple couple send mask_irqs set_bit clear_bit no_bits is_ordered
params-IsArmed k h r c = ground arith

halt_dma-IsArmed :
    (k : Kext) → IsArmed k → after_params k.sent ≡ true → IsArmed (halt_dma (run_dma k))
unfolding halt_dma run_dma send mask_irqs set_bit clear_bit is_ordered after_params
halt_dma-IsArmed k h p = ground arith

capturing-IsSafe :
    (k : Kext) → IsArmed k → after_params k.sent ≡ true → IsSafe (capturing (run_dma k))
unfolding capturing run_dma send mask_irqs set_bit clear_bit is_ordered after_params after_start
capturing-IsSafe k h p = ground arith

start_dma-IsSafe :
    (dsp : Dsp) (k : Kext)
    → IsArmed k
    → after_params k.sent ≡ true
    → IsSafe (start_dma dsp k).device
unfolding start_dma
start_dma-IsSafe dsp k h p =
    branch (λ (d : Done). IsSafe d.device) (dsp (run_dma k).sent) (λ _. capturing-IsSafe k h p)
      (λ _. start_timed_out-IsSafe _ (halt_dma-IsArmed k h p))

demand-IsSafe : (k : Kext) → IsSafe k → IsSafe (demand k)
unfolding demand
demand-IsSafe k h = ground arith

sent_params : (k : Kext) → after_params (send pcm_params (program_stream k)).sent ≡ true
unfolding send after_params
sent_params k = refl

start_params-IsSafe :
    (dsp : Dsp) (k : Kext)
    → IsArmed k
    → after_params k.sent ≡ true
    → IsSafe (if dsp k.sent then start_dma dsp k else done timeout (start_timed_out k)).device
start_params-IsSafe dsp k a p =
    branch (λ (d : Done). IsSafe d.device) (dsp k.sent) (λ _. start_dma-IsSafe dsp k a p)
      (λ _. start_timed_out-IsSafe k a)

-- What the driver keeps safe stays so under a start, whichever IPC times out.
pub start_capture_gated-IsSafe :
    (dsp : Dsp) (k : Kext) → IsSafe k → IsSafe (start_capture_gated dsp k).device
unfolding start_capture_gated
start_capture_gated-IsSafe dsp k h =
    branch (λ (d : Done). IsSafe d.device) (k.hw_ready && k.cap_dma_buf && k.cap_bdl_buf)
      (λ r.
        branch (λ (d : Done). IsSafe d.device) k.is_capturing (λ _. h)
          (λ c. start_params-IsSafe dsp _ (params-IsArmed k h r c) (sent_params k)))
      (λ _. demand-IsSafe k h)
