-- ===== src/Kext/Safety.antt =====
-- The safety of the capture stream in kext/LatSOFAudio/LatSOFAudioDevice.cpp: an invariant of the
-- device. Its children show that every operation keeps it.
pub mod Sessions
pub mod Poll
pub mod Run
use lat_sofaudio.Prelude.{ℕ, ◌≡◌, Bool, true, false, not, ◌&&◌, ◌||◌, List, [], ◌∷◌}
use lat_sofaudio.Kext.Types.{DspCommand, load_firmware, pcm_params, trig_start, trig_stop, pcm_free}
use lat_sofaudio.Kext.State.{Kext}

-- Whether the last thing sent is a given step of a capture session.
unfoldable pub after_params : List DspCommand → Bool
after_params (pcm_params ∷ s) = true
after_params _ = false

unfoldable pub after_start : List DspCommand → Bool
after_start (trig_start ∷ s) = true
after_start _ = false

unfoldable pub after_stop : List DspCommand → Bool
after_stop (trig_stop ∷ s) = true
after_stop _ = false

-- The order the firmware asks for: a session starts once its parameters are set, it stops once it is
-- started, and it is freed once, after its stop.
unfoldable pub is_ordered : List DspCommand → Bool
unfolding after_params after_start after_stop
is_ordered [] = true
is_ordered (load_firmware ∷ s) = is_ordered s
is_ordered (pcm_params ∷ s) = is_ordered s
is_ordered (trig_start ∷ s) = after_params s && is_ordered s
is_ordered (trig_stop ∷ s) = after_start s && is_ordered s
is_ordered (pcm_free ∷ s) = after_stop s && is_ordered s

-- The stream's DMA runs exactly while `isCapturing` says so, then into buffers that exist and on
-- hardware that is ready, without interrupts; outside a session its PPCTL bit is clear; and the DSP
-- was told what it expects.
pub record IsSafe (k : Kext) : Type 0 where
  pub runs : k.cap_ctl 1 ≡ k.is_capturing
  pub silent : k.is_capturing && (k.cap_ctl 2 || k.cap_ctl 3 || k.cap_ctl 4) ≡ false
  pub coupled : k.ppctl 6 && not (k.is_capturing && k.pp_cap) ≡ false
  pub ready : k.is_capturing && not k.hw_ready ≡ false
  pub index : k.hw_ready ≡ true → k.cap_idx ≡ 6
  pub mapped : k.hw_ready && not (k.pci_device && k.hda_base && k.dsp_base) ≡ false
  pub buffers : k.is_capturing && not (k.cap_dma_buf && k.cap_bdl_buf) ≡ false
  pub ordered : is_ordered k.sent ≡ true
  pub started : k.is_capturing && not (after_start k.sent) ≡ false
  pub idle : k.is_playing ≡ false
