-- ===== src/Kext/Types.antt =====
-- Types of kext/LatSOFAudio/LatSOFAudioDevice.cpp: results, registers as bits, memory-mapped reads,
-- and what the driver tells the DSP.
use lat_sofaudio.Prelude.{ℕ, Bool, true, false, List, if◌then◌else◌, ◌==◌}

pub data IoReturn : Type 0 where
  success not_ready timeout unsupported bad_argument busy : IoReturn

unfoldable pub is_success : IoReturn → Bool
is_success success = true
is_success not_ready = false
is_success timeout = false
is_success unsupported = false
is_success bad_argument = false
is_success busy = false

-- A register that AppleHDA shares, by the number of the bit.
abbrev pub Bits : Type 0
Bits = ℕ → Bool

unfoldable pub no_bits : Bits
no_bits j = false

-- `r | (1U << i)` and `r & ~(1U << i)`
unfoldable pub set_bit : ℕ → Bits → Bits
set_bit i r j = if j == i then true else r j

unfoldable pub clear_bit : ℕ → Bits → Bits
clear_bit i r j = if j == i then false else r j

-- What rd8, rd16 and rd32 read at an offset of BAR0, at one moment.
pub record Mmio : Type 0 where
  pub rd8 : ℕ → ℕ
  pub rd16 : ℕ → ℕ
  pub rd32 : ℕ → ℕ

-- What is sent to the DSP: the firmware, and the IPCs for the capture pipeline's host component.
pub data DspCommand : Type 0 where
  load_firmware pcm_params trig_start trig_stop pcm_free : DspCommand

-- What initDSP writes to registers that AppleHDA shares besides those that the device has as bits: bit
-- 14 of EM2, bit 6 of CGCTL, 0xFFFF at WAKESTS as 32 bits, and the status of SD1.
pub data OtherWrite : Type 0 where
  em2_set cgctl_cleared wakests_cleared sd1_cleared cgctl_set : OtherWrite

-- Whether the DSP sets DONE within poll32's 500 ms, by what it was sent so far, newest first.
abbrev pub Dsp : Type 0
Dsp = List DspCommand → Bool
