-- ===== src/Kext/State.antt =====
-- The device object and the file-scope latches of kext/LatSOFAudio/LatSOFAudioDevice.cpp, with the
-- registers that the driver shares with AppleHDA.
use lat_sofaudio.Prelude.{ℕ, Bool, true, false, List, []}
use lat_sofaudio.Kext.Types.{IoReturn, Bits, OtherWrite, DspCommand}

-- AppleHDA's first output descriptor SD(numISS), which the firmware loader borrows, with its SPIB
-- value: the bits of `ctl` from 24 on are SDSTS.
pub record Descriptor : Type 0 where
  pub ctl : Bits
  pub cbl : ℕ
  pub lvi : ℕ
  pub fmt : ℕ
  pub bdpl : ℕ
  pub bdpu : ℕ
  pub spib_val : ℕ

pub record Kext : Type 0 where
  -- pointers, by whether they are not null
  pub pci_device : Bool
  pub hda_base : Bool
  pub dsp_base : Bool
  pub cap_dma_buf : Bool
  pub cap_bdl_buf : Bool
  pub command_gate : Bool
  pub kernel_audio : Bool
  -- the kernel audio device's engine
  pub engine : Bool
  -- capability offsets, by whether they are not 0
  pub pp_cap : Bool
  pub spib_cap : Bool
  pub s_idx : ℕ
  pub cap_idx : ℕ
  pub hw_ready : Bool
  pub is_playing : Bool
  pub is_capturing : Bool
  -- flagsBuf, by whether it is not null, and flagsBuf[kLatSOF_FlagOff_ClamshellMuted]
  pub flags_buf : Bool
  pub clamshell_muted : Bool
  -- the file-scope latches
  pub reinit_pending : Bool
  pub tries : ℕ
  pub tick_divider : ℕ
  pub slept_once : Bool
  pub sleep_imminent : Bool
  pub was_capturing : Bool
  pub recovery_episodes : ℕ
  pub programmed_waits : ℕ
  pub strict_borrow : Bool
  pub resume_pending : Bool
  pub resume_tries : ℕ
  pub hot_recovery : Bool
  -- INTCTL, PPCTL, SPIBCTL, and the control byte of the capture stream
  pub intctl : Bits
  pub ppctl : Bits
  pub spib_en : Bits
  pub cap_ctl : Bits
  pub output : Descriptor
  -- initDSP's other writes to shared registers, newest first
  pub other_writes : List OtherWrite
  -- what the DSP was sent, newest first
  pub sent : List DspCommand

-- A call's result, and the device after it.
pub record Done : Type 0 where
  pub status : IoReturn
  pub device : Kext

-- init(): the object before start().
unfoldable pub initial : Bits → Bits → Bits → Bits → Descriptor → Kext
initial int pp spib ctl out = record {
  pci_device = false;
  hda_base = false;
  dsp_base = false;
  cap_dma_buf = false;
  cap_bdl_buf = false;
  command_gate = false;
  kernel_audio = false;
  engine = false;
  pp_cap = false;
  spib_cap = false;
  s_idx = 0;
  cap_idx = 0;
  hw_ready = false;
  is_playing = false;
  is_capturing = false;
  flags_buf = false;
  clamshell_muted = false;
  reinit_pending = false;
  tries = 0;
  tick_divider = 0;
  slept_once = false;
  sleep_imminent = false;
  was_capturing = false;
  recovery_episodes = 0;
  programmed_waits = 0;
  strict_borrow = true;
  resume_pending = false;
  resume_tries = 0;
  hot_recovery = false;
  intctl = int;
  ppctl = pp;
  spib_en = spib;
  cap_ctl = ctl;
  output = out;
  other_writes = [];
  sent = [];
}
