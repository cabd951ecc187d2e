-- ===== src/Kext/Boot/Cores.antt =====
-- The registers that are the driver's alone, in initDSP(), the capture control and shutdownDSPGated()
-- of kext/LatSOFAudio/LatSOFAudioDevice.cpp: reset, stall and power of the DSP's cores (ADSPCS), and
-- the enables of its interrupt (HIPCCTL, ADSPIC). The bits that the driver writes are kept.
pub mod Masked
use lat_sofaudio.Prelude.{
  ℕ, zero, suc, ◌-◌, ◌/◌, ◌%◌, ◌^◌, Bool, true, false, not, ◌&&◌, ◌||◌, List, [], ◌∷◌,
  if◌then◌else◌, ◌==◌, leb,
}
use lat_sofaudio.Kext.Types.{Bits, no_bits, set_bit}
use lat_sofaudio.Kext.State.{Kext}
use lat_sofaudio.Kext.Registers.{output_sd_busy_state}
use lat_sofaudio.Kext.Init.{Attempt, defers_borrow, init_dsp}

pub record Cores : Type 0 where
  pub adspcs : Bits
  pub hipcctl : Bits
  pub adspic : Bits

-- A mask of cores, shifted: ADSPCS_CRST(cm), ADSPCS_CSTALL(cm) and ADSPCS_SPA(cm).
unfoldable pub shifted : ℕ → ℕ → Bits
shifted base cm j = leb base j && cm / 2 ^ (j - base) % 2 == 1

abbrev pub crst : ℕ → Bits
crst = shifted 0

abbrev pub cstall : ℕ → Bits
cstall = shifted 8

abbrev pub spa : ℕ → Bits
spa = shifted 16

-- `r | m` and `r & ~m`
unfoldable pub with_bits : Bits → Bits → Bits
with_bits m r j = r j || m j

unfoldable pub without_bits : Bits → Bits → Bits
without_bits m r j = r j && not (m j)

-- All cores in reset and stalled, then powered.
unfoldable pub power_up : Cores → Cores
power_up c = record c {
  adspcs = with_bits (spa 15) (with_bits (cstall 15) (with_bits (crst 15) c.adspcs));
}

-- Core 0 runs.
unfoldable pub release_core : Cores → Cores
release_core c = record c { adspcs = without_bits (cstall 1) (without_bits (crst 1) c.adspcs) }

-- The ROM has answered: the other cores go down, and the DSP's interrupt is on for the handshake.
unfoldable pub settle_cores : Cores → Cores
settle_cores c = record {
  adspcs = without_bits (spa 14) (with_bits (cstall 14) (with_bits (crst 14) c.adspcs));
  hipcctl = set_bit 0 (set_bit 1 no_bits);
  adspic = set_bit 0 c.adspic;
}

-- What follows each IPC that is answered.
unfoldable pub acknowledge : Cores → Cores
acknowledge c = record c { hipcctl = set_bit 1 c.hipcctl }

unfoldable pub acknowledge_all : ℕ → Cores → Cores
acknowledge_all zero c = c
acknowledge_all (suc n) c = acknowledge_all n (acknowledge c)

-- What the label `cleanup` does to them.
unfoldable pub mask_interrupt : Cores → Cores
mask_interrupt c = record c { hipcctl = no_bits; adspic = no_bits }

-- From the loan on, with `n` messages of the topology answered.
unfoldable pub load_cores : Attempt → ℕ → Cores → Cores
load_cores a n c =
    let told = acknowledge_all n (settle_cores (release_core c)) in
    mask_interrupt (
      if a.rom_done
      then (if a.init_done && a.fw_entered && a.fw_ready
          then told
          else settle_cores (release_core c))
      else release_core c)

-- initDSP(), on these registers.
unfoldable pub init_dsp_cores : Attempt → ℕ → Kext → Cores → Cores
init_dsp_cores a n k c =
    if k.hda_base && k.dsp_base && a.decoding && a.payload_ok
    then (if a.core_power && a.fw_alloc && a.bdl_alloc
        then (if defers_borrow (output_sd_busy_state a.before_borrow) k
            then mask_interrupt (power_up c)
            else load_cores a n (power_up c))
        else power_up c)
    else c

-- shutdownDSPGated(), behind the stop of the streams
unfoldable pub shutdown_cores : Kext → Cores → Cores
shutdown_cores k c =
    if k.hda_base && k.dsp_base
    then record {
      adspcs = without_bits (spa 15) (with_bits (cstall 15) (with_bits (crst 15) c.adspcs));
      hipcctl = no_bits;
      adspic = no_bits;
    }
    else c

-- The capture's IPCs: PCM_PARAMS; TRIG_START, with one enable before it; and one of TRIG_STOP and
-- PCM_FREE, which are not given up.
unfoldable pub params_ipc : Bool → Cores → Cores
params_ipc answered c = if answered then acknowledge c else c

unfoldable pub trigger_ipc : Bool → Cores → Cores
trigger_ipc answered c = if answered then acknowledge (acknowledge c) else acknowledge c

unfoldable pub stop_ipc : Cores → Cores
stop_ipc c = acknowledge (acknowledge c)

-- What happens to these registers.
pub data Use : Type 0 where
  attempts : Attempt → ℕ → Kext → Use
  sends_params : Bool → Use
  triggers : Bool → Use
  sends_stop : Use
  shuts_down : Kext → Use

unfoldable pub use_cores : Use → Cores → Cores
use_cores (attempts a n k) c = init_dsp_cores a n k c
use_cores (sends_params answered) c = params_ipc answered c
use_cores (triggers answered) c = trigger_ipc answered c
use_cores sends_stop c = stop_ipc c
use_cores (shuts_down k) c = shutdown_cores k c

unfoldable pub use_all : List Use → Cores → Cores
use_all [] c = c
use_all (u ∷ us) c = use_all us (use_cores u c)
