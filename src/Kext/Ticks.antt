-- ===== src/Kext/Ticks.antt =====
-- The timer's ticks in kext/LatSOFAudio/LatSOFAudioDevice.cpp over time: how long the retry engine
-- goes on, and that it comes to an attempt.
pub mod GiveUp
pub mod Rounds
pub mod Serve
use lat_sofaudio.Prelude.{
  ℕ, zero, suc, ◌+◌, ◌-◌, ◌*◌, ◌≤◌, ◌≡◌, Bool, true, false, not, ◌&&◌, ◌||◌, List, [], ◌∷◌,
  if◌then◌else◌, leb, min, branch, refl, arith,
}
use lat_sofaudio.Kext.Types.{Dsp}
use lat_sofaudio.Kext.State.{Kext}
use lat_sofaudio.Kext.Registers.{Sd, not_decoding, quiet, running, programmed, output_sd_busy_state}
use lat_sofaudio.Kext.Init.{Attempt}
use lat_sofaudio.Kext.Resume.{AudioPower, Family, execute_resume, may_resume}
use lat_sofaudio.Kext.Driver.{Tick, jack_poll}

-- A list of ticks.
unfoldable pub polls : Dsp → List Tick → Kext → Kext
polls dsp [] k = k
polls dsp (t ∷ ts) k = polls dsp ts (jack_poll t dsp k)

-- The device is one the retry engine works on.
unfoldable pub is_waiting : Kext → Bool
is_waiting k = k.reinit_pending && not k.hw_ready && k.pci_device && k.hda_base && k.dsp_base

-- AppleHDA's output answers and does not run.
unfoldable pub leaves_room : Sd → Bool
leaves_room quiet = true
leaves_room programmed = true
leaves_room running = false
leaves_room not_decoding = false

-- Everything an attempt needs but the output descriptor's state.
unfoldable pub can_succeed : Attempt → Bool
can_succeed a =
    a.decoding
    && a.payload_ok
    && a.core_power
    && a.fw_alloc
    && a.bdl_alloc
    && a.rom_done
    && a.init_done
    && a.fw_entered
    && a.fw_ready
    && leb 1 a.ipc_ok

-- Without the hardware the executor of the engine's resume does nothing.
pub execute_resume-unready :
    (p : AudioPower) (f : Family) (dsp : Dsp) (k : Kext)
    → k.hw_ready ≡ false
    → execute_resume p f dsp k ≡ k
unfolding execute_resume may_resume
execute_resume-unready p f dsp k h =
    branch (λ (k' : Kext). k' ≡ k) (may_resume p k) (λ m. ground arith) (λ _. refl)

-- The ticks that are left at most until the engine gives up: 21 rounds of three ticks per attempt,
-- less what was waited.
unfoldable pub ticks_left : Kext → ℕ
ticks_left k = 3 * ((12 - k.tries) * 21 - min k.programmed_waits 20) - k.tick_divider
