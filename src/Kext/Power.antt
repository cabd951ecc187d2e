-- ===== src/Kext/Power.antt =====
-- Power management in kext/LatSOFAudio/LatSOFAudioDevice.cpp: sleep, wake, and the system-wide
-- messages.
use lat_sofaudio.Prelude.{ℕ, Bool, true, false, not, ◌&&◌, ◌||◌, if◌then◌else◌, ◌==◌}
use lat_sofaudio.Kext.State.{Kext}

-- shutdownForSleepGated(). fastMute() clears the playback ring only.
unfoldable pub shutdown_for_sleep : Kext → Kext
shutdown_for_sleep k = record k {
  was_capturing = k.was_capturing || k.is_capturing;
  hw_ready = false;
  is_playing = false;
  is_capturing = false;
}

-- Whether both BARs map again, and whether the engine needs a deferred resume.
pub record Wake : Type 0 where
  pub remaps : Bool
  pub needs_resume : Bool

-- The wake's budgets, and the engine's latch.
unfoldable pub schedule_rebuild : Wake → Kext → Kext
schedule_rebuild w k = record k {
  hda_base = true;
  dsp_base = true;
  reinit_pending = true;
  tries = 0;
  tick_divider = 0;
  recovery_episodes = 0;
  programmed_waits = 0;
  hot_recovery = false;
  resume_tries = 0;
  resume_pending = k.resume_pending || k.kernel_audio && k.engine && w.needs_resume;
}

-- setPowerStateGated(), with ordinal 0 and with any other.
unfoldable pub sleep_gated : Kext → Kext
sleep_gated k = shutdown_for_sleep (record k { slept_once = true; reinit_pending = false })

unfoldable pub wake_gated : Wake → Kext → Kext
wake_gated w k =
    if not k.hw_ready && k.pci_device && k.slept_once
    then (if w.remaps
        then schedule_rebuild w (record k { sleep_imminent = false })
        else record k { sleep_imminent = false; hda_base = false; dsp_base = false })
    else record k { sleep_imminent = false }

unfoldable pub set_power_state_gated : ℕ → Wake → Kext → Kext
set_power_state_gated ordinal w k = if ordinal == 0 then sleep_gated k else wake_gated w k

-- The messages that sPowerInterestHandler tells apart; the last carries the lid's state.
pub data Message : Type 0 where
  will_sleep will_power_on has_powered_on will_not_sleep : Message
  clamshell_change : Bool → Message
  other_message : Message

-- sPowerInterestHandler(), with the gated handlers. i2cBase is NULL on this board.
unfoldable pub power_interest_handler : Message → Kext → Kext
power_interest_handler will_sleep k =
    if k.command_gate then record k { sleep_imminent = true } else k
power_interest_handler will_power_on k =
    if k.command_gate then record k { sleep_imminent = false } else k
power_interest_handler has_powered_on k =
    if k.command_gate then record k { sleep_imminent = false } else k
power_interest_handler will_not_sleep k =
    if k.command_gate then record k { sleep_imminent = false } else k
power_interest_handler (clamshell_change closed) k =
    if k.command_gate && k.flags_buf then record k { clamshell_muted = closed } else k
power_interest_handler other_message k = k
