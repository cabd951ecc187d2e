-- ===== src/Kext/Retry.antt =====
-- The wake retry engine in jackPoll of kext/LatSOFAudio/LatSOFAudioDevice.cpp, which rebuilds the DSP
-- once AppleHDA's output leaves room for it.
use lat_sofaudio.Prelude.{◌+◌, Bool, true, false, not, ◌&&◌, ◌||◌, if◌then◌else◌, leb}
use lat_sofaudio.Kext.Types.{is_success, Mmio, Dsp}
use lat_sofaudio.Kext.State.{Kext}
use lat_sofaudio.Kext.Registers.{Sd, not_decoding, quiet, running, programmed, output_sd_busy_state}
use lat_sofaudio.Kext.Capture.{start_capture_gated}
use lat_sofaudio.Kext.Init.{Attempt, Tried, init_dsp}

-- The count of the rounds spent waiting for a programmed descriptor.
unfoldable pub count_wait : Sd → Kext → Kext
count_wait programmed k =
    if k.strict_borrow || k.hot_recovery
    then record k { programmed_waits = k.programmed_waits + 1 }
    else k
count_wait quiet k =
    if k.strict_borrow || k.hot_recovery then record k { programmed_waits = 0 } else k
count_wait running k = k
count_wait not_decoding k = k

-- Whether this round makes an attempt, once the wait is counted: it does neither while the output
-- runs, nor for the first 20 rounds of a programmed one, nor while the controller does not answer.
unfoldable pub attempts : Sd → Kext → Bool
attempts quiet k = true
attempts programmed k = not ((k.strict_borrow || k.hot_recovery) && leb k.programmed_waits 20)
attempts running k = false
attempts not_decoding k = false

-- A round without success gives up once twelve attempts are spent.
unfoldable pub give_up : Kext → Kext
give_up k = if leb 12 k.tries then record k { reinit_pending = false } else k

-- A rebuild that succeeded serves the latched demand; the latch is consumed only by a success.
unfoldable pub rearm : Dsp → Kext → Kext
rearm dsp k =
    if k.was_capturing
    then (let d = start_capture_gated dsp k in
        if is_success d.status then record d.device { was_capturing = false } else d.device)
    else k

unfoldable pub conclude : Dsp → Tried → Kext
conclude dsp t =
    if t.ok then rearm dsp (record t.device { reinit_pending = false }) else give_up t.device

-- One round.
unfoldable pub round : Sd → Attempt → Dsp → Kext → Kext
round sd a dsp k =
    let w = count_wait sd k in
    if attempts sd w
    then conclude dsp (init_dsp a (record w { tries = w.tries + 1 }))
    else give_up w

-- The retry engine of one tick: a round at every third.
unfoldable pub retry : Mmio → Attempt → Dsp → Kext → Kext
retry m a dsp k =
    if k.reinit_pending && not k.hw_ready && k.pci_device && k.hda_base && k.dsp_base
    then (if leb 3 (k.tick_divider + 1)
        then round (output_sd_busy_state m) a dsp (record k { tick_divider = 0 })
        else record k { tick_divider = k.tick_divider + 1 })
    else k
