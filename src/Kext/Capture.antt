-- ===== src/Kext/Capture.antt =====
-- The capture control of kext/LatSOFAudio/LatSOFAudioDevice.cpp: the gated start and stop, and the
-- recovery that an IPC timeout schedules.
use lat_sofaudio.Prelude.{ℕ, ◌+◌, true, false, not, ◌&&◌, ◌∷◌, if◌then◌else◌, ltb}
use lat_sofaudio.Kext.Types.{
  IoReturn, is_success, success, not_ready, timeout, Bits, no_bits, set_bit, clear_bit, DspCommand,
  pcm_params, trig_start, trig_stop, pcm_free, Dsp,
}
use lat_sofaudio.Kext.State.{Kext, Done}

abbrev pub done : IoReturn → Kext → Done
done r k = record { status = r; device = k }

-- The bits of the stream's control byte: RUN, and the three interrupt enables IOCE, FEIE and DEIE.
abbrev pub run_bit : ℕ
run_bit = 1

unfoldable pub mask_irqs : Bits → Bits
mask_irqs c = clear_bit 2 (clear_bit 3 (clear_bit 4 c))

-- PPCTL: the bit that takes the capture stream off the HDA link, and puts it back.
unfoldable pub decouple : Kext → Kext
decouple k = if k.pp_cap then record k { ppctl = set_bit k.cap_idx k.ppctl } else k

unfoldable pub couple : Kext → Kext
couple k = if k.pp_cap then record k { ppctl = clear_bit k.cap_idx k.ppctl } else k

unfoldable pub send : DspCommand → Kext → Kext
send c k = record k { sent = c ∷ k.sent }

-- scheduleDspRecovery()
unfoldable pub schedule_dsp_recovery : Kext → Kext
schedule_dsp_recovery k =
    if k.pci_device && k.hda_base && k.dsp_base
    then (if ltb 3 (k.recovery_episodes + 1)
        then record k { recovery_episodes = k.recovery_episodes + 1 }
        else record k {
          recovery_episodes = k.recovery_episodes + 1;
          hw_ready = false;
          reinit_pending = true;
          tries = 0;
          tick_divider = 0;
          hot_recovery = true;
          programmed_waits = 0;
        })
    else k

-- A refused start: the demand is latched, and it re-arms a rebuild that was given up.
unfoldable pub demand : Kext → Kext
demand k =
    if not k.reinit_pending && k.hda_base && k.dsp_base && k.pci_device
    then record k {
      was_capturing = true;
      reinit_pending = true;
      tries = 0;
      tick_divider = 0;
      programmed_waits = 0;
      recovery_episodes = 0;
      hot_recovery = true;
    }
    else record k { was_capturing = true }

-- The stream's set-up, up to the PCM_PARAMS IPC: the stream's interrupt off, decoupled, reset twice,
-- coupled while the format is written, and its interrupt enables masked.
unfoldable pub program_stream : Kext → Kext
program_stream k =
    let a = decouple (record k { intctl = clear_bit k.cap_idx k.intctl }) in
    let b = record a { cap_ctl = no_bits } in
    let c = decouple (couple b) in record c { cap_ctl = mask_irqs c.cap_ctl }

-- A start whose IPC timed out.
unfoldable pub start_timed_out : Kext → Kext
start_timed_out k = schedule_dsp_recovery (record (couple k) { was_capturing = true })

-- SPIB off for the stream, RUN set, and TRIG_START.
unfoldable pub run_dma : Kext → Kext
run_dma k =
    let spib = if k.spib_cap then clear_bit k.cap_idx k.spib_en else k.spib_en in
    send trig_start (record k { spib_en = spib; cap_ctl = set_bit run_bit (mask_irqs k.cap_ctl) })

unfoldable pub capturing : Kext → Kext
capturing k = record k { is_capturing = true; recovery_episodes = 0 }

-- RUN is cleared again where TRIG_START is not answered.
unfoldable pub halt_dma : Kext → Kext
halt_dma k = record k { cap_ctl = clear_bit run_bit k.cap_ctl }

-- From the DMA's start on.
unfoldable pub start_dma : Dsp → Kext → Done
start_dma dsp k =
    let asked = run_dma k in
    if dsp asked.sent
    then done success (capturing asked)
    else done timeout (start_timed_out (halt_dma asked))

-- startCaptureGated()
unfoldable pub start_capture_gated : Dsp → Kext → Done
start_capture_gated dsp k =
    if k.hw_ready && k.cap_dma_buf && k.cap_bdl_buf
    then (if k.is_capturing
        then done success k
        else (let asked = send pcm_params (program_stream k) in
            if dsp asked.sent then start_dma dsp asked else done timeout (start_timed_out asked)))
    else done not_ready (demand k)

-- The stream's stop, before the IPCs.
unfoldable pub halt_stream : Kext → Kext
halt_stream k = record k {
  cap_ctl = clear_bit run_bit (mask_irqs k.cap_ctl);
  intctl = clear_bit k.cap_idx k.intctl;
}

-- TRIG_STOP and PCM_FREE, both sent whether or not the first is answered.
unfoldable pub close_pcm : Dsp → Kext → Kext
close_pcm dsp k =
    let stopped = send trig_stop k in
    let freed = send pcm_free stopped in
    if dsp stopped.sent && dsp freed.sent then freed else schedule_dsp_recovery freed

-- stopCaptureGated()
unfoldable pub stop_capture_gated : Dsp → Kext → Done
stop_capture_gated dsp k =
    if k.is_capturing
    then done success
        (record (couple (close_pcm dsp (halt_stream (record k { was_capturing = false })))) {
          is_capturing = false;
        })
    else done success (record k { was_capturing = false })

-- s_engineStartCapture(): a refusal of the engine's start leaves no demand behind.
unfoldable pub engine_start_gated : Dsp → Kext → Done
engine_start_gated dsp k =
    let d = start_capture_gated dsp k in
    if is_success d.status
    then d
    else record d { device = record d.device { was_capturing = false } }
