-- ===== src/Kext/Driver.antt =====
-- The driver's entry points in kext/LatSOFAudio/LatSOFAudioDevice.cpp, and the order in which they
-- come: the user client's and the engine's calls through the command gate, the timer's ticks, power
-- management, and the end of the driver.
use lat_sofaudio.Prelude.{
  ℕ, ◌/◌, Bool, true, false, not, ◌&&◌, ◌||◌, List, [], ◌∷◌, if◌then◌else◌, ◌==◌,
}
use lat_sofaudio.Kext.Types.{IoReturn, success, not_ready, unsupported, Bits, Mmio, Dsp}
use lat_sofaudio.Kext.State.{Kext, Done, Descriptor}
use lat_sofaudio.Kext.Registers.{Sd, running, programmed, quiet, not_decoding, output_sd_busy_state}
use lat_sofaudio.Kext.Capture.{done, start_capture_gated, stop_capture_gated, engine_start_gated}
use lat_sofaudio.Kext.Init.{Attempt, Tried, init_dsp}
use lat_sofaudio.Kext.Power.{Wake, Message, sleep_gated, wake_gated, power_interest_handler}
use lat_sofaudio.Kext.Resume.{AudioPower, Family, execute_resume}
use lat_sofaudio.Kext.Retry.{retry}

-- startPlayback() and stopPlayback()
unfoldable pub start_playback : Kext → Done
start_playback k = done unsupported k

unfoldable pub stop_playback : Kext → Done
stop_playback k = done unsupported k

-- startCapture() and stopCapture()
unfoldable pub start_capture : Dsp → Kext → Done
start_capture dsp k = if k.command_gate then start_capture_gated dsp k else done not_ready k

unfoldable pub stop_capture : Dsp → Kext → Done
stop_capture dsp k = if k.command_gate then stop_capture_gated dsp k else done not_ready k

-- engineStartCapture(), engineStopCapture(), engineRequestResume() and kernelAudioTearingDown()
unfoldable pub engine_start_capture : Dsp → Kext → Done
engine_start_capture dsp k = if k.command_gate then engine_start_gated dsp k else done not_ready k

unfoldable pub engine_stop_capture : Dsp → Kext → Kext
engine_stop_capture dsp k = if k.command_gate then (stop_capture_gated dsp k).device else k

unfoldable pub engine_request_resume : Kext → Kext
engine_request_resume k =
    if k.command_gate then record k { resume_pending = true; resume_tries = 0 } else k

unfoldable pub kernel_audio_tearing_down : Kext → Kext
kernel_audio_tearing_down k = record k { resume_pending = false; engine = false }

-- getCapturePosition() and capturePositionValid(), by what the stream's DPIB register reads;
-- updateSPIB() ignores its offset.
unfoldable pub get_capture_position : ℕ → Kext → ℕ
get_capture_position dpib k = if k.hw_ready then dpib / 8 else 0

unfoldable pub capture_position_valid : Kext → Bool
capture_position_valid k = k.hw_ready && k.is_capturing

unfoldable pub update_spib : ℕ → Kext → IoReturn
update_spib offset k = if k.hw_ready && k.is_playing then success else not_ready

-- What start() meets: the PCI device, the maps, the buffers, BAR0 at the preflight, the attempt, the
-- gate, and whether the kernel audio device is published, with its engine.
pub record Load : Type 0 where
  pub finds : Bool
  pub maps : Bool
  pub cap_dma : Bool
  pub cap_bdl : Bool
  pub strict_borrow : Bool
  pub bar0 : Mmio
  pub attempt : Attempt
  pub gate : Bool
  pub flags : Bool
  pub publishes : Bool
  pub has_engine : Bool

-- Whether the preflight leaves the initialisation to the retry engine.
unfoldable pub defers_init : Sd → Bool → Bool
defers_init running strict = true
defers_init programmed strict = strict
defers_init quiet strict = false
defers_init not_decoding strict = false

-- The label `fail` of start().
unfoldable pub fail : Kext → Tried
fail k = record {
  ok = false;
  device = record k { cap_bdl_buf = false; cap_dma_buf = false; pci_device = false };
}

-- From the command gate on.
unfoldable pub publish : Load → Kext → Tried
publish l k = record {
  ok = true;
  device = record k {
    command_gate = l.gate;
    flags_buf = l.flags;
    kernel_audio = l.publishes;
    engine = l.publishes && l.has_engine;
  };
}

-- A first initialisation that is not deferred before it begins.
unfoldable pub init_at_load : Load → Tried → Tried
init_at_load l t =
    if t.ok
    then publish l t.device
    else if t.device.reinit_pending
    then publish l (record t.device { tries = 0; tick_divider = 0; programmed_waits = 0 })
    else fail t.device

-- The device once the buffers are made.
unfoldable pub attach : Load → Kext → Kext
attach l k = record k {
  pci_device = true;
  hda_base = true;
  dsp_base = true;
  cap_dma_buf = true;
  cap_bdl_buf = true;
  strict_borrow = l.strict_borrow;
}

-- start(), of an object as init() leaves it
unfoldable pub start : Load → Kext → Tried
start l k =
    if not l.finds
    then record { ok = false; device = k }
    else if not l.maps
    then fail k
    else if not l.cap_dma || not l.cap_bdl
    then fail (record k { hda_base = true; dsp_base = true; strict_borrow = l.strict_borrow })
    else if defers_init (output_sd_busy_state l.bar0) l.strict_borrow
    then publish l (record (attach l k) {
      reinit_pending = true;
      tries = 0;
      tick_divider = 0;
      programmed_waits = 0;
      hot_recovery = true;
    })
    else init_at_load l (init_dsp l.attempt (attach l k))

-- stop(): the kernel audio device ends first, with its engine's stop where it runs; then the streams;
-- PMstop() delivers setPowerState(0); and only then are the buffers freed.
unfoldable pub end_audio : Bool → Dsp → Kext → Kext
end_audio runs dsp k =
    if k.kernel_audio
    then kernel_audio_tearing_down (
        if runs
        then engine_stop_capture dsp (record k { kernel_audio = false })
        else record k { kernel_audio = false })
    else k

unfoldable pub end_streams : Dsp → Kext → Kext
end_streams dsp k =
    if k.command_gate || k.is_capturing then (stop_capture_gated dsp k).device else k

unfoldable pub release_all : Kext → Kext
release_all k = record k {
  command_gate = false;
  flags_buf = false;
  cap_dma_buf = false;
  cap_bdl_buf = false;
  pci_device = false;
}

unfoldable pub stop : Bool → Dsp → Kext → Kext
stop runs dsp k = release_all (sleep_gated (end_streams dsp (end_audio runs dsp k)))

-- What one timer tick meets.
pub record Tick : Type 0 where
  pub bar0 : Mmio
  pub attempt : Attempt
  pub power : AudioPower
  pub family : Family

-- jackPoll(), less the AFG keep-alive, which touches neither the device's state nor these registers,
-- and the jack's part, which i2cBase being NULL cuts off.
unfoldable pub jack_poll : Tick → Dsp → Kext → Kext
jack_poll t dsp k = execute_resume t.power t.family dsp (retry t.bar0 t.attempt dsp k)

-- What happens to the driver. With `sleeps` come the registers as D3 leaves them; `apple_hda` is
-- AppleHDA at work on the registers the driver shares with it, where the capture stream's bits are
-- not its own.
pub data Event : Type 0 where
  client_starts client_stops engine_starts engine_stops engine_resumes audio_ends : Event
  ticks : Tick → Event
  sleeps : Bits → Bits → Bits → Bits → Event
  wakes : Wake → Event
  messages : Message → Event
  apple_hda : Bits → Bits → Bits → Descriptor → Event

unfoldable pub keep_own : Bits → Bits → Bits
keep_own b r j = if j == 6 then r j else b j

unfoldable pub handle : Dsp → Event → Kext → Kext
handle dsp client_starts k = (start_capture dsp k).device
handle dsp client_stops k = (stop_capture dsp k).device
handle dsp engine_starts k = (engine_start_capture dsp k).device
handle dsp engine_stops k = engine_stop_capture dsp k
handle dsp engine_resumes k = engine_request_resume k
handle dsp audio_ends k = kernel_audio_tearing_down k
handle dsp (ticks t) k = jack_poll t dsp k
handle dsp (sleeps int pp spib ctl) k = record (sleep_gated k) {
  intctl = int;
  ppctl = pp;
  spib_en = spib;
  cap_ctl = ctl;
}
handle dsp (wakes w) k = wake_gated w k
handle dsp (messages m) k = power_interest_handler m k
handle dsp (apple_hda int pp spib out) k = record k {
  intctl = keep_own int k.intctl;
  ppctl = keep_own pp k.ppctl;
  spib_en = keep_own spib k.spib_en;
  output = out;
}

unfoldable pub run : Dsp → List Event → Kext → Kext
run dsp [] k = k
run dsp (e ∷ es) k = run dsp es (handle dsp e k)
