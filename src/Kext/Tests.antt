-- ===== src/Kext/Tests.antt =====
-- Witnesses for the theorems on kext/LatSOFAudio, on a small driver.
use lat_sofaudio.Prelude.{
  ◌-◌, ℕ, zero, suc, ◌+◌, ◌≤◌, ◌≡◌, refl, Bool, true, false, ◌||◌, ◌==◌, if◌then◌else◌, none, List,
  [], ◌∷◌, arith,
}
use lat_sofaudio.Kext.Types.{
  Mmio, Dsp, no_bits, set_bit, not_ready, pcm_params, trig_start, trig_stop, pcm_free,
}
use lat_sofaudio.Kext.State.{Kext, Descriptor, initial}
use lat_sofaudio.Kext.Registers.{
  out_sd, output_sd_busy_state, Ici, ici_verb, claim_ici, await_response,
}
use lat_sofaudio.Kext.Borrow.{Firmware}
use lat_sofaudio.Kext.Init.{Attempt, defers_borrow, init_dsp, load, make_ready}
use lat_sofaudio.Kext.Boot.Cores.{
  Cores, Use, attempts, sends_params, triggers, sends_stop, init_dsp_cores, use_all, trigger_ipc,
  acknowledge,
}
use lat_sofaudio.Kext.Boot.Cores.Masked.{runs_alone, init_dsp-runs_alone, use_all-adspic}
use lat_sofaudio.Kext.Power.{will_sleep}
use lat_sofaudio.Kext.Resume.{engine_resumed, engine_running}
use lat_sofaudio.Kext.Driver.{
  Load, Tick, Event, client_starts, client_stops, ticks, sleeps, wakes, messages, start, stop,
  start_capture, run,
}
use lat_sofaudio.Kext.Safety.{IsSafe, is_ordered, after_params, after_start}
use lat_sofaudio.Kext.Safety.Poll.{stops_stream, all_stop}
use lat_sofaudio.Kext.Lifetime.{start-run-IsSafe, stop-halts}
use lat_sofaudio.Kext.Ticks.{polls, can_succeed, leaves_room, ticks_left}
use lat_sofaudio.Kext.Ticks.Rounds.{IsServed, all_succeed, succeeds, same_sd}
use lat_sofaudio.Kext.Ticks.Serve.{start_capture-IsServed_later}
use lat_sofaudio.Kext.Ticks.GiveUp.{fails, all_fail, polls-gives_up}
use lat_sofaudio.Kext.Budget.{count_loads}
use lat_sofaudio.Kext.Budget.Bound.{polls-loads_bounded}
use lat_sofaudio.Kext.Demand.{is_held, keeps_session, all_keep}
use lat_sofaudio.Kext.Demand.Run.{run-is_held}
use lat_sofaudio.Kext.Coexist.Events.{IsLeft}
use lat_sofaudio.Kext.Coexist.Run.{is_driver_event, all_driver_events, run-IsLeft}
use lat_sofaudio.Kext.Afg.{Afg, AfgTick}
use lat_sofaudio.Kext.Afg.Discipline.{
  keep_alives, keep_alives-retires, all_silent, is_silent, count_gets, count_sets,
}

-- Registers that read the same everywhere, with GCAP 0x9701: seven input streams, nothing running.
abbrev calm : Mmio
calm = record { rd8 = λ o. 0; rd16 = λ o. 38657; rd32 = λ o. 0 }

abbrev idle_output : Descriptor
idle_output = record { ctl = no_bits; cbl = 0; lvi = 0; fmt = 0; bdpl = 0; bdpu = 0; spib_val = 0 }

abbrev image : Firmware
image = record { bdl_low = 4096; bdl_high = 0; payload_size = 8192; num_bdl = 2 }

abbrev attempt_with : Bool → Attempt
attempt_with enters = record {
  decoding = true;
  num_iss = 7;
  crst = true;
  payload_ok = true;
  core_power = true;
  fw_alloc = true;
  bdl_alloc = true;
  firmware = image;
  has_pp = true;
  has_spib = true;
  before_borrow = calm;
  resets = λ d. d;
  rom_done = true;
  init_done = true;
  fw_entered = enters;
  fw_ready = true;
  ipc_ok = 8;
  cap_dma_alloc = true;
  cap_bdl_alloc = true;
}

abbrev tick_with : Bool → Tick
tick_with enters = record {
  bar0 = calm;
  attempt = attempt_with enters;
  power = record { asleep = false; falls_asleep = false };
  family = record {
    state = engine_resumed;
    clients = 1;
    performs = true;
    answers = not_ready;
    state_after = engine_running;
  };
}

abbrev pub answering : Dsp
answering s = true

abbrev plain_load : Load
plain_load = record {
  finds = true;
  maps = true;
  cap_dma = true;
  cap_bdl = true;
  strict_borrow = true;
  bar0 = calm;
  attempt = attempt_with true;
  gate = true;
  flags = true;
  publishes = false;
  has_engine = false;
}

abbrev a_night : List Event
a_night =
    client_starts
    ∷ messages will_sleep
    ∷ sleeps no_bits no_bits no_bits no_bits
    ∷ wakes (record { remaps = true; needs_resume = false })
    ∷ ticks (tick_with false)
    ∷ ticks (tick_with true)
    ∷ ticks (tick_with true)
    ∷ client_stops
    ∷ []

abbrev new_device : Kext
new_device = initial no_bits no_bits no_bits no_bits idle_output

start-run-IsSafe_example : IsSafe (run answering a_night (start plain_load new_device).device)
unfolding no_bits all_stop stops_stream
start-run-IsSafe_example =
    start-run-IsSafe answering plain_load a_night no_bits no_bits no_bits no_bits idle_output refl
      refl

-- A driver behind its gate, with its buffers and maps, on ready hardware, that does not capture.
abbrev pub attached : Kext
attached = record (initial no_bits no_bits no_bits no_bits idle_output) {
  pci_device = true;
  hda_base = true;
  dsp_base = true;
  cap_dma_buf = true;
  cap_bdl_buf = true;
  command_gate = true;
}

-- The same, in a session.
abbrev recording : Kext
recording = record attached {
  hw_ready = true;
  is_capturing = true;
  pp_cap = true;
  cap_idx = 6;
  cap_ctl = λ j. j == 1;
  ppctl = λ j. j == 6;
  sent = trig_start ∷ pcm_params ∷ [];
}

recording-IsSafe : IsSafe recording
unfolding initial is_ordered after_params after_start
recording-IsSafe = ground arith

stop-halts_example :
    let k' = stop false answering recording in
    (k'.cap_ctl 1 ≡ false)
    × (k'.ppctl 6 ≡ false)
    × (is_ordered k'.sent ≡ true)
    × (k'.sent ≡ (
        if recording.is_capturing then pcm_free ∷ trig_stop ∷ recording.sent else recording.sent))
    × (k'.hw_ready || k'.is_capturing || k'.cap_dma_buf || k'.cap_bdl_buf ≡ false)
stop-halts_example = stop-halts false answering recording recording-IsSafe

abbrev times : ℕ → Tick → List Tick
times zero t = []
times (suc n) t = t ∷ times n t

start_capture-IsServed_later_example :
    ((start_capture answering attached).status ≡ not_ready)
    × IsServed
        (polls answering (times 63 (tick_with true)) (start_capture answering attached).device)
unfolding initial no_bits all_succeed succeeds same_sd can_succeed output_sd_busy_state out_sd
start_capture-IsServed_later_example =
    start_capture-IsServed_later answering (times 63 (tick_with true)) attached (λ s. refl) refl
      (omega arith) refl refl refl (λ p. ground arith) (ground arith)

-- At its last attempt.
abbrev tired : Kext
tired = record attached {
  reinit_pending = true;
  tries = 11;
  programmed_waits = 20;
  tick_divider = 2;
}

polls-gives_up_example : (polls answering (tick_with false ∷ []) tired).reinit_pending ≡ false
unfolding initial no_bits all_fail fails leaves_room can_succeed output_sd_busy_state out_sd
    ticks_left
polls-gives_up_example =
    polls-gives_up answering (tick_with false ∷ []) tired (ground arith) refl (ground arith)

polls-loads_bounded_example :
    count_loads (polls answering (times 9 (tick_with false)) tired).sent
    ≤ count_loads tired.sent + 48
unfolding initial
polls-loads_bounded_example =
    polls-loads_bounded answering (times 9 (tick_with false)) tired (ground arith)

-- A tick at which the audio family starts no engine.
abbrev quiet_tick : Bool → Tick
quiet_tick i = record (tick_with i) { family = record (tick_with i).family { performs = false } }

abbrev a_held_night : List Event
a_held_night =
    messages will_sleep
    ∷ sleeps no_bits no_bits no_bits no_bits
    ∷ wakes (record { remaps = true; needs_resume = false })
    ∷ ticks (quiet_tick false)
    ∷ client_starts
    ∷ ticks (quiet_tick true)
    ∷ []

run-is_held_example : is_held (run answering a_held_night recording) ≡ true
unfolding initial no_bits all_stop stops_stream all_keep keeps_session is_held
run-is_held_example = run-is_held answering a_held_night recording recording-IsSafe refl refl refl

run-IsLeft_example :
    IsLeft
      (run answering (client_stops ∷ client_starts ∷ ticks (tick_with true) ∷ []) recording)
      recording
unfolding all_driver_events is_driver_event
run-IsLeft_example =
    run-IsLeft answering (client_stops ∷ client_starts ∷ ticks (tick_with true) ∷ []) recording
      recording-IsSafe refl

abbrev idle_afg : Afg
idle_afg = record {
  kext_wake = true;
  last_sd = none;
  last_sig = 0;
  sense_tick = 0;
  jack_was_in = false;
  belt_tick = 0;
  ici_fails = 0;
  wakes = 0;
  probed = false;
  verbs = [];
}

-- A descriptor that AppleHDA has programmed.
abbrev programmed_bar0 : Mmio
programmed_bar0 = record { rd8 = λ o. 0; rd16 = λ o. 38657; rd32 = λ o. 4096 }

abbrev afg_tick : Ici → AfgTick
afg_tick i = record { bar0 = programmed_bar0; sense = i; power = i; correction = i }

-- An interface that takes each verb and never answers.
abbrev mute_codec : Ici
mute_codec = record { icb = λ t. false; irv = λ t. false; irii = 0 }

keep_alives-retires_example :
    let ts = afg_tick mute_codec ∷ afg_tick mute_codec ∷ afg_tick mute_codec ∷ [] in
    let b = keep_alives ts idle_afg in
    (count_gets b.verbs ≤ count_gets idle_afg.verbs + (8 - idle_afg.ici_fails))
    × (count_sets b.verbs ≡ count_sets idle_afg.verbs)
unfolding all_silent is_silent ici_verb claim_ici await_response
keep_alives-retires_example =
    keep_alives-retires (afg_tick mute_codec ∷ afg_tick mute_codec ∷ afg_tick mute_codec ∷ [])
      idle_afg refl

abbrev masked : Cores
masked = record { adspcs = no_bits; hipcctl = no_bits; adspic = no_bits }

init_dsp-runs_alone_example :
    let d = init_dsp_cores (attempt_with true) 9 tired masked in
    (runs_alone d ≡ true) × (d.hipcctl ≡ no_bits) × (d.adspic ≡ no_bits)
unfolding init_dsp load make_ready defers_borrow output_sd_busy_state initial
init_dsp-runs_alone_example = init_dsp-runs_alone (attempt_with true) 9 tired masked refl refl

-- A failed load, a good one, and a capture.
abbrev uses : List Use
uses =
    attempts (attempt_with false) 0 tired
    ∷ attempts (attempt_with true) 9 tired
    ∷ sends_params true
    ∷ triggers false
    ∷ sends_stop
    ∷ []

use_all-adspic_example : (use_all uses masked).adspic ≡ no_bits
use_all-adspic_example = use_all-adspic uses masked refl

-- The enable of HIPCCTL for the reply stays set behind a capture.
capture_unmasks : (trigger_ipc true masked).hipcctl 1 ≡ true
unfolding trigger_ipc acknowledge set_bit
capture_unmasks = refl
