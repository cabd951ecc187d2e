-- ===== src/Kext/Safety/Poll.antt =====
-- The timer's ticks of kext/LatSOFAudio/LatSOFAudioDevice.cpp keep the capture stream safe.
use lat_sofaudio.Prelude.{
  ◌+◌, ◌≡◌, ap, ◌∙◌, ◌==◌, leb, Bool, true, false, not, ◌&&◌, ◌||◌, List, [], ◌∷◌, if◌then◌else◌,
  branch, arith,
}
use lat_sofaudio.Kext.Types.{Mmio, OtherWrite, is_success, Dsp}
use lat_sofaudio.Kext.State.{Kext, Done}
use lat_sofaudio.Kext.Registers.{Sd, running, programmed, quiet, not_decoding, output_sd_busy_state}
use lat_sofaudio.Kext.Capture.{send, start_capture_gated, engine_start_gated}
use lat_sofaudio.Kext.Init.{
  Attempt, Tried, init_dsp, load, settle, make_ready, defers_borrow, controller_init,
}
use lat_sofaudio.Kext.Init.Return.{load-ppctl}
use lat_sofaudio.Kext.Resume.{
  AudioPower, Family, execute_resume, attempt_resume, count_resume, complete_deferred_resume,
  start_audio_engine, is_running, may_resume,
}
use lat_sofaudio.Kext.Retry.{retry, round, conclude, rearm, give_up, count_wait, attempts}
use lat_sofaudio.Kext.Driver.{Event, sleeps}
use lat_sofaudio.Kext.Safety.{IsSafe, after_start, is_ordered}
use lat_sofaudio.Kext.Safety.Sessions.{start_capture_gated-IsSafe}

-- What PCI D3 is relied on for: it stops the stream and resets its PPCTL bit.
unfoldable pub stops_stream : Event → Bool
stops_stream (sleeps int pp spib ctl) = not (ctl 1) && not (pp 6)
stops_stream _ = true

unfoldable pub all_stop : List Event → Bool
all_stop [] = true
all_stop (e ∷ es) = stops_stream e && all_stop es

-- Changes of the latches alone.
latch : (k : Kext) (w : Bool) → IsSafe k → IsSafe (record k { was_capturing = w })
latch k w h = ground arith

-- Another write to a shared register.
log_writes : (k : Kext) (ws : List OtherWrite) → IsSafe k → IsSafe (record k { other_writes = ws })
log_writes k ws h = ground arith

load-IsSafe :
    (a : Attempt) (k : Kext)
    → IsSafe k
    → k.hw_ready ≡ false
    → k.pci_device && k.hda_base && k.dsp_base ≡ true
    → IsSafe (load a k)
unfolding load settle make_ready send is_ordered after_start
load-IsSafe a k h r m = let p = ap (λ b. b 6) (load-ppctl a k) in ground arith

pub init_dsp-IsSafe :
    (a : Attempt) (k : Kext)
    → IsSafe k
    → k.hw_ready ≡ false
    → k.pci_device ≡ true
    → IsSafe (init_dsp a k).device
unfolding init_dsp
init_dsp-IsSafe a k h r p =
    let c = log_writes k (controller_init a.crst k.other_writes) h in
    branch (λ (t : Tried). IsSafe t.device) (k.hda_base && k.dsp_base && a.decoding)
      (λ m.
        branch (λ (t : Tried). IsSafe t.device)
          (a.payload_ok && a.core_power && a.fw_alloc && a.bdl_alloc)
          (λ _.
            branch (λ (t : Tried). IsSafe t.device)
              (defers_borrow (output_sd_busy_state a.before_borrow) k) (λ _. ground arith)
              (λ _. load-IsSafe a _ c r (ground arith)))
          (λ _. c))
      (λ _. h)

rearm-IsSafe : (dsp : Dsp) (k : Kext) → IsSafe k → IsSafe (rearm dsp k)
unfolding rearm
rearm-IsSafe dsp k h =
    branch IsSafe k.was_capturing
      (λ _.
        branch IsSafe (is_success (start_capture_gated dsp k).status)
          (λ _. latch _ false (start_capture_gated-IsSafe dsp k h))
          (λ _. start_capture_gated-IsSafe dsp k h))
      (λ _. h)

give_up-IsSafe : (k : Kext) → IsSafe k → IsSafe (give_up k)
unfolding give_up
give_up-IsSafe k h = ground arith

conclude-IsSafe : (dsp : Dsp) (t : Tried) → IsSafe t.device → IsSafe (conclude dsp t)
unfolding conclude
conclude-IsSafe dsp t h =
    branch IsSafe t.ok
      (λ _. rearm-IsSafe dsp (record t.device { reinit_pending = false }) (ground arith))
      (λ _. give_up-IsSafe t.device h)

count_wait-IsSafe :
    (sd : Sd) (k : Kext)
    → IsSafe k
    → IsSafe (count_wait sd k)
      × ((count_wait sd k).hw_ready ≡ k.hw_ready)
      × ((count_wait sd k).pci_device ≡ k.pci_device)
unfolding count_wait
count_wait-IsSafe programmed k h = ground arith
count_wait-IsSafe quiet k h = ground arith
count_wait-IsSafe running k h = ground arith
count_wait-IsSafe not_decoding k h = ground arith

round-IsSafe :
    (sd : Sd) (a : Attempt) (dsp : Dsp) (k : Kext)
    → IsSafe k
    → k.hw_ready ≡ false
    → k.pci_device ≡ true
    → IsSafe (round sd a dsp k)
unfolding round
round-IsSafe sd a dsp k h r p =
    let (w, hr, pr) = count_wait-IsSafe sd k h in
    branch IsSafe (attempts sd (count_wait sd k))
      (λ _. conclude-IsSafe dsp _ (init_dsp-IsSafe a _ (ground arith) (hr ∙ r) (pr ∙ p)))
      (λ _. give_up-IsSafe _ w)

pub retry-IsSafe :
    (m : Mmio) (a : Attempt) (dsp : Dsp) (k : Kext) → IsSafe k → IsSafe (retry m a dsp k)
unfolding retry
retry-IsSafe m a dsp k h =
    branch IsSafe (k.reinit_pending && not k.hw_ready && k.pci_device && k.hda_base && k.dsp_base)
      (λ c.
        branch IsSafe (leb 3 (k.tick_divider + 1))
          (λ _.
            round-IsSafe (output_sd_busy_state m) a dsp (record k { tick_divider = 0 })
              (ground arith) (ground arith) (ground arith))
          (λ _. ground arith))
      (λ _. h)

pub engine_start_gated-IsSafe :
    (dsp : Dsp) (k : Kext) → IsSafe k → IsSafe (engine_start_gated dsp k).device
unfolding engine_start_gated
engine_start_gated-IsSafe dsp k h =
    branch (λ (d : Done). IsSafe d.device) (is_success (start_capture_gated dsp k).status)
      (λ _. start_capture_gated-IsSafe dsp k h)
      (λ _. latch _ false (start_capture_gated-IsSafe dsp k h))

start_audio_engine-IsSafe :
    (f : Family) (dsp : Dsp) (k : Kext) → IsSafe k → IsSafe (start_audio_engine f dsp k).device
unfolding start_audio_engine
start_audio_engine-IsSafe f dsp k h =
    branch (λ (d : Done). IsSafe d.device) f.performs (λ _. engine_start_gated-IsSafe dsp k h)
      (λ _. h)

complete_deferred_resume-IsSafe :
    (f : Family) (dsp : Dsp) (k : Kext)
    → IsSafe k
    → IsSafe (complete_deferred_resume f dsp k).device
unfolding complete_deferred_resume
complete_deferred_resume-IsSafe f dsp k h =
    let s = start_audio_engine-IsSafe f dsp k h in
    branch (λ (d : Done). IsSafe d.device) (is_running f.state || f.clients == 0) (λ _. h)
      (λ _.
        branch (λ (d : Done). IsSafe d.device)
          (is_success (start_audio_engine f dsp k).status && not (is_running f.state_after))
          (λ _. s) (λ _. s))

finish_resume-IsSafe :
    (d : Done)
    → IsSafe d.device
    → IsSafe (
        if is_success d.status
        then record d.device { resume_pending = false }
        else count_resume d.device)
unfolding count_resume
finish_resume-IsSafe d h = ground arith

pub execute_resume-IsSafe :
    (p : AudioPower) (f : Family) (dsp : Dsp) (k : Kext)
    → IsSafe k
    → IsSafe (execute_resume p f dsp k)
unfolding execute_resume attempt_resume
execute_resume-IsSafe p f dsp k h =
    branch IsSafe (may_resume p k)
      (λ _.
        branch IsSafe k.engine
          (λ _. finish_resume-IsSafe _ (complete_deferred_resume-IsSafe f dsp k h))
          (λ _. ground arith))
      (λ _. h)
