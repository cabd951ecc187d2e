-- ===== src/Kext/Ticks/Rounds.antt =====
-- The rounds of the retry engine of kext/LatSOFAudio/LatSOFAudioDevice.cpp at which an attempt can succeed.
use lat_sofaudio.Prelude.{
  ℕ, ◌+◌, ◌-◌, ◌*◌, ◌≤◌, ◌<◌, ◌≡◌, ◌⊎◌, inl, inr, refl, Bool, true, false, not, ◌&&◌, List, [], ◌∷◌,
  branch, leb, min, arith,
}
use lat_sofaudio.Kext.Types.{Dsp, DspCommand, pcm_params, is_success}
use lat_sofaudio.Kext.State.{Kext, Done}
use lat_sofaudio.Kext.Registers.{Sd, not_decoding, quiet, running, programmed, output_sd_busy_state}
use lat_sofaudio.Kext.Capture.{
  send, decouple, couple, program_stream, run_dma, capturing, start_dma, start_capture_gated,
}
use lat_sofaudio.Kext.Init.{Attempt, Tried, init_dsp, load, settle, make_ready, defers_borrow}
use lat_sofaudio.Kext.Retry.{retry, round, conclude, rearm, give_up, count_wait, attempts}
use lat_sofaudio.Kext.Driver.{Tick}
use lat_sofaudio.Kext.Ticks.{can_succeed}

unfoldable pub same_sd : Sd → Sd → Bool
same_sd quiet quiet = true
same_sd programmed programmed = true
same_sd _ _ = false

-- A tick at which the output leaves room, still as it was when the loader looks again, and everything
-- else that the attempt needs is there.
unfoldable pub succeeds : Tick → Bool
unfolding same_sd
succeeds t =
    same_sd (output_sd_busy_state t.bar0) (output_sd_busy_state t.attempt.before_borrow)
    && can_succeed t.attempt

unfoldable pub all_succeed : List Tick → Bool
all_succeed [] = true
all_succeed (t ∷ ts) = succeeds t && all_succeed ts

-- A session is wanted and the rebuild that serves it is pending.
pub record IsWanted (k : Kext) : Type 0 where
  pub wanted : k.was_capturing ≡ true
  pub pending : k.reinit_pending ≡ true
  pub unready : k.hw_ready ≡ false
  pub idle : k.is_capturing ≡ false
  pub present : k.pci_device && k.hda_base && k.dsp_base ≡ true
  pub buffers : k.cap_dma_buf && k.cap_bdl_buf ≡ true
  pub tries : k.tries ≤ 11
  pub divider : k.tick_divider ≤ 2

-- It runs, and nothing is owed.
pub record IsServed (k : Kext) : Type 0 where
  pub settled : k.was_capturing ≡ false
  pub ready : k.hw_ready ≡ true
  pub captures : k.is_capturing ≡ true
  pub over : k.reinit_pending ≡ false
  pub kept : k.cap_dma_buf && k.cap_bdl_buf ≡ true

-- The ticks until an attempt is made.
unfoldable pub ticks_to_attempt : Kext → ℕ
ticks_to_attempt k = 3 * (21 - min k.programmed_waits 20) - k.tick_divider

record IsBuilt (t : Tried) : Type 0 where
  fine : t.ok ≡ true
  ready : t.device.hw_ready ≡ true
  fresh : t.device.is_capturing ≡ false
  wanted : t.device.was_capturing ≡ true
  buffers : t.device.cap_dma_buf && t.device.cap_bdl_buf ≡ true

init_dsp-IsBuilt :
    (a : Attempt) (k : Kext)
    → can_succeed a ≡ true
    → defers_borrow (output_sd_busy_state a.before_borrow) k ≡ false
    → k.was_capturing ≡ true
    → k.pci_device && k.hda_base && k.dsp_base ≡ true
    → k.cap_dma_buf && k.cap_bdl_buf ≡ true
    → IsBuilt (init_dsp a k)
unfolding init_dsp load settle make_ready send can_succeed
init_dsp-IsBuilt a k c d w p b = ground arith

-- Where the DSP answers, a start on ready hardware succeeds.
record IsStarted (d : Done) : Type 0 where
  fine : is_success d.status ≡ true
  ready : d.device.hw_ready ≡ true
  captures : d.device.is_capturing ≡ true
  kept : d.device.cap_dma_buf && d.device.cap_bdl_buf ≡ true

start_capture_gated-IsStarted :
    (dsp : Dsp) (k : Kext)
    → ((s : List DspCommand) → dsp s ≡ true)
    → k.hw_ready ≡ true
    → k.cap_dma_buf && k.cap_bdl_buf ≡ true
    → IsStarted (start_capture_gated dsp k)
      × ((start_capture_gated dsp k).device.reinit_pending ≡ k.reinit_pending)
unfolding start_capture_gated start_dma run_dma capturing program_stream decouple couple send
    is_success
start_capture_gated-IsStarted dsp k y r b =
    let p = y (send pcm_params (program_stream k)).sent in
    let q = y (run_dma (send pcm_params (program_stream k))).sent in ground arith

conclude-IsServed :
    (dsp : Dsp) (t : Tried)
    → ((s : List DspCommand) → dsp s ≡ true)
    → IsBuilt t
    → IsServed (conclude dsp t)
unfolding conclude rearm
conclude-IsServed dsp t y h =
    let (s, p) =
      start_capture_gated-IsStarted dsp (record t.device { reinit_pending = false }) y h.ready
        h.buffers in
    ground arith

-- One tick serves the session, or leaves at least one tick fewer.
pub record IsNearer (k' k : Kext) : Type 0 where
  pub waits : IsWanted k'
  pub nearer : ticks_to_attempt k' < ticks_to_attempt k

-- The device after the count of the wait.
record IsCounted (w : Kext) : Type 0 where
  wanted : w.was_capturing ≡ true
  present : w.pci_device && w.hda_base && w.dsp_base ≡ true
  buffers : w.cap_dma_buf && w.cap_bdl_buf ≡ true

count_wait-IsCounted :
    (sd : Sd) (k : Kext) → IsWanted k → IsCounted (count_wait sd (record k { tick_divider = 0 }))
unfolding count_wait
count_wait-IsCounted quiet k h = ground arith
count_wait-IsCounted programmed k h = ground arith
count_wait-IsCounted running k h = ground arith
count_wait-IsCounted not_decoding k h = ground arith

-- The last look finds what the round found.
no_deferral :
    (sd e : Sd) (w : Kext)
    → same_sd sd e ≡ true
    → attempts sd w ≡ true
    → defers_borrow e (record w { tries = w.tries + 1 }) ≡ false
unfolding same_sd attempts defers_borrow
no_deferral quiet quiet w s m = refl
no_deferral programmed programmed w s m = ground arith
no_deferral _ _ w s m = ground arith

wait-IsNearer :
    (sd e : Sd) (k : Kext)
    → same_sd sd e ≡ true
    → IsWanted k
    → leb 3 (k.tick_divider + 1) ≡ true
    → attempts sd (count_wait sd (record k { tick_divider = 0 })) ≡ false
    → IsNearer (give_up (count_wait sd (record k { tick_divider = 0 }))) k
unfolding same_sd attempts count_wait give_up ticks_to_attempt
wait-IsNearer quiet e k s h d m = ground arith
wait-IsNearer programmed e k s h d m = ground arith
wait-IsNearer running e k s h d m = ground arith
wait-IsNearer not_decoding e k s h d m = ground arith

attempt-IsServed :
    (sd : Sd) (a : Attempt) (dsp : Dsp) (k : Kext)
    → ((s : List DspCommand) → dsp s ≡ true)
    → same_sd sd (output_sd_busy_state a.before_borrow) ≡ true
    → can_succeed a ≡ true
    → IsWanted k
    → attempts sd (count_wait sd (record k { tick_divider = 0 })) ≡ true
    → let w = count_wait sd (record k { tick_divider = 0 }) in
      IsServed (conclude dsp (init_dsp a (record w { tries = w.tries + 1 })))
attempt-IsServed sd a dsp k y s c h m =
    let n = count_wait-IsCounted sd k h in
    let w = count_wait sd (record k { tick_divider = 0 }) in
    conclude-IsServed dsp _ y (
      init_dsp-IsBuilt a (record w { tries = w.tries + 1 }) c
        (no_deferral sd (output_sd_busy_state a.before_borrow) w s m) n.wanted n.present n.buffers)

round-IsNearer :
    (sd : Sd) (a : Attempt) (dsp : Dsp) (k : Kext)
    → ((s : List DspCommand) → dsp s ≡ true)
    → same_sd sd (output_sd_busy_state a.before_borrow) ≡ true
    → can_succeed a ≡ true
    → IsWanted k
    → leb 3 (k.tick_divider + 1) ≡ true
    → let k' = round sd a dsp (record k { tick_divider = 0 }) in IsServed k' ⊎ IsNearer k' k
unfolding round
round-IsNearer sd a dsp k y s c h d =
    branch (λ (k' : Kext). IsServed k' ⊎ IsNearer k' k)
      (attempts sd (count_wait sd (record k { tick_divider = 0 })))
      (λ m. inl (attempt-IsServed sd a dsp k y s c h m))
      (λ m. inr (wait-IsNearer sd (output_sd_busy_state a.before_borrow) k s h d m))

later-IsNearer :
    (k : Kext)
    → IsWanted k
    → leb 3 (k.tick_divider + 1) ≡ false
    → IsNearer (record k { tick_divider = k.tick_divider + 1 }) k
unfolding ticks_to_attempt
later-IsNearer k h d = ground arith

pub retry-IsNearer :
    (t : Tick) (dsp : Dsp) (k : Kext)
    → ((s : List DspCommand) → dsp s ≡ true)
    → succeeds t ≡ true
    → IsWanted k
    → let k' = retry t.bar0 t.attempt dsp k in IsServed k' ⊎ IsNearer k' k
unfolding retry succeeds
retry-IsNearer t dsp k y s h =
    branch (λ (k' : Kext). IsServed k' ⊎ IsNearer k' k)
      (k.reinit_pending && not k.hw_ready && k.pci_device && k.hda_base && k.dsp_base)
      (λ _.
        branch (λ (k' : Kext). IsServed k' ⊎ IsNearer k' k) (leb 3 (k.tick_divider + 1))
          (λ d.
            round-IsNearer (output_sd_busy_state t.bar0) t.attempt dsp k y (ground arith)
              (ground arith) h d)
          (λ d. inr (later-IsNearer k h d)))
      (λ n. inr (ground arith))
