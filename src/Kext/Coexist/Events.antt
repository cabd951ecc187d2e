-- ===== src/Kext/Coexist/Events.antt =====
-- The retry engine and the engine's starts of kext/LatSOFAudio leave AppleHDA's part of the registers
-- as it was.
use lat_sofaudio.Prelude.{
  ℕ, ◌+◌, ◌<◌, ◌≡◌, refl, ap, ◌∙◌, true, false, not, ◌&&◌, ◌||◌, ◌==◌, branch, leb, arith,
}
use lat_sofaudio.Kext.Types.{Mmio, is_success, Dsp}
use lat_sofaudio.Kext.State.{Kext, Done}
use lat_sofaudio.Kext.Registers.{Sd, quiet, running, programmed, not_decoding, output_sd_busy_state}
use lat_sofaudio.Kext.Capture.{send, start_capture_gated, engine_start_gated}
use lat_sofaudio.Kext.Init.{Attempt, Tried, init_dsp, load, settle, make_ready}
use lat_sofaudio.Kext.Init.Return.{init_dsp-IsReturned}
use lat_sofaudio.Kext.Resume.{Family, complete_deferred_resume, start_audio_engine, is_running}
use lat_sofaudio.Kext.Retry.{retry, round, conclude, rearm, give_up, count_wait, attempts}
use lat_sofaudio.Kext.Coexist.{IsOwn, Same-IsOwn, start_capture_gated-IsOwn}

-- What the driver leaves of the shared registers: all bits of PPCTL, INTCTL and SPIBCTL but the
-- capture stream's, and the output descriptor, its CTL below SDSTS.
pub record IsLeft (k' k : Kext) : Type 0 where
  pub ppctl : (j : ℕ) → (j == 6) ≡ false → k'.ppctl j ≡ k.ppctl j
  pub intctl : (j : ℕ) → (j == 6) ≡ false → k'.intctl j ≡ k.intctl j
  pub spib_en : (j : ℕ) → (j == 6) ≡ false → k'.spib_en j ≡ k.spib_en j
  pub ctl : (j : ℕ) → j < 24 → k'.output.ctl j ≡ k.output.ctl j
  pub cbl : k'.output.cbl ≡ k.output.cbl
  pub lvi : k'.output.lvi ≡ k.output.lvi
  pub fmt : k'.output.fmt ≡ k.output.fmt
  pub bdpl : k'.output.bdpl ≡ k.output.bdpl
  pub bdpu : k'.output.bdpu ≡ k.output.bdpu

pub own : {k' k : Kext} → IsOwn k' k → IsLeft k' k
own p = record {
  ppctl = p.ppctl;
  intctl = p.intctl;
  spib_en = p.spib_en;
  ctl = λ j h. ap (λ u. u.ctl j) p.output;
  cbl = ap (λ u. u.cbl) p.output;
  lvi = ap (λ u. u.lvi) p.output;
  fmt = ap (λ u. u.fmt) p.output;
  bdpl = ap (λ u. u.bdpl) p.output;
  bdpu = ap (λ u. u.bdpu) p.output;
}

pub IsLeft-trans : {a b c : Kext} → IsLeft a b → IsLeft b c → IsLeft a c
IsLeft-trans p q = record {
  ppctl = λ j n. p.ppctl j n ∙ q.ppctl j n;
  intctl = λ j n. p.intctl j n ∙ q.intctl j n;
  spib_en = λ j n. p.spib_en j n ∙ q.spib_en j n;
  ctl = λ j h. p.ctl j h ∙ q.ctl j h;
  cbl = p.cbl ∙ q.cbl;
  lvi = p.lvi ∙ q.lvi;
  fmt = p.fmt ∙ q.fmt;
  bdpl = p.bdpl ∙ q.bdpl;
  bdpu = p.bdpu ∙ q.bdpu;
}

returned :
    (a : Attempt) (k : Kext)
    → (init_dsp a k).device.intctl ≡ k.intctl
    → IsLeft (init_dsp a k).device k
returned a k i =
    let r = init_dsp-IsReturned a k in
    record {
      ppctl = λ j n. ap (λ b. b j) r.ppctl;
      intctl = λ j n. ap (λ b. b j) i;
      spib_en = λ j n. ap (λ b. b j) r.spib_en;
      ctl = r.ctl;
      cbl = r.cbl;
      lvi = r.lvi;
      fmt = r.fmt;
      bdpl = r.bdpl;
      bdpu = r.bdpu;
    }

init_dsp-intctl : (a : Attempt) (k : Kext) → (init_dsp a k).device.intctl ≡ k.intctl
unfolding init_dsp load settle make_ready send
init_dsp-intctl a k = ground arith

-- The stream's index once initDSP has succeeded.
init_dsp-index :
    (a : Attempt) (k : Kext)
    → k.hw_ready ≡ false
    → (init_dsp a k).device.hw_ready ≡ true
    → (init_dsp a k).device.cap_idx ≡ 6
unfolding init_dsp load settle make_ready send
init_dsp-index a k r h = ground arith

-- A device of which only latches differ.
pub same :
    (k' k : Kext)
    → k'.ppctl ≡ k.ppctl
    → k'.intctl ≡ k.intctl
    → k'.spib_en ≡ k.spib_en
    → k'.output ≡ k.output
    → IsLeft k' k
same k' k p i s o = own (Same-IsOwn k' k p i s o)

rearm-IsLeft : (dsp : Dsp) (k : Kext) → (k.hw_ready ≡ true → k.cap_idx ≡ 6) → IsLeft (rearm dsp k) k
unfolding rearm
rearm-IsLeft dsp k i =
    let s = own (start_capture_gated-IsOwn dsp k i) in
    branch (λ (k' : Kext). IsLeft k' k) k.was_capturing
      (λ _.
        branch (λ (k' : Kext). IsLeft k' k) (is_success (start_capture_gated dsp k).status)
          (λ _. IsLeft-trans (same _ (start_capture_gated dsp k).device refl refl refl refl) s)
          (λ _. s))
      (λ _. same k k refl refl refl refl)

give_up-IsLeft : (k : Kext) → IsLeft (give_up k) k
unfolding give_up
give_up-IsLeft k =
    branch (λ (k' : Kext). IsLeft k' k) (leb 12 k.tries) (λ _. same _ k refl refl refl refl)
      (λ _. same _ k refl refl refl refl)

conclude-IsLeft :
    (dsp : Dsp) (t : Tried)
    → (t.device.hw_ready ≡ true → t.device.cap_idx ≡ 6)
    → IsLeft (conclude dsp t) t.device
unfolding conclude
conclude-IsLeft dsp t i =
    branch (λ (k' : Kext). IsLeft k' t.device) t.ok
      (λ _.
        IsLeft-trans (rearm-IsLeft dsp (record t.device { reinit_pending = false }) i)
          (same _ t.device refl refl refl refl))
      (λ _. give_up-IsLeft t.device)

count_wait-IsLeft : (sd : Sd) (k : Kext) → IsLeft (count_wait sd k) k
unfolding count_wait
count_wait-IsLeft quiet k =
    branch (λ (k' : Kext). IsLeft k' k) (k.strict_borrow || k.hot_recovery)
      (λ _. same _ k refl refl refl refl) (λ _. same _ k refl refl refl refl)
count_wait-IsLeft programmed k =
    branch (λ (k' : Kext). IsLeft k' k) (k.strict_borrow || k.hot_recovery)
      (λ _. same _ k refl refl refl refl) (λ _. same _ k refl refl refl refl)
count_wait-IsLeft running k = same _ k refl refl refl refl
count_wait-IsLeft not_decoding k = same _ k refl refl refl refl

count_wait-hw_ready : (sd : Sd) (k : Kext) → (count_wait sd k).hw_ready ≡ k.hw_ready
unfolding count_wait
count_wait-hw_ready quiet k = ground arith
count_wait-hw_ready programmed k = ground arith
count_wait-hw_ready running k = refl
count_wait-hw_ready not_decoding k = refl

round-IsLeft :
    (sd : Sd) (a : Attempt) (dsp : Dsp) (k : Kext)
    → k.hw_ready ≡ false
    → IsLeft (round sd a dsp k) k
unfolding round
round-IsLeft sd a dsp k r =
    let w = count_wait sd k in
    let w' = record w { tries = w.tries + 1 } in
    let r' = count_wait-hw_ready sd k ∙ r in
    IsLeft-trans
      (branch (λ (k' : Kext). IsLeft k' w) (attempts sd w)
        (λ _.
          IsLeft-trans (conclude-IsLeft dsp (init_dsp a w') (init_dsp-index a w' r'))
            (IsLeft-trans (returned a w' (init_dsp-intctl a w')) (same w' w refl refl refl refl)))
        (λ _. give_up-IsLeft w))
      (count_wait-IsLeft sd k)

pub retry-IsLeft : (m : Mmio) (a : Attempt) (dsp : Dsp) (k : Kext) → IsLeft (retry m a dsp k) k
unfolding retry
retry-IsLeft m a dsp k =
    branch (λ (k' : Kext). IsLeft k' k)
      (k.reinit_pending && not k.hw_ready && k.pci_device && k.hda_base && k.dsp_base)
      (λ c.
        branch (λ (k' : Kext). IsLeft k' k) (leb 3 (k.tick_divider + 1))
          (λ _.
            IsLeft-trans
              (round-IsLeft (output_sd_busy_state m) a dsp (record k { tick_divider = 0 })
                (ground arith))
              (same _ k refl refl refl refl))
          (λ _. same _ k refl refl refl refl))
      (λ _. same k k refl refl refl refl)

pub engine_start_gated-IsLeft :
    (dsp : Dsp) (k : Kext)
    → (k.hw_ready ≡ true → k.cap_idx ≡ 6)
    → IsLeft (engine_start_gated dsp k).device k
unfolding engine_start_gated
engine_start_gated-IsLeft dsp k i =
    let s = own (start_capture_gated-IsOwn dsp k i) in
    branch (λ (d : Done). IsLeft d.device k) (is_success (start_capture_gated dsp k).status)
      (λ _. s) (λ _. IsLeft-trans (same _ (start_capture_gated dsp k).device refl refl refl refl) s)

pub complete_deferred_resume-IsLeft :
    (f : Family) (dsp : Dsp) (k : Kext)
    → (k.hw_ready ≡ true → k.cap_idx ≡ 6)
    → IsLeft (complete_deferred_resume f dsp k).device k
unfolding complete_deferred_resume start_audio_engine
complete_deferred_resume-IsLeft f dsp k i =
    let started = start_audio_engine f dsp k in
    let s =
      branch (λ (d : Done). IsLeft d.device k) f.performs (λ _. engine_start_gated-IsLeft dsp k i)
        (λ _. same k k refl refl refl refl) in
    branch (λ (d : Done). IsLeft d.device k) (is_running f.state || f.clients == 0)
      (λ _. same k k refl refl refl refl)
      (λ _.
        branch (λ (d : Done). IsLeft d.device k)
          (is_success started.status && not (is_running f.state_after)) (λ _. s) (λ _. s))
