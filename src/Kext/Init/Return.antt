-- ===== src/Kext/Init/Return.antt =====
-- The loan of AppleHDA's output descriptor ends with the descriptor as it was, whichever way the
-- attempt ends.
use lat_sofaudio.Prelude.{
  ℕ, ◌<◌, ◌≡◌, refl, ap, List, Bool, true, false, ◌&&◌, if◌then◌else◌, arith,
}
use lat_sofaudio.Kext.Types.{OtherWrite}
use lat_sofaudio.Kext.State.{Kext}
use lat_sofaudio.Kext.Registers.{output_sd_busy_state}
use lat_sofaudio.Kext.Capture.{send}
use lat_sofaudio.Kext.Borrow.{
  no_snapshot, write16, write_tag, take_snapshot, sd_restore, program_loader, run_loader,
}
use lat_sofaudio.Kext.Init.{
  Attempt, Tried, init_dsp, load, loan, borrow, settle, make_ready, defers_borrow,
}

-- The registers agree, those of CTL below SDSTS.
pub record IsReturned (d e : Kext) : Type 0 where
  pub ctl : (j : ℕ) → j < 24 → d.output.ctl j ≡ e.output.ctl j
  pub cbl : d.output.cbl ≡ e.output.cbl
  pub lvi : d.output.lvi ≡ e.output.lvi
  pub fmt : d.output.fmt ≡ e.output.fmt
  pub bdpl : d.output.bdpl ≡ e.output.bdpl
  pub bdpu : d.output.bdpu ≡ e.output.bdpu
  pub ppctl : d.ppctl ≡ e.ppctl
  pub spib_en : d.spib_en ≡ e.spib_en

keep :
    (d k : Kext) → d.output ≡ k.output → d.ppctl ≡ k.ppctl → d.spib_en ≡ k.spib_en → IsReturned d k
keep d k o p e = record {
  ctl = λ j h. ap (λ u. u.ctl j) o;
  cbl = ap (λ u. u.cbl) o;
  lvi = ap (λ u. u.lvi) o;
  fmt = ap (λ u. u.fmt) o;
  bdpl = ap (λ u. u.bdpl) o;
  bdpu = ap (λ u. u.bdpu) o;
  ppctl = p;
  spib_en = e;
}

load-IsReturned : (a : Attempt) (k : Kext) → IsReturned (load a k) k
unfolding load loan borrow settle make_ready send sd_restore take_snapshot program_loader run_loader
    write16 write_tag no_snapshot
load-IsReturned a k = record {
  ctl = λ j h. ground arith;
  cbl = ground arith;
  lvi = ground arith;
  fmt = ground arith;
  bdpl = ground arith;
  bdpu = ground arith;
  ppctl = ground arith;
  spib_en = ground arith;
}

pub load-ppctl :
    (a : Attempt) (k : Kext) → (sd_restore a.resets (borrow a (loan a k))).ppctl ≡ k.ppctl
unfolding loan borrow sd_restore take_snapshot program_loader run_loader no_snapshot
load-ppctl a k = ground arith

either :
    (b : Bool) (x y : Tried) (k : Kext)
    → IsReturned x.device k
    → IsReturned y.device k
    → IsReturned (if b then x else y).device k
either true x y k p q = p
either false x y k p q = q

-- The controller's part does not change these registers.
before_init :
    (d k : Kext) (ws : List OtherWrite)
    → IsReturned d (record k { other_writes = ws })
    → IsReturned d k
before_init d k ws r = record {
  ctl = r.ctl;
  cbl = r.cbl;
  lvi = r.lvi;
  fmt = r.fmt;
  bdpl = r.bdpl;
  bdpu = r.bdpu;
  ppctl = r.ppctl;
  spib_en = r.spib_en;
}

pub init_dsp-IsReturned : (a : Attempt) (k : Kext) → IsReturned (init_dsp a k).device k
unfolding init_dsp
init_dsp-IsReturned a k =
    either (k.hda_base && k.dsp_base && a.decoding) _ _ k
      (either (a.payload_ok && a.core_power && a.fw_alloc && a.bdl_alloc) _ _ k
        (either (defers_borrow (output_sd_busy_state a.before_borrow) k) _ _ k
          (keep _ k refl refl refl) (before_init _ k _ (load-IsReturned a _)))
        (keep _ k refl refl refl))
      (keep k k refl refl refl)
