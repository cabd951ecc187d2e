-- ===== src/Kext/Boot/Cores/Masked.antt =====
-- The DSP's interrupt stays masked, and core 0 runs alone.
use lat_sofaudio.Prelude.{
  ℕ, zero, suc, ◌+◌, ◌≡◌, refl, ◌∙◌, Bool, true, false, not, ◌&&◌, List, [], ◌∷◌, if◌then◌else◌,
  arith,
}
use lat_sofaudio.Kext.Types.{no_bits}
use lat_sofaudio.Kext.State.{Kext}
use lat_sofaudio.Kext.Registers.{output_sd_busy_state}
use lat_sofaudio.Kext.Capture.{send}
use lat_sofaudio.Kext.Init.{Attempt, defers_borrow, init_dsp, load, make_ready, settle}
use lat_sofaudio.Kext.Boot.Cores.{
  Cores, shifted, with_bits, without_bits, power_up, release_core, settle_cores, acknowledge,
  acknowledge_all, mask_interrupt, load_cores, init_dsp_cores, shutdown_cores, params_ipc,
  trigger_ipc, stop_ipc, Use, attempts, sends_params, triggers, sends_stop, shuts_down, use_cores,
  use_all,
}

-- Core `i` is out of reset, not stalled, and powered; or it is none of these.
unfoldable pub runs : ℕ → Cores → Bool
runs i c = not (c.adspcs i) && not (c.adspcs (8 + i)) && c.adspcs (16 + i)

unfoldable pub is_down : ℕ → Cores → Bool
is_down i c = c.adspcs i && c.adspcs (8 + i) && not (c.adspcs (16 + i))

unfoldable pub runs_alone : Cores → Bool
runs_alone c = runs 0 c && is_down 1 c && is_down 2 c && is_down 3 c

acknowledge_all_lem :
    (n : ℕ) (c : Cores)
    → let d = acknowledge_all n c in (d.adspcs ≡ c.adspcs) × (d.adspic ≡ c.adspic)
unfolding acknowledge_all acknowledge
acknowledge_all_lem zero c = (refl, refl)
acknowledge_all_lem (suc n) c = acknowledge_all_lem n (acknowledge c)

init_dsp_cores-adspic :
    (a : Attempt) (n : ℕ) (k : Kext) (c : Cores)
    → c.adspic ≡ no_bits
    → (init_dsp_cores a n k c).adspic ≡ no_bits
unfolding init_dsp_cores load_cores mask_interrupt power_up
init_dsp_cores-adspic a n k c h = ground arith

use_cores-adspic : (u : Use) (c : Cores) → c.adspic ≡ no_bits → (use_cores u c).adspic ≡ no_bits
unfolding use_cores shutdown_cores params_ipc trigger_ipc stop_ipc acknowledge
use_cores-adspic (attempts a n k) c h = init_dsp_cores-adspic a n k c h
use_cores-adspic (sends_params b) c h = ground arith
use_cores-adspic (triggers b) c h = ground arith
use_cores-adspic sends_stop c h = h
use_cores-adspic (shuts_down k) c h = ground arith

-- Once the DSP's interrupt is masked, it is masked after every sequence of attempts, captures and
-- shut-downs, whatever the hardware answers.
pub use_all-adspic :
    (us : List Use) (c : Cores) → c.adspic ≡ no_bits → (use_all us c).adspic ≡ no_bits
unfolding use_all
use_all-adspic [] c h = h
use_all-adspic (u ∷ us) c h = use_all-adspic us (use_cores u c) (use_cores-adspic u c h)

settled : (c : Cores) → runs_alone (settle_cores (release_core (power_up c))) ≡ true
unfolding runs_alone runs is_down settle_cores release_core power_up with_bits without_bits shifted
settled c = ground arith

runs_alone-acknowledge_all : (n : ℕ) (c : Cores) → runs_alone (acknowledge_all n c) ≡ runs_alone c
unfolding runs_alone runs is_down
runs_alone-acknowledge_all n c = rw (acknowledge_all_lem n c).0 refl

runs_alone-mask_interrupt : (c : Cores) → runs_alone (mask_interrupt c) ≡ runs_alone c
unfolding runs_alone runs is_down mask_interrupt
runs_alone-mask_interrupt c = refl

either :
    (b : Bool) (x y : Cores)
    → runs_alone x ≡ true
    → runs_alone y ≡ true
    → runs_alone (if b then x else y) ≡ true
either true x y p q = p
either false x y p q = q

load_cores_lem :
    (a : Attempt) (n : ℕ) (c : Cores)
    → a.rom_done ≡ true
    → let d = load_cores a n (power_up c) in
      (runs_alone d ≡ true) × (d.hipcctl ≡ no_bits) × (d.adspic ≡ no_bits)
unfolding load_cores mask_interrupt
load_cores_lem a n c r =
    let up = settle_cores (release_core (power_up c)) in
    let told = runs_alone-acknowledge_all n up ∙ settled c in
    rw r (
      runs_alone-mask_interrupt _
          ∙ either (a.init_done && a.fw_entered && a.fw_ready) _ _ told (settled c),
      refl,
      refl,
    )

-- An attempt that makes the driver ready has come past the loan and the ROM.
unfoldable pub comes_far : Attempt → Kext → Bool
comes_far a k =
    (k.hda_base && k.dsp_base && a.decoding && a.payload_ok)
    && (a.core_power && a.fw_alloc && a.bdl_alloc)
    && not (defers_borrow (output_sd_busy_state a.before_borrow) k)
    && a.rom_done

init_dsp-comes_far :
    (a : Attempt) (k : Kext)
    → k.hw_ready ≡ false
    → (init_dsp a k).device.hw_ready ≡ true
    → comes_far a k ≡ true
unfolding init_dsp load make_ready settle send comes_far
init_dsp-comes_far a k h y = ground arith

init_dsp_cores-far :
    (a : Attempt) (n : ℕ) (k : Kext) (c : Cores)
    → comes_far a k ≡ true
    → (init_dsp_cores a n k c ≡ load_cores a n (power_up c)) × (a.rom_done ≡ true)
unfolding init_dsp_cores comes_far
init_dsp_cores-far a n k c f = (ground arith, ground arith)

-- For every attempt of a driver that is not ready, whatever the hardware answers: if it makes the
-- driver ready, core 0 of the DSP is powered and runs, and the other three are unpowered, in reset
-- and stalled, with the interrupt masked in both registers.
pub init_dsp-runs_alone :
    (a : Attempt) (n : ℕ) (k : Kext) (c : Cores)
    → k.hw_ready ≡ false
    → (init_dsp a k).device.hw_ready ≡ true
    → let d = init_dsp_cores a n k c in
      (runs_alone d ≡ true) × (d.hipcctl ≡ no_bits) × (d.adspic ≡ no_bits)
init_dsp-runs_alone a n k c h y =
    let (e, r) = init_dsp_cores-far a n k c (init_dsp-comes_far a k h y) in
    rw e (load_cores_lem a n c r)
