-- ===== src/Kext/Coexist.antt =====
-- The coexistence rule of kext/LatSOFAudio/LatSOFAudioDevice.cpp: what AppleHDA owns in the registers
-- that both drivers share is left as it is.
pub mod Events
pub mod Run
use lat_sofaudio.Prelude.{
  ℕ, ◌+◌, ◌<◌, ◌≡◌, refl, ap, ◌∙◌, Bool, true, false, not, ◌&&◌, ◌||◌, ◌==◌, List, [], ◌∷◌,
  if◌then◌else◌, branch, leb, arith,
}
use lat_sofaudio.Kext.Types.{Bits, Mmio, set_bit, clear_bit, is_success, pcm_params, Dsp}
use lat_sofaudio.Kext.State.{Kext, Done}
use lat_sofaudio.Kext.Registers.{Sd, quiet, running, programmed, not_decoding, output_sd_busy_state}
use lat_sofaudio.Kext.Capture.{
  send, schedule_dsp_recovery, demand, decouple, couple, program_stream, start_timed_out, run_dma,
  capturing, halt_dma, start_dma, start_capture_gated, halt_stream, close_pcm, stop_capture_gated,
  engine_start_gated,
}
use lat_sofaudio.Kext.Init.{Attempt, Tried, init_dsp}
use lat_sofaudio.Kext.Init.Return.{IsReturned, init_dsp-IsReturned}

-- Every bit but the capture stream's.
pub record IsOwn (k' k : Kext) : Type 0 where
  pub ppctl : (j : ℕ) → (j == 6) ≡ false → k'.ppctl j ≡ k.ppctl j
  pub intctl : (j : ℕ) → (j == 6) ≡ false → k'.intctl j ≡ k.intctl j
  pub spib_en : (j : ℕ) → (j == 6) ≡ false → k'.spib_en j ≡ k.spib_en j
  pub output : k'.output ≡ k.output

pub stop_capture_gated-IsOwn :
    (dsp : Dsp) (k : Kext)
    → (k.is_capturing ≡ true → k.cap_idx ≡ 6)
    → IsOwn (stop_capture_gated dsp k).device k
unfolding stop_capture_gated close_pcm halt_stream couple schedule_dsp_recovery send clear_bit
stop_capture_gated-IsOwn dsp k i = record {
  ppctl = λ j n. ground arith;
  intctl = λ j n. ground arith;
  spib_en = λ j n. ground arith;
  output = ground arith;
}

program_stream-IsOwn : (k : Kext) → k.cap_idx ≡ 6 → IsOwn (send pcm_params (program_stream k)) k
unfolding send program_stream decouple couple set_bit clear_bit
program_stream-IsOwn k i = record {
  ppctl = λ j n. ground arith;
  intctl = λ j n. ground arith;
  spib_en = λ j n. ground arith;
  output = ground arith;
}

start_timed_out-IsOwn : (k : Kext) → k.cap_idx ≡ 6 → IsOwn (start_timed_out k) k
unfolding start_timed_out couple schedule_dsp_recovery clear_bit
start_timed_out-IsOwn k i = record {
  ppctl = λ j n. ground arith;
  intctl = λ j n. ground arith;
  spib_en = λ j n. ground arith;
  output = ground arith;
}

run_dma-IsOwn : (k : Kext) → k.cap_idx ≡ 6 → IsOwn (run_dma k) k
unfolding run_dma send clear_bit
run_dma-IsOwn k i = record {
  ppctl = λ j n. refl;
  intctl = λ j n. refl;
  spib_en = λ j n. ground arith;
  output = refl;
}

IsOwn-trans : {a b c : Kext} → IsOwn a b → IsOwn b c → IsOwn a c
IsOwn-trans p q = record {
  ppctl = λ j n. p.ppctl j n ∙ q.ppctl j n;
  intctl = λ j n. p.intctl j n ∙ q.intctl j n;
  spib_en = λ j n. p.spib_en j n ∙ q.spib_en j n;
  output = p.output ∙ q.output;
}

-- Operations on other fields.
pub Same-IsOwn :
    (k' k : Kext)
    → k'.ppctl ≡ k.ppctl
    → k'.intctl ≡ k.intctl
    → k'.spib_en ≡ k.spib_en
    → k'.output ≡ k.output
    → IsOwn k' k
Same-IsOwn k' k p i s o = record {
  ppctl = λ j n. ap (λ b. b j) p;
  intctl = λ j n. ap (λ b. b j) i;
  spib_en = λ j n. ap (λ b. b j) s;
  output = o;
}

start_dma-IsOwn : (dsp : Dsp) (k : Kext) → k.cap_idx ≡ 6 → IsOwn (start_dma dsp k).device k
unfolding start_dma halt_dma capturing run_dma send
start_dma-IsOwn dsp k i =
    branch (λ (d : Done). IsOwn d.device k) (dsp (run_dma k).sent)
      (λ _.
        IsOwn-trans (Same-IsOwn (capturing (run_dma k)) (run_dma k) refl refl refl refl)
          (run_dma-IsOwn k i))
      (λ _. IsOwn-trans (start_timed_out-IsOwn (halt_dma (run_dma k)) i) (
        IsOwn-trans (Same-IsOwn (halt_dma (run_dma k)) (run_dma k) refl refl refl refl)
          (run_dma-IsOwn k i)))

demand-IsOwn : (k : Kext) → IsOwn (demand k) k
unfolding demand
demand-IsOwn k =
    branch (λ (k' : Kext). IsOwn k' k)
      (not k.reinit_pending && k.hda_base && k.dsp_base && k.pci_device)
      (λ _. Same-IsOwn _ k refl refl refl refl) (λ _. Same-IsOwn _ k refl refl refl refl)

index : (k : Kext) → k.cap_idx ≡ 6 → (send pcm_params (program_stream k)).cap_idx ≡ 6
unfolding send program_stream decouple couple
index k i = ground arith

pub start_capture_gated-IsOwn :
    (dsp : Dsp) (k : Kext)
    → (k.hw_ready ≡ true → k.cap_idx ≡ 6)
    → IsOwn (start_capture_gated dsp k).device k
unfolding start_capture_gated
start_capture_gated-IsOwn dsp k i =
    let asked = send pcm_params (program_stream k) in
    branch (λ (d : Done). IsOwn d.device k) (k.hw_ready && k.cap_dma_buf && k.cap_bdl_buf)
      (λ r.
        let c = i (ground arith) in
        branch (λ (d : Done). IsOwn d.device k) k.is_capturing
          (λ _. Same-IsOwn k k refl refl refl refl)
          (λ _.
            IsOwn-trans
              (branch (λ (d : Done). IsOwn d.device asked) (dsp asked.sent)
                (λ _. start_dma-IsOwn dsp asked (index k c))
                (λ _. start_timed_out-IsOwn asked (index k c)))
              (program_stream-IsOwn k c)))
      (λ _. demand-IsOwn k)
