-- ===== src/Kext/Ticks/Serve.antt =====
-- A capture that was refused while the DSP is down runs once the DSP can be rebuilt.
use lat_sofaudio.Prelude.{
  ◌≤◌, ◌≡◌, ◌⊎◌, inl, inr, sym, subst, true, false, not, ◌&&◌, ◌||◌, Bool-cases, List, [], ◌∷◌,
  length, branch, arith,
}
use lat_sofaudio.Kext.Types.{Dsp, DspCommand, success, not_ready, is_success}
use lat_sofaudio.Kext.State.{Kext}
use lat_sofaudio.Kext.Capture.{start_capture_gated, demand, engine_start_gated}
use lat_sofaudio.Kext.Retry.{retry}
use lat_sofaudio.Kext.Resume.{
  Family, AudioPower, execute_resume, attempt_resume, count_resume, complete_deferred_resume,
  start_audio_engine, may_resume,
}
use lat_sofaudio.Kext.Driver.{Tick, jack_poll, start_capture}
use lat_sofaudio.Kext.Ticks.{polls, execute_resume-unready}
use lat_sofaudio.Kext.Ticks.Rounds.{
  succeeds, all_succeed, ticks_to_attempt, retry-IsNearer, IsWanted, IsServed, IsNearer,
}

-- A session that runs is kept by the ticks, those that resume the engine included.
engine_start_gated-IsServed :
    (dsp : Dsp) (k : Kext)
    → IsServed k
    → engine_start_gated dsp k ≡ record { status = success; device = k }
unfolding engine_start_gated start_capture_gated is_success
engine_start_gated-IsServed dsp k h = ground arith

attempt_resume-IsServed :
    (f : Family) (dsp : Dsp) (k : Kext) → IsServed k → IsServed (attempt_resume f dsp k)
unfolding attempt_resume complete_deferred_resume start_audio_engine count_resume is_success
attempt_resume-IsServed f dsp k h = let e = engine_start_gated-IsServed dsp k h in ground arith

execute_resume-IsServed :
    (p : AudioPower) (f : Family) (dsp : Dsp) (k : Kext)
    → IsServed k
    → IsServed (execute_resume p f dsp k)
unfolding execute_resume
execute_resume-IsServed p f dsp k h =
    branch IsServed (may_resume p k)
      (λ _. branch IsServed k.engine (λ _. attempt_resume-IsServed f dsp k h) (λ _. ground arith))
      (λ _. h)

retry-IsServed :
    (t : Tick) (dsp : Dsp) (k : Kext) → IsServed k → IsServed (retry t.bar0 t.attempt dsp k)
unfolding retry
retry-IsServed t dsp k h =
    branch IsServed (k.reinit_pending && not k.hw_ready && k.pci_device && k.hda_base && k.dsp_base)
      (λ c. ground arith) (λ _. h)

polls-IsServed : (dsp : Dsp) (ts : List Tick) (k : Kext) → IsServed k → IsServed (polls dsp ts k)
unfolding polls jack_poll
polls-IsServed dsp [] k h = h
polls-IsServed dsp (t ∷ ts) k h =
    polls-IsServed dsp ts _
      (execute_resume-IsServed t.power t.family dsp _ (retry-IsServed t dsp k h))

tick-IsNearer :
    (t : Tick) (dsp : Dsp) (k : Kext)
    → ((s : List DspCommand) → dsp s ≡ true)
    → succeeds t ≡ true
    → IsWanted k
    → let k' = jack_poll t dsp k in IsServed k' ⊎ IsNearer k' k
unfolding jack_poll
tick-IsNearer t dsp k y s h = elim (retry-IsNearer t dsp k y s h) [
  | inl o ↦ inl (execute_resume-IsServed t.power t.family dsp _ o)
  | inr c ↦ inr (
      subst (λ k'. IsNearer k' k)
        (sym (execute_resume-unready t.power t.family dsp _ c.waits.unready)) c)
]

-- Where a session is wanted and its rebuild is pending: after as many ticks as an attempt is away, at
-- each of which an attempt would succeed, and with a DSP that answers, the session runs.
pub polls-IsServed_soon :
    (dsp : Dsp) (ts : List Tick) (k : Kext)
    → ((s : List DspCommand) → dsp s ≡ true)
    → all_succeed ts ≡ true
    → IsWanted k
    → ticks_to_attempt k ≤ length ts
    → IsServed (polls dsp ts k)
unfolding polls all_succeed ticks_to_attempt
polls-IsServed_soon dsp [] k y s h n = ground arith
polls-IsServed_soon dsp (t ∷ ts) k y s h n = elim (tick-IsNearer t dsp k y (ground arith) h) [
  | inl o ↦ polls-IsServed dsp ts _ o
  | inr c ↦ polls-IsServed_soon dsp ts _ y (ground arith) c.waits (ground arith)
]

-- The demand that a refused start leaves.
refused-IsWanted :
    (dsp : Dsp) (k : Kext)
    → k.command_gate && k.pci_device && k.hda_base && k.dsp_base ≡ true
    → k.cap_dma_buf && k.cap_bdl_buf ≡ true
    → k.hw_ready || k.is_capturing ≡ false
    → (k.reinit_pending ≡ true → k.tries ≤ 11)
    → k.tick_divider ≤ 2
    → ((start_capture dsp k).status ≡ not_ready) × IsWanted (start_capture dsp k).device
unfolding start_capture start_capture_gated demand
refused-IsWanted dsp k g b r p d = elim (Bool-cases k.reinit_pending) [
  | inl e ↦ let n = p e in ground arith
  | inr e ↦ ground arith
]

-- A client's start that the driver refuses, since the DSP is down, is remembered: after 63 ticks at
-- which the DSP can be rebuilt, and with a DSP that answers, the capture runs. Conditions: the
-- driver is attached, with its buffers, and a rebuild under way has an attempt left.
pub start_capture-IsServed_later :
    (dsp : Dsp) (ts : List Tick) (k : Kext)
    → ((s : List DspCommand) → dsp s ≡ true)
    → all_succeed ts ≡ true
    → 63 ≤ length ts
    → k.command_gate && k.pci_device && k.hda_base && k.dsp_base ≡ true
    → k.cap_dma_buf && k.cap_bdl_buf ≡ true
    → k.hw_ready || k.is_capturing ≡ false
    → (k.reinit_pending ≡ true → k.tries ≤ 11)
    → k.tick_divider ≤ 2
    → ((start_capture dsp k).status ≡ not_ready)
      × IsServed (polls dsp ts (start_capture dsp k).device)
unfolding ticks_to_attempt
start_capture-IsServed_later dsp ts k y s n g b r p d =
    let (refused, w) = refused-IsWanted dsp k g b r p d in
    (refused, polls-IsServed_soon dsp ts _ y s w (ground arith))
