-- ===== src/Kext/Budget/Bound.antt =====
-- However many ticks of kext/LatSOFAudio/LatSOFAudioDevice.cpp come, the firmware is loaded at most as
-- often as attempts are left.
use lat_sofaudio.Prelude.{
  ◌+◌, ◌≤◌, ◌≡◌, true, false, not, ◌&&◌, ◌||◌, ◌==◌, List, [], ◌∷◌, if◌then◌else◌, branch, leb, ltb,
  arith,
}
use lat_sofaudio.Kext.Types.{is_success, Dsp}
use lat_sofaudio.Kext.State.{Kext, Done}
use lat_sofaudio.Kext.Capture.{start_capture_gated, engine_start_gated}
use lat_sofaudio.Kext.Resume.{
  AudioPower, Family, execute_resume, attempt_resume, count_resume, complete_deferred_resume,
  start_audio_engine, is_running, may_resume,
}
use lat_sofaudio.Kext.Retry.{retry}
use lat_sofaudio.Kext.Driver.{Tick, jack_poll}
use lat_sofaudio.Kext.Ticks.{polls}
use lat_sofaudio.Kext.Budget.{
  count_loads, attempts_left, IsBudgeted, IsSpent, start_capture_gated-IsSpent,
}
use lat_sofaudio.Kext.Budget.Spending.{IsSpent-trans, unlatch-IsSpent, retry-IsSpent}

engine_start_gated-IsSpent :
    (dsp : Dsp) (k : Kext)
    → IsBudgeted k
    → k.hw_ready ≡ true
    → IsSpent (engine_start_gated dsp k).device k
unfolding engine_start_gated
engine_start_gated-IsSpent dsp k b r =
    let s = start_capture_gated-IsSpent dsp k b r in
    branch (λ (d : Done). IsSpent d.device k) (is_success (start_capture_gated dsp k).status)
      (λ _. s) (λ _. unlatch-IsSpent _ k false _ _ s)

keep : (k : Kext) → IsBudgeted k → IsSpent k k
keep k b = record { budget = b; spent = omega arith }

complete_deferred_resume-IsSpent :
    (f : Family) (dsp : Dsp) (k : Kext)
    → IsBudgeted k
    → k.hw_ready ≡ true
    → IsSpent (complete_deferred_resume f dsp k).device k
unfolding complete_deferred_resume start_audio_engine
complete_deferred_resume-IsSpent f dsp k b r =
    let started = start_audio_engine f dsp k in
    let s =
      branch (λ (d : Done). IsSpent d.device k) f.performs
        (λ _. engine_start_gated-IsSpent dsp k b r) (λ _. keep k b) in
    branch (λ (d : Done). IsSpent d.device k) (is_running f.state || f.clients == 0) (λ _. keep k b)
      (λ _.
        branch (λ (d : Done). IsSpent d.device k)
          (is_success started.status && not (is_running f.state_after)) (λ _. s) (λ _. s))

finish-IsSpent :
    (d : Done) (k : Kext)
    → IsSpent d.device k
    → IsSpent
        (if is_success d.status
          then record d.device { resume_pending = false }
          else count_resume d.device)
        k
unfolding count_resume
finish-IsSpent d k s =
    branch (λ (k' : Kext). IsSpent k' k) (is_success d.status)
      (λ _. unlatch-IsSpent _ k _ false _ s)
      (λ _.
        branch (λ (k' : Kext). IsSpent k' k)
          (leb 3 (d.device.resume_tries + 1) || ltb 3 d.device.recovery_episodes)
          (λ _. unlatch-IsSpent _ k _ false _ s) (λ _. unlatch-IsSpent _ k _ _ _ s))

may_resume-ready : (p : AudioPower) (k : Kext) → may_resume p k ≡ true → k.hw_ready ≡ true
unfolding may_resume
may_resume-ready p k m = ground arith

execute_resume-IsSpent :
    (p : AudioPower) (f : Family) (dsp : Dsp) (k : Kext)
    → IsBudgeted k
    → IsSpent (execute_resume p f dsp k) k
unfolding execute_resume attempt_resume
execute_resume-IsSpent p f dsp k b =
    branch (λ (k' : Kext). IsSpent k' k) (may_resume p k)
      (λ m.
        branch (λ (k' : Kext). IsSpent k' k) k.engine
          (λ _.
            finish-IsSpent _ k
              (complete_deferred_resume-IsSpent f dsp k b (may_resume-ready p k m)))
          (λ _. unlatch-IsSpent k k _ false _ (keep k b)))
      (λ _. keep k b)

polls-IsSpent : (dsp : Dsp) (ts : List Tick) (k : Kext) → IsBudgeted k → IsSpent (polls dsp ts k) k
unfolding polls jack_poll
polls-IsSpent dsp [] k b = keep k b
polls-IsSpent dsp (t ∷ ts) k b =
    let r = retry-IsSpent t.bar0 t.attempt dsp k b in
    let e = execute_resume-IsSpent t.power t.family dsp (retry t.bar0 t.attempt dsp k) r.budget in
    IsSpent-trans (polls-IsSpent dsp ts _ e.budget) (IsSpent-trans e r)

-- However many ticks come, whatever the registers read, however the attempts end, whatever the DSP
-- answers and whatever the audio engine resumes: without a new demand, the firmware is loaded at
-- most 48 times more. Conditions: the device has its buffers, a capture that runs has ready hardware,
-- and a rebuild under way has an attempt left.
pub polls-loads_bounded :
    (dsp : Dsp) (ts : List Tick) (k : Kext)
    → IsBudgeted k
    → count_loads (polls dsp ts k).sent ≤ count_loads k.sent + 48
unfolding attempts_left
polls-loads_bounded dsp ts k b = let s = (polls-IsSpent dsp ts k b).spent in ground arith
