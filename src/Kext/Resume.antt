-- ===== src/Kext/Resume.antt =====
-- The deferred resume of the kernel audio engine: completeDeferredResume() of
-- kext/LatSOFAudio/LatSOFKernelAudio.cpp, and its executor in jackPoll of LatSOFAudioDevice.cpp.
use lat_sofaudio.Prelude.{ℕ, ◌+◌, Bool, true, false, not, ◌&&◌, ◌||◌, if◌then◌else◌, ◌==◌, leb, ltb}
use lat_sofaudio.Kext.Types.{IoReturn, is_success, success, busy, Dsp}
use lat_sofaudio.Kext.State.{Kext, Done}
use lat_sofaudio.Kext.Capture.{done, engine_start_gated}

-- IOAudioEngineState, as far as the code tells it apart.
pub data EngineState : Type 0 where
  engine_running engine_paused engine_resumed engine_stopped : EngineState

pub is_running : EngineState → Bool
is_running engine_running = true
is_running engine_paused = false
is_running engine_resumed = false
is_running engine_stopped = false

-- The audio family's engine: its state and its clients, what its startAudioEngine() does, by whether
-- it gets to performAudioEngineStart(), and its state after that.
pub record Family : Type 0 where
  pub state : EngineState
  pub clients : ℕ
  pub performs : Bool
  pub answers : IoReturn
  pub state_after : EngineState

-- IOAudioEngine::startAudioEngine()
unfoldable pub start_audio_engine : Family → Dsp → Kext → Done
start_audio_engine f dsp k = if f.performs then engine_start_gated dsp k else done f.answers k

-- completeDeferredResume()
unfoldable pub complete_deferred_resume : Family → Dsp → Kext → Done
complete_deferred_resume f dsp k =
    if is_running f.state || f.clients == 0
    then done success k
    else (let d = start_audio_engine f dsp k in
        if is_success d.status && not (is_running f.state_after)
        then record d { status = busy }
        else d)

-- The power states of the kernel audio device: whether it sleeps, and whether it is about to.
pub record AudioPower : Type 0 where
  pub asleep : Bool
  pub falls_asleep : Bool

-- The executor's budget, after an attempt that failed.
unfoldable pub count_resume : Kext → Kext
count_resume k =
    if leb 3 (k.resume_tries + 1) || ltb 3 k.recovery_episodes
    then record k { resume_tries = k.resume_tries + 1; resume_pending = false }
    else record k { resume_tries = k.resume_tries + 1 }

unfoldable pub attempt_resume : Family → Dsp → Kext → Kext
attempt_resume f dsp k =
    let d = complete_deferred_resume f dsp k in
    if is_success d.status
    then record d.device { resume_pending = false }
    else count_resume d.device

unfoldable pub may_resume : AudioPower → Kext → Bool
may_resume p k =
    k.resume_pending
    && k.hw_ready
    && not k.reinit_pending
    && not k.sleep_imminent
    && k.kernel_audio
    && not p.asleep
    && not p.falls_asleep

-- The executor in jackPoll.
unfoldable pub execute_resume : AudioPower → Family → Dsp → Kext → Kext
execute_resume p f dsp k =
    if may_resume p k
    then (if k.engine then attempt_resume f dsp k else record k { resume_pending = false })
    else k
