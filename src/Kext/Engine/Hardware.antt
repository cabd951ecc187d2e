-- ===== src/Kext/Engine/Hardware.antt =====
-- How the kernel audio device and its engine come up and go in
-- kext/LatSOFAudio/LatSOFKernelAudio.cpp: initHardware of both, createControls, stop, and the handler
-- of the gain control. The audio family's and the allocators' answers are given.
pub mod References
use lat_sofaudio.Prelude.{ℕ, ◌+◌, ◌-◌, ◌*◌, ◌%◌, ◌^◌, Bool, true, false, not, ◌&&◌, if◌then◌else◌}

-- What is answered: whether the base class comes up, there is an owner and it has its ring; whether
-- each object is there, and is taken.
pub record Answers : Type 0 where
  pub base : Bool
  pub owner : Bool
  pub ring : Bool
  pub stream_alloc : Bool
  pub stream_init : Bool
  pub stream_added : Bool
  pub gain_alloc : Bool
  pub gain_added : Bool
  pub source_alloc : Bool
  pub source_added : Bool
  pub work_loop : Bool
  pub timer_alloc : Bool
  pub timer_added : Bool

-- The references that the engine holds itself to streams and controls, those that the family took,
-- whether wrapTimer is set, and whether the work loop has it.
pub record Hardware : Type 0 where
  pub own : ℕ
  pub kept : ℕ
  pub wrap_timer : Bool
  pub on_loop : Bool
  pub gain_milli_decibels : ℕ

-- A Boolean result, and the engine after it.
pub record Outcome : Type 0 where
  pub ok : Bool
  pub hw : Hardware

unfoldable pub done : Hardware → Outcome
done h = record { ok = true; hw = h }

unfoldable pub failed : Hardware → Outcome
failed h = record { ok = false; hw = h }

-- `if (!…) return false;`, and what comes after it
unfoldable pub and_then : Outcome → (Hardware → Outcome) → Outcome
and_then r next = if r.ok then next r.hw else r

-- new or a factory, release(), and a call that retains what it is given if it takes it
unfoldable pub create : Hardware → Hardware
create h = record h { own = h.own + 1 }

unfoldable pub drop_reference : Hardware → Hardware
drop_reference h = record h { own = h.own - 1 }

unfoldable pub add : Bool → Hardware → Hardware
add takes h = if takes then record h { kept = h.kept + 1 } else h

-- The stream in initHardware
unfoldable pub add_stream : Answers → Hardware → Outcome
add_stream a h =
    if not a.stream_alloc
    then failed h
    else if not a.stream_init
    then failed (drop_reference (create h))
    else (let h' = drop_reference (add a.stream_added (create h)) in
        if a.stream_added then done h' else failed h')

-- createControls()
unfoldable pub add_control : Bool → Bool → Hardware → Outcome
add_control alloc takes h = if alloc then done (drop_reference (add takes (create h))) else failed h

unfoldable pub create_controls : Answers → Hardware → Outcome
create_controls a h =
    and_then (add_control a.gain_alloc a.gain_added h) (add_control a.source_alloc a.source_added)

-- The timer in initHardware
unfoldable pub add_timer : Answers → Hardware → Outcome
add_timer a h =
    if not a.work_loop
    then failed h
    else if not a.timer_alloc
    then failed (record h { wrap_timer = false })
    else if a.timer_added
    then done (record h { wrap_timer = true; on_loop = true })
    else failed (record h { wrap_timer = false })

-- LatSOFKernelAudioEngine::initHardware
unfoldable pub init_hardware : Answers → Hardware → Outcome
init_hardware a h =
    if a.base && a.owner && a.ring
    then and_then (and_then (add_stream a h) (create_controls a)) (add_timer a)
    else failed h

-- LatSOFKernelAudioEngine::stop, by whether there is a work loop
unfoldable pub stop : Bool → Hardware → Hardware
stop work_loop h =
    if h.wrap_timer
    then record h { wrap_timer = false; on_loop = h.on_loop && not work_loop }
    else h

-- gainChangeHandler, of a value in decibels
unfoldable pub gain_change_handler : ℕ → Hardware → Hardware
gain_change_handler value h = record h { gain_milli_decibels = value * 1000 % 2 ^ 32 }

-- The device: whether `engine` is set, its own references to the engine, and the family's.
pub record Device : Type 0 where
  pub engine : Bool
  pub own : ℕ
  pub kept : ℕ

pub record Started : Type 0 where
  pub ok : Bool
  pub device : Device

-- LatSOFKernelAudioDevice::initHardware, by whether the base class comes up with an owner, the engine
-- is there, initWithOwner succeeds, and activateAudioEngine takes it.
unfoldable pub init_device : Bool → Bool → Bool → Bool → Device → Started
init_device base alloc init active d =
    let made = record d { engine = true; own = d.own + 1 } in
    let dropped = record made { engine = false; own = made.own - 1 } in
    if not base
    then record { ok = false; device = d }
    else if not alloc
    then record { ok = false; device = record d { engine = false } }
    else if not init
    then record { ok = false; device = dropped }
    else if active
    then record { ok = true; device = record made { own = made.own - 1; kept = made.kept + 1 } }
    else record { ok = false; device = dropped }
