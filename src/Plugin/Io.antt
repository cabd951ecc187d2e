-- ===== src/Plugin/Io.antt =====
-- LatSOF_StartIO and LatSOF_StopIO of plugin/LatSOFAudioPlugin.c.
pub mod Clients
pub mod Sessions
pub mod Hardware
use lat_sofaudio.Prelude.{
  ℕ, ◌+◌, ◌-◌, ◌^◌, Bool, true, false, not, ◌&&◌, Option, none, some, ◌∷◌, String, ◌==◌,
  if◌then◌else◌, is_none,
}
use lat_sofaudio.Plugin.Types.{
  DriverRef, is_driver, ObjectId, device, Status, bad_object, illegal_operation,
}
use lat_sofaudio.Plugin.Floats.{Floats}
use lat_sofaudio.Plugin.State.{
  PlugIn, HwClock, DcBlock, KextCall, start_capture, stop_capture, map_capture, unmap_capture,
}
use lat_sofaudio.Plugin.Monad.{
  M, returned, ◌>>=◌, ◌>>◌, read, modify, fail_if, lock_state, unlock_state, answer,
}

-- What IOKit answers during a call: whether the service is found, the connection that
-- IOServiceOpen leaves (0 if it fails), whether IOConnectMapMemory64 succeeds, with the address and
-- the size that it gives, and mach_absolute_time().
pub record KextAnswers : Type 0 where
  pub service : Bool
  pub opened : ℕ
  pub map_succeeds : Bool
  pub map_address : ℕ
  pub map_size : ℕ
  pub now : ℕ

abbrev pub u64_max : ℕ
u64_max = 2 ^ 64 - 1

abbrev pub is_device : ObjectId → Bool
is_device device = true
is_device _ = false

-- The mapping's address, if `ckr == KERN_SUCCESS && caddr != 0`.
abbrev pub mapping : KextAnswers → Option ℕ
mapping k = if k.map_succeeds && not (k.map_address == 0) then some k.map_address else none

abbrev pub stopped_clock : HwClock
stopped_clock = record { wraps = 0; last_pos = 0; wrap_host_time = 0; primed = false }

module _ {fl : Floats} (k : KextAnswers) where
  -- if(gKextConnection == 0) { … IOServiceOpen … }
  pub connect : PlugIn fl → PlugIn fl
  connect s = if s.connection == 0 && k.service then record s { connection = k.opened } else s

  -- if(gCaptureBuffer == NULL) { … IOConnectMapMemory64 … }
  pub map_buffer : PlugIn fl → PlugIn fl
  map_buffer s =
      if is_none s.capture_buffer
      then record s {
        capture_buffer = mapping k;
        capture_buffer_size = if is_none (mapping k) then s.capture_buffer_size else k.map_size;
        kext_calls = map_capture (mapping k) ∷ s.kext_calls;
      }
      else s

module _ {fl : Floats} where
  abbrev silence : DcBlock fl
  silence = record { x1 = fl.literal32 "0.0f"; y1 = fl.literal32 "0.0f" }

  -- The rest of if(gKextConnection != 0): the DC blocker and the clock are cleared, and the capture
  -- is started.
  pub start_hardware : PlugIn fl → PlugIn fl
  start_hardware s = record s {
    left = silence;
    right = silence;
    clock = stopped_clock;
    kext_calls = start_capture ∷ s.kext_calls;
  }

  -- gDevice_IOIsRunning == 0
  pub start_first : KextAnswers → PlugIn fl → PlugIn fl
  unfolding connect map_buffer start_hardware
  start_first k s =
      let c = connect k s in
      let h = if c.connection == 0 then c else start_hardware (map_buffer k c) in
      record h { io_is_running = 1; number_time_stamps = 0; anchor_host_time = k.now }

  -- The three branches on gDevice_IOIsRunning, with `theAnswer`.
  pub start_branch : KextAnswers → PlugIn fl → Option Status × PlugIn fl
  unfolding start_first
  start_branch k s =
      if s.io_is_running == u64_max
      then (some illegal_operation, s)
      else if s.io_is_running == 0
      then (none, start_first k s)
      else (none, record s { io_is_running = s.io_is_running + 1 })

  pub start_io : DriverRef → ObjectId → KextAnswers → M fl (Unit {0})
  unfolding start_branch
  start_io d o k = do
    fail_if (not (is_driver d)) bad_object
    fail_if (not (is_device o)) bad_object
    lock_state
    e ← (λ s. let (e, s') = start_branch k s in returned e s')
    unlock_state
    answer e

  -- gDevice_IOIsRunning == 1
  pub stop_last : PlugIn fl → PlugIn fl
  stop_last s =
      let stopped = stop_capture ∷ s.kext_calls in
      let h = if s.connection == 0 then s else (elim s.capture_buffer [
        | none ↦ record s { kext_calls = stopped }
        | some a ↦ record s {
          capture_buffer = none;
          capture_buffer_size = 0;
          kext_calls = unmap_capture a ∷ stopped;
        }
      ]) in
      record h { io_is_running = 0 }

  pub stop_branch : PlugIn fl → Option Status × PlugIn fl
  unfolding stop_last
  stop_branch s =
      if s.io_is_running == 0
      then (some illegal_operation, s)
      else if s.io_is_running == 1
      then (none, stop_last s)
      else (none, record s { io_is_running = s.io_is_running - 1 })

  pub stop_io : DriverRef → ObjectId → M fl (Unit {0})
  unfolding stop_branch
  stop_io d o = do
    fail_if (not (is_driver d)) bad_object
    fail_if (not (is_device o)) bad_object
    lock_state
    e ← (λ s. let (e, s') = stop_branch s in returned e s')
    unlock_state
    answer e
