-- ===== src/Plugin/Lifecycle.antt =====
-- The interface's basic operations in plugin/LatSOFAudioPlugin.c: the reference count,
-- LatSOF_Initialize, and the device's configuration change.
pub mod Settings
pub mod RefCount
use lat_sofaudio.Prelude.{
  ℕ, ◌+◌, ◌-◌, ◌/◌, ◌%◌, ◌^◌, Bool, true, false, not, Option, none, some, String, ltb, ◌==◌,
  if◌then◌else◌,
}
use lat_sofaudio.Plugin.Types.{
  DriverRef, is_driver, ObjectId, Status, bad_object, illegal_operation, unsupported_operation,
}
use lat_sofaudio.Plugin.Floats.{Floats}
use lat_sofaudio.Plugin.State.{PlugIn}
use lat_sofaudio.Plugin.Monad.{
  M, ◌>>=◌, ◌>>◌, pure, read, modify, fail, fail_if, lock_state, unlock_state,
}
use lat_sofaudio.Plugin.Io.{is_device}

-- What the HAL's storage holds under a key: the kinds of property list that the code tells apart.
pub data Stored : Type 0 where
  absent other_kind : Stored
  boolean : Bool → Stored
  -- the SInt32 that CFNumberGetValue gives, as a bit pattern
  number : ℕ → Stored
  string : String → Stored

-- mach_timebase_info()
pub record Timebase : Type 0 where
  pub numer : ℕ
  pub denom : ℕ

abbrev pub u32_max : ℕ
u32_max = 2 ^ 32 - 1

-- gBox_Acquired after the first read of the settings.
pub acquired_from : Stored → Bool → Bool
acquired_from (boolean b) old = b
acquired_from (number n) old = not (n == 0)
acquired_from absent old = old
acquired_from (string t) old = old
acquired_from other_kind old = old

-- gBox_Name after the second, and after the last resort.
pub name_from : Stored → Option String → Option String
name_from (string t) old = some t
name_from (boolean b) none = some "LatSOF Audio"
name_from (number n) none = some "LatSOF Audio"
name_from absent none = some "LatSOF Audio"
name_from other_kind none = some "LatSOF Audio"
name_from _ (some t) = some t

-- gDevice_HostTicksPerFrame at a sample rate. `denom / numer` is a division of UInt32.
pub ticks_per_frame : (fl : Floats) → Timebase → fl.F64 → fl.F64
ticks_per_frame fl tb rate =
    fl.div64 (fl.mul64 (fl.of_u64 (tb.denom / tb.numer)) (fl.literal64 "1000000000.0")) rate

module _ {fl : Floats} where
  -- LatSOF_Initialize. Both reads of the settings are of the key "box acquired".
  pub initialize : DriverRef → (String → Stored) → Timebase → M fl (Unit {0})
  unfolding acquired_from name_from ticks_per_frame
  initialize d storage tb = do
    fail_if (not (is_driver d)) bad_object
    modify (λ s. record s { box_acquired = acquired_from (storage "box acquired") s.box_acquired })
    modify (λ s. record s { box_name = name_from (storage "box acquired") s.box_name })
    modify (λ s. record s { host_ticks_per_frame = ticks_per_frame fl tb s.sample_rate })

  -- LatSOF_QueryInterface, by whether a place for the interface is given, whether the CFUUID is
  -- made, and whether it is one of the two supported: `false` is E_NOINTERFACE. It does not test the
  -- count for overflow.
  pub query_interface : DriverRef → Bool → Bool → Bool → M fl Bool
  query_interface d place made supported = do
    fail_if (not (is_driver d)) bad_object
    fail_if (not place) illegal_operation
    fail_if (not made) illegal_operation
    (if supported
        then (do
          lock_state
          modify (λ s. record s { ref_count = (s.ref_count + 1) % 2 ^ 32 })
          unlock_state
          pure true)
        else pure false)

  -- LatSOF_AddRef and LatSOF_Release, which answer 0 to a foreign driver reference.
  pub add_ref : DriverRef → M fl ℕ
  add_ref d =
      if is_driver d
      then (do
        lock_state
        modify (λ s. record s {
          ref_count = if ltb s.ref_count u32_max then s.ref_count + 1 else s.ref_count;
        })
        s ← read
        unlock_state
        pure s.ref_count)
      else pure 0

  pub release : DriverRef → M fl ℕ
  release d =
      if is_driver d
      then (do
        lock_state
        modify (λ s. record s {
          ref_count = if ltb 0 s.ref_count then s.ref_count - 1 else s.ref_count;
        })
        s ← read
        unlock_state
        pure s.ref_count)
      else pure 0

  -- LatSOFAudio_CreateDevice and LatSOF_DestroyDevice: this is no transport manager.
  pub create_device : DriverRef → M fl (Unit {0})
  create_device d = do fail_if (not (is_driver d)) bad_object; fail unsupported_operation

  pub destroy_device : DriverRef → M fl (Unit {0})
  destroy_device d = do fail_if (not (is_driver d)) bad_object; fail unsupported_operation

  -- LatSOF_AddDeviceClient, LatSOF_RemoveDeviceClient and LatSOF_AbortDeviceConfigurationChange
  -- check their arguments, and do no more.
  pub add_device_client : DriverRef → ObjectId → M fl (Unit {0})
  add_device_client d o = do
    fail_if (not (is_driver d)) bad_object
    fail_if (not (is_device o)) bad_object

  pub remove_device_client : DriverRef → ObjectId → M fl (Unit {0})
  remove_device_client d o = do
    fail_if (not (is_driver d)) bad_object
    fail_if (not (is_device o)) bad_object

  pub abort_device_configuration_change : DriverRef → ObjectId → M fl (Unit {0})
  abort_device_configuration_change d o = do
    fail_if (not (is_driver d)) bad_object
    fail_if (not (is_device o)) bad_object

  -- LatSOF_PerformDeviceConfigurationChange
  pub perform_device_configuration_change : DriverRef → ObjectId → ℕ → Timebase → M fl (Unit {0})
  unfolding ticks_per_frame
  perform_device_configuration_change d o action tb = do
    fail_if (not (is_driver d)) bad_object
    fail_if (not (is_device o)) bad_object
    fail_if (not (action == 48000)) bad_object
    lock_state
    modify (λ s. record s { sample_rate = fl.of_u64 action })
    modify (λ s. record s { host_ticks_per_frame = ticks_per_frame fl tb s.sample_rate })
    unlock_state
