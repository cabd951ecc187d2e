-- ===== src/Plugin/Lifecycle/Settings.antt =====
-- What LatSOF_Initialize takes from the HAL's storage.
use lat_sofaudio.Prelude.{◌≡◌, refl, Bool, String}
use lat_sofaudio.Plugin.Types.{DriverRef, driver_ref}
use lat_sofaudio.Plugin.Floats.{Floats}
use lat_sofaudio.Plugin.State.{PlugIn}
use lat_sofaudio.Plugin.Monad.{returned}
use lat_sofaudio.Plugin.Lifecycle.{
  Stored, boolean, Timebase, name_from, ticks_per_frame, initialize,
}

module _ {fl : Floats} where
  -- Initialize depends on the storage under the key "box acquired" alone: the name that is stored
  -- for the box under any other key is never read.
  pub initialize-storage :
      (d : DriverRef) (storage storage' : String → Stored) (tb : Timebase) (s : PlugIn fl)
      → storage "box acquired" ≡ storage' "box acquired"
      → initialize d storage tb s ≡ initialize d storage' tb s
  unfolding initialize
  initialize-storage d storage storage' tb s h = rw h

  -- From a stored Boolean Initialize takes the box's acquired state.
  pub initialize-boolean :
      (storage : String → Stored) (tb : Timebase) (s : PlugIn fl) (b : Bool)
      → storage "box acquired" ≡ boolean b
      → (s' : PlugIn fl) × (initialize driver_ref storage tb s ≡ returned tt s')
        × (s'.box_acquired ≡ b)
        × (s'.host_ticks_per_frame ≡ ticks_per_frame fl tb s.sample_rate)
  unfolding initialize
  initialize-boolean storage tb s b h = (
    record s {
      box_acquired = b;
      box_name = name_from (boolean b) s.box_name;
      host_ticks_per_frame = ticks_per_frame fl tb s.sample_rate;
    },
    rw h,
    refl,
    refl,
  )
