-- ===== src/Plugin/Lifecycle/RefCount.antt =====
-- The reference count.
use lat_sofaudio.Prelude.{◌+◌, ◌<◌, ◌≡◌, false, arith}
use lat_sofaudio.Plugin.Types.{driver_ref}
use lat_sofaudio.Plugin.Floats.{Floats}
use lat_sofaudio.Plugin.State.{PlugIn}
use lat_sofaudio.Plugin.Monad.{returned}
use lat_sofaudio.Plugin.Lifecycle.{add_ref, release, u32_max}

module _ {fl : Floats} where
  -- With the mutex free and the count below its maximum, Release undoes AddRef: the count goes up by
  -- one and back, and both return it.
  pub release-add_ref :
      (s : PlugIn fl)
      → s.state_mutex ≡ false
      → s.ref_count < u32_max
      → (s' : PlugIn fl) × (add_ref driver_ref s ≡ returned (s.ref_count + 1) s')
        × (release driver_ref s' ≡ returned s.ref_count s)
  unfolding add_ref release
  release-add_ref s free h = (record s { ref_count = s.ref_count + 1 }, ground arith, ground arith)
