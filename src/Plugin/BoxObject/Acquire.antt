-- ===== src/Plugin/BoxObject/Acquire.antt =====
-- Acquiring the box: what is reported, stored, and read back.
use lat_sofaudio.Prelude.{
  ◌≡◌, refl, Bool, true, false, not, Option, none, some, List, [], ◌∷◌, String, ◌==◌, differ,
  if◌then◌else◌, arith,
}
use lat_sofaudio.Plugin.Types.{Address, acquired, box_device_list, driver_ref}
use lat_sofaudio.Plugin.Floats.{Floats}
use lat_sofaudio.Plugin.State.{
  PlugIn, HostCall, write_box_acquired, properties_changed, request_configuration_change,
  dispatched,
}
use lat_sofaudio.Plugin.Monad.{returned}
use lat_sofaudio.Plugin.Property.{Input, changed}
use lat_sofaudio.Plugin.Lifecycle.{Stored, boolean, Timebase, initialize}
use lat_sofaudio.Plugin.Lifecycle.Settings.{initialize-boolean}
use lat_sofaudio.Plugin.BoxObject.{save_acquired, set}

-- What the HAL's storage holds under "box acquired" after these calls (newest first).
unfoldable pub written : List HostCall → Option Bool
written [] = none
written (write_box_acquired b ∷ cs) = some b
written (properties_changed o as' ∷ cs) = written cs
written (request_configuration_change n ∷ cs) = written cs
written (dispatched c ∷ cs) = written cs

module _ {fl : Floats} where
  -- Setting the acquired state with the mutex free: it becomes whether the value is not 0; the
  -- property and the device list are reported as changed exactly if it was another before; and then
  -- the new state is what the storage holds.
  pub set_acquired_lem :
      (i : Input fl) (s : PlugIn fl)
      → s.state_mutex ≡ false
      → let new = not (i.as_u32 == 0) in
        (addresses : List Address) × (s' : PlugIn fl) × (set 4 (some i) acquired s
          ≡ returned addresses s')
        × (s'.box_acquired ≡ new)
        × (addresses ≡ (
            if differ s.box_acquired new
            then changed acquired ∷ changed box_device_list ∷ []
            else []))
        × (written s'.host_calls
            ≡ (if differ s.box_acquired new then some new else written s.host_calls))
  unfolding set written
  set_acquired_lem i s free =
      let new = not (i.as_u32 == 0) in
      (
        if differ s.box_acquired new then changed acquired ∷ changed box_device_list ∷ [] else [],
        if differ s.box_acquired new then save_acquired new s else s,
        ground arith,
        ground arith,
        refl,
        ground arith,
      )

  -- If the acquired state is set to another one, and the storage holds what was written, then
  -- Initialize, in any instance of the plug-in, takes up the state that was set.
  pub set_acquired-initialize :
      (i : Input fl) (s t : PlugIn fl) (storage : String → Stored) (tb : Timebase) (stored : Bool)
      → s.state_mutex ≡ false
      → differ s.box_acquired (not (i.as_u32 == 0)) ≡ true
      → (addresses : List Address) (s' : PlugIn fl)
      → set 4 (some i) acquired s ≡ returned addresses s'
      → written s'.host_calls ≡ some stored
      → storage "box acquired" ≡ boolean stored
      → (t' : PlugIn fl) × (initialize driver_ref storage tb t ≡ returned tt t')
        × (t'.box_acquired ≡ s'.box_acquired)
  unfolding set written
  set_acquired-initialize i s t storage tb stored free other addresses s' e w h =
      let (t', runs, same, _) = initialize-boolean storage tb t stored h in (t', runs, ground arith)
