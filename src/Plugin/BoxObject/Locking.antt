-- ===== src/Plugin/BoxObject/Locking.antt =====
-- The state mutex across the box's handlers.
use lat_sofaudio.Prelude.{ℕ, ◌≤◌, ◌<◌, ◌≡◌, ◌≢◌, refl, false, true, some, arith, ◌⊎◌}
use lat_sofaudio.Plugin.Types.{
  Selector, base_class, box_device_list, driver_ref, device, bad_property_size,
}
use lat_sofaudio.Plugin.Floats.{Floats}
use lat_sofaudio.Plugin.State.{PlugIn}
use lat_sofaudio.Plugin.Monad.{failed, blocked}
use lat_sofaudio.Plugin.Property.{Input, SetRequest}
use lat_sofaudio.Plugin.Property.Sound.{Leaves, check_set-cases}
use lat_sofaudio.Plugin.Io.{KextAnswers, start_io}
use lat_sofaudio.Plugin.Io.Clients.{start_io-blocked}
use lat_sofaudio.Plugin.BoxObject.{get, set, set_box_property_data, is_box}

module _ {fl : Floats} where
  -- With the mutex free, getting a property of the box ends and leaves it free, but perhaps for the
  -- device list with room for less than an object ID.
  pub get-Leaves :
      (n : ℕ) (p : Selector) (s : PlugIn fl)
      → s.state_mutex ≡ false
      → (p ≢ box_device_list) ⊎ (4 ≤ n)
      → Leaves false (get n p s)
  unfolding get
  get-Leaves n base_class s free h = ground arith
  get-Leaves n _ s free h = ground arith

  -- The mutex leak: while the box is acquired, getting the device list with room for less than an
  -- object ID returns with the mutex held, and from then on StartIO waits for ever.
  pub device_list_leaks :
      (n : ℕ) (s : PlugIn fl) (k : KextAnswers)
      → s.state_mutex ≡ false
      → s.box_acquired ≡ true
      → n < 4
      → (s' : PlugIn fl) × (get n box_device_list s ≡ failed bad_property_size s')
        × (start_io driver_ref device k s' ≡ blocked)
  unfolding get
  device_list_leaks n s k free got small = (
    record s { state_mutex = true },
    ground arith,
    start_io-blocked k (record s { state_mutex = true }) refl,
  )

  -- With the mutex free, setting a property of the box, the data given, ends and leaves it free.
  pub set-Leaves :
      (n : ℕ) (i : Input fl) (p : Selector) (s : PlugIn fl)
      → s.state_mutex ≡ false
      → Leaves false (set n (some i) p s)
  unfolding set
  set-Leaves n i base_class s free = ground arith
  set-Leaves n i _ s free = ground arith

  pub set_box_property_data-Leaves :
      (r : SetRequest fl) (i : Input fl) (s : PlugIn fl)
      → r.input ≡ some i
      → s.state_mutex ≡ false
      → Leaves false (set_box_property_data r s)
  unfolding set_box_property_data
  set_box_property_data-Leaves r i s given free =
      check_set-cases (Leaves false) is_box r _ s (λ e. free)
        λ a. rw given (set-Leaves r.data_size i a.selector s free)
