-- ===== src/Plugin/Device/Agree.antt =====
-- The device's handlers against each other.
use lat_sofaudio.Prelude.{
  ℕ, ◌*◌, ◌≤◌, ◌<◌, ◌≡◌, refl, Bool, false, true, not, Option, none, some, arith, ◌++◌, List,
}
use native.Mathlib.Nat.{le-div_iff_mul-le}
use lat_sofaudio.Plugin.Types.{
  Selector, base_class, owned_objects, streams, control_list, available_nominal_sample_rates, Scope,
  scope_global, scope_input, scope_output, other_scope,
}
use lat_sofaudio.Plugin.Floats.{Floats}
use lat_sofaudio.Plugin.State.{PlugIn}
use lat_sofaudio.Plugin.Monad.{returned}
use lat_sofaudio.Plugin.Property.{Abi, Item, Input, SetRequest}
use lat_sofaudio.Plugin.Property.Sound.{
  Fits, reported, stored, returns, is_unknown, answers_yes, Leaves, check_set-cases,
}
use lat_sofaudio.Plugin.Device.Objects.{
  offset, next, control_at, clamped_to, object_items, object_reply, owned_reply, streams_reply,
}
use lat_sofaudio.Plugin.Device.Queries.{is_the_device, has, settable, size_of}
use lat_sofaudio.Plugin.Device.{
  rates_to_fetch, get_rates, get_icon, get, set, set_rate, set_device_property_data,
}
use lat_sofaudio.Plugin.Device.Contract.{is_named}

abbrev pub is_output : Scope → Bool
is_output scope_output = true
is_output _ = false

-- With room for them all.
clamped_to-all : (most n : ℕ) → most * 4 ≤ n → clamped_to most n ≡ most
unfolding clamped_to
clamped_to-all most n h = ground arith

rates_to_fetch-all :
    (abi : Abi) (n : ℕ)
    → 0 < abi.value_range_bytes
    → 2 * abi.value_range_bytes ≤ n
    → rates_to_fetch abi n ≡ 2
unfolding rates_to_fetch
rates_to_fetch-all abi n pos h =
    ground (arith, (le-div_iff_mul-le {k = abi.value_range_bytes} {x = 2} {y = n} pos).1 h)

module _ {fl : Floats} where
  -- Both lists, the one behind the other, or the first alone.
  abbrev pub both :
      Bool → Option (List (Item fl)) → Option (List (Item fl)) → Option (List (Item fl))
  both true a b = a
  both false none b = none
  both false (some xs) none = none
  both false (some xs) (some ys) = some (xs ++ ys)

  -- With room for two sample rates, two are reported and one is stored: the second half of what is
  -- reported stays as the caller's buffer was.
  pub rates_unwritten :
      (b : Option (Option ℕ)) (abi : Abi) (n : ℕ) (c : Scope) (s : PlugIn fl)
      → 0 < abi.value_range_bytes
      → 2 * abi.value_range_bytes ≤ n
      → (reported (get b abi n c available_nominal_sample_rates s)
          ≡ some (2 * abi.value_range_bytes))
        × (Fits abi abi.value_range_bytes (get b abi n c available_nominal_sample_rates s))
  unfolding get get_rates
  rates_unwritten b abi n c s pos h = ground (arith, rates_to_fetch-all abi n pos h)

  -- A buffer of the size that LatSOF_GetDevicePropertyDataSize gives gets the property, and that size
  -- is reported: with the mutex free, and the icon found.
  pub device_get-size_of :
      (u : ℕ) (abi : Abi) (n : ℕ) (c : Scope) (p : Selector) (s s' : PlugIn fl)
      → 0 < abi.value_range_bytes
      → s.state_mutex ≡ false
      → size_of abi c p s ≡ returned (some n) s'
      → reported (get (some (some u)) abi n c p s) ≡ some n
  unfolding get get_rates get_icon object_reply owned_reply streams_reply clamped_to size_of
  device_get-size_of u abi n c available_nominal_sample_rates s s' pos free e =
      ground (arith, rates_to_fetch-all abi n pos)
  device_get-size_of u abi n scope_global owned_objects s s' pos free e = ground arith
  device_get-size_of u abi n scope_input owned_objects s s' pos free e = ground arith
  device_get-size_of u abi n scope_output owned_objects s s' pos free e = ground arith
  device_get-size_of u abi n (other_scope m) owned_objects s s' pos free e = ground arith
  device_get-size_of u abi n scope_global streams s s' pos free e = ground arith
  device_get-size_of u abi n scope_input streams s s' pos free e = ground arith
  device_get-size_of u abi n scope_output streams s s' pos free e = ground arith
  device_get-size_of u abi n (other_scope m) streams s s' pos free e = ground arith
  device_get-size_of u abi n c base_class s s' pos free e = ground arith
  device_get-size_of u abi n c _ s s' pos free e = ground arith

  -- With the mutex free, the size and the settability of every property that the device has can be
  -- got, and the settable ones are those that LatSOF_SetDevicePropertyData knows, whatever the data.
  pub device_has-agrees :
      (abi : Abi) (n : ℕ) (i : Option (Input fl)) (c : Scope) (p : Selector) (s : PlugIn fl)
      → s.state_mutex ≡ false
      → has c p ≡ true
      → (returns (size_of abi c p s) ≡ true)
        × (returns (settable p s) ≡ true)
        × (answers_yes (settable p s) ≡ not (is_unknown (set n i p s)))
  unfolding has size_of settable set set_rate
  device_has-agrees abi n i c base_class s free h = ground arith
  device_has-agrees abi n i c _ s free h = ground arith

  -- With room for four objects, the objects that the device owns in the global or the input scope are
  -- its streams there and then its controls; in the output scope, they are its streams alone.
  pub owned-streams_controls :
      (b : Option (Option ℕ)) (abi : Abi) (n : ℕ) (c : Scope) (s : PlugIn fl)
      → 16 ≤ n
      → is_named c ≡ true
      → stored (get b abi n c owned_objects s)
        ≡ both
            (is_output c)
            (stored (get b abi n c streams s))
            (stored (get b abi n c control_list s))
  unfolding get object_reply owned_reply streams_reply object_items control_at offset next
  owned-streams_controls b abi n scope_global s room h =
      rw
        (
          clamped_to-all 4 n (omega arith),
          clamped_to-all 3 n (omega arith),
          clamped_to-all 1 n (omega arith),
        )
        refl
  owned-streams_controls b abi n scope_input s room h =
      rw
        (
          clamped_to-all 4 n (omega arith),
          clamped_to-all 3 n (omega arith),
          clamped_to-all 1 n (omega arith),
        )
        refl
  owned-streams_controls b abi n scope_output s room h = refl
  owned-streams_controls b abi n (other_scope m) s room h = ground arith

  pub set_device-Leaves :
      (n : ℕ) (i : Input fl) (p : Selector) (s : PlugIn fl)
      → s.state_mutex ≡ false
      → Leaves false (set n (some i) p s)
  unfolding set set_rate
  set_device-Leaves n i base_class s free = ground arith
  set_device-Leaves n i _ s free = ground arith

  pub set_device_property_data-Leaves :
      (r : SetRequest fl) (i : Input fl) (s : PlugIn fl)
      → r.input ≡ some i
      → s.state_mutex ≡ false
      → Leaves false (set_device_property_data r s)
  unfolding set_device_property_data
  set_device_property_data-Leaves r i s given free =
      check_set-cases (Leaves false) is_the_device r _ s (λ e. free)
        λ a. rw given (set_device-Leaves r.data_size i a.selector s free)
