-- ===== src/Plugin/Device/Contract.antt =====
-- LatSOF_GetDevicePropertyData against its contract, and against the other handlers of the device.
use lat_sofaudio.Prelude.{ℕ, ◌≡◌, sym, ap, ◌∙◌, Bool, false, true, Option, none, some, arith}
use lat_sofaudio.Plugin.Types.{
  ObjectId, stream_input, device, Address, Selector, base_class, owned_objects, streams,
  control_list, related_devices, available_nominal_sample_rates, Scope, scope_global, scope_input,
  scope_output, other_scope,
}
use lat_sofaudio.Plugin.Floats.{Floats}
use lat_sofaudio.Plugin.State.{PlugIn}
use lat_sofaudio.Plugin.Monad.{returned}
use lat_sofaudio.Plugin.Property.{Abi, Request}
use lat_sofaudio.Plugin.Property.Sound.{IsSound, check_get-cases}
use lat_sofaudio.Plugin.Device.Objects.{
  offset, control_at, clamped_to, object_items, object_reply, owned_reply, streams_reply,
  clamped_to-le, bytes-object_items,
}
use lat_sofaudio.Plugin.Device.Queries.{is_the_device}
use lat_sofaudio.Plugin.Device.{get_icon, get, get_device_property_data}

-- One of the three scopes that the code names.
abbrev pub is_named : Scope → Bool
is_named (other_scope n) = false
is_named _ = true

abbrev pub asks_named : Option Address → Bool
asks_named none = true
asks_named (some a) = is_named a.scope

abbrev pub is_rates : Selector → Bool
is_rates available_nominal_sample_rates = true
is_rates _ = false

abbrev pub asks_rates : Option Address → Bool
asks_rates none = false
asks_rates (some a) = is_rates a.selector

module _ {fl : Floats} (abi : Abi) where
  object_reply-IsSound :
      (at : ℕ → ObjectId) (most n : ℕ) (s : PlugIn fl)
      → IsSound abi n (returned (object_reply at (clamped_to most n)) s)
  unfolding object_reply
  object_reply-IsSound at most n s =
      let same = bytes-object_items fl abi at 0 (clamped_to most n) in
      (omega (arith, same, clamped_to-le most n), ap some (sym same))

  owned_reply-IsSound :
      (n : ℕ) (c : Scope) (s : PlugIn fl)
      → is_named c ≡ true
      → IsSound abi n (returned (owned_reply n c) s)
  unfolding owned_reply object_reply object_items
  owned_reply-IsSound n scope_global s h = object_reply-IsSound (offset stream_input) 4 n s
  owned_reply-IsSound n scope_input s h = object_reply-IsSound (offset stream_input) 4 n s
  owned_reply-IsSound n scope_output s h = ground arith
  owned_reply-IsSound n (other_scope m) s h = ground arith

  streams_reply-IsSound :
      (n : ℕ) (c : Scope) (s : PlugIn fl)
      → is_named c ≡ true
      → IsSound abi n (returned (streams_reply n c) s)
  unfolding streams_reply
  streams_reply-IsSound n scope_global s h = object_reply-IsSound (λ i. stream_input) 1 n s
  streams_reply-IsSound n scope_input s h = object_reply-IsSound (λ i. stream_input) 1 n s
  streams_reply-IsSound n scope_output s h = ground arith
  streams_reply-IsSound n (other_scope m) s h = ground arith

  get_device-IsSound :
      (b : Option (Option ℕ)) (n : ℕ) (c : Scope) (p : Selector) (s : PlugIn fl)
      → s.state_mutex ≡ false
      → is_named c ≡ true
      → is_rates p ≡ false
      → IsSound abi n (get b abi n c p s)
  unfolding get get_icon
  get_device-IsSound b n c owned_objects s free h k = owned_reply-IsSound n c s h
  get_device-IsSound b n c streams s free h k = streams_reply-IsSound n c s h
  get_device-IsSound b n c related_devices s free h k = object_reply-IsSound (λ i. device) 1 n s
  get_device-IsSound b n c control_list s free h k = object_reply-IsSound control_at 3 n s
  get_device-IsSound b n c base_class s free h k = ground arith
  get_device-IsSound b n c _ s free h k = ground arith

  -- With the mutex free, in the global, input or output scope, a request for any property of the
  -- device but the available sample rates ends: it fails, or stores at most the bytes that the caller
  -- has room for and reports exactly the bytes stored.
  pub get_device_property_data-IsSound :
      (b : Option (Option ℕ)) (r : Request fl) (s : PlugIn fl)
      → s.state_mutex ≡ false
      → asks_named r.address ≡ true
      → asks_rates r.address ≡ false
      → IsSound abi r.data_size (get_device_property_data b abi r s)
  unfolding get_device_property_data
  get_device_property_data-IsSound b r s free h k =
      check_get-cases (IsSound abi r.data_size) is_the_device r
        (λ a. get b abi r.data_size a.scope a.selector) s (λ e. tt)
        λ a o.
          get_device-IsSound b r.data_size a.scope a.selector s free (sym (ap asks_named o) ∙ h)
            (sym (ap asks_rates o) ∙ k)
