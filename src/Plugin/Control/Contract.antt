-- ===== src/Plugin/Control/Contract.antt =====
-- The control handlers against the contract of a Get handler, and against each other.
use lat_sofaudio.Prelude.{false, is_none, ℕ, zero, suc, ◌*◌, ◌≤◌, ◌≡◌, refl, sym, ap, some, arith}
use lat_sofaudio.Plugin.Types.{
  ObjectId, volume_input_master, volume_output_master, mute_input_master, mute_output_master,
  data_source_input_master, data_source_output_master, Selector, base_class, available_items,
}
use lat_sofaudio.Plugin.Floats.{Floats}
use lat_sofaudio.Plugin.State.{PlugIn}
use lat_sofaudio.Plugin.Property.{Abi, Request, bytes, word}
use lat_sofaudio.Plugin.Property.Sound.{IsSound, check_get-cases}
use lat_sofaudio.Plugin.Control.Volume.{get_volume}
use lat_sofaudio.Plugin.Control.Mute.{get_mute}
use lat_sofaudio.Plugin.Control.DataSource.{items_to_fetch, item_indices, get_source}
use lat_sofaudio.Plugin.Control.{any_object, get, get_control_property_data}

items_to_fetch-le : (n : ℕ) → (items_to_fetch n ≤ 1) × (items_to_fetch n * word ≤ n)
unfolding items_to_fetch
items_to_fetch-le n = ground arith

bytes-item_indices :
    (fl : Floats) (abi : Abi) (i k : ℕ) → bytes abi (item_indices {fl = fl} i k) ≡ k * word
unfolding item_indices
bytes-item_indices fl abi i zero = refl
bytes-item_indices fl abi i (suc k) = ground (arith, bytes-item_indices fl abi (suc i) k)

module _ {fl : Floats} (abi : Abi) where
  get_volume-IsSound :
      (r : Request fl) (p : Selector) (s : PlugIn fl)
      → s.state_mutex ≡ false
      → IsSound abi r.data_size (get_volume abi.value_range_bytes r p s)
  unfolding get_volume
  get_volume-IsSound r base_class s free = ground arith
  get_volume-IsSound r _ s free = ground arith

  get_mute-IsSound :
      (r : Request fl) (p : Selector) (s : PlugIn fl)
      → s.state_mutex ≡ false
      → IsSound abi r.data_size (get_mute r p s)
  unfolding get_mute
  get_mute-IsSound r base_class s free = ground arith
  get_mute-IsSound r _ s free = ground arith

  get_source-IsSound :
      (r : Request fl) (p : Selector) (s : PlugIn fl)
      → s.state_mutex ≡ false
      → is_none r.qualifier ≡ false
      → IsSound abi r.data_size (get_source r p s)
  unfolding get_source
  get_source-IsSound r available_items s free q =
      let same = bytes-item_indices fl abi 0 (items_to_fetch r.data_size) in
      (omega (arith, same, items_to_fetch-le r.data_size), ap some (sym same))
  get_source-IsSound r base_class s free q = ground arith
  get_source-IsSound r _ s free q = ground arith

  get_control-IsSound :
      (r : Request fl) (o : ObjectId) (p : Selector) (s : PlugIn fl)
      → s.state_mutex ≡ false
      → is_none r.qualifier ≡ false
      → IsSound abi r.data_size (get abi r o p s)
  unfolding get
  get_control-IsSound r volume_input_master p s free q = get_volume-IsSound r p s free
  get_control-IsSound r volume_output_master p s free q = get_volume-IsSound r p s free
  get_control-IsSound r mute_input_master p s free q = get_mute-IsSound r p s free
  get_control-IsSound r mute_output_master p s free q = get_mute-IsSound r p s free
  get_control-IsSound r data_source_input_master p s free q = get_source-IsSound r p s free q
  get_control-IsSound r data_source_output_master p s free q = get_source-IsSound r p s free q
  get_control-IsSound r _ p s free q = tt

  -- With the mutex free and a qualifier, a request for any property of a control ends: it fails, or
  -- stores at most the bytes that the caller has room for and reports exactly the bytes stored.
  pub get_control_property_data-IsSound :
      (r : Request fl) (s : PlugIn fl)
      → s.state_mutex ≡ false
      → is_none r.qualifier ≡ false
      → IsSound abi r.data_size (get_control_property_data abi r s)
  unfolding get_control_property_data
  get_control_property_data-IsSound r s free q =
      check_get-cases (IsSound abi r.data_size) any_object r (λ a. get abi r r.object a.selector) s
        (λ e. tt) λ a o. get_control-IsSound r r.object a.selector s free q
