-- ===== src/Plugin/BoxObject/Contract.antt =====
-- LatSOF_GetBoxPropertyData against its contract, and against the other handlers of the box.
use lat_sofaudio.Prelude.{ℕ, ◌≤◌, ◌≡◌, ◌≢◌, ap, ◌∙◌, false, true, not, Option, none, some, arith}
use lat_sofaudio.Plugin.Types.{Selector, base_class, box_uid}
use lat_sofaudio.Plugin.Floats.{Floats}
use lat_sofaudio.Plugin.State.{PlugIn}
use lat_sofaudio.Plugin.Monad.{returned}
use lat_sofaudio.Plugin.Property.{Abi, Request, Input}
use lat_sofaudio.Plugin.Property.Sound.{
  IsSound, reported, asked, returns, is_unknown, answers_yes, check_get-cases,
}
use lat_sofaudio.Plugin.BoxObject.{has, is_box, settable, size_of, get, get_box_property_data, set}

module _ {fl : Floats} (abi : Abi) where
  get-IsSound :
      (n : ℕ) (p : Selector) (s : PlugIn fl)
      → s.state_mutex ≡ false
      → p ≢ box_uid
      → IsSound abi n (get n p s)
  unfolding get
  get-IsSound n base_class s free h = ground arith
  get-IsSound n _ s free h = ground arith

  -- With the mutex free, a request for any property of the box but its UID ends: it fails, or stores
  -- at most the bytes that the caller has room for and reports exactly the bytes stored.
  pub get_box_property_data-IsSound :
      (r : Request fl) (s : PlugIn fl)
      → s.state_mutex ≡ false
      → asked r.address ≢ some box_uid
      → IsSound abi r.data_size (get_box_property_data r s)
  unfolding get_box_property_data
  get_box_property_data-IsSound r s free h =
      check_get-cases (IsSound abi r.data_size) is_box r (λ a. get r.data_size a.selector) s
        (λ e. tt) λ a o. get-IsSound r.data_size a.selector s free (λ u. h (ap asked o ∙ ap some u))

module _ {fl : Floats} where
  -- A request for the box's UID that has room for it leaves *outDataSize as it was.
  pub get_box_uid_unreported :
      (n : ℕ) (s : PlugIn fl)
      → 8 ≤ n
      → (returns (get n box_uid s) ≡ true) × (reported (get n box_uid s) ≡ none)
  unfolding get
  get_box_uid_unreported n s h = ground arith

  -- With the mutex free, a buffer of the size that LatSOF_GetBoxPropertyDataSize gives, or a larger
  -- one, gets the property, and that size is reported: for every property but the UID.
  pub box_get-size_of :
      (m n : ℕ) (p : Selector) (s s' : PlugIn fl)
      → s.state_mutex ≡ false
      → p ≢ box_uid
      → size_of p s ≡ returned n s'
      → n ≤ m
      → reported (get m p s) ≡ some n
  unfolding get size_of
  box_get-size_of m n base_class s s' free h e le = ground arith
  box_get-size_of m n _ s s' free h e le = ground arith

  -- With the mutex free and room for a pointer, the box's handlers know the same properties: the
  -- ones that it has are those whose size, settability and value can be got.
  pub box_has-agrees :
      (n : ℕ) (p : Selector) (s : PlugIn fl)
      → s.state_mutex ≡ false
      → 8 ≤ n
      → (returns (size_of p s) ≡ has p)
        × (returns (settable p s) ≡ has p)
        × (returns (get n p s) ≡ has p)
  unfolding get size_of settable has
  box_has-agrees n base_class s free h = ground arith
  box_has-agrees n _ s free h = ground arith

  -- With the mutex free, the box's settable properties are those that LatSOF_SetBoxPropertyData
  -- knows, whatever the data.
  pub box_settable-set :
      (n : ℕ) (i : Option (Input fl)) (p : Selector) (s : PlugIn fl)
      → s.state_mutex ≡ false
      → answers_yes (settable p s) ≡ not (is_unknown (set n i p s))
  unfolding settable set
  box_settable-set n i base_class s free = ground arith
  box_settable-set n i _ s free = ground arith
