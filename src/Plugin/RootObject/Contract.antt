-- ===== src/Plugin/RootObject/Contract.antt =====
-- LatSOF_GetPlugInPropertyData against its contract, and against the other handlers of the plug-in.
use lat_sofaudio.Prelude.{
  ℕ, ◌-◌, ◌*◌, ◌≤◌, ◌<◌, ◌≡◌, ◌≢◌, sym, ap, ◌∙◌, false, some, List, [], ◌∷◌, length, String,
  if◌then◌else◌, arith,
}
use lat_sofaudio.Plugin.Types.{
  ObjectId, box, device, owned_objects, box_list, plug_in_device_list, Selector, base_class,
  resource_bundle, translate_uid_to_box, translate_uid_to_device, bad_property_size,
}
use lat_sofaudio.Plugin.Floats.{Floats}
use lat_sofaudio.Plugin.State.{PlugIn}
use lat_sofaudio.Plugin.Monad.{returned, failed}
use lat_sofaudio.Plugin.Property.{Abi, Request, word, bytes, SetRequest}
use lat_sofaudio.Plugin.Property.Sound.{
  IsSound, Fits, reported, asked, returns, check_get-cases, Leaves, check_set-cases,
}
use lat_sofaudio.Plugin.RootObject.{
  has, is_plug_in, settable, clamped, objects, give_objects, translate, size_of, get,
  get_plug_in_property_data, set_plug_in_property_data,
}

-- The first `k` objects take `k` words, if there are so many.
bytes-objects :
    (fl : Floats) (abi : Abi) (k : ℕ) (os : List ObjectId)
    → k ≤ length os
    → bytes {fl = fl} abi (objects k os) ≡ k * word
unfolding objects
bytes-objects fl abi k [] h = omega arith
bytes-objects fl abi k (o ∷ os) h = ground (arith, bytes-objects fl abi (k - 1) os)

clamped-le : (n most : ℕ) → (clamped n most ≤ most) × (clamped n most * word ≤ n)
unfolding clamped
clamped-le n most = ground arith

module _ {fl : Floats} (abi : Abi) where
  give_objects-IsSound :
      (n : ℕ) (os : List ObjectId) (most : ℕ) (s : PlugIn fl)
      → most ≤ length os
      → IsSound abi n (give_objects n os most s)
  unfolding give_objects
  give_objects-IsSound n os most s h =
      let b = bytes-objects fl abi (clamped n most) os (omega (arith, clamped-le n most)) in
      (omega (arith, b, clamped-le n most), ap some (sym b))

  translate-IsSound :
      (uid : String) (o : ObjectId) (r : Request fl) (s : PlugIn fl)
      → IsSound abi r.data_size (translate uid o r s)
  unfolding translate
  translate-IsSound uid o r s = ground arith

  get_root-IsSound :
      (r : Request fl) (p : Selector) (s : PlugIn fl)
      → p ≢ resource_bundle
      → IsSound abi r.data_size (get r p s)
  unfolding get
  get_root-IsSound r base_class s h = ground arith
  get_root-IsSound r owned_objects s h =
      give_objects-IsSound r.data_size (box ∷ device ∷ []) (if s.box_acquired then 2 else 1) s
        (ground arith)
  get_root-IsSound r box_list s h = give_objects-IsSound r.data_size (box ∷ []) 1 s (omega arith)
  get_root-IsSound r plug_in_device_list s h =
      give_objects-IsSound r.data_size (device ∷ []) (if s.box_acquired then 1 else 0) s
        (ground arith)
  get_root-IsSound r translate_uid_to_box s h = translate-IsSound _ box r s
  get_root-IsSound r translate_uid_to_device s h = translate-IsSound _ device r s
  get_root-IsSound r _ s h = ground arith

  -- A request for any property of the plug-in but the resource bundle ends: it fails, or stores at
  -- most the bytes that the caller has room for and reports exactly the bytes stored.
  pub get_plug_in_property_data-IsSound :
      (r : Request fl) (s : PlugIn fl)
      → asked r.address ≢ some resource_bundle
      → IsSound abi r.data_size (get_plug_in_property_data r s)
  unfolding get_plug_in_property_data
  get_plug_in_property_data-IsSound r s h =
      check_get-cases (IsSound abi r.data_size) is_plug_in r (λ a. get r a.selector) s (λ e. tt)
        λ a o. get_root-IsSound r a.selector s (λ u. h (ap asked o ∙ ap some u))

  -- The overrun: with room for an object ID and less than a pointer, the resource bundle's path is
  -- stored all the same, past the end of the caller's buffer.
  pub resource_bundle_overruns :
      (r : Request fl) (s : PlugIn fl)
      → 4 ≤ r.data_size
      → r.data_size < 8
      → ¬ Fits abi r.data_size (get r resource_bundle s)
  unfolding get
  resource_bundle_overruns r s lo hi = ground arith

module _ {fl : Floats} where
  -- A qualifier of the size of a CFStringRef, the only one that names a UID, is refused: with it
  -- neither a box nor a device is ever found by its UID.
  pub translate_refused :
      (r : Request fl) (s : PlugIn fl)
      → r.qualifier_size ≡ 8
      → (get r translate_uid_to_box s ≡ failed bad_property_size s)
        × (get r translate_uid_to_device s ≡ failed bad_property_size s)
  unfolding get translate
  translate_refused r s h = ground arith

  -- A buffer of the size that LatSOF_GetPlugInPropertyDataSize gives gets the property, and that size
  -- is reported: for every property but the two translations of a UID.
  pub plug_in_get-size_of :
      (r : Request fl) (p : Selector) (s s' : PlugIn fl)
      → p ≢ translate_uid_to_box
      → p ≢ translate_uid_to_device
      → size_of p s ≡ returned r.data_size s'
      → reported (get r p s) ≡ some r.data_size
  unfolding get give_objects clamped size_of
  plug_in_get-size_of r base_class s s' b d e = ground arith
  plug_in_get-size_of r _ s s' b d e = ground arith

  -- The plug-in's handlers know the same properties: the ones that it has are those whose size and
  -- settability can be got.
  pub plug_in_has-agrees :
      (p : Selector) (s : PlugIn fl)
      → (returns (size_of p s) ≡ has p) × (returns (settable p s) ≡ has p)
  unfolding size_of settable has
  plug_in_has-agrees base_class s = ground arith
  plug_in_has-agrees _ s = ground arith

  pub set_plug_in_property_data-Leaves :
      (r : SetRequest fl) (s : PlugIn fl)
      → s.state_mutex ≡ false
      → Leaves false (set_plug_in_property_data r s)
  unfolding set_plug_in_property_data
  set_plug_in_property_data-Leaves r s free =
      check_set-cases (Leaves false) is_plug_in r _ s (λ e. free) λ a. free
