-- ===== src/Plugin/RootObject.antt =====
-- The plug-in object of plugin/LatSOFAudioPlugin.c: LatSOF_HasPlugInProperty,
-- LatSOF_IsPlugInPropertySettable, LatSOF_GetPlugInPropertyDataSize, LatSOF_GetPlugInPropertyData and
-- LatSOF_SetPlugInPropertyData.
pub mod Contract
use lat_sofaudio.Prelude.{
  ℕ, ◌+◌, ◌-◌, ◌*◌, ◌/◌, Bool, true, false, not, Option, none, some, List, [], ◌∷◌, String, ltb,
  ◌==◌, if◌then◌else◌, is_none, str_eq,
}
use lat_sofaudio.Plugin.Types.{
  DriverRef, is_driver, ObjectId, plug_in, box, device, unknown_object, Selector, base_class, class,
  owner, manufacturer, owned_objects, box_list, translate_uid_to_box, plug_in_device_list,
  translate_uid_to_device, resource_bundle, object_class, plug_in_class, Address, unknown_property,
  bad_property_size,
}
use lat_sofaudio.Plugin.Floats.{Floats}
use lat_sofaudio.Plugin.State.{PlugIn}
use lat_sofaudio.Plugin.Monad.{M, ◌>>=◌, ◌>>◌, pure, read, fail, fail_if}
use lat_sofaudio.Plugin.Property.{
  word, wide, Item, class_id, object_id, text, Qualifier, Request, Reply, check_get, check_place,
  enough, give, SetRequest, check_set,
}

abbrev pub is_plug_in : ObjectId → Bool
is_plug_in plug_in = true
is_plug_in _ = false

-- The switch of LatSOF_HasPlugInProperty.
pub has : Selector → Bool
has base_class = true
has class = true
has owner = true
has manufacturer = true
has owned_objects = true
has box_list = true
has translate_uid_to_box = true
has plug_in_device_list = true
has translate_uid_to_device = true
has resource_bundle = true
has _ = false

-- theNumberItemsToFetch: what the caller has room for, clamped to what there is.
pub clamped : ℕ → ℕ → ℕ
clamped n most = let fetch = n / word in if ltb most fetch then most else fetch

-- The first `k` of the objects, one behind the other.
pub objects : {fl : Floats} → ℕ → List ObjectId → List (Item fl)
objects k [] = []
objects k (o ∷ os) = if ltb 0 k then object_id o ∷ objects (k - 1) os else []

module _ {fl : Floats} where
  -- The switch of LatSOF_IsPlugInPropertySettable.
  pub settable : Selector → M fl Bool
  settable base_class = pure false
  settable class = pure false
  settable owner = pure false
  settable manufacturer = pure false
  settable owned_objects = pure false
  settable box_list = pure false
  settable translate_uid_to_box = pure false
  settable plug_in_device_list = pure false
  settable translate_uid_to_device = pure false
  settable resource_bundle = pure false
  settable _ = fail unknown_property

  pub is_plug_in_property_settable : Request fl → M fl Bool
  unfolding settable
  is_plug_in_property_settable r = do a ← check_place is_plug_in r; settable a.selector

  -- The switch of LatSOF_GetPlugInPropertyDataSize: *outDataSize. It takes no lock.
  unfoldable pub size_of : Selector → M fl ℕ
  size_of base_class = pure word
  size_of class = pure word
  size_of owner = pure word
  size_of manufacturer = pure wide
  size_of owned_objects = do s ← read; pure (if s.box_acquired then 2 * word else word)
  size_of box_list = pure word
  size_of translate_uid_to_box = pure word
  size_of plug_in_device_list = do s ← read; pure (if s.box_acquired then word else 0)
  size_of translate_uid_to_device = pure word
  size_of resource_bundle = pure wide
  size_of _ = fail unknown_property

  pub get_plug_in_property_data_size : Request fl → M fl ℕ
  unfolding size_of
  get_plug_in_property_data_size r = do a ← check_place is_plug_in r; size_of a.selector

  -- The list of the first objects that there is room for.
  pub give_objects : ℕ → List ObjectId → ℕ → M fl (Reply fl)
  unfolding clamped objects
  give_objects n os most =
      let k = clamped n most in pure (record { size = some (k * word); items = objects k os })

  -- The object whose UID the qualifier is: the text is what the pointer at the qualifier leads to,
  -- which the code follows whatever the qualifier's size.
  abbrev named : String → ObjectId → Option Qualifier → M fl (Reply fl)
  named uid o none = fail bad_property_size
  named uid o (some q) = give (object_id (if str_eq q.as_text uid then o else unknown_object)) word

  -- kAudioPlugInPropertyTranslateUIDTo…: a qualifier of the size of a CFStringRef is refused.
  pub translate : String → ObjectId → Request fl → M fl (Reply fl)
  translate uid o r = do
    enough r.data_size word
    fail_if (r.qualifier_size == wide) bad_property_size
    named uid o r.qualifier

  -- The switch of LatSOF_GetPlugInPropertyData.
  pub get : Request fl → Selector → M fl (Reply fl)
  unfolding give_objects translate
  get r base_class = do enough r.data_size word; give (class_id object_class) word
  get r class = do enough r.data_size word; give (class_id plug_in_class) word
  get r owner = do enough r.data_size word; give (object_id unknown_object) word
  get r manufacturer = do enough r.data_size wide; give (text (some "LatSOF Audio")) wide
  get r owned_objects = do
    s ← read
    give_objects r.data_size (box ∷ device ∷ []) (if s.box_acquired then 2 else 1)
  get r box_list = give_objects r.data_size (box ∷ []) 1
  get r translate_uid_to_box = translate "LatSOFBox_UID" box r
  get r plug_in_device_list = do
    s ← read
    give_objects r.data_size (device ∷ []) (if s.box_acquired then 1 else 0)
  get r translate_uid_to_device = translate "LatSOFMic_UID" device r
  -- the room that is asked for is that of an AudioObjectID
  get r resource_bundle = do enough r.data_size word; give (text (some "")) wide
  get r _ = fail unknown_property

  pub get_plug_in_property_data : Request fl → M fl (Reply fl)
  unfolding get
  get_plug_in_property_data r = do a ← check_get is_plug_in r; get r a.selector

  -- LatSOF_SetPlugInPropertyData: no property can be set.
  pub set_plug_in_property_data : SetRequest fl → M fl (List Address)
  set_plug_in_property_data r = do a ← check_set is_plug_in r; fail unknown_property

-- LatSOF_HasPlugInProperty
pub has_plug_in_property : DriverRef → ObjectId → Option Address → Bool
has_plug_in_property d o none = false
has_plug_in_property d o (some a) =
    if is_driver d then (if is_plug_in o then has a.selector else false) else false
