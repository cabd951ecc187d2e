-- ===== src/Plugin/BoxObject.antt =====
-- The box object of plugin/LatSOFAudioPlugin.c: LatSOF_HasBoxProperty,
-- LatSOF_IsBoxPropertySettable, LatSOF_GetBoxPropertyDataSize, LatSOF_GetBoxPropertyData and
-- LatSOF_SetBoxPropertyData.
pub mod Contract
pub mod Locking
pub mod Acquire
use lat_sofaudio.Prelude.{
  ℕ, Bool, true, false, not, Option, none, some, List, [], ◌∷◌, String, differ, ◌==◌, if◌then◌else◌,
}
use lat_sofaudio.Plugin.Types.{
  DriverRef, is_driver, ObjectId, plug_in, box, device, Selector, base_class, class, owner, name,
  model_name, manufacturer, owned_objects, identify, serial_number, firmware_version, box_uid,
  transport_type, has_audio, has_video, has_midi, is_protected, acquired, acquisition_failed,
  box_device_list, plug_in_device_list, object_class, box_class, Address, unknown_property,
}
use lat_sofaudio.Plugin.Floats.{Floats}
use lat_sofaudio.Plugin.State.{PlugIn, properties_changed, write_box_acquired, dispatched}
use lat_sofaudio.Plugin.Monad.{M, ◌>>=◌, ◌>>◌, pure, read, modify, fail, lock_state, unlock_state}
use lat_sofaudio.Plugin.Property.{
  word, wide, Item, class_id, object_id, text, u32, constant, transport_type_built_in, Request,
  Reply, check_get, check_place, enough, give, Input, SetRequest, changed, check_set, input_of,
  exactly,
}

abbrev pub is_box : ObjectId → Bool
is_box box = true
is_box _ = false

-- The switch of LatSOF_HasBoxProperty.
pub has : Selector → Bool
has base_class = true
has class = true
has owner = true
has name = true
has model_name = true
has manufacturer = true
has owned_objects = true
has identify = true
has serial_number = true
has firmware_version = true
has box_uid = true
has transport_type = true
has has_audio = true
has has_video = true
has has_midi = true
has is_protected = true
has acquired = true
has acquisition_failed = true
has box_device_list = true
has _ = false

module _ {fl : Floats} where
  -- The switch of LatSOF_IsBoxPropertySettable.
  pub settable : Selector → M fl Bool
  settable base_class = pure false
  settable class = pure false
  settable owner = pure false
  settable model_name = pure false
  settable manufacturer = pure false
  settable owned_objects = pure false
  settable serial_number = pure false
  settable firmware_version = pure false
  settable box_uid = pure false
  settable transport_type = pure false
  settable has_audio = pure false
  settable has_video = pure false
  settable has_midi = pure false
  settable is_protected = pure false
  settable acquisition_failed = pure false
  settable box_device_list = pure false
  settable name = pure true
  settable identify = pure true
  settable acquired = pure true
  settable _ = fail unknown_property

  pub is_box_property_settable : Request fl → M fl Bool
  unfolding settable
  is_box_property_settable r = do a ← check_place is_box r; settable a.selector

  -- The switch of LatSOF_GetBoxPropertyDataSize: *outDataSize.
  unfoldable pub size_of : Selector → M fl ℕ
  size_of base_class = pure word
  size_of class = pure word
  size_of owner = pure word
  size_of name = pure wide
  size_of model_name = pure wide
  size_of manufacturer = pure wide
  size_of owned_objects = pure 0
  size_of identify = pure word
  size_of serial_number = pure wide
  size_of firmware_version = pure wide
  size_of box_uid = pure wide
  size_of transport_type = pure word
  size_of has_audio = pure word
  size_of has_video = pure word
  size_of has_midi = pure word
  size_of is_protected = pure word
  size_of acquired = pure word
  size_of acquisition_failed = pure word
  size_of box_device_list = do
    lock_state
    s ← read
    unlock_state
    pure (if s.box_acquired then word else 0)
  size_of _ = fail unknown_property

  pub get_box_property_data_size : Request fl → M fl ℕ
  unfolding size_of
  get_box_property_data_size r = do a ← check_place is_box r; size_of a.selector

  -- kAudioBoxPropertyDeviceList. The FailWithAction leaves by `goto Done`, past the unlock.
  pub get_device_list : ℕ → M fl (Reply fl)
  get_device_list n = do
    lock_state
    s ← read
    reply ←
        (if s.box_acquired
          then (do enough n word; give (object_id device) word)
          else pure (record { size = some 0; items = [] }))
    unlock_state
    pure reply

  -- The switch of LatSOF_GetBoxPropertyData, with inDataSize `n`.
  pub get : ℕ → Selector → M fl (Reply fl)
  unfolding get_device_list
  get n base_class = do enough n word; give (class_id object_class) word
  get n class = do enough n word; give (class_id box_class) word
  get n owner = do enough n word; give (object_id plug_in) word
  get n name = do enough n wide; lock_state; s ← read; unlock_state; give (text s.box_name) wide
  get n model_name = do enough n wide; give (text (some "LatSOF Audio")) wide
  get n manufacturer = do enough n wide; give (text (some "LatSOF Audio")) wide
  get n owned_objects = pure (record { size = some 0; items = [] })
  get n identify = do enough n word; give (u32 0) word
  get n serial_number = do enough n wide; give (text (some "00000001")) wide
  get n firmware_version = do enough n wide; give (text (some "1.0")) wide
  get n box_uid = do
    enough n wide
    pure (record { size = none; items = text (some "LatSOFBox_UID") ∷ [] })
  get n transport_type = do enough n word; give (constant transport_type_built_in) word
  get n has_audio = do enough n word; give (u32 1) word
  get n has_video = do enough n word; give (u32 0) word
  get n has_midi = do enough n word; give (u32 0) word
  get n is_protected = do enough n word; give (u32 0) word
  get n acquired = do
    enough n word
    lock_state
    s ← read
    unlock_state
    give (u32 (if s.box_acquired then 1 else 0)) word
  get n acquisition_failed = do enough n word; give (u32 0) word
  get n box_device_list = get_device_list n
  get n _ = fail unknown_property

  pub get_box_property_data : Request fl → M fl (Reply fl)
  unfolding get
  get_box_property_data r = do a ← check_get is_box r; get r.data_size a.selector

  -- kAudioObjectPropertyName. (The reference counts of the two strings are not modelled.)
  pub set_name : ℕ → Option (Input fl) → M fl (List Address)
  set_name n input = do
    exactly n wide
    lock_state
    i ← input_of input
    modify (λ s. record s { box_name = i.as_text })
    unlock_state
    pure (changed name ∷ [])

  -- kAudioObjectPropertyIdentify: a notification is dispatched for two seconds later.
  pub set_identify : ℕ → M fl (List Address)
  set_identify n = do
    exactly n word
    modify (λ s. record s {
      host_calls = dispatched (properties_changed box (changed identify ∷ [])) ∷ s.host_calls;
    })
    pure []

  -- The new value differs from the old one: it is saved in the globals and in the HAL's storage, and
  -- the plug-in's device list is announced.
  unfoldable pub save_acquired : Bool → PlugIn fl → PlugIn fl
  save_acquired new s = record s {
    box_acquired = new;
    host_calls =
        dispatched (properties_changed plug_in (changed plug_in_device_list ∷ []))
        ∷ write_box_acquired new
        ∷ s.host_calls;
  }

  -- kAudioBoxPropertyAcquired
  pub set_acquired : ℕ → Option (Input fl) → M fl (List Address)
  unfolding save_acquired
  set_acquired n input = do
    exactly n word
    lock_state
    i ← input_of input
    let new = not (i.as_u32 == 0)
    s ← read
    addresses ←
        (if differ s.box_acquired new
          then (do
            modify (save_acquired new)
            pure (changed acquired ∷ changed box_device_list ∷ []))
          else pure [])
    unlock_state
    pure addresses

  -- The switch of LatSOF_SetBoxPropertyData: the addresses that it reports as changed.
  unfoldable pub set : ℕ → Option (Input fl) → Selector → M fl (List Address)
  unfolding set_name set_identify set_acquired
  set n input name = set_name n input
  set n input identify = set_identify n
  set n input acquired = set_acquired n input
  set n input _ = fail unknown_property

  pub set_box_property_data : SetRequest fl → M fl (List Address)
  unfolding set
  set_box_property_data r = do a ← check_set is_box r; set r.data_size r.input a.selector

-- LatSOF_HasBoxProperty
pub has_box_property : DriverRef → ObjectId → Option Address → Bool
has_box_property d o none = false
has_box_property d o (some a) =
    if is_driver d then (if is_box o then has a.selector else false) else false
