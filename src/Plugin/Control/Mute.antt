-- ===== src/Plugin/Control/Mute.antt =====
-- The mute controls in the control handlers of plugin/LatSOFAudioPlugin.c.
use lat_sofaudio.Prelude.{
  ℕ, Bool, true, false, not, Option, some, List, [], ◌∷◌, ◌==◌, if◌then◌else◌, differ,
}
use lat_sofaudio.Plugin.Types.{
  ObjectId, mute_input_master, device, Selector, base_class, class, owner, owned_objects,
  control_scope, control_element, boolean_value, scope_input, scope_output, boolean_control_class,
  mute_control_class, Address, unknown_property,
}
use lat_sofaudio.Plugin.Floats.{Floats}
use lat_sofaudio.Plugin.State.{PlugIn}
use lat_sofaudio.Plugin.Monad.{M, ◌>>=◌, ◌>>◌, pure, read, modify, fail, lock_state, unlock_state}
use lat_sofaudio.Plugin.Property.{
  word, class_id, object_id, u32, constant, scope_value, element_main, Request, Reply, enough, give,
  Input, changed, input_of, exactly,
}

abbrev pub is_input_mute : ObjectId → Bool
is_input_mute mute_input_master = true
is_input_mute _ = false

unfoldable pub has_mute : Selector → Bool
has_mute base_class = true
has_mute class = true
has_mute owner = true
has_mute owned_objects = true
has_mute control_scope = true
has_mute control_element = true
has_mute boolean_value = true
has_mute _ = false

module _ {fl : Floats} where
  unfoldable pub mute_settable : Selector → M fl Bool
  mute_settable base_class = pure false
  mute_settable class = pure false
  mute_settable owner = pure false
  mute_settable owned_objects = pure false
  mute_settable control_scope = pure false
  mute_settable control_element = pure false
  mute_settable boolean_value = pure true
  mute_settable _ = fail unknown_property

  unfoldable pub mute_size_of : Selector → M fl ℕ
  mute_size_of base_class = pure word
  mute_size_of class = pure word
  mute_size_of owner = pure word
  mute_size_of owned_objects = pure 0
  mute_size_of control_scope = pure word
  mute_size_of control_element = pure word
  mute_size_of boolean_value = pure word
  mute_size_of _ = fail unknown_property

  abbrev pub mute_of : ObjectId → PlugIn fl → Bool
  mute_of o s = if is_input_mute o then s.mute_input else s.mute_output

  unfoldable pub get_mute : Request fl → Selector → M fl (Reply fl)
  get_mute r base_class = do enough r.data_size word; give (class_id boolean_control_class) word
  get_mute r class = do enough r.data_size word; give (class_id mute_control_class) word
  get_mute r owner = do enough r.data_size word; give (object_id device) word
  get_mute r owned_objects = pure (record { size = some 0; items = [] })
  get_mute r control_scope = do
    enough r.data_size word
    give (scope_value (if is_input_mute r.object then scope_input else scope_output)) word
  get_mute r control_element = do enough r.data_size word; give (constant element_main) word
  get_mute r boolean_value = do
    enough r.data_size word
    lock_state
    s ← read
    unlock_state
    give (u32 (if mute_of r.object s then 1 else 0)) word
  get_mute r _ = fail unknown_property

  unfoldable pub set_mute : ℕ → ObjectId → Option (Input fl) → Selector → M fl (List Address)
  set_mute n o input boolean_value = do
    exactly n word
    lock_state
    i ← input_of input
    let new = not (i.as_u32 == 0)
    s ← read
    addresses ←
        (if is_input_mute o
          then (if differ s.mute_input new
              then (do
                modify (λ s. record s { mute_input = new })
                pure (changed boolean_value ∷ []))
              else pure [])
          else (if differ s.mute_output new
              then (do
                modify (λ s. record s { mute_output = new })
                pure (changed boolean_value ∷ []))
              else pure []))
    unlock_state
    pure addresses
  set_mute n o input _ = fail unknown_property
