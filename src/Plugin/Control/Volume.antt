-- ===== src/Plugin/Control/Volume.antt =====
-- The volume controls in the control handlers of plugin/LatSOFAudioPlugin.c.
use lat_sofaudio.Prelude.{ℕ, Bool, true, false, not, Option, some, List, [], ◌∷◌, if◌then◌else◌}
use lat_sofaudio.Plugin.Types.{
  ObjectId, volume_input_master, device, Selector, base_class, class, owner, owned_objects,
  control_scope, control_element, scalar_value, decibel_value, decibel_range,
  convert_scalar_to_decibels, convert_decibels_to_scalar, scope_input, scope_output,
  level_control_class, volume_control_class, Address, unknown_property,
}
use lat_sofaudio.Plugin.Floats.{Floats}
use lat_sofaudio.Plugin.State.{PlugIn}
use lat_sofaudio.Plugin.Monad.{M, ◌>>=◌, ◌>>◌, pure, read, modify, fail, lock_state, unlock_state}
use lat_sofaudio.Plugin.Property.{
  word, class_id, object_id, f32, constant, scope_value, value_range, element_main, Request, Reply,
  enough, give, Input, changed, input_of, exactly,
}

abbrev pub is_input_volume : ObjectId → Bool
is_input_volume volume_input_master = true
is_input_volume _ = false

unfoldable pub has_volume : Selector → Bool
has_volume base_class = true
has_volume class = true
has_volume owner = true
has_volume owned_objects = true
has_volume control_scope = true
has_volume control_element = true
has_volume scalar_value = true
has_volume decibel_value = true
has_volume decibel_range = true
has_volume convert_scalar_to_decibels = true
has_volume convert_decibels_to_scalar = true
has_volume _ = false

-- kVolume_MinDB and kVolume_MaxDB
abbrev pub min_db : (fl : Floats) → fl.F32
min_db fl = fl.literal32 "-96.0"

abbrev pub max_db : (fl : Floats) → fl.F32
max_db fl = fl.literal32 "6.0"

abbrev pub nought : (fl : Floats) → fl.F32
nought fl = fl.literal32 "0.0"

abbrev pub one : (fl : Floats) → fl.F32
one fl = fl.literal32 "1.0"

-- The two clamps of LatSOF_GetControlPropertyData, one after the other. (The bounds are exact in both
-- float types, so that a comparison with a Float64 literal is one of Float32.)
unfoldable pub clamp_get : (fl : Floats) → fl.F32 → fl.F32 → fl.F32 → fl.F32
clamp_get fl lo hi x = let y = if fl.lt32 x lo then lo else x in if fl.lt32 hi y then hi else y

-- The clamp of LatSOF_SetControlPropertyData, with `else if`.
unfoldable pub clamp_set : (fl : Floats) → fl.F32 → fl.F32 → fl.F32 → fl.F32
clamp_set fl lo hi x = if fl.lt32 x lo then lo else if fl.lt32 hi x then hi else x

unfoldable pub to_decibels : (fl : Floats) → fl.F32 → fl.F32
to_decibels fl x = fl.add32 (min_db fl) (fl.mul32 (fl.mul32 x x) (fl.sub32 (max_db fl) (min_db fl)))

unfoldable pub to_scalar : (fl : Floats) → fl.F32 → fl.F32
to_scalar fl x = fl.sqrt32 (fl.div32 (fl.sub32 x (min_db fl)) (fl.sub32 (max_db fl) (min_db fl)))

module _ {fl : Floats} where
  unfoldable pub volume_settable : Selector → M fl Bool
  volume_settable base_class = pure false
  volume_settable class = pure false
  volume_settable owner = pure false
  volume_settable owned_objects = pure false
  volume_settable control_scope = pure false
  volume_settable control_element = pure false
  volume_settable decibel_range = pure false
  volume_settable convert_scalar_to_decibels = pure false
  volume_settable convert_decibels_to_scalar = pure false
  volume_settable scalar_value = pure true
  volume_settable decibel_value = pure true
  volume_settable _ = fail unknown_property

  unfoldable pub volume_size_of : ℕ → Selector → M fl ℕ
  volume_size_of range base_class = pure word
  volume_size_of range class = pure word
  volume_size_of range owner = pure word
  volume_size_of range owned_objects = pure 0
  volume_size_of range control_scope = pure word
  volume_size_of range control_element = pure word
  volume_size_of range scalar_value = pure word
  volume_size_of range decibel_value = pure word
  volume_size_of range decibel_range = pure range
  volume_size_of range convert_scalar_to_decibels = pure word
  volume_size_of range convert_decibels_to_scalar = pure word
  volume_size_of range _ = fail unknown_property

  abbrev pub volume_of : ObjectId → PlugIn fl → fl.F32
  volume_of o s = if is_input_volume o then s.volume_input else s.volume_output

  -- `range` is sizeof(AudioValueRange); the Float32 at `outData` is the argument of a conversion.
  unfoldable pub get_volume : ℕ → Request fl → Selector → M fl (Reply fl)
  unfolding clamp_get to_decibels to_scalar
  get_volume range r base_class = do
    enough r.data_size word
    give (class_id level_control_class) word
  get_volume range r class = do enough r.data_size word; give (class_id volume_control_class) word
  get_volume range r owner = do enough r.data_size word; give (object_id device) word
  get_volume range r owned_objects = pure (record { size = some 0; items = [] })
  get_volume range r control_scope = do
    enough r.data_size word
    give (scope_value (if is_input_volume r.object then scope_input else scope_output)) word
  get_volume range r control_element = do enough r.data_size word; give (constant element_main) word
  get_volume range r scalar_value = do
    enough r.data_size word
    lock_state
    s ← read
    unlock_state
    give (f32 (volume_of r.object s)) word
  get_volume range r decibel_value = do
    enough r.data_size word
    lock_state
    s ← read
    unlock_state
    give (f32 (to_decibels fl (volume_of r.object s))) word
  get_volume range r decibel_range = do
    enough r.data_size range
    give (value_range (fl.of_f32 (min_db fl)) (fl.of_f32 (max_db fl))) range
  get_volume range r convert_scalar_to_decibels = do
    enough r.data_size word
    give (f32 (to_decibels fl (clamp_get fl (nought fl) (one fl) r.out_f32))) word
  get_volume range r convert_decibels_to_scalar = do
    enough r.data_size word
    give (f32 (to_scalar fl (clamp_get fl (min_db fl) (max_db fl) r.out_f32))) word
  get_volume range r _ = fail unknown_property

  -- The critical section of both settings of a volume.
  unfoldable pub store_volume : ObjectId → fl.F32 → M fl (List Address)
  store_volume o new = do
    lock_state
    s ← read
    addresses ←
        (if is_input_volume o
          then (if not (fl.eq32 s.volume_input new)
              then (do
                modify (λ s. record s { volume_input = new })
                pure (changed scalar_value ∷ changed decibel_value ∷ []))
              else pure [])
          else (if not (fl.eq32 s.volume_output new)
              then (do
                modify (λ s. record s { volume_output = new })
                pure (changed scalar_value ∷ changed decibel_value ∷ []))
              else pure []))
    unlock_state
    pure addresses

  unfoldable pub set_volume : ℕ → ObjectId → Option (Input fl) → Selector → M fl (List Address)
  unfolding clamp_set to_scalar store_volume
  set_volume n o input scalar_value = do
    exactly n word
    i ← input_of input
    store_volume o (clamp_set fl (nought fl) (one fl) i.as_f32)
  set_volume n o input decibel_value = do
    exactly n word
    i ← input_of input
    store_volume o (to_scalar fl (clamp_set fl (min_db fl) (max_db fl) i.as_f32))
  set_volume n o input _ = fail unknown_property
