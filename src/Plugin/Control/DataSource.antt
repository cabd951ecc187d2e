-- ===== src/Plugin/Control/DataSource.antt =====
-- The data source controls in the control handlers of plugin/LatSOFAudioPlugin.c.
use lat_sofaudio.Prelude.{
  ℕ, zero, suc, ◌*◌, ◌/◌, Bool, true, false, not, Option, none, some, List, [], ◌∷◌, ltb, leb, ◌==◌,
  if◌then◌else◌,
}
use lat_sofaudio.Plugin.Types.{
  ObjectId, data_source_input_master, device, Selector, base_class, class, owner, owned_objects,
  control_scope, control_element, current_item, available_items, item_name, scope_input,
  scope_output, selector_control_class, data_source_control_class, Address, unknown_property,
  illegal_operation, bad_property_size,
}
use lat_sofaudio.Plugin.Floats.{Floats}
use lat_sofaudio.Plugin.State.{PlugIn}
use lat_sofaudio.Plugin.Monad.{
  M, ◌>>=◌, ◌>>◌, pure, read, modify, fail, fail_if, crash, lock_state, unlock_state,
}
use lat_sofaudio.Plugin.Property.{
  word, wide, Item, class_id, object_id, u32, text, constant, scope_value, element_main, Qualifier,
  Request, Reply, enough, give, Input, changed, input_of, exactly,
}

abbrev pub is_input_source : ObjectId → Bool
is_input_source data_source_input_master = true
is_input_source _ = false

-- kDataSource_NumberItems
abbrev pub number_items : ℕ
number_items = 1

unfoldable pub has_source : Selector → Bool
has_source base_class = true
has_source class = true
has_source owner = true
has_source owned_objects = true
has_source control_scope = true
has_source control_element = true
has_source current_item = true
has_source available_items = true
has_source item_name = true
has_source _ = false

-- theNumberItemsToFetch
unfoldable pub items_to_fetch : ℕ → ℕ
items_to_fetch n = let fetch = n / word in if ltb number_items fetch then number_items else fetch

-- The loop that stores `left` item indices from `index` on.
unfoldable pub item_indices : {fl : Floats} → ℕ → ℕ → List (Item fl)
item_indices index zero = []
item_indices index (suc left) = u32 index ∷ item_indices (suc index) left

module _ {fl : Floats} where
  unfoldable pub source_settable : Selector → M fl Bool
  source_settable base_class = pure false
  source_settable class = pure false
  source_settable owner = pure false
  source_settable owned_objects = pure false
  source_settable control_scope = pure false
  source_settable control_element = pure false
  source_settable available_items = pure false
  source_settable item_name = pure false
  source_settable current_item = pure true
  source_settable _ = fail unknown_property

  unfoldable pub source_size_of : Selector → M fl ℕ
  source_size_of base_class = pure word
  source_size_of class = pure word
  source_size_of owner = pure word
  source_size_of owned_objects = pure 0
  source_size_of control_scope = pure word
  source_size_of control_element = pure word
  source_size_of current_item = pure word
  source_size_of available_items = pure (number_items * word)
  source_size_of item_name = pure wide
  source_size_of _ = fail unknown_property

  abbrev pub source_of : ObjectId → PlugIn fl → ℕ
  source_of o s = if is_input_source o then s.data_source_input else s.data_source_output

  -- *inQualifierData
  abbrev pub qualifier_of : Option Qualifier → M fl Qualifier
  qualifier_of none = crash
  qualifier_of (some q) = pure q

  unfoldable pub get_source : Request fl → Selector → M fl (Reply fl)
  unfolding items_to_fetch item_indices
  get_source r base_class = do enough r.data_size word; give (class_id selector_control_class) word
  get_source r class = do enough r.data_size word; give (class_id data_source_control_class) word
  get_source r owner = do enough r.data_size word; give (object_id device) word
  get_source r owned_objects = pure (record { size = some 0; items = [] })
  get_source r control_scope = do
    enough r.data_size word
    give (scope_value (if is_input_source r.object then scope_input else scope_output)) word
  get_source r control_element = do enough r.data_size word; give (constant element_main) word
  get_source r current_item = do
    enough r.data_size word
    lock_state
    s ← read
    unlock_state
    give (u32 (source_of r.object s)) word
  get_source r available_items =
      let k = items_to_fetch r.data_size in
      pure (record { size = some (k * word); items = item_indices 0 k })
  get_source r item_name = do
    enough r.data_size wide
    fail_if (not (r.qualifier_size == word)) bad_property_size
    q ← qualifier_of r.qualifier
    fail_if (leb number_items q.as_u32) illegal_operation
    give (text (some "Internal Microphone")) wide
  get_source r _ = fail unknown_property

  unfoldable pub set_source : ℕ → ObjectId → Option (Input fl) → Selector → M fl (List Address)
  set_source n o input current_item = do
    exactly n word
    i ← input_of input
    fail_if (leb number_items i.as_u32) illegal_operation
    lock_state
    s ← read
    addresses ←
        (if is_input_source o
          then (if not (s.data_source_input == i.as_u32)
              then (do
                modify (λ s. record s { data_source_input = i.as_u32 })
                pure (changed current_item ∷ []))
              else pure [])
          else (if not (s.data_source_output == i.as_u32)
              then (do
                modify (λ s. record s { data_source_output = i.as_u32 })
                pure (changed current_item ∷ []))
              else pure []))
    unlock_state
    pure addresses
  set_source n o input _ = fail unknown_property
