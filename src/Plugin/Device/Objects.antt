-- ===== src/Plugin/Device/Objects.antt =====
-- The lists of objects that LatSOF_GetDevicePropertyData fills out, in plugin/LatSOFAudioPlugin.c.
use lat_sofaudio.Prelude.{
  ℕ, zero, suc, ◌-◌, ◌*◌, ◌/◌, ◌≤◌, ◌≡◌, refl, some, List, [], ◌∷◌, ltb, if◌then◌else◌, arith,
}
use lat_sofaudio.Plugin.Types.{
  ObjectId, plug_in, box, device, stream_input, volume_input_master, mute_input_master,
  data_source_input_master, stream_output, volume_output_master, mute_output_master,
  data_source_output_master, unknown_object, other_object, Scope, scope_global, scope_input,
  scope_output, other_scope,
}
use lat_sofaudio.Plugin.Floats.{Floats}
use lat_sofaudio.Plugin.Property.{Abi, word, Item, object_id, bytes, Reply}

-- The object ID one above, by the enumeration of the object IDs.
unfoldable pub next : ObjectId → ObjectId
next plug_in = box
next box = device
next device = stream_input
next stream_input = volume_input_master
next volume_input_master = mute_input_master
next mute_input_master = data_source_input_master
next data_source_input_master = stream_output
next stream_output = volume_output_master
next volume_output_master = mute_output_master
next mute_output_master = data_source_output_master
next data_source_output_master = other_object 12
next unknown_object = plug_in
next (other_object n) = other_object (suc n)

-- An object ID plus theItemIndex.
unfoldable pub offset : ObjectId → ℕ → ObjectId
unfolding next
offset o zero = o
offset o (suc i) = next (offset o i)

-- The object at theItemIndex of kAudioObjectPropertyControlList.
unfoldable pub control_at : ℕ → ObjectId
unfolding offset
control_at i = if ltb i 3 then offset volume_input_master i else offset volume_output_master (i - 3)

-- theNumberItemsToFetch, clamped to `most`.
unfoldable pub clamped_to : ℕ → ℕ → ℕ
clamped_to most n = let fetch = n / word in if ltb most fetch then most else fetch

-- The loop over theItemIndex, with `left` turns to go.
unfoldable pub object_items : {fl : Floats} → (ℕ → ObjectId) → ℕ → ℕ → List (Item fl)
object_items at index zero = []
object_items at index (suc left) = object_id (at index) ∷ object_items at (suc index) left

-- A reply with `k` objects.
unfoldable pub object_reply : {fl : Floats} → (ℕ → ObjectId) → ℕ → Reply fl
unfolding object_items
object_reply at k = record { size = some (k * word); items = object_items at 0 k }

-- kAudioObjectPropertyOwnedObjects by the scope: another scope is clamped to nothing, and stores
-- nothing.
unfoldable pub owned_reply : {fl : Floats} → ℕ → Scope → Reply fl
unfolding object_reply clamped_to offset
owned_reply n scope_global = object_reply (offset stream_input) (clamped_to 4 n)
owned_reply n scope_input = object_reply (offset stream_input) (clamped_to 4 n)
owned_reply n scope_output = object_reply (offset stream_output) 0
owned_reply n (other_scope c) = record { size = some (n / word * word); items = [] }

-- kAudioDevicePropertyStreams by the scope.
unfoldable pub streams_reply : {fl : Floats} → ℕ → Scope → Reply fl
unfolding object_reply clamped_to
streams_reply n scope_global = object_reply (λ i. stream_input) (clamped_to 1 n)
streams_reply n scope_input = object_reply (λ i. stream_input) (clamped_to 1 n)
streams_reply n scope_output = record { size = some 0; items = [] }
streams_reply n (other_scope c) = record { size = some (n / word * word); items = [] }

pub clamped_to-le : (most n : ℕ) → (clamped_to most n ≤ most) × (clamped_to most n * word ≤ n)
unfolding clamped_to
clamped_to-le most n = ground arith

pub bytes-object_items :
    (fl : Floats) (abi : Abi) (at : ℕ → ObjectId) (i k : ℕ)
    → bytes abi (object_items {fl = fl} at i k) ≡ k * word
unfolding object_items
bytes-object_items fl abi at i zero = refl
bytes-object_items fl abi at i (suc k) = ground (arith, bytes-object_items fl abi at (suc i) k)
