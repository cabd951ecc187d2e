-- ===== src/Plugin/Property.antt =====
-- What the property handlers of plugin/LatSOFAudioPlugin.c share: their arguments, what they store
-- through their pointers, and the checks that they begin with.
pub mod Sound
use lat_sofaudio.Prelude.{
  ℕ, ◌+◌, ◌*◌, Bool, true, false, not, Option, none, some, List, [], ◌∷◌, String, ltb, ◌==◌,
}
use lat_sofaudio.Plugin.Types.{
  DriverRef, is_driver, ObjectId, ClassId, Selector, Scope, scope_global, Address, Status,
  bad_object, illegal_operation, bad_property_size,
}
use lat_sofaudio.Plugin.Floats.{Floats}
use lat_sofaudio.Plugin.Monad.{M, ◌>>=◌, ◌>>◌, pure, fail, fail_if, crash}

-- The sizes of the CoreAudio structures, as `sizeof` and `offsetof` give them: they are those of the
-- system's headers.
pub record Abi : Type 0 where
  pub format_bytes : ℕ
  pub ranged_format_bytes : ℕ
  pub value_range_bytes : ℕ
  pub layout_header_bytes : ℕ
  pub channel_description_bytes : ℕ

-- The 32-bit types UInt32, AudioClassID, AudioObjectID, AudioObjectPropertyScope,
-- AudioObjectPropertyElement and Float32; the 64-bit Float64 and the pointers CFStringRef, CFURLRef.
abbrev pub word : ℕ
word = 4

abbrev pub wide : ℕ
wide = 8

-- Constants of CoreAudio that are stored as UInt32 and never compared.
pub data Constant : Type 0 where
  transport_type_built_in terminal_type_microphone terminal_type_speaker element_main : Constant

-- AudioStreamBasicDescription. `linear_pcm` tells whether mFormatID is kAudioFormatLinearPCM, and
-- `packed_float` whether mFormatFlags are those of packed native-endian floats.
pub record Format (fl : Floats) : Type 0 where
  pub sample_rate : fl.F64
  pub linear_pcm : Bool
  pub packed_float : Bool
  pub bytes_per_packet : ℕ
  pub frames_per_packet : ℕ
  pub bytes_per_frame : ℕ
  pub channels_per_frame : ℕ
  pub bits_per_channel : ℕ

-- One store through `outData`.
pub data Item (fl : Floats) : Type 0 where
  class_id : ClassId → Item fl
  object_id : ObjectId → Item fl
  text : Option String → Item fl
  u32 : ℕ → Item fl
  constant : Constant → Item fl
  scope_value : Scope → Item fl
  f32 : fl.F32 → Item fl
  f64 : fl.F64 → Item fl
  value_range : fl.F64 → fl.F64 → Item fl
  format : Format fl → Item fl
  ranged_format : Format fl → fl.F64 → fl.F64 → Item fl
  layout_header : ℕ → Item fl
  -- the description of the channel kAudioChannelLabel_Left + n
  channel_description : ℕ → Item fl
  url : ℕ → Item fl

abbrev pub item_bytes : {fl : Floats} → Abi → Item fl → ℕ
item_bytes abi (class_id c) = word
item_bytes abi (object_id o) = word
item_bytes abi (text t) = wide
item_bytes abi (u32 n) = word
item_bytes abi (constant c) = word
item_bytes abi (scope_value s) = word
item_bytes abi (f32 x) = word
item_bytes abi (f64 x) = wide
item_bytes abi (value_range a b) = abi.value_range_bytes
item_bytes abi (format f) = abi.format_bytes
item_bytes abi (ranged_format f a b) = abi.ranged_format_bytes
item_bytes abi (layout_header n) = abi.layout_header_bytes
item_bytes abi (channel_description n) = abi.channel_description_bytes
item_bytes abi (url u) = wide

-- What a Get handler leaves: *outDataSize, if it is stored, and the stores from `outData` on, one
-- behind the other.
pub record Reply (fl : Floats) : Type 0 where
  pub size : Option ℕ
  pub items : List (Item fl)

abbrev pub bytes : {fl : Floats} → Abi → List (Item fl) → ℕ
bytes abi [] = 0
bytes abi (i ∷ is) = item_bytes abi i + bytes abi is

-- The bytes behind `inQualifierData`, as a CFStringRef and as a UInt32.
pub record Qualifier : Type 0 where
  pub as_text : String
  pub as_u32 : ℕ

-- The arguments of a handler but for the data that a Set handler gets. A pointer is given by whether
-- it is not NULL, and `out_f32` is the Float32 that lies at `outData` beforehand.
pub record Request (fl : Floats) : Type 0 where
  pub driver : DriverRef
  pub object : ObjectId
  pub address : Option Address
  pub qualifier_size : ℕ
  pub qualifier : Option Qualifier
  pub data_size : ℕ
  pub size_place : Bool
  pub data_place : Bool
  pub out_f32 : fl.F32

module _ {fl : Floats} where
  -- inAddress == NULL
  abbrev pub address_of : Option Address → M fl Address
  address_of none = fail illegal_operation
  address_of (some a) = pure a

  -- The FailWithAction lines in their order: a foreign driver, no address, no place for a result
  -- (or for one of two), another object.
  pub checks : Bool → Option Address → Bool → Bool → Bool → M fl Address
  checks foreign address no_place no_place' other = do
    fail_if foreign bad_object
    a ← address_of address
    fail_if no_place illegal_operation
    fail_if no_place' illegal_operation
    fail_if other bad_object
    pure a

  -- The checks of a Get…PropertyData handler.
  pub check_get : (ObjectId → Bool) → Request fl → M fl Address
  unfolding checks
  check_get mine r =
      checks (not (is_driver r.driver)) r.address (not r.size_place) (not r.data_place)
        (not (mine r.object))

  -- Those of Get…PropertyDataSize and Is…PropertySettable, which have one place for the result.
  pub check_place : (ObjectId → Bool) → Request fl → M fl Address
  unfolding checks
  check_place mine r =
      checks (not (is_driver r.driver)) r.address (not r.size_place) false (not (mine r.object))

  -- FailWithAction(inDataSize < size, theAnswer = kAudioHardwareBadPropertySizeError, …)
  abbrev pub enough : ℕ → ℕ → M fl (Unit {0})
  enough n size = fail_if (ltb n size) bad_property_size

  -- One value is stored, and *outDataSize is.
  abbrev pub give : Item fl → ℕ → M fl (Reply fl)
  give i n = pure (record { size = some n; items = i ∷ [] })

-- The bytes behind `inData`, as each type that a Set handler reads.
pub record Input (fl : Floats) : Type 0 where
  pub as_text : Option String
  pub as_u32 : ℕ
  pub as_f32 : fl.F32
  pub as_f64 : fl.F64
  pub as_format : Format fl

-- The arguments of a Set handler.
pub record SetRequest (fl : Floats) : Type 0 where
  pub driver : DriverRef
  pub object : ObjectId
  pub address : Option Address
  pub data_size : ℕ
  pub input : Option (Input fl)
  pub count_place : Bool
  pub addresses_place : Bool

-- The address of a whole property.
abbrev pub changed : Selector → Address
changed p = record { selector = p; scope = scope_global; element = 0 }

module _ {fl : Floats} where
  pub check_set : (ObjectId → Bool) → SetRequest fl → M fl Address
  unfolding checks
  check_set mine r =
      checks (not (is_driver r.driver)) r.address (not r.count_place) (not r.addresses_place)
        (not (mine r.object))

  -- *inData
  abbrev pub input_of : Option (Input fl) → M fl (Input fl)
  input_of none = crash
  input_of (some i) = pure i

  -- FailWithAction(inDataSize != size, theAnswer = kAudioHardwareBadPropertySizeError, …)
  abbrev pub exactly : ℕ → ℕ → M fl (Unit {0})
  exactly n size = fail_if (not (n == size)) bad_property_size
