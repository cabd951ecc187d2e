-- ===== src/Plugin/Tests/Objects.antt =====
-- Examples for the handlers of the plug-in, the box, the device and the whole interface in
-- plugin/LatSOFAudioPlugin.c.
use lat_sofaudio.Prelude.{
  ◌≡◌, refl, true, false, none, some, [], ◌∷◌, String, str_eq, if◌then◌else◌, arith,
}
use lat_sofaudio.Plugin.Types.{
  device, acquired, owner, owned_objects, plug_in_device_list, nominal_sample_rate,
  available_nominal_sample_rates, box_device_list, scope_global, driver_ref, bad_property_size,
  boolean_value, mute_input_master,
}
use lat_sofaudio.Plugin.State.{PlugIn}
use lat_sofaudio.Plugin.Monad.{returned, failed, blocked}
use lat_sofaudio.Plugin.Property.{Request, SetRequest, changed}
use lat_sofaudio.Plugin.Property.Sound.{IsSound, Leaves}
use lat_sofaudio.Plugin.Io.{KextAnswers, start_io}
use lat_sofaudio.Plugin.Lifecycle.{Stored, absent, boolean, Timebase, initialize}
use lat_sofaudio.Plugin.BoxObject.Locking.{device_list_leaks}
use lat_sofaudio.Plugin.BoxObject.Acquire.{written, set_acquired-initialize}
use lat_sofaudio.Plugin.BoxObject
use lat_sofaudio.Plugin.RootObject
use lat_sofaudio.Plugin.Device
use lat_sofaudio.Plugin.Device.Queries
use lat_sofaudio.Plugin.Dispatch.{get_property_data, set_property_data}
use lat_sofaudio.Plugin.Dispatch.Contract.{get_property_data-IsSound}
use lat_sofaudio.Plugin.Dispatch.Notify.{set_property_data-Leaves}
use lat_sofaudio.Plugin.Tests.{toy, sizes, idle, address_for, asking, given}

abbrev qualified : Request toy
qualified = record (asking device owned_objects 12) {
  qualifier = some (record { as_text = ""; as_u32 = 0 });
}

get_property_data-IsSound_example : IsSound sizes 12 (get_property_data none sizes qualified idle)
get_property_data-IsSound_example =
    get_property_data-IsSound none sizes qualified idle refl refl (refl, refl)

abbrev muting : SetRequest toy
muting = record {
  driver = driver_ref;
  object = mute_input_master;
  address = address_for boolean_value;
  data_size = 4;
  input = some (given 1);
  count_place = false;
  addresses_place = false;
}

set_property_data-Leaves_example : Leaves false (set_property_data sizes muting idle)
set_property_data-Leaves_example = set_property_data-Leaves sizes muting (given 1) idle refl refl

owner_size : BoxObject.size_of owner idle ≡ returned 4 idle
unfolding BoxObject.size_of
owner_size = refl

abbrev answers : KextAnswers
answers = record {
  service = true;
  opened = 7;
  map_succeeds = true;
  map_address = 4096;
  map_size = 131072;
  now = 1000;
}

device_list_leaks_example :
    (s' : PlugIn toy) × (BoxObject.get 0 box_device_list idle ≡ failed bad_property_size s')
    × (start_io driver_ref device answers s' ≡ blocked)
device_list_leaks_example = device_list_leaks 0 idle answers refl refl (omega arith)

-- A storage that holds the acquired state.
abbrev storage : String → Stored
storage key = if str_eq key "box acquired" then boolean false else absent

abbrev timebase : Timebase
timebase = record { numer = 125; denom = 3 }

abbrev released : PlugIn toy
released = BoxObject.save_acquired false idle

releases :
    BoxObject.set 4 (some (given 0)) acquired idle
    ≡ returned (changed acquired ∷ changed box_device_list ∷ []) released
unfolding BoxObject.set
releases = refl

released-written : written released.host_calls ≡ some false
unfolding written BoxObject.save_acquired
released-written = refl

set_acquired-initialize_example :
    (t' : PlugIn toy) × (initialize driver_ref storage timebase idle ≡ returned tt t')
    × (t'.box_acquired ≡ released.box_acquired)
set_acquired-initialize_example =
    set_acquired-initialize (given 0) idle idle storage timebase false refl refl
      (changed acquired ∷ changed box_device_list ∷ []) released releases released-written refl

device_list_size : RootObject.size_of plug_in_device_list idle ≡ returned 4 idle
unfolding RootObject.size_of
device_list_size = refl

rates_size :
    Device.Queries.size_of sizes scope_global available_nominal_sample_rates idle
    ≡ returned (some 32) idle
unfolding Device.Queries.size_of
rates_size = refl

has_rate : Device.Queries.has scope_global nominal_sample_rate ≡ true
unfolding Device.Queries.has
has_rate = refl
