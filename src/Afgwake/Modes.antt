-- ===== src/Afgwake/Modes.antt =====
-- main() and listen_all() of contrib/latsof-afgwake.c: the three modes of the tool.
pub mod Exits
use lat_sofaudio.Prelude.{
  ℕ, ◌+◌, Bool, true, false, not, ◌&&◌, ◌||◌, Option, none, some, List, [], ◌∷◌, String, str_eq,
  if◌then◌else◌,
}
use lat_sofaudio.Afgwake.{
  Tool, Codec, Result, codec_verb, correct_if_wrong, any_device_running, Notice, watch,
  get_power_state,
}

pub data Mode : Type 0 where
  once status resident : Mode

-- By the first argument.
unfoldable pub mode : List String → Mode
mode [] = resident
mode (a ∷ rest) =
    if str_eq a "--once" then once else if str_eq a "--status" then status else resident

-- What on_change is registered for: the object, and the property.
pub data Selector : Type 0 where
  devices default_output running_somewhere jack_is_connected data_source : Selector

abbrev pub system_object : ℕ
system_object = 1

unfoldable pub listen_devices : List ℕ → List (ℕ × Selector)
listen_devices [] = []
listen_devices (d ∷ ds) =
    (d, running_somewhere) ∷ (d, jack_is_connected) ∷ (d, data_source) ∷ listen_devices ds

-- listen_all(), by the devices that are listed, none where they cannot be read
unfoldable pub listen_all : Option (List ℕ) → List (ℕ × Selector)
listen_all none = (system_object, devices) ∷ (system_object, default_output) ∷ []
listen_all (some ds) =
    (system_object, devices) ∷ (system_object, default_output) ∷ listen_devices ds

-- codec_open(), as a step of its own, and codec_close()
unfoldable pub codec_open : Codec → Tool → Result Bool
codec_open c t =
    let opened = t.port || c.opens t.log in
    record { value = opened; tool = record t { port = opened } }

unfoldable pub codec_close : Tool → Tool
codec_close t = record t { port = false }

-- What main returns, the tool then, and the listeners.
pub record Exit : Type 0 where
  pub code : ℕ
  pub tool : Tool
  pub listeners : List (ℕ × Selector)

-- AFG_NID, HP_PIN_NID and HP_DAC_NID are read.
unfoldable pub read_states : Codec → Tool → Tool
read_states c t =
    let afg = codec_verb c 1 get_power_state 0 t in
    let pin = codec_verb c 33 get_power_state 0 afg.tool in
    (codec_verb c 3 get_power_state 0 pin.tool).tool

-- A correction, if a device runs.
unfoldable pub correct_if_running : Codec → Option (List (Option ℕ)) → Tool → Tool
correct_if_running c ds t = if any_device_running ds then (correct_if_wrong c t).tool else t

-- main() after the mode is known, with what the devices answer and, for the resident tool, the devices
-- that it listens to and what happens until its run loop ends.
unfoldable pub act :
    Codec → Mode → Option (List (Option ℕ)) → Option (List ℕ) → List Notice → Tool → Exit
act c once ds all ns t = record {
  code = 0;
  tool = codec_close (correct_if_running c ds t);
  listeners = [];
}
act c status ds all ns t = record { code = 0; tool = codec_close (read_states c t); listeners = [] }
act c resident ds all ns t = record {
  code = 0;
  tool = codec_close (watch c ns (correct_if_running c ds t));
  listeners = listen_all all;
}

unfoldable pub main :
    Codec → List String → Option (List (Option ℕ)) → Option (List ℕ) → List Notice → Exit
main c args ds all ns =
    let o = codec_open c (record { port = false; log = [] }) in
    if o.value
    then act c (mode args) ds all ns o.tool
    else record { code = 1; tool = o.tool; listeners = [] }
