-- ===== src/Plugin/Stream/Formats.antt =====
-- The formats that LatSOF_SetStreamPropertyData accepts, and those that LatSOF_GetStreamPropertyData
-- gives.
use lat_sofaudio.Prelude.{
  ℕ, ◌≡◌, ◌≢◌, false, true, not, some, [], ◌∷◌, arith, ◌==◌, ◌↔◌, if◌then◌else◌, differ,
}
use lat_sofaudio.Plugin.Types.{ObjectId, is_active, Selector, base_class}
use lat_sofaudio.Plugin.Floats.{Floats}
use lat_sofaudio.Plugin.State.{PlugIn}
use lat_sofaudio.Plugin.Monad.{returned, ◌>>◌}
use lat_sofaudio.Plugin.Property.{Abi, Format, Input, u32, SetRequest}
use lat_sofaudio.Plugin.Property.Sound.{returns, Leaves, stored, reports, check_set-cases}
use lat_sofaudio.Plugin.Stream.{
  set_format, set, set_active, stereo, fixed_rate, get, is_input, set_stream_property_data,
  is_stream,
}

module _ {fl : Floats} where
  -- The input whose bytes are those of the format `f`.
  abbrev pub with_format : Input fl → Format fl → Input fl
  with_format i f = record i { as_format = f }

  -- With the mutex free and data of the right size, a format is accepted exactly if it is two
  -- channels of packed 32-bit floats at a rate that equals 48 kHz.
  pub set_format-accepts :
      (abi : Abi) (i : Input fl) (s : PlugIn fl)
      → s.state_mutex ≡ false
      → (returns (set_format abi abi.format_bytes (some i) s) ≡ true) ↔ (
          (i.as_format ≡ stereo i.as_format.sample_rate)
          × (fl.eq64 i.as_format.sample_rate (fixed_rate fl) ≡ true))
  unfolding set_format
  set_format-accepts abi i s free = ground arith

  -- The formats that a stream lists and the one that it has at 48 kHz are accepted, and ask for no
  -- change of the device's configuration: with the mutex free, and a comparison of floats that is
  -- symmetric and transitive, nothing of the plug-in changes.
  pub set_format-get_format :
      (abi : Abi) (i : Input fl) (s : PlugIn fl)
      → ((x y z : fl.F64) → fl.eq64 x z ≡ true → fl.eq64 y z ≡ true → fl.eq64 x y ≡ true)
      → s.state_mutex ≡ false
      → fl.eq64 s.sample_rate (fixed_rate fl) ≡ true
      → (rate : fl.F64) → fl.eq64 rate (fixed_rate fl) ≡ true
      → set_format abi abi.format_bytes (some (with_format i (stereo rate))) s ≡ returned [] s
  unfolding set_format
  set_format-get_format abi i s trans free h rate e =
      ground (arith, trans rate s.sample_rate (fixed_rate fl) e h)

  -- With the mutex free, setting a property of a stream, the data given, ends with the mutex free, no
  -- matter whether it fails.
  pub set_stream-Leaves :
      (abi : Abi) (n : ℕ) (o : ObjectId) (i : Input fl) (p : Selector) (s : PlugIn fl)
      → s.state_mutex ≡ false
      → Leaves false (set abi n o (some i) p s)
  unfolding set set_active set_format
  set_stream-Leaves abi n o i base_class s free = ground arith
  set_stream-Leaves abi n o i _ s free = ground arith

  -- With the mutex free, a stream that is set active or not is read back so, the other stream is read
  -- as before, and a change is reported exactly if the value was another.
  pub set_active-get :
      (abi : Abi) (o o' : ObjectId) (i : Input fl) (s : PlugIn fl)
      → s.state_mutex ≡ false
      → is_input o' ≢ is_input o
      → (stored ((set abi 4 o (some i) is_active >> get abi 4 o is_active) s)
          ≡ some (u32 (if i.as_u32 == 0 then 0 else 1) ∷ []))
        × (stored ((set abi 4 o (some i) is_active >> get abi 4 o' is_active) s)
            ≡ stored (get abi 4 o' is_active s))
        × (reports (set abi 4 o (some i) is_active s)
            ≡ some (
                if differ
                  (if is_input o then s.stream_input_active else s.stream_output_active)
                  (not (i.as_u32 == 0))
                then 1
                else 0))
  unfolding set_active get set
  set_active-get abi o o' i s free other = ground arith

  pub set_stream_property_data-Leaves :
      (abi : Abi) (r : SetRequest fl) (i : Input fl) (s : PlugIn fl)
      → r.input ≡ some i
      → s.state_mutex ≡ false
      → Leaves false (set_stream_property_data abi r s)
  unfolding set_stream_property_data
  set_stream_property_data-Leaves abi r i s given free =
      check_set-cases (Leaves false) is_stream r _ s (λ e. free)
        λ a. rw given (set_stream-Leaves abi r.data_size r.object i a.selector s free)
