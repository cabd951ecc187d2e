-- ===== src/Plugin/Control/Values.antt =====
-- The values of the controls: what is set is what is got, and the volume in its two units.
use lat_sofaudio.Prelude.{
  ℕ, ◌<◌, ◌≤◌, ◌≡◌, ◌≢◌, false, not, Option, some, arith, ◌∷◌, [], ◌==◌, if◌then◌else◌, differ,
}
use lat_sofaudio.Plugin.Types.{
  ObjectId, Selector, base_class, scalar_value, decibel_value, convert_scalar_to_decibels,
  convert_decibels_to_scalar, boolean_value,
}
use lat_sofaudio.Plugin.Floats.{Floats}
use lat_sofaudio.Plugin.State.{PlugIn}
use lat_sofaudio.Plugin.Monad.{Exit, returned, failed, blocked, crashed, ◌>>◌}
use lat_sofaudio.Plugin.Property.{Request, Input, u32, f32}
use lat_sofaudio.Plugin.Property.Sound.{stored, reports}
use lat_sofaudio.Plugin.Control.Volume.{
  volume_of, get_volume, store_volume, set_volume, clamp_get, clamp_set, nought, one, min_db,
  max_db,
}
use lat_sofaudio.Plugin.Control.Mute.{mute_of, is_input_mute, get_mute, set_mute}
use lat_sofaudio.Plugin.Control.DataSource.{set_source}

-- Neither below 0.0 nor above 1.0: a NaN is in range too.
abbrev pub InRange : (fl : Floats) → fl.F32 → Type 0
InRange fl v = (fl.lt32 v (nought fl) ≡ false) × (fl.lt32 (one fl) v ≡ false)

module _ {fl : Floats} where
  -- The volumes as they stand after a call, whether it fails or not.
  abbrev pub VolumesInRange : {A : Type 0} → Exit (PlugIn fl) A → Type 0
  VolumesInRange (returned a s) = InRange fl s.volume_input × InRange fl s.volume_output
  VolumesInRange (failed e s) = InRange fl s.volume_input × InRange fl s.volume_output
  VolumesInRange blocked = Unit {0}
  VolumesInRange crashed = Unit {0}

  -- Where 0.0 and 1.0 are in range themselves, setting the scalar value keeps both volumes in range,
  -- whatever value is asked for.
  pub set_scalar-InRange :
      (n : ℕ) (o : ObjectId) (i : Option (Input fl)) (s : PlugIn fl)
      → InRange fl (nought fl)
      → InRange fl (one fl)
      → InRange fl s.volume_input
      → InRange fl s.volume_output
      → VolumesInRange (set_volume n o i scalar_value s)
  unfolding set_volume store_volume clamp_set
  set_scalar-InRange n o i s z u a b = ground arith

  -- With the mutex free and the volume in range, the decibel value that is read is the conversion of
  -- the scalar value.
  pub get_decibel-convert :
      (range : ℕ) (r : Request fl) (s : PlugIn fl)
      → s.state_mutex ≡ false
      → InRange fl (volume_of r.object s)
      → stored (get_volume range r decibel_value s)
        ≡ stored (
            get_volume range
              (record r { out_f32 = volume_of r.object s })
              convert_scalar_to_decibels
              s)
  unfolding get_volume clamp_get
  get_decibel-convert range r s free h = ground arith

  -- With the mutex free and the decibel bounds in order, setting the decibel value does what setting the
  -- scalar value to its conversion does, if the conversion is in range.
  pub set_decibel-convert :
      (range : ℕ) (r : Request fl) (i : Input fl) (s : PlugIn fl)
      → s.state_mutex ≡ false
      → 4 ≤ r.data_size
      → r.out_f32 ≡ i.as_f32
      → fl.lt32 (max_db fl) (min_db fl) ≡ false
      → (v : fl.F32) → stored (get_volume range r convert_decibels_to_scalar s) ≡ some (f32 v ∷ [])
      → InRange fl v
      → set_volume 4 r.object (some i) decibel_value s
        ≡ set_volume 4 r.object (some (record i { as_f32 = v })) scalar_value s
  unfolding set_volume get_volume clamp_set clamp_get
  set_decibel-convert range r i s free room same order v e h = ground arith

  -- With the mutex free, a mute that is set is read back, the mute of the other direction is read as
  -- before, and a change is reported exactly if the value was another.
  pub set_mute-get :
      (r r' : Request fl) (i : Input fl) (s : PlugIn fl)
      → s.state_mutex ≡ false
      → 4 ≤ r.data_size
      → is_input_mute r'.object ≢ is_input_mute r.object
      → (stored ((set_mute 4 r.object (some i) boolean_value >> get_mute r boolean_value) s)
          ≡ some (u32 (if i.as_u32 == 0 then 0 else 1) ∷ []))
        × (stored ((set_mute 4 r.object (some i) boolean_value >> get_mute r' boolean_value) s)
            ≡ stored (get_mute r' boolean_value s))
        × (reports (set_mute 4 r.object (some i) boolean_value s)
            ≡ some (if differ (mute_of r.object s) (not (i.as_u32 == 0)) then 1 else 0))
  unfolding set_mute get_mute
  set_mute-get r r' i s free room other = ground arith

  -- The current item of either data source control is always one of the available ones.
  abbrev pub SourcesAvailable : {A : Type 0} → Exit (PlugIn fl) A → Type 0
  SourcesAvailable (returned a s) = (s.data_source_input < 1) × (s.data_source_output < 1)
  SourcesAvailable (failed e s) = (s.data_source_input < 1) × (s.data_source_output < 1)
  SourcesAvailable blocked = Unit {0}
  SourcesAvailable crashed = Unit {0}

  -- Whatever is set of a data source control, current items that are available stay so.
  pub set_source-SourcesAvailable :
      (n : ℕ) (o : ObjectId) (i : Option (Input fl)) (p : Selector) (s : PlugIn fl)
      → s.data_source_input < 1
      → s.data_source_output < 1
      → SourcesAvailable (set_source n o i p s)
  unfolding set_source
  set_source-SourcesAvailable n o i base_class s a b = ground arith
  set_source-SourcesAvailable n o i _ s a b = ground arith
