-- ===== src/Plugin/Tests/Values.antt =====
-- Examples for the streams and the controls of plugin/LatSOFAudioPlugin.c.
use lat_sofaudio.Prelude.{ℕ, ◌≡◌, refl, true, some, [], ◌∷◌, ◌==◌, arith}
use lat_sofaudio.Plugin.Types.{
  base_class, available_physical_formats, volume_input_master, mute_input_master,
  convert_decibels_to_scalar,
}
use lat_sofaudio.Plugin.Monad.{returned}
use lat_sofaudio.Plugin.Property.{f32}
use lat_sofaudio.Plugin.Property.Sound.{stored}
use lat_sofaudio.Plugin.Stream
use lat_sofaudio.Plugin.Control.Volume.{get_volume, clamp_get, to_scalar}
use lat_sofaudio.Plugin.Control
use lat_sofaudio.Plugin.Tests.{toy, sizes, idle, asking}

formats_size : Stream.size_of sizes available_physical_formats idle ≡ returned 112 idle
unfolding Stream.size_of
formats_size = refl

equal_rates : (x y z : ℕ) → (x == z) ≡ true → (y == z) ≡ true → (x == y) ≡ true
equal_rates x y z h k = ground arith

control_has_base : Control.has mute_input_master base_class ≡ true
unfolding Control.has
control_has_base = refl

converts :
    stored (
      get_volume {fl = toy} 16
        (record (asking volume_input_master convert_decibels_to_scalar 4) { out_f32 = 106 })
        convert_decibels_to_scalar
        idle)
    ≡ some (f32 101 ∷ [])
unfolding get_volume clamp_get to_scalar
converts = refl
