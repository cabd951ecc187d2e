-- ===== src/Plugin/Mix.antt =====
-- The WriteMix half of LatSOF_DoIOOperation of plugin/LatSOFAudioPlugin.c: the HAL's Float32 mix to
-- the 16-bit playback ring, in one part or in two where the ring wraps.
pub mod Wrap
use lat_sofaudio.Prelude.{ℕ, zero, suc, ◌+◌, ◌-◌, ◌*◌, ◌%◌, String, leb, ltb, ◌==◌, if◌then◌else◌}
use lat_sofaudio.Plugin.Floats.{Floats}
use lat_sofaudio.Plugin.Capture.{buffer_frames, wrap32, limit}

-- dst[i] = v
pub store : (ℕ → ℕ) → ℕ → ℕ → ℕ → ℕ
store dst i v j = if j == i then v else dst j

-- min(n, framesAvail), the frames up to the end of the ring.
pub first_part : ℕ → ℕ → ℕ
first_part offset n = let avail = buffer_frames - offset in if leb n avail then n else avail

-- The value given to kLatSOF_UpdateSPIB.
pub write_end : ℕ → ℕ → ℕ
write_end offset n = wrap32 (offset + n) % buffer_frames * 4

module _ (fl : Floats) (gain : fl.F32) (src : ℕ → fl.F32) where
  -- (int16_t)(v * 32767.0f) of the limited sample.
  pub sample_out : ℕ → ℕ
  sample_out i = fl.to_s16 (fl.mul32 (limit fl (fl.mul32 (src i) gain)) (fl.literal32 "32767.0f"))

  -- `n` samples from src[s] on to dst[d] on.
  pub mix_loop : (ℕ → ℕ) → ℕ → ℕ → ℕ → ℕ → ℕ
  mix_loop dst s d zero = dst
  mix_loop dst s d (suc n) = mix_loop (store dst d (sample_out s)) (s + 1) (d + 1) n

  -- Both parts. `src += firstPart * 2` moves the source for the second. With an empty second part
  -- its loop does nothing.
  pub mix_into : (ℕ → ℕ) → ℕ → ℕ → ℕ → ℕ
  mix_into dst offset n =
      let first = first_part offset n in
      let second = n - first in
      mix_loop (mix_loop dst 0 (offset * 2) (wrap32 (first * 2))) (first * 2) 0
        (wrap32 (second * 2))
