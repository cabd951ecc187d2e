-- ===== src/Plugin/Mix/Wrap.antt =====
-- Writing the mix in two parts is writing it round the ring.
use lat_sofaudio.Prelude.{
  ℕ, zero, suc, ◌+◌, ◌-◌, ◌*◌, ◌%◌, ◌≤◌, ◌<◌, ◌≡◌, ◌&&◌, leb, ltb, if◌then◌else◌, arith,
}
use lat_sofaudio.Plugin.Floats.{Floats}
use lat_sofaudio.Plugin.Capture.{buffer_frames, wrap32}
use lat_sofaudio.Plugin.Mix.{store, first_part, sample_out, mix_loop, mix_into}

abbrev pub ring_samples : ℕ
ring_samples = buffer_frames * 2

module _ (fl : Floats) (gain : fl.F32) (src : ℕ → fl.F32) where
  -- What one loop leaves at index `j`.
  mix_loop-at :
      (n : ℕ) (dst : ℕ → ℕ) (s d j : ℕ)
      → mix_loop fl gain src dst s d n j
        ≡ (if leb d j && ltb j (d + n) then sample_out fl gain src (s + (j - d)) else dst j)
  unfolding mix_loop store
  mix_loop-at zero dst s d j = ground arith
  mix_loop-at (suc n) dst s d j =
      ground (arith, mix_loop-at n (store dst d (sample_out fl gain src s)) (s + 1) (d + 1) j)

  -- With the offset inside the ring and a buffer of a ring at most, index `j` of the playback ring
  -- gets the mix's sample that lies as far behind the start as `j` lies round the ring behind the
  -- offset, if there is one; every other index keeps its value, and none outside the ring is written.
  pub mix_into-round :
      (dst : ℕ → ℕ) (o n j : ℕ)
      → o < buffer_frames
      → n ≤ buffer_frames
      → let i = (j + ring_samples - o * 2) % ring_samples in
        mix_into fl gain src dst o n j
        ≡ (if ltb j ring_samples && ltb i (n * 2) then sample_out fl gain src i else dst j)
  unfolding mix_into first_part
  mix_into-round dst o n j ho hn =
      let first : ℕ = if leb n (buffer_frames - o) then n else buffer_frames - o in
      ground (
        arith,
        mix_loop-at (wrap32 (first * 2)) dst 0 (o * 2) j,
        mix_loop-at (wrap32 ((n - first) * 2))
            (mix_loop fl gain src dst 0 (o * 2) (wrap32 (first * 2))) (first * 2) 0 j,
      )
