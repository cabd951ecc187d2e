-- ===== src/Plugin/Capture.antt =====
-- The ReadInput half of LatSOF_DoIOOperation of plugin/LatSOFAudioPlugin.c: the DMA ring to the
-- stereo Float32 buffer of the HAL, through the DC blocker.
pub mod Chunks
pub mod Channels
pub mod Range
use lat_sofaudio.Prelude.{
  ℕ, zero, suc, ◌+◌, ◌*◌, ◌%◌, ◌^◌, ◌&&◌, List, [], ◌∷◌, String, if◌then◌else◌,
}
use lat_sofaudio.Plugin.Floats.{Floats}
use lat_sofaudio.Plugin.State.{DcBlock}

-- kLatSOF_BufferFrames
abbrev pub buffer_frames : ℕ
buffer_frames = 16384

-- UInt32 arithmetic wraps.
abbrev pub wrap32 : ℕ → ℕ
wrap32 n = n % 2 ^ 32

-- srcFrame of frame `f`. The frame offset is below kLatSOF_BufferFrames.
pub src_frame : ℕ → ℕ → ℕ
src_frame offset f = wrap32 (offset + f) % buffer_frames

-- Both channels of the DC blocker.
pub record Filters (fl : Floats) : Type 0 where
  pub l : DcBlock fl
  pub r : DcBlock fl

module _ (fl : Floats) where
  open fl use {F32, literal32, add32, sub32, mul32, div32, lt32, of_s32}

  -- One channel of one frame: y = x - x1 + R * y1, flushed to 0 where it is tiny.
  pub filter_sample : DcBlock fl → F32 → DcBlock fl
  filter_sample d x =
      let y = add32 (sub32 x d.x1) (mul32 (literal32 "0.98822f") d.y1) in
      record {
        x1 = x;
        y1 =
            if lt32 (literal32 "-1.0e-20f") y && lt32 y (literal32 "1.0e-20f")
            then literal32 "0.0f"
            else y;
      }

  -- if(v > 1.0f) v = 1.0f;
  pub at_most_one : F32 → F32
  at_most_one v = if lt32 (literal32 "1.0f") v then literal32 "1.0f" else v

  -- if(v < -1.0f) v = -1.0f;
  pub at_least_minus_one : F32 → F32
  at_least_minus_one v = if lt32 v (literal32 "-1.0f") then literal32 "-1.0f" else v

  pub limit : F32 → F32
  unfolding at_most_one at_least_minus_one
  limit v = at_least_minus_one (at_most_one v)

  -- (Float32)src[i] / 2147483647.0f
  pub sample_in : (ℕ → ℕ) → ℕ → F32
  sample_in src i = div32 (of_s32 (src i)) (literal32 "2147483647.0f")

  -- The DC blockers after frame `f`. `src` is the ring, a pattern of 32 bits at each index.
  pub filter_frame : (ℕ → ℕ) → ℕ → ℕ → Filters fl → Filters fl
  filter_frame src offset f d =
      let i = src_frame offset f in
      record {
        l = filter_sample d.l (sample_in src (i * 2 + 0));
        r = filter_sample d.r (sample_in src (i * 2 + 1));
      }

  -- The loop from frame `f` on, for `n` frames: the samples stored at dst[f * 2] onward, and the
  -- filters after them.
  pub read_frames : (ℕ → ℕ) → F32 → ℕ → ℕ → ℕ → Filters fl → List F32 × Filters fl
  read_frames src gain offset zero f d = ([], d)
  read_frames src gain offset (suc n) f d =
      let d' = filter_frame src offset f d in
      let (out, e) = read_frames src gain offset n (f + 1) d' in
      (limit (mul32 d'.l.y1 gain) ∷ limit (mul32 d'.r.y1 gain) ∷ out, e)
