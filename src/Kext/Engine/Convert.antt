-- ===== src/Kext/Engine/Convert.antt =====
-- convertInputSamples of kext/LatSOFAudio/LatSOFKernelAudio.cpp: samples of the ring to floats, through
-- the DC blocker, for every client of the engine.
pub mod Clients
use lat_sofaudio.Prelude.{
  ℕ, zero, suc, ◌+◌, ◌-◌, ◌*◌, ◌%◌, ◌^◌, Bool, ◌&&◌, List, [], ◌∷◌, String, ◌==◌, ltb, leb,
  if◌then◌else◌,
}
use lat_sofaudio.Plugin.Floats.{Floats}
use lat_sofaudio.Plugin.State.{DcBlock}
use lat_sofaudio.Plugin.Capture.{Filters, limit}
use lat_sofaudio.Kext.Engine.{engine_frames}

-- kDCSeedPending
abbrev pub dc_seed_pending : ℕ
dc_seed_pending = 0xffff_ffff

module _ (fl : Floats) where
  open fl use {F32, literal32, add32, sub32, mul32, div32, lt32, of_s32}

  -- 10 ^ (db / 20), by a polynomial and a shift. `to_s32` is the cast (int), as a pattern of 32 bits;
  -- the exponent is below 31, since the gain control goes to 40 dB.
  unfoldable pub exp_poly : F32 → F32
  exp_poly xf = add32 (literal32 "1.0f") (
      mul32 xf (
        add32 (literal32 "0.6931472f")
          (mul32 xf (add32 (literal32 "0.2401397f") (mul32 xf (literal32 "0.0558282f"))))))

  unfoldable pub scale : F32 → ℕ → F32
  scale p xi =
      if leb (2 ^ 31) xi then div32 p (of_s32 (2 ^ (2 ^ 32 - xi))) else mul32 p (of_s32 (2 ^ xi))

  unfoldable pub gain_lin : (F32 → ℕ) → ℕ → F32
  gain_lin to_s32 gain_milli_decibels =
      let db = div32 (of_s32 gain_milli_decibels) (literal32 "1000.0f") in
      let x = mul32 (div32 db (literal32 "20.0f")) (literal32 "3.3219281f") in
      let xi = to_s32 x in scale (exp_poly (sub32 x (of_s32 xi))) xi

  -- One channel of one frame.
  unfoldable pub flush : F32 → F32
  flush y =
      if lt32 y (literal32 "1e-15f") && lt32 (literal32 "-1e-15f") y then literal32 "0.0f" else y

  unfoldable pub block_dc : DcBlock fl → F32 → DcBlock fl
  block_dc d x = record {
    x1 = x;
    y1 = flush (add32 (sub32 x d.x1) (mul32 (literal32 "0.98822f") d.y1));
  }

  unfoldable pub sample : (ℕ → ℕ) → ℕ → F32
  sample src i = div32 (of_s32 (src i)) (literal32 "2147483648.0f")

  -- The frame at `f` of the ring.
  unfoldable pub block_frame : (ℕ → ℕ) → ℕ → Filters fl → Filters fl
  block_frame src f d = record {
    l = block_dc d.l (sample src (f * 2));
    r = block_dc d.r (sample src (f * 2 + 1));
  }

  -- `n` frames from frame `f` of the ring on: the samples stored, and the filters after them.
  unfoldable pub convert_frames : (ℕ → ℕ) → F32 → ℕ → ℕ → Filters fl → List F32 × Filters fl
  convert_frames src gain f zero d = ([], d)
  convert_frames src gain f (suc n) d =
      let d' = block_frame src f d in
      let (out, e) = convert_frames src gain (f + 1) n d' in
      (limit fl (mul32 d'.l.y1 gain) ∷ limit fl (mul32 d'.r.y1 gain) ∷ out, e)

  -- dcX1, dcY1 and dcNextFrame
  pub record DcState : Type 0 where
    pub filters : Filters fl
    pub next_frame : ℕ

  -- The first request after a start says where to begin.
  unfoldable pub seed : ℕ → DcState → DcState
  seed first s = if s.next_frame == dc_seed_pending then record s { next_frame = first } else s

  -- convertInputSamples, at a setting of the gain, on the ring `src`: the samples of the request. The
  -- filters are kept for a request that goes on where they stood, and for no other.
  unfoldable pub convert_input_samples :
      (F32 → ℕ) → ℕ → (ℕ → ℕ) → ℕ → ℕ → DcState → List F32 × DcState
  convert_input_samples to_s32 gain_milli_decibels src first n s =
      let s' = seed first s in
      let gain = gain_lin to_s32 gain_milli_decibels in
      let (out, e) = convert_frames src gain first n s'.filters in
      (
        out,
        if first == s'.next_frame
            then record { filters = e; next_frame = (first + n) % engine_frames }
            else s',
      )
