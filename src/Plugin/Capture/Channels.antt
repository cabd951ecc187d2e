-- ===== src/Plugin/Capture/Channels.antt =====
-- The loop of ReadInput against a description by channels: each channel is one list of samples,
-- filtered, amplified and limited on its own.
use lat_sofaudio.Prelude.{ℕ, zero, suc, ◌+◌, ◌*◌, ◌%◌, ◌≡◌, refl, List, [], ◌∷◌, arith}
use lat_sofaudio.Plugin.Floats.{Floats}
use lat_sofaudio.Plugin.State.{DcBlock}
use lat_sofaudio.Plugin.Capture.{
  Filters, buffer_frames, src_frame, filter_frame, filter_sample, limit, sample_in, read_frames,
}

pub interleave {ℓ} : {A : Type ℓ} → List A → List A → List A
interleave [] ys = []
interleave (x ∷ xs) [] = []
interleave (x ∷ xs) (y ∷ ys) = x ∷ y ∷ interleave xs ys

module _ (fl : Floats) where
  -- `n` samples of channel `c` from the frame that was captured at time `t` on.
  pub channel_in : (ℕ → ℕ) → ℕ → ℕ → ℕ → List fl.F32
  channel_in src c t zero = []
  channel_in src c t (suc n) =
      sample_in fl src (t % buffer_frames * 2 + c) ∷ channel_in src c (t + 1) n

  -- One channel: DC blocker, gain, limiter.
  pub channel_out : fl.F32 → DcBlock fl → List fl.F32 → List fl.F32
  channel_out gain d [] = []
  channel_out gain d (x ∷ xs) =
      let d' = filter_sample fl d x in limit fl (fl.mul32 d'.y1 gain) ∷ channel_out gain d' xs

  pub channel_state : DcBlock fl → List fl.F32 → DcBlock fl
  channel_state d [] = d
  channel_state d (x ∷ xs) = channel_state (filter_sample fl d x) xs

src_frame-mod : (t f : ℕ) → src_frame (t % buffer_frames) f ≡ (t + f) % buffer_frames
unfolding src_frame
src_frame-mod t f = omega arith

module _ (fl : Floats) (src : ℕ → ℕ) (gain : fl.F32) (t : ℕ) where
  -- For every ring, gain, sample time and number of frames: what the loop stores is the two channels
  -- interleaved, each the ring's samples from the sample time on, through the DC blocker, the gain
  -- and the limiter; and the filters are left as each channel leaves them.
  pub read_frames-channels :
      (n f : ℕ) (d : Filters fl)
      → let xs = channel_in fl src 0 (t + f) n in
        let ys = channel_in fl src 1 (t + f) n in
        read_frames fl src gain (t % buffer_frames) n f d ≡ (
          interleave (channel_out fl gain d.l xs) (channel_out fl gain d.r ys),
          record { l = channel_state fl d.l xs; r = channel_state fl d.r ys },
        )
  unfolding read_frames filter_frame channel_in channel_out channel_state interleave
  read_frames-channels zero f d = refl
  read_frames-channels (suc n) f d =
      let on : t + f + 1 ≡ t + (f + 1) = omega arith in
      rw (src_frame-mod t f, on, read_frames-channels n (f + 1)) refl
