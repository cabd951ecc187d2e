-- ===== src/Plugin/Capture/Range.antt =====
-- The samples that the HAL gets, and the part of the ring that is read.
use lat_sofaudio.Prelude.{
  ℕ, zero, suc, ◌+◌, ◌*◌, ◌<◌, ◌≡◌, refl, ap, false, List, [], ◌∷◌, length, arith,
}
use lat_sofaudio.Plugin.Floats.{Floats}
use lat_sofaudio.Plugin.Capture.{
  Filters, buffer_frames, src_frame, filter_frame, limit, sample_in, read_frames,
}

-- int32_t samples of the ring: two for each frame.
abbrev pub ring_samples : ℕ
ring_samples = buffer_frames * 2

src_frame-lt : (o f : ℕ) → src_frame o f * 2 + 1 < ring_samples
unfolding src_frame
src_frame-lt o f = omega arith

module _ (fl : Floats) (src : ℕ → ℕ) (gain : fl.F32) where
  pub length-read_frames :
      (n o f : ℕ) (d : Filters fl) → length (read_frames fl src gain o n f d).0 ≡ 2 * n
  unfolding read_frames
  length-read_frames zero o f d = omega arith
  length-read_frames (suc n) o f d =
      omega (arith, length-read_frames n o (f + 1) (filter_frame fl src o f d))

module _ (fl : Floats) (gain : fl.F32) where
  open fl use {F32, literal32, lt32}

  -- IEEE comparison at the two literals that the limiter uses.
  pub record ComparesOnes : Type 0 where
    pub one_one : lt32 (literal32 "1.0f") (literal32 "1.0f") ≡ false
    pub one_minus : lt32 (literal32 "1.0f") (literal32 "-1.0f") ≡ false
    pub minus_minus : lt32 (literal32 "-1.0f") (literal32 "-1.0f") ≡ false

  -- Neither above 1 nor below -1.
  abbrev pub IsLimited : F32 → Type 0
  IsLimited v = (lt32 (literal32 "1.0f") v ≡ false) × (lt32 v (literal32 "-1.0f") ≡ false)

  abbrev pub AllLimited : List F32 → Type 0
  AllLimited [] = Unit {0}
  AllLimited (v ∷ vs) = IsLimited v × AllLimited vs

  pub limit-IsLimited : ComparesOnes → (v : F32) → IsLimited (limit fl v)
  unfolding limit
  limit-IsLimited c v = ground (arith, c.one_one, c.one_minus, c.minus_minus)

  -- Under IEEE comparison, reading `n` frames stores `2 * n` samples, none above 1 or below -1,
  -- whatever the ring, the gain and the filters hold.
  pub read_frames-limited :
      (c : ComparesOnes) (src : ℕ → ℕ) (o n f : ℕ) (d : Filters fl)
      → let (out, _) = read_frames fl src gain o n f d in (length out ≡ 2 * n) × AllLimited out
  unfolding read_frames
  read_frames-limited c src o zero f d = (omega arith, tt)
  read_frames-limited c src o (suc n) f d =
      let rest = read_frames-limited c src o n (f + 1) (filter_frame fl src o f d) in
      (omega (arith, rest.0), (limit-IsLimited c _, (limit-IsLimited c _, rest.1)))

  sample_in-eq :
      (src src' : ℕ → ℕ) (i : ℕ) → src i ≡ src' i → sample_in fl src i ≡ sample_in fl src' i
  unfolding sample_in
  sample_in-eq src src' i h = ap (λ w. fl.div32 (fl.of_s32 w) (literal32 "2147483647.0f")) h

  filter_frame-eq :
      (src src' : ℕ → ℕ)
      → ((i : ℕ) → i < ring_samples → src i ≡ src' i)
      → (o f : ℕ) (d : Filters fl) → filter_frame fl src o f d ≡ filter_frame fl src' o f d
  unfolding filter_frame
  filter_frame-eq src src' h o f d =
      let i = src_frame o f * 2 in
      rw
        (
          sample_in-eq src src' (i + 0) (h (i + 0) (omega (arith, src_frame-lt o f))),
          sample_in-eq src src' (i + 1) (h (i + 1) (src_frame-lt o f)),
        )
        refl

  -- Two rings that agree on the samples of kLatSOF_BufferFrames stereo frames are read alike: no
  -- other index is read, whatever the offset and the number of frames are.
  pub read_frames-local :
      (src src' : ℕ → ℕ)
      → ((i : ℕ) → i < ring_samples → src i ≡ src' i)
      → (n o f : ℕ) (d : Filters fl)
      → read_frames fl src gain o n f d ≡ read_frames fl src' gain o n f d
  unfolding read_frames
  read_frames-local src src' h zero o f d = refl
  read_frames-local src src' h (suc n) o f d =
      rw
        (
          filter_frame-eq src src' h o f d,
          read_frames-local src src' h n o (f + 1) (filter_frame fl src' o f d),
        )
        refl
