-- ===== src/Plugin/Capture/Chunks.antt =====
-- Reading in chunks: the DC blocker's state carries over, so the sound does not depend on how the
-- HAL divides it into buffers.
use lat_sofaudio.Prelude.{ℕ, zero, suc, ◌+◌, ◌%◌, ◌≡◌, refl, ◌++◌, arith}
use native.Mathlib.Nat.{add-zero, zero-add}
use lat_sofaudio.Plugin.Floats.{Floats}
use lat_sofaudio.Plugin.Capture.{Filters, buffer_frames, src_frame, filter_frame, read_frames}

-- The frame of the ring depends on the sum of the offset and the count only, modulo the ring.
src_frame-eq :
    (o p f g : ℕ)
    → (o + f) % buffer_frames ≡ (p + g) % buffer_frames
    → src_frame o f ≡ src_frame p g
unfolding src_frame
src_frame-eq o p f g h = omega arith

module _ (fl : Floats) (src : ℕ → ℕ) (gain : fl.F32) where
  filter_frame-eq :
      (o p f g : ℕ) (d : Filters fl)
      → (o + f) % buffer_frames ≡ (p + g) % buffer_frames
      → filter_frame fl src o f d ≡ filter_frame fl src p g d
  unfolding filter_frame
  filter_frame-eq o p f g d h = rw (src_frame-eq o p f g h) refl

  read_frames-shift :
      (n o p f g : ℕ) (d : Filters fl)
      → (o + f) % buffer_frames ≡ (p + g) % buffer_frames
      → read_frames fl src gain o n f d ≡ read_frames fl src gain p n g d
  unfolding read_frames
  read_frames-shift zero o p f g d h = refl
  read_frames-shift (suc n) o p f g d h =
      rw (filter_frame-eq o p f g d h, read_frames-shift n o p (f + 1) (g + 1) _ (omega arith)) refl

  read_frames-append :
      (n m o f : ℕ) (d : Filters fl)
      → let (xs, e) = read_frames fl src gain o n f d in
        let (ys, e') = read_frames fl src gain o m (f + n) e in
        read_frames fl src gain o (n + m) f d ≡ (xs ++ ys, e')
  unfolding read_frames
  read_frames-append zero m o f d = rw (add-zero, zero-add) refl
  read_frames-append (suc n) m o f d =
      let total : suc n + m ≡ suc (n + m) = omega arith in
      let from : f + suc n ≡ f + 1 + n = omega arith in
      rw (total, from, read_frames-append n m o (f + 1)) refl

  -- Reading `n` frames at sample time `t` and then `m` frames at `t + n`, the filters carried over,
  -- stores the samples and leaves the filters of reading `n + m` frames at `t`: for every ring,
  -- gain and arithmetic of the floats. The offsets are those that the code computes.
  pub read_frames_chunks :
      (n m t : ℕ) (d : Filters fl)
      → let (xs, e) = read_frames fl src gain (t % buffer_frames) n 0 d in
        let (ys, e') = read_frames fl src gain ((t + n) % buffer_frames) m 0 e in
        read_frames fl src gain (t % buffer_frames) (n + m) 0 d ≡ (xs ++ ys, e')
  read_frames_chunks n m t d =
      rw
        (
          read_frames-append n m (t % buffer_frames) 0 d,
          read_frames-shift m (t % buffer_frames) ((t + n) % buffer_frames) (0 + n) 0
              (read_frames fl src gain (t % buffer_frames) n 0 d).1 (omega arith),
        )
        refl
