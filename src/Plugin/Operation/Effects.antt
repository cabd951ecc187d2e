-- ===== src/Plugin/Operation/Effects.antt =====
-- What the HAL gets from LatSOF_DoIOOperation.
use lat_sofaudio.Prelude.{
  ℕ, ◌+◌, ◌-◌, ◌*◌, ◌^◌, ◌%◌, ◌<◌, ◌≡◌, refl, Bool, List, ◌++◌, ltb, is_none, not, ◌&&◌, ◌==◌,
  length, ltb→lt, ◌≤◌, get_elem?-append_left, get_elem?-append_right, get_elem?-of_lt, Bool-cases,
  inl, inr, if◌then◌else◌, arith,
}
use lat_sofaudio.Plugin.Floats.{Floats}
use lat_sofaudio.Plugin.State.{PlugIn}
use lat_sofaudio.Plugin.Capture.{buffer_frames, wrap32, read_frames, Filters}
use lat_sofaudio.Plugin.Capture.Chunks.{read_frames_chunks}
use lat_sofaudio.Plugin.Capture.Range.{length-read_frames}
use lat_sofaudio.Plugin.Operation.{
  Memory, read_input, write_mix, other_operation, IoOperation, do_operation, fill, silence, do_read,
}

fill-append {ℓ} :
    {A : Type ℓ} (main main' : ℕ → A) (xs ys : List A) (i : ℕ)
    → i < length xs + length ys
    → fill main (xs ++ ys) i
      ≡ (if ltb i (length xs) then fill main xs i else fill main' ys (i - length xs))
unfolding fill
fill-append main main' xs ys i h = elim (Bool-cases (ltb i (length xs))) [
  | inl before ↦
      let lt : i < length xs = ltb→lt i (length xs) before in
      rw before (ground (arith, get_elem?-append_left xs ys i lt, get_elem?-of_lt xs i lt))
  | inr after ↦
      let le : length xs ≤ i = ground arith in
      rw after (
        ground (
          arith,
          get_elem?-append_right xs ys (i - length xs) i (omega arith),
          get_elem?-of_lt ys (i - length xs) (omega arith),
        ))
]

silence-append :
    (fl : Floats) (main main' : ℕ → fl.F32) (n k i : ℕ)
    → n + k < 2 ^ 31
    → i < 2 * (n + k)
    → silence fl main (wrap32 ((n + k) * 2)) i ≡ (
        if ltb i (2 * n)
        then silence fl main (wrap32 (n * 2)) i
        else silence fl main' (wrap32 (k * 2)) (i - 2 * n))
unfolding silence
silence-append fl main main' n k i small h = ground arith

module _ {fl : Floats} where
  -- Whether ReadInput reads the ring: it is mapped, and there is a connection.
  abbrev reads : PlugIn fl → Bool
  reads s = not (is_none s.capture_buffer) && not (s.connection == 0)

  -- ReadInput of `n` frames at time `t`, then of `k` frames at `t + n` into the next buffer, leaves
  -- the globals as ReadInput of `n + k` frames at `t` does, and sample `i` of the latter's buffer is
  -- in the first buffer, or `2 * n` samples further down in the second. (The sizes are below 2^31
  -- frames, and the ring is not written in between.)
  pub do_read_chunks :
      (n k t i : ℕ) (m : Memory fl) (s : PlugIn fl)
      → n + k < 2 ^ 31
      → i < 2 * (n + k)
      → let (first, s₁) = do_read n t m s in
        let (second, s₂) = do_read k (t + n) first s₁ in
        let (whole, s₃) = do_read (n + k) t m s in
        (s₃ ≡ s₂)
        × (whole.main i ≡ (if ltb i (2 * n) then first.main i else second.main (i - 2 * n)))
  unfolding do_read
  do_read_chunks n k t i m s small h = elim (Bool-cases (reads s)) [
    | inl ring ↦
        let gain = fl.mul32 (fl.literal32 "32.0f") s.volume_input in
        let d : Filters fl = record { l = s.left; r = s.right } in
        let a = read_frames fl m.capture gain (t % buffer_frames) n 0 d in
        let b = read_frames fl m.capture gain ((t + n) % buffer_frames) k 0 a.1 in
        let la = length-read_frames fl m.capture gain n (t % buffer_frames) 0 d in
        let lb = length-read_frames fl m.capture gain k ((t + n) % buffer_frames) 0 a.1 in
        rw (ring, ring, read_frames_chunks fl m.capture gain n k t d)
          (refl, rw (← la) (fill-append m.main (fill m.main a.0) a.0 b.0 i (omega arith)))
    | inr silent ↦
        rw (silent, silent)
          (refl, silence-append fl m.main (silence fl m.main (wrap32 (n * 2))) n k i small h)
  ]

  -- The input mute control has no part in an IO operation: with it set or not, every operation gives
  -- the same memory and changes the same other globals.
  pub do_operation-mute_input :
      (op : IoOperation) (n t : ℕ) (m : Memory fl) (s : PlugIn fl) (muted : Bool)
      → let (m', s') = do_operation op n t m s in
        do_operation op n t m (record s { mute_input = muted })
        ≡ (m', record s' { mute_input = muted })
  unfolding do_operation
  do_operation-mute_input read_input n t m s muted = ground arith
  do_operation-mute_input write_mix n t m s muted = ground arith
  do_operation-mute_input (other_operation k) n t m s muted = refl
