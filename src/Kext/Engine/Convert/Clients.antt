-- ===== src/Kext/Engine/Convert/Clients.antt =====
-- What the clients of the engine hear of convertInputSamples.
use lat_sofaudio.Prelude.{
  ℕ, zero, suc, ◌+◌, ◌*◌, ◌%◌, ◌<◌, ◌≡◌, refl, ap, Bool, Bool-cases, true, false, List, [], ◌∷◌,
  ◌++◌, inl, inr, ◌==◌, if◌then◌else◌, length, arith,
}
use native.Mathlib.Nat.{add-zero, zero-add}
use lat_sofaudio.Plugin.Floats.{Floats}
use lat_sofaudio.Plugin.Capture.{Filters}
use lat_sofaudio.Plugin.Capture.Range.{ComparesOnes, AllLimited, limit-IsLimited}
use lat_sofaudio.Kext.Engine.{engine_frames}
use lat_sofaudio.Kext.Engine.Convert.{
  dc_seed_pending, block_frame, convert_frames, DcState, gain_lin, seed, convert_input_samples,
}

-- A request of a client: its first frame, and how many.
pub record Request : Type 0 where
  pub first : ℕ
  pub count : ℕ

module _ (fl : Floats) (src : ℕ → ℕ) (gain : fl.F32) where
  convert_frames-append :
      (n m f : ℕ) (d : Filters fl)
      → let (xs, e) = convert_frames fl src gain f n d in
        let (ys, e') = convert_frames fl src gain (f + n) m e in
        convert_frames fl src gain f (n + m) d ≡ (xs ++ ys, e')
  unfolding convert_frames
  convert_frames-append zero m f d = rw (add-zero, zero-add) refl
  convert_frames-append (suc n) m f d =
      let total : suc n + m ≡ suc (n + m) = omega arith in
      let from : f + suc n ≡ f + 1 + n = omega arith in
      rw (total, from, convert_frames-append n m (f + 1)) refl

module _ (fl : Floats) (to_s32 : fl.F32 → ℕ) (milli : ℕ) (src : ℕ → ℕ) where
  unfoldable pub goes_on : Request → DcState fl → Bool
  goes_on r s = r.first == s.next_frame

  seed-stands : (first : ℕ) (s : DcState fl) → s.next_frame < engine_frames → seed fl first s ≡ s
  unfolding seed
  seed-stands first s h =
      let p : (s.next_frame == dc_seed_pending) ≡ false = ground arith in rw p refl

  -- A request that goes on, and one that does not.
  convert-goes_on :
      (r : Request) (s : DcState fl)
      → s.next_frame < engine_frames
      → goes_on r s ≡ true
      → let (out, e) = convert_frames fl src (gain_lin fl to_s32 milli) r.first r.count s.filters in
        convert_input_samples fl to_s32 milli src r.first r.count s
        ≡ (out, record { filters = e; next_frame = (r.first + r.count) % engine_frames })
  unfolding convert_input_samples goes_on
  convert-goes_on r s h g = rw (seed-stands r.first s h, g) refl

  convert-stands :
      (r : Request) (s : DcState fl)
      → s.next_frame < engine_frames
      → goes_on r s ≡ false
      → (convert_input_samples fl to_s32 milli src r.first r.count s).1 ≡ s
  unfolding convert_input_samples goes_on
  convert-stands r s h g = rw (seed-stands r.first s h, g) refl

  -- A request that goes on where the filters stood, in two parts that stay in the ring: the samples
  -- of the parts are those of the whole, and so are the filters and the next frame after them.
  pub convert_input_samples_chunks :
      (n m : ℕ) (s : DcState fl)
      → s.next_frame + n < engine_frames
      → let (xs, t) = convert_input_samples fl to_s32 milli src s.next_frame n s in
        let (ys, u) = convert_input_samples fl to_s32 milli src (s.next_frame + n) m t in
        convert_input_samples fl to_s32 milli src s.next_frame (n + m) s ≡ (xs ++ ys, u)
  unfolding goes_on
  convert_input_samples_chunks n m s h =
      let f = s.next_frame in
      let (xs, e) = convert_frames fl src (gain_lin fl to_s32 milli) f n s.filters in
      let t : DcState fl = record { filters = e; next_frame = (f + n) % engine_frames } in
      let same : (f == f) ≡ true = ground arith in
      let next : (f + n == (f + n) % engine_frames) ≡ true = ground arith in
      let whole = convert-goes_on (record { first = f; count = n + m }) s (omega arith) same in
      let one = convert-goes_on (record { first = f; count = n }) s (omega arith) same in
      let two = convert-goes_on (record { first = f + n; count = m }) t (omega arith) next in
      let sum : f + (n + m) ≡ f + n + m = omega arith in
      rw
        (
          whole,
          one,
          two,
          convert_frames-append fl src (gain_lin fl to_s32 milli) n m f s.filters,
          sum,
        )
        refl

  -- All the requests, in the order in which the family makes them: the samples of those that go on
  -- where the filters stood, and the state after all.
  unfoldable pub serve : List Request → DcState fl → List fl.F32 × DcState fl
  serve [] s = ([], s)
  serve (r ∷ rs) s =
      let (out, t) = convert_input_samples fl to_s32 milli src r.first r.count s in
      let (outs, u) = serve rs t in (if goes_on r s then out ++ outs else outs, u)

  -- Only those.
  unfoldable pub keep : List Request → ℕ → List Request
  keep [] next = []
  keep (r ∷ rs) next =
      let rest = keep rs ((r.first + r.count) % engine_frames) in
      let skipped = keep rs next in if r.first == next then r ∷ rest else skipped

  keep-goes_on :
      (r : Request) (rs : List Request) (s : DcState fl)
      → goes_on r s ≡ true
      → keep (r ∷ rs) s.next_frame ≡ r ∷ keep rs ((r.first + r.count) % engine_frames)
  unfolding keep goes_on
  keep-goes_on r rs s g = rw g refl

  keep-stands :
      (r : Request) (rs : List Request) (s : DcState fl)
      → goes_on r s ≡ false
      → keep (r ∷ rs) s.next_frame ≡ keep rs s.next_frame
  unfolding keep goes_on
  keep-stands r rs s g = rw g refl

  -- Once a client has begun, the requests of other clients that do not go on where the filters stand
  -- neither change what it hears nor the filters: the requests that go on give the samples, and leave
  -- the state, that they would without the others.
  pub serve-keep :
      (rs : List Request) (s : DcState fl)
      → s.next_frame < engine_frames
      → serve rs s ≡ serve (keep rs s.next_frame) s
  unfolding serve
  serve-keep [] s h = unfold keep in refl
  serve-keep (r ∷ rs) s h =
      let t = (convert_input_samples fl to_s32 milli src r.first r.count s).1 in
      elim (Bool-cases (goes_on r s)) [
        | inl g ↦
            let n : t.next_frame ≡ (r.first + r.count) % engine_frames =
              ap (λ (u : List fl.F32 × DcState fl). u.1.next_frame) (convert-goes_on r s h g) in
            let rest = serve-keep rs t (omega arith) in rw (keep-goes_on r rs s g, rest, n) refl
        | inr g ↦
            let rest = serve-keep rs s h in
            rw (keep-stands r rs s g, g, convert-stands r s h g, rest) refl
      ]

module _ (fl : Floats) (gain : fl.F32) where
  convert_frames-limited :
      (c : ComparesOnes fl gain) (src : ℕ → ℕ) (f n : ℕ) (d : Filters fl)
      → let (out, e) = convert_frames fl src gain f n d in
        (length out ≡ 2 * n) × AllLimited fl gain out
  unfolding convert_frames
  convert_frames-limited c src f zero d = (omega arith, tt)
  convert_frames-limited c src f (suc n) d =
      let rest = convert_frames-limited c src (f + 1) n (block_frame fl src f d) in
      (omega (arith, rest.0), (limit-IsLimited fl gain c _, (limit-IsLimited fl gain c _, rest.1)))

module _ (fl : Floats) where
  -- Under IEEE comparison, every request of n frames gets 2 * n samples, none above 1 or below -1,
  -- whoever makes it and whatever the ring, the gain and the filters hold.
  pub convert_input_samples-limited :
      (to_s32 : fl.F32 → ℕ) (milli : ℕ) (c : ComparesOnes fl (gain_lin fl to_s32 milli))
      (src : ℕ → ℕ) (first n : ℕ) (s : DcState fl)
      → let (out, t) = convert_input_samples fl to_s32 milli src first n s in
        (length out ≡ 2 * n) × AllLimited fl (gain_lin fl to_s32 milli) out
  unfolding convert_input_samples
  convert_input_samples-limited to_s32 milli c src first n s =
      convert_frames-limited fl (gain_lin fl to_s32 milli) c src first n _
