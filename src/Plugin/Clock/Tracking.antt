-- ===== src/Plugin/Clock/Tracking.antt =====
-- The sample time that GetZeroTimeStamp builds from the capture position, against the number of
-- frames that the hardware has captured.
use lat_sofaudio.Prelude.{
  ℕ, ◌+◌, ◌-◌, ◌*◌, ◌/◌, ◌%◌, ◌^◌, ◌<◌, ◌≤◌, ◌≡◌, ◌≢◌, refl, true, false, Option, none, some, List,
  [], ◌∷◌, map, arith,
}
use lat_sofaudio.Plugin.Types.{driver_ref, device}
use lat_sofaudio.Plugin.Floats.{Floats}
use lat_sofaudio.Plugin.State.{PlugIn}
use lat_sofaudio.Plugin.Monad.{Exit, returned, failed, blocked, crashed}
use lat_sofaudio.Plugin.Io.{stopped_clock}
use lat_sofaudio.Plugin.Clock.{Poll, TimeStamp, ring_frames, get_zero_time_stamp}

-- The frames captured between two polls, and the host time of the second.
pub record Gap : Type 0 where
  pub frames : ℕ
  pub now : ℕ

-- The poll of a hardware that has captured `t` frames.
abbrev pub poll_at : ℕ → ℕ → Poll
poll_at t now = record { now = now; position = some (t % ring_frames) }

-- The polls whose positions are those of a hardware that had captured `t` frames before them.
pub polls_from : ℕ → List Gap → List Poll
polls_from t [] = []
polls_from t (g ∷ gs) = poll_at (t + g.frames) g.now ∷ polls_from (t + g.frames) gs

-- Less than a ring is captured between two polls, and the frames fit 64 bits.
abbrev pub Slow : ℕ → List Gap → Type 0
Slow t [] = Unit {0}
Slow t (g ∷ gs) = (g.frames < ring_frames) × (t + g.frames < 2 ^ 64) × Slow (t + g.frames) gs

-- Whole rings since the one in which `start` lies, in frames.
pub ideal_frames : ℕ → ℕ → List Gap → List ℕ
ideal_frames start t [] = []
ideal_frames start t (g ∷ gs) =
    (((t + g.frames) / ring_frames - start / ring_frames) * ring_frames)
    ∷ ideal_frames start (t + g.frames) gs

module _ {fl : Floats} where
  abbrev pub seen : PlugIn fl → Exit (PlugIn fl) (TimeStamp fl) → Option fl.F64 × PlugIn fl
  seen s (returned t s') = (some t.sample_time, s')
  seen s (failed e s') = (none, s')
  seen s blocked = (none, s)
  seen s crashed = (none, s)

  unfoldable pub sample_times : PlugIn fl → List Poll → List (Option fl.F64)
  sample_times s [] = []
  sample_times s (p ∷ ps) =
      let (t, s') = seen s (get_zero_time_stamp driver_ref device p s) in t ∷ sample_times s' ps

  -- The clock has counted the rings between `start` and `t`.
  record Follows (start t : ℕ) (s : PlugIn fl) : Type 0 where
    later : start / ring_frames ≤ t / ring_frames
    primed : s.clock.primed ≡ true
    last : s.clock.last_pos ≡ t % ring_frames
    counted : s.clock.wraps + start / ring_frames ≡ t / ring_frames
    connected : s.connection ≢ 0
    free : s.io_mutex ≡ false

  get_zero_time_stamp-Follows :
      (start t : ℕ) (s : PlugIn fl) (g : Gap)
      → Follows start t s
      → g.frames < ring_frames
      → t + g.frames < 2 ^ 64
      → let (o, s') =
          seen s (get_zero_time_stamp driver_ref device (poll_at (t + g.frames) g.now) s) in
        (o ≡ some (fl.of_u64 (((t + g.frames) / ring_frames - start / ring_frames) * ring_frames)))
        × Follows start (t + g.frames) s'
  unfolding get_zero_time_stamp
  get_zero_time_stamp-Follows start t s g v small fits = ground arith

  -- After the first poll the clock counts from there.
  first-Follows :
      (t now : ℕ) (s : PlugIn fl)
      → s.clock ≡ stopped_clock
      → s.connection ≢ 0
      → s.io_mutex ≡ false
      → let (o, s') = seen s (get_zero_time_stamp driver_ref device (poll_at t now) s) in
        (o ≡ some (fl.of_u64 0)) × Follows t t s'
  unfolding get_zero_time_stamp
  first-Follows t now s e c f = ground arith

  sample_times-polls_from :
      (gs : List Gap) (start t : ℕ) (s : PlugIn fl)
      → Follows start t s
      → Slow t gs
      → sample_times s (polls_from t gs) ≡ map (λ n. some (fl.of_u64 n)) (ideal_frames start t gs)
  unfolding sample_times polls_from ideal_frames
  sample_times-polls_from [] start t s v h = refl
  sample_times-polls_from (g ∷ gs) start t s v h = ground (
    arith,
    get_zero_time_stamp-Follows start t s g v,
    sample_times-polls_from gs start (t + g.frames)
        (seen s (get_zero_time_stamp driver_ref device (poll_at (t + g.frames) g.now) s)).1,
  )

  -- From a stopped clock, with a connection and a free IO mutex: if less than a ring is captured
  -- between any two polls (and less than 2^64 frames in all), the sample times are exactly the
  -- number of whole rings that the hardware has completed since the ring of the first poll, in
  -- frames, whatever the host times and the arithmetic of the floats are.
  pub sample_times_exact :
      (gs : List Gap) (t now : ℕ) (s : PlugIn fl)
      → s.clock ≡ stopped_clock
      → s.connection ≢ 0
      → s.io_mutex ≡ false
      → Slow t gs
      → sample_times s (poll_at t now ∷ polls_from t gs)
        ≡ map (λ n. some (fl.of_u64 n)) (0 ∷ ideal_frames t t gs)
  unfolding sample_times
  sample_times_exact gs t now s e c f h = ground (
    arith,
    first-Follows t now s e c f,
    sample_times-polls_from gs t t
        (seen s (get_zero_time_stamp driver_ref device (poll_at t now) s)).1,
  )
