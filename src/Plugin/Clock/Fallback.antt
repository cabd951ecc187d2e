-- ===== src/Plugin/Clock/Fallback.antt =====
-- GetZeroTimeStamp where the capture position cannot be read.
use lat_sofaudio.Prelude.{ℕ, ◌+◌, ◌*◌, ◌^◌, ◌<◌, ◌≤◌, ◌≡◌, false, none, some, arith}
use lat_sofaudio.Plugin.Types.{driver_ref, device}
use lat_sofaudio.Plugin.Floats.{Floats}
use lat_sofaudio.Plugin.State.{PlugIn}
use lat_sofaudio.Plugin.Clock.{Poll, ring_frames, next_stamp, get_zero_time_stamp}
use lat_sofaudio.Plugin.Clock.Tracking.{seen}

abbrev pub lost_poll : ℕ → Poll
lost_poll now = record { now = now; position = none }

module _ {fl : Floats} where
  next_stamp-le : (s : PlugIn fl) (now : ℕ) → next_stamp s now ≤ s.number_time_stamps + 1
  unfolding next_stamp
  next_stamp-le s now = ground arith

  -- With a free IO mutex, a poll whose position cannot be read does not touch the hardware clock,
  -- and if that clock has counted more than one ring beyond gDevice_NumberTimeStamps (and its
  -- sample time fits 64 bits), the poll returns a sample time that lies before the hardware clock's.
  pub lost_poll_goes_back :
      (s : PlugIn fl) (now : ℕ)
      → s.io_mutex ≡ false
      → s.number_time_stamps + 1 < s.clock.wraps
      → s.clock.wraps * ring_frames < 2 ^ 64
      → let (o, s') = seen s (get_zero_time_stamp driver_ref device (lost_poll now) s) in
        (frames : ℕ) × (o ≡ some (fl.of_u64 frames))
        × (frames < s.clock.wraps * ring_frames)
        × (s'.clock ≡ s.clock)
  unfolding get_zero_time_stamp
  lost_poll_goes_back s now free ahead fits = (
    next_stamp s now * ring_frames,
    ground (arith, next_stamp-le s now),
    omega (arith, next_stamp-le s now),
    ground arith,
  )
