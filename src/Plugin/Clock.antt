-- ===== src/Plugin/Clock.antt =====
-- LatSOF_GetZeroTimeStamp of plugin/LatSOFAudioPlugin.c: the hardware-disciplined clock, and the
-- host clock that it falls back to.
pub mod Tracking
pub mod Fallback
use lat_sofaudio.Prelude.{
  ℕ, ◌+◌, ◌-◌, ◌*◌, ◌%◌, ◌^◌, Bool, true, false, not, Option, none, some, ltb, leb, ◌==◌,
  if◌then◌else◌,
}
use lat_sofaudio.Plugin.Types.{DriverRef, is_driver, ObjectId, Status, bad_object}
use lat_sofaudio.Plugin.Floats.{Floats}
use lat_sofaudio.Plugin.State.{PlugIn, HwClock}
use lat_sofaudio.Plugin.Monad.{M, returned, ◌>>=◌, ◌>>◌, pure, fail_if, lock_io, unlock_io}
use lat_sofaudio.Plugin.Io.{is_device}

-- What the calls of one poll answer: mach_absolute_time(), and what kLatSOF_GetCapPosition gives if
-- it succeeds.
pub record Poll : Type 0 where
  pub now : ℕ
  pub position : Option ℕ

pub record TimeStamp (fl : Floats) : Type 0 where
  pub sample_time : fl.F64
  pub host_time : ℕ
  pub seed : ℕ

-- kDevice_RingBufferSize
abbrev pub ring_frames : ℕ
ring_frames = 16384

-- UInt64 arithmetic wraps.
abbrev pub wrap64 : ℕ → ℕ
wrap64 n = n % 2 ^ 64

module _ {fl : Floats} where
  open fl use {F64, add64, sub64, mul64, div64, literal64, of_u64, to_u64}

  -- theHostTicksPerRingBuffer
  abbrev ticks_per_ring : PlugIn fl → F64
  ticks_per_ring s = mul64 s.host_ticks_per_frame (of_u64 ring_frames)

  -- theObserved: the instant at which the ring last wrapped.
  pub observed : PlugIn fl → ℕ → ℕ → ℕ
  observed s now pos =
      wrap64 (now + 2 ^ 64 - wrap64 (to_u64 (mul64 (of_u64 pos) s.host_ticks_per_frame)))

  -- One ring on from the last wrap, and 1/8 of the way toward the observed one.
  pub corrected : PlugIn fl → ℕ → ℕ
  corrected s seen =
      let predicted = add64 (of_u64 s.clock.wrap_host_time) (ticks_per_ring s) in
      let error = sub64 (of_u64 seen) predicted in
      to_u64 (add64 predicted (div64 error (literal64 "8.0")))

  -- The update of gHWClk_* by a valid position.
  pub advance : PlugIn fl → ℕ → ℕ → HwClock
  advance s now pos =
      let c = s.clock in
      let seen = observed s now pos in
      if not c.primed
      then record c { wrap_host_time = seen; primed = true; last_pos = pos }
      else if ltb pos c.last_pos
      then record c {
        wraps = wrap64 (c.wraps + 1);
        wrap_host_time = corrected s seen;
        last_pos = pos;
      }
      else record c { last_pos = pos }

  pub hardware_stamp : PlugIn fl → ℕ → ℕ → TimeStamp fl × PlugIn fl
  unfolding advance
  hardware_stamp s now out =
      let c = advance s now (out % ring_frames) in
      (
        record {
          sample_time = of_u64 (wrap64 (c.wraps * ring_frames));
          host_time = c.wrap_host_time;
          seed = 1;
        },
        record s { clock = c },
      )

  -- gDevice_NumberTimeStamps, after it is advanced where the next host time has come.
  pub next_stamp : PlugIn fl → ℕ → ℕ
  next_stamp s now =
      let n = s.number_time_stamps in
      let due = wrap64 (
        s.anchor_host_time
        + wrap64 (to_u64 (mul64 (of_u64 (wrap64 (n + 1))) (ticks_per_ring s)))) in
      if leb due now then wrap64 (n + 1) else n

  pub host_stamp : PlugIn fl → ℕ → TimeStamp fl × PlugIn fl
  unfolding next_stamp
  host_stamp s now =
      let n = next_stamp s now in
      (
        record {
          sample_time = of_u64 (wrap64 (n * ring_frames));
          host_time =
              to_u64 (add64 (of_u64 s.anchor_host_time) (mul64 (of_u64 n) (ticks_per_ring s)));
          seed = 1;
        },
        record s { number_time_stamps = n },
      )

  -- The position is asked for only over a connection.
  abbrev stamp_from : PlugIn fl → ℕ → Option ℕ → TimeStamp fl × PlugIn fl
  stamp_from s now none = host_stamp s now
  stamp_from s now (some out) = hardware_stamp s now out

  pub stamp : PlugIn fl → Poll → TimeStamp fl × PlugIn fl
  unfolding hardware_stamp host_stamp
  stamp s p = stamp_from s p.now (if s.connection == 0 then none else p.position)

  pub get_zero_time_stamp : DriverRef → ObjectId → Poll → M fl (TimeStamp fl)
  unfolding stamp
  get_zero_time_stamp d o p = do
    fail_if (not (is_driver d)) bad_object
    fail_if (not (is_device o)) bad_object
    lock_io
    t ← (λ s. let (t, s') = stamp s p in returned t s')
    unlock_io
    pure t
