-- ===== src/Kext/Engine.antt =====
-- The clock of the kernel audio engine in kext/LatSOFAudio/LatSOFKernelAudio.cpp: the positions it
-- reads, the time stamps it takes, and its wrap timer. Host times are in nanoseconds.
pub mod Edge
pub mod Loops
pub mod Convert
pub mod Hardware
pub mod Session
mod Tests
use lat_sofaudio.Prelude.{
  ℕ, zero, suc, ◌+◌, ◌-◌, ◌*◌, ◌/◌, ◌%◌, ◌^◌, Bool, true, false, not, ◌&&◌, ◌||◌, Option, none,
  some, List, [], ◌∷◌, if◌then◌else◌, ◌==◌, leb, ltb,
}

-- kEngineFrames, and kRingPeriodNS
abbrev pub engine_frames : ℕ
engine_frames = 16384

abbrev pub ring_period : ℕ
ring_period = engine_frames * 1000000000 / 48000

-- takeTimeStamp(): whether the loop count goes up, and the time of the event.
pub record Stamp : Type 0 where
  pub increments : Bool
  pub time : ℕ

-- The engine's members; its counters of anomalies are published and not read.
pub record Engine : Type 0 where
  pub running : Bool
  pub edge_lock : Bool
  -- wrapTimer, by whether it is not null, and whether it is armed
  pub wrap_timer : Bool
  pub timer_armed : Bool
  pub last_wrap_frame : ℕ
  pub last_stamp_time : ℕ
  -- newest first
  pub stamps : List Stamp

-- getCurrentSampleFrame(), of what the owner's position reads
unfoldable pub current_sample_frame : ℕ → ℕ
current_sample_frame f = if ltb f engine_frames then f else 0

-- A difference of UInt64.
unfoldable pub sub64 : ℕ → ℕ → ℕ
sub64 a b = (a + 2 ^ 64 - b) % 2 ^ 64

-- stampAt()
unfoldable pub stamp_at : Bool → ℕ → ℕ → Engine → Engine
stamp_at increments at frames e =
    let ago = frames * 1000000000 / 48000 in
    record e {
      last_stamp_time = at;
      stamps =
          record { increments = increments; time = if ltb ago at then at - ago else 0 } ∷ e.stamps;
    }

-- One turn of the loop of readPositionAtEdge: the clock before and after, and the position between
-- them, none where it is not valid.
pub record Sample : Type 0 where
  pub before : ℕ
  pub position : Option ℕ
  pub after : ℕ

-- How readPositionAtEdge ends: with a position and its time, after its deadline, without a valid
-- position, or not within the turns that it is given.
pub data EdgeResult : Type 0 where
  caught : ℕ → ℕ → EdgeResult
  missed lost unfinished : EdgeResult

-- A read whose clocks are at most 20 µs apart is trusted.
unfoldable pub is_trusted : Sample → Bool
is_trusted s = leb (sub64 s.after s.before) 20000

-- The 2 ms are over.
unfoldable pub is_late : ℕ → Sample → Bool
is_late start s = leb 2000000 (sub64 s.after start)

-- One turn, and what the turns after it give.
unfoldable pub turn : ℕ → ℕ → Sample → Option ℕ → EdgeResult → EdgeResult
turn p0 start s none rest = lost
turn p0 start s (some p) rest =
    if is_trusted s && not (p == p0)
    then caught p s.after
    else if is_late start s
    then missed
    else rest

-- The loop from the i-th sample on, with n turns left.
unfoldable pub edge_loop : (ℕ → Sample) → ℕ → ℕ → ℕ → ℕ → EdgeResult
edge_loop samples p0 start i zero = unfinished
edge_loop samples p0 start i (suc n) =
    let rest = edge_loop samples p0 start (i + 1) n in
    turn p0 start (samples i) (samples i).position rest

-- readPositionAtEdge(), of a first position and the time at its start.
unfoldable pub read_position_at_edge : (ℕ → Sample) → Option ℕ → ℕ → EdgeResult
read_position_at_edge samples none start = lost
read_position_at_edge samples (some p0) start = edge_loop samples p0 start 0 401

-- What one firing of the wrap timer meets: the clock at its entry, the position, and the edge read.
pub record Fire : Type 0 where
  pub now : ℕ
  pub position : Option ℕ
  pub edge : EdgeResult

-- The position moved backwards.
unfoldable pub stamp_wrap : Fire → ℕ → EdgeResult → Engine → Engine
stamp_wrap f p (caught q t) e = record (stamp_at true t q e) { last_wrap_frame = q }
stamp_wrap f p missed e = record (stamp_at true f.now p e) { last_wrap_frame = p }
stamp_wrap f p lost e = record (stamp_at true f.now p e) { last_wrap_frame = p }
stamp_wrap f p unfinished e = record (stamp_at true f.now p e) { last_wrap_frame = p }

-- A firing with a position, and one without: the timeline runs on at the nominal rate.
unfoldable pub follow : Fire → ℕ → Engine → Engine
follow f p e =
    if ltb p e.last_wrap_frame
    then stamp_wrap f p (if e.edge_lock then f.edge else lost) e
    else record e { last_wrap_frame = p }

unfoldable pub free_run : ℕ → Engine → Engine
free_run now e =
    if not (e.last_stamp_time == 0) && leb ring_period (sub64 now e.last_stamp_time)
    then stamp_at true (e.last_stamp_time + ring_period) 0 e
    else e

-- wrapTimerFired()
unfoldable pub fire_at : Fire → Option ℕ → Engine → Engine
fire_at f none e = free_run f.now e
fire_at f (some p) e = follow f p e

unfoldable pub wrap_timer_fired : Fire → Engine → Engine
wrap_timer_fired f e = if e.running then fire_at f f.position e else e

-- performAudioEngineStart() once the capture is started, and performAudioEngineStop()
unfoldable pub start_stamp : ℕ → ℕ → EdgeResult → Engine → Engine
start_stamp now p (caught q t) e = record (stamp_at false t q e) { last_wrap_frame = q }
start_stamp now p missed e = record (stamp_at false now p e) { last_wrap_frame = p }
start_stamp now p lost e = record (stamp_at false now p e) { last_wrap_frame = p }
start_stamp now p unfinished e = record (stamp_at false now p e) { last_wrap_frame = p }

unfoldable pub engine_start : ℕ → ℕ → EdgeResult → Engine → Engine
engine_start now p edge e =
    start_stamp now (current_sample_frame p) (if e.edge_lock then edge else lost)
      (record e { running = true; timer_armed = e.wrap_timer || e.timer_armed })

unfoldable pub engine_stop : Engine → Engine
engine_stop e = record e { running = false; timer_armed = not e.wrap_timer && e.timer_armed }
