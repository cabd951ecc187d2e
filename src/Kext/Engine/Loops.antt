-- ===== src/Kext/Engine/Loops.antt =====
-- The loop count of the kernel audio engine of kext/LatSOFAudio/LatSOFKernelAudio.cpp: what the wrap
-- timer makes of a running capture, and of one that is lost.
use lat_sofaudio.Prelude.{
  ℕ, ◌+◌, ◌-◌, ◌*◌, ◌/◌, ◌%◌, ◌^◌, ◌≤◌, ◌<◌, ◌≡◌, refl, Bool, true, ◌&&◌, Option, none, some, List,
  [], ◌∷◌, if◌then◌else◌, ◌==◌, leb, ltb, arith,
}
use lat_sofaudio.Kext.Engine.{
  Engine, Stamp, Fire, EdgeResult, caught, missed, lost, engine_frames, ring_period, sub64,
  stamp_at, stamp_wrap, follow, free_run, fire_at, wrap_timer_fired,
}

-- The loop increments among the stamps.
unfoldable pub count_loops : List Stamp → ℕ
count_loops [] = 0
count_loops (s ∷ ss) = count_loops ss + (if s.increments then 1 else 0)

-- The frames that the engine's clock stands for.
unfoldable pub frames_of : Engine → ℕ
frames_of e = count_loops e.stamps * engine_frames + e.last_wrap_frame

-- A firing while the hardware captures: the frames captured at its entry, at a later edge if one is
-- caught, and its clocks.
pub record Reading : Type 0 where
  pub frames : ℕ
  pub at_edge : Option ℕ
  pub now : ℕ
  pub edge_time : ℕ

unfoldable pub edge_of : Option ℕ → ℕ → EdgeResult
edge_of (some f) t = caught (f % engine_frames) t
edge_of none t = missed

unfoldable pub fire_of : Reading → Fire
fire_of r = record {
  now = r.now;
  position = some (r.frames % engine_frames);
  edge = edge_of r.at_edge r.edge_time;
}

-- The frames the timer has read: the edge's, where the position moved backwards and it is caught.
unfoldable pub seen_edge : Option ℕ → ℕ → ℕ
seen_edge (some f) n = f
seen_edge none n = n

unfoldable pub seen : Engine → Reading → ℕ
seen e r =
    if ltb (r.frames % engine_frames) e.last_wrap_frame && e.edge_lock
    then seen_edge r.at_edge r.frames
    else r.frames

-- A later edge, within the same ring.
unfoldable pub is_later : Option ℕ → ℕ → Bool
is_later (some f) n = leb n f && (f / engine_frames == n / engine_frames)
is_later none n = true

-- A firing that reads the hardware less than a ring after what was seen before.
unfoldable pub is_timely : ℕ → Reading → Bool
is_timely before r =
    leb before r.frames && ltb r.frames (before + engine_frames) && is_later r.at_edge r.frames

follow-exact :
    (e : Engine) (r : Reading) (o : Option ℕ)
    → r.at_edge ≡ o
    → is_timely (frames_of e) r ≡ true
    → e.last_wrap_frame < engine_frames
    → let e' = follow (fire_of r) (r.frames % engine_frames) e in
      (frames_of e' ≡ seen e r) × (e'.last_wrap_frame < engine_frames) × (e'.running ≡ e.running)
unfolding follow stamp_wrap stamp_at frames_of count_loops fire_of edge_of seen seen_edge is_timely
    is_later
follow-exact e r none p t b = ground arith
follow-exact e r (some f) p t b = ground arith

-- The furthest frame that a reading may have seen.
unfoldable pub furthest : Reading → ℕ
furthest r = seen_edge r.at_edge r.frames

-- Firings that each come less than a ring after the one before, whose frames were at least `lo` and
-- at most `hi`.
unfoldable pub is_polled : ℕ → ℕ → List Reading → Bool
is_polled lo hi [] = true
is_polled lo hi (r ∷ rs) =
    leb hi r.frames
    && ltb r.frames (lo + engine_frames)
    && is_later r.at_edge r.frames
    && is_polled r.frames (furthest r) rs

unfoldable pub fires : List Reading → Engine → Engine
fires [] e = e
fires (r ∷ rs) e = fires rs (wrap_timer_fired (fire_of r) e)

-- The last reading, of a list after one.
unfoldable pub last_of : Reading → List Reading → Reading
last_of r [] = r
last_of r (s ∷ rs) = last_of s rs

seen-between :
    (e : Engine) (r : Reading) (o : Option ℕ)
    → r.at_edge ≡ o
    → is_later r.at_edge r.frames ≡ true
    → (r.frames ≤ seen e r) × (seen e r ≤ furthest r)
unfolding seen seen_edge furthest is_later
seen-between e r none p h = ground arith
seen-between e r (some f) p h = ground arith

fire-exact :
    (e : Engine) (r : Reading) (lo hi : ℕ)
    → e.running ≡ true
    → e.last_wrap_frame < engine_frames
    → lo ≤ frames_of e
    → frames_of e ≤ hi
    → leb hi r.frames && ltb r.frames (lo + engine_frames) && is_later r.at_edge r.frames ≡ true
    → let e' = wrap_timer_fired (fire_of r) e in
      (e'.running ≡ true)
      × (e'.last_wrap_frame < engine_frames)
      × (r.frames ≤ frames_of e')
      × (frames_of e' ≤ furthest r)
unfolding wrap_timer_fired fire_at fire_of is_timely
fire-exact e r lo hi u b l h t =
    let (f, w, n) = follow-exact e r r.at_edge refl (ground arith) b in
    let (p, q) = seen-between e r r.at_edge refl (ground arith) in ground arith

-- A running engine whose clock stands between `lo` and `hi` frames, and firings that each read the
-- hardware less than a ring after the one before and not before the edge that it may have caught:
-- where each caught edge lies in the ring that its firing reads, not behind it, the loops that the
-- engine has counted and its last position make up the frames captured at the last firing, or at the
-- later edge that this firing caught. No ring is lost then and none is counted twice.
pub fires-exact :
    (e : Engine) (r : Reading) (rs : List Reading) (lo hi : ℕ)
    → e.running ≡ true
    → e.last_wrap_frame < engine_frames
    → lo ≤ frames_of e
    → frames_of e ≤ hi
    → is_polled lo hi (r ∷ rs) ≡ true
    → let e' = fires (r ∷ rs) e in
      let s = last_of r rs in (s.frames ≤ frames_of e') × (frames_of e' ≤ furthest s)
unfolding fires is_polled last_of
fires-exact e r [] lo hi u b l h t =
    let (u', b', l', h') = fire-exact e r lo hi u b l h (ground arith) in (l', h')
fires-exact e r (s ∷ rs) lo hi u b l h t =
    let (u', b', l', h') = fire-exact e r lo hi u b l h (ground arith) in
    fires-exact (wrap_timer_fired (fire_of r) e) s rs r.frames (furthest r) u' b' l' h'
      (ground arith)

-- Firings while the capture is lost, by the clock at each.
unfoldable pub outage : List ℕ → Engine → Engine
outage [] e = e
outage (t ∷ ts) e =
    outage ts (wrap_timer_fired (record { now = t; position = none; edge = lost }) e)

-- Each at most a ring's period after the one before, the first after `since`.
unfoldable pub is_frequent : ℕ → List ℕ → Bool
is_frequent since [] = true
is_frequent since (t ∷ ts) =
    leb since t && leb t (since + ring_period) && ltb t (2 ^ 63) && is_frequent t ts

unfoldable pub final : ℕ → List ℕ → ℕ
final since [] = since
final since (t ∷ ts) = final t ts

-- The engine in an outage: its last stamp is less than a ring's period ago.
record IsCurrent (e : Engine) (now : ℕ) : Type 0 where
  running : e.running ≡ true
  known : 0 < e.last_stamp_time
  past : e.last_stamp_time ≤ now
  near : now < e.last_stamp_time + ring_period

outage-step :
    (e : Engine) (since t : ℕ)
    → IsCurrent e since
    → leb since t && leb t (since + ring_period) && ltb t (2 ^ 63) ≡ true
    → let e' = wrap_timer_fired (record { now = t; position = none; edge = lost }) e in
      IsCurrent e' t
      × (e'.last_stamp_time
          ≡ e.last_stamp_time + (count_loops e'.stamps - count_loops e.stamps) * ring_period)
      × (count_loops e.stamps ≤ count_loops e'.stamps)
unfolding wrap_timer_fired fire_at free_run stamp_at sub64 count_loops
outage-step e since t h b = ground arith

outage-paced :
    (ts : List ℕ) (e : Engine) (since : ℕ)
    → IsCurrent e since
    → is_frequent since ts ≡ true
    → let e' = outage ts e in
      IsCurrent e' (final since ts)
      × (e'.last_stamp_time
          ≡ e.last_stamp_time + (count_loops e'.stamps - count_loops e.stamps) * ring_period)
      × (count_loops e.stamps ≤ count_loops e'.stamps)
unfolding outage is_frequent final
outage-paced [] e since b f = (b, omega arith, omega arith)
outage-paced (t ∷ ts) e since b f =
    let (c, l, m) = outage-step e since t b (ground arith) in
    let (c', l', m') =
      outage-paced ts (wrap_timer_fired (record { now = t; position = none; edge = lost }) e) t c
        (ground arith) in
    (c', omega arith, omega arith)

-- A running engine whose last stamp is less than a ring's period ago, and firings without a valid
-- position, each at most a ring's period after the one before: the loops counted meanwhile are the
-- whole rings' periods since that stamp, so that sample time and host time stay together.
pub outage-keeps_time :
    (ts : List ℕ) (e : Engine) (since : ℕ)
    → e.running ≡ true
    → 0 < e.last_stamp_time
    → e.last_stamp_time ≤ since
    → since < e.last_stamp_time + ring_period
    → is_frequent since ts ≡ true
    → let e' = outage ts e in
      let n = count_loops e'.stamps - count_loops e.stamps in
      (e.last_stamp_time + n * ring_period ≤ final since ts)
      × (final since ts < e.last_stamp_time + (n + 1) * ring_period)
outage-keeps_time ts e since r k p n f =
    let (c, l, m) =
      outage-paced ts e since (record { running = r; known = k; past = p; near = n }) f in
    let past = c.past in let near = c.near in (omega arith, omega arith)
