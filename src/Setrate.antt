-- ===== src/Setrate.antt =====
-- The resident mode of contrib/latsof-setrate.c, which corrects the output's sample rate: on_change and
-- enforce_tick. Times are whole milliseconds, where the code has seconds in floating point; where
-- it compares a difference of times, the later time is compared with a sum.
pub mod Debounce
pub mod Devices
mod Tests
use lat_sofaudio.Prelude.{
  ℕ, ◌+◌, Bool, true, false, not, List, [], ◌∷◌, ltb, leb, ◌==◌, ◌&&◌, if◌then◌else◌,
}

-- kSettleSecs, kBurstLimit, kBurstWindow and kBackoffSecs
abbrev pub settle_time : ℕ
settle_time = 8000

abbrev pub burst_limit : ℕ
burst_limit = 5

abbrev pub burst_window : ℕ
burst_window = 60000

abbrev pub backoff_time : ℕ
backoff_time = 60000

-- What happened: the start, which main() takes for an activity and follows by a correction of its own
-- without taking the time again; a notification; or a correction (pin_all) by the timer from one time
-- to another.
pub data Entry : Type 0 where
  begun : ℕ → Entry
  moved : ℕ → Entry
  pinned : ℕ → ℕ → Entry

-- gLastActivity, gBurstStart, gBurstCount and gSettle, and what happened so far, newest first.
pub record Watcher : Type 0 where
  pub last_activity : ℕ
  pub burst_start : ℕ
  pub burst_count : ℕ
  pub settle : ℕ
  pub log : List Entry

abbrev pub started : Watcher
started = record {
  last_activity = 0;
  burst_start = 0;
  burst_count = 0;
  settle = settle_time;
  log = [];
}

-- on_change, but for the listeners that it renews.
pub on_change : ℕ → Watcher → Watcher
on_change now w = record w { last_activity = now; log = moved now ∷ w.log }

-- if(now - gBurstStart > kBurstWindow) { … }
pub renew_burst : ℕ → Watcher → Watcher
renew_burst now w =
    if ltb (w.burst_start + burst_window) now
    then record w { burst_start = now; burst_count = 0 }
    else w

-- if(++gBurstCount > kBurstLimit) { … } else if( … ) { … }
pub count_burst : Watcher → Watcher
count_burst w =
    let n = w.burst_count + 1 in
    if ltb burst_limit n
    then record w { burst_count = n; settle = backoff_time }
    else if not (w.settle == settle_time) && leb n 1
    then record w { burst_count = n; settle = settle_time }
    else record w { burst_count = n }

-- enforce_tick at `now`: `wrong` is what rate_is_wrong() gives, and pin_all returns at `done`.
pub enforce_tick : Bool → ℕ → ℕ → Watcher → Watcher
unfolding renew_burst count_burst
enforce_tick wrong now done w =
    if not wrong
    then w
    else if ltb now (w.last_activity + w.settle)
    then w
    else (let c = count_burst (renew_burst now w) in
        record c { last_activity = done; log = pinned now done ∷ c.log })

-- A turn of the run loop: a notification, or a tick of the timer.
pub data Event : Type 0 where
  changes : ℕ → Event
  ticks : Bool → ℕ → ℕ → Event

pub react : Event → Watcher → Watcher
unfolding on_change enforce_tick
react (changes now) w = on_change now w
react (ticks wrong now done) w = enforce_tick wrong now done w

pub watch : List Event → Watcher → Watcher
unfolding react
watch [] w = w
watch (e ∷ es) w = watch es (react e w)
