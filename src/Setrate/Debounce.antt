-- ===== src/Setrate/Debounce.antt =====
-- The one rule of the resident mode of contrib/latsof-setrate.c: it never writes the rate while the
-- audio engine might be rebuilding, but for the write at its start.
use lat_sofaudio.Prelude.{ℕ, ◌+◌, ◌≤◌, ◌<◌, ◌≡◌, Bool, true, ◌&&◌, List, [], ◌∷◌, leb, arith}
use lat_sofaudio.Setrate.{
  Entry, begun, moved, pinned, Watcher, settle_time, backoff_time, burst_limit, burst_window,
  renew_burst, count_burst, enforce_tick,
}

-- When the newest entry ended; for the start, when it began.
unfoldable pub last_of : List Entry → ℕ
last_of [] = 0
last_of (begun t ∷ es) = t
last_of (moved t ∷ es) = t
last_of (pinned t u ∷ es) = u

-- Every correction by the timer began at least the settle time after what happened before it ended.
unfoldable pub is_quiet : List Entry → Bool
unfolding last_of
is_quiet [] = true
is_quiet (begun t ∷ es) = is_quiet es
is_quiet (moved t ∷ es) = is_quiet es
is_quiet (pinned t u ∷ es) = leb (last_of es + settle_time) t && is_quiet es

pub record IsDebounced (w : Watcher) : Type 0 where
  pub quiet : is_quiet w.log ≡ true
  pub last : w.last_activity ≡ last_of w.log
  pub settles : settle_time ≤ w.settle

-- With five corrections counted since a burst began at most a minute ago, the next one, once it is
-- due, makes the watcher wait: any tick less than a minute after its end changes nothing.
pub enforce_tick-backs_off :
    (w : Watcher) (wrong : Bool) (now done now' done' : ℕ)
    → burst_limit ≤ w.burst_count
    → now ≤ w.burst_start + burst_window
    → w.last_activity + w.settle ≤ now
    → now' < done + backoff_time
    → let w' = enforce_tick true now done w in
      (w'.log ≡ pinned now done ∷ w.log) × (enforce_tick wrong now' done' w' ≡ w')
unfolding enforce_tick renew_burst count_burst
enforce_tick-backs_off w wrong now done now' done' many within late soon = ground arith
