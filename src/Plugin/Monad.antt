-- ===== src/Plugin/Monad.antt =====
-- The monad of the plug-in's functions: the globals, early exits by `goto Done`, and mutexes.
use lat_sofaudio.Prelude.{Bool, true, false, Option, none, some}
use lat_sofaudio.Plugin.Types.{Status}
use lat_sofaudio.Plugin.Floats.{Floats}
use lat_sofaudio.Plugin.State.{PlugIn}

-- How a call ends: with `theAnswer` 0 and a value, by `goto Done` with an error, or never, since it
-- waits for a mutex that is held (the mutexes are not recursive), or by reading through NULL.
pub data Exit (S A : Type 0) : Type 0 where
  returned : A → S → Exit S A
  failed : Status → S → Exit S A
  blocked : Exit S A
  crashed : Exit S A

abbrev pub M : Floats → Type 0 → Type 0
M fl A = PlugIn fl → Exit (PlugIn fl) A

infixl 5 ◌>>=◌ ◌>>◌
abbrev pub ◌>>=◌ : {fl : Floats} {A B : Type 0} → M fl A → (A → M fl B) → M fl B
◌>>=◌ m f s = elim (m s) [
  | returned a s' ↦ f a s'
  | failed e s' ↦ failed e s'
  | blocked ↦ blocked
  | crashed ↦ crashed
]

abbrev pub ◌>>◌ : {fl : Floats} {A B : Type 0} → M fl A → M fl B → M fl B
◌>>◌ m k s = elim (m s) [
  | returned a s' ↦ k s'
  | failed e s' ↦ failed e s'
  | blocked ↦ blocked
  | crashed ↦ crashed
]

module _ {fl : Floats} where
  abbrev pub pure : {A : Type 0} → A → M fl A
  pure a s = returned a s

  abbrev pub read : M fl (PlugIn fl)
  read s = returned s s

  abbrev pub modify : (PlugIn fl → PlugIn fl) → M fl (Unit {0})
  modify f s = returned tt (f s)

  -- theAnswer = e; goto Done
  abbrev pub fail : {A : Type 0} → Status → M fl A
  fail e s = failed e s

  abbrev pub crash : {A : Type 0} → M fl A
  crash s = crashed

  -- FailWithAction(c, theAnswer = e, Done, …)
  abbrev pub fail_if : Bool → Status → M fl (Unit {0})
  fail_if true e s = failed e s
  fail_if false e s = returned tt s

  -- pthread_mutex_lock(&gPlugIn_StateMutex)
  abbrev take_state : PlugIn fl → Bool → Exit (PlugIn fl) (Unit {0})
  take_state s true = blocked
  take_state s false = returned tt (record s { state_mutex = true })

  abbrev pub lock_state : M fl (Unit {0})
  lock_state s = take_state s s.state_mutex

  abbrev pub unlock_state : M fl (Unit {0})
  unlock_state s = returned tt (record s { state_mutex = false })

  abbrev take_io : PlugIn fl → Bool → Exit (PlugIn fl) (Unit {0})
  take_io s true = blocked
  take_io s false = returned tt (record s { io_mutex = true })

  abbrev pub lock_io : M fl (Unit {0})
  lock_io s = take_io s s.io_mutex

  abbrev pub unlock_io : M fl (Unit {0})
  unlock_io s = returned tt (record s { io_mutex = false })

  -- `return theAnswer` after the critical section: none is 0.
  abbrev pub answer : Option Status → M fl (Unit {0})
  answer none s = returned tt s
  answer (some e) s = failed e s
