-- ===== src/Setrate/Devices.antt =====
-- The devices of contrib/latsof-setrate.c: list_devices, device_uid, pin_all, rate_is_wrong,
-- watch_devices, and the modes of main. CoreAudio's answers are given: a device comes with its UID as
-- bytes and with its rate, each none where it cannot be read.
pub mod Settled
pub mod Watching
use lat_sofaudio.Prelude.{
  ℕ, zero, suc, ◌+◌, Bool, true, false, not, ◌&&◌, ◌||◌, Option, none, some, List, [], ◌∷◌, String,
  str_eq, ◌==◌, if◌then◌else◌,
}
use lat_sofaudio.Setrate.{Watcher, started, begun, on_change}

-- Float64, as far as rates need it.
pub record Rates : Type 1 where
  pub Rate : Type 0
  pub eq : Rate → Rate → Bool
  pub zero_rate : Rate
  pub is_positive : Rate → Bool
  pub atof : String → Rate

-- kMaxDevices
abbrev pub max_devices : ℕ
max_devices = 64

-- kTargetUID, "AppleHDAEngineOutput"
abbrev pub target_uid : List ℕ
target_uid =
    b'A' ∷ b'p' ∷ b'p' ∷ b'l' ∷ b'e' ∷ b'H' ∷ b'D' ∷ b'A' ∷ b'E' ∷ b'n' ∷ b'g' ∷ b'i' ∷ b'n' ∷ b'e'
    ∷ b'O' ∷ b'u' ∷ b't' ∷ b'p' ∷ b'u' ∷ b't' ∷ []

-- strstr(s, t) != NULL
unfoldable pub begins : List ℕ → List ℕ → Bool
begins [] s = true
begins (c ∷ t) [] = false
begins (c ∷ t) (d ∷ s) = c == d && begins t s

unfoldable pub strstr : List ℕ → List ℕ → Bool
strstr [] t = begins t []
strstr (d ∷ s) t = begins t (d ∷ s) || strstr s t

module _ (rt : Rates) where
  open rt use {Rate, eq, zero_rate, is_positive, atof}

  pub record Device : Type 0 where
    pub id : ℕ
    pub uid : Option (List ℕ)
    pub rate : Option Rate

  unfoldable pub is_target : Option (List ℕ) → Bool
  is_target none = false
  is_target (some u) = strstr u target_uid

  -- The rate of a target that can be read; none makes the loops go on with the next device.
  unfoldable pub target_rate : Device → Option Rate
  target_rate d = if is_target d.uid then d.rate else none

  -- list_devices(), of the whole list, none where it cannot be read: 64 devices at most.
  unfoldable pub first_devices : ℕ → List Device → List Device
  first_devices zero ds = []
  first_devices (suc n) [] = []
  first_devices (suc n) (d ∷ ds) = d ∷ first_devices n ds

  unfoldable pub list_devices : Option (List Device) → List Device
  list_devices none = []
  list_devices (some ds) = first_devices max_devices ds

  -- rate_is_wrong()
  unfoldable pub differs : Rate → Option Rate → Bool
  differs want none = false
  differs want (some r) = not (eq r want)

  unfoldable pub any_wrong : Rate → List Device → Bool
  any_wrong want [] = false
  any_wrong want (d ∷ ds) = differs want (target_rate d) || any_wrong want ds

  unfoldable pub rate_is_wrong : Rate → Option (List Device) → Bool
  rate_is_wrong want all = any_wrong want (list_devices all)

  -- What pin_all() does with a device: nothing, report its rate, say that it is right, or write it.
  pub data Action : Type 0 where
    skip report already write : Action

  unfoldable pub action : Bool → Rate → Option Rate → Action
  action verbose want none = skip
  action verbose want (some r) =
      if eq want zero_rate
      then report
      else if eq r want
      then (if verbose then already else skip)
      else write

  -- pin_all(), with the actions in order, and the devices after them. `takes` says of which devices
  -- a write by AudioObjectSetPropertyData has taken effect by then: it may fail, or take effect later.
  unfoldable pub after : (Device → Bool) → Rate → Device → Action → Device
  after takes want d skip = d
  after takes want d report = d
  after takes want d already = d
  after takes want d write = if takes d then record d { rate = some want } else d

  unfoldable pub pin_devices :
      (Device → Bool) → Bool → Rate → List Device → List Action × List Device
  pin_devices takes verbose want [] = ([], [])
  pin_devices takes verbose want (d ∷ ds) =
      let a = action verbose want (target_rate d) in
      let (acts, es) = pin_devices takes verbose want ds in (a ∷ acts, after takes want d a ∷ es)

  unfoldable pub pin_all :
      (Device → Bool) → Bool → Rate → Option (List Device) → List Action × List Device
  pin_all takes verbose want all = pin_devices takes verbose want (list_devices all)

  -- Which devices are listened to, for the rate and for the source, as CoreAudio knows it; and
  -- gWatched.
  pub record Listeners : Type 0 where
    pub rate_of : ℕ → Bool
    pub source_of : ℕ → Bool
    pub watched : List ℕ

  -- Both listeners of a device are added, or removed.
  unfoldable pub listen : Bool → ℕ → Listeners → Listeners
  listen b i l = record l {
    rate_of = λ j. if j == i then b else l.rate_of j;
    source_of = λ j. if j == i then b else l.source_of j;
  }

  unfoldable pub remove_all : List ℕ → Listeners → Listeners
  remove_all [] l = l
  remove_all (i ∷ is) l = remove_all is (listen false i l)

  -- The new devices, newest first; there are never more than gWatched has room for.
  unfoldable pub add_device : Device → Listeners → Listeners
  add_device d l =
      if is_target d.uid
      then (let l' = listen true d.id l in record l' { watched = d.id ∷ l.watched })
      else l

  unfoldable pub add_all : List Device → Listeners → Listeners
  add_all [] l = l
  add_all (d ∷ ds) l = add_all ds (add_device d l)

  -- watch_devices()
  unfoldable pub watch_devices : Option (List Device) → Listeners → Listeners
  watch_devices all l =
      add_all (list_devices all) (record (remove_all l.watched l) { watched = [] })

  -- on_change(), whole: the time of the notification, and the listeners anew.
  pub record Resident : Type 0 where
    pub watcher : Watcher
    pub listeners : Listeners

  unfoldable pub on_notice : ℕ → Option (List Device) → Resident → Resident
  on_notice now all r = record {
    watcher = on_change now r.watcher;
    listeners = watch_devices all r.listeners;
  }

  -- The mode that main() finds in its arguments, without the program's name.
  pub data Mode : Type 0 where
    one_shot enforcing usage : Rate → Mode

  unfoldable pub wanted : List String → Rate
  wanted [] = zero_rate
  wanted (a ∷ rest) = atof a

  unfoldable pub resident_mode : Rate → Mode
  resident_mode want = if is_positive want then enforcing want else usage want

  unfoldable pub mode : List String → Mode
  mode [] = one_shot zero_rate
  mode (a ∷ rest) =
      if str_eq a "--enforce" || str_eq a "--watch"
      then resident_mode (wanted rest)
      else one_shot (wanted (a ∷ rest))

  -- What main() returns, what pin_all() did, the devices after it, and the resident tool, if it is
  -- one, at the start of its run loop.
  pub record Exit : Type 0 where
    pub code : ℕ
    pub actions : List Action
    pub devices : List Device
    pub resident : Option Resident

  abbrev pub no_listeners : Listeners
  no_listeners = record { rate_of = λ j. false; source_of = λ j. false; watched = [] }

  -- main() after the arguments, begun at `now`, which counts as the first activity: the timer is there
  -- or not.
  unfoldable pub act : (Device → Bool) → Bool → ℕ → Option (List Device) → Mode → Exit
  act takes timer now all (one_shot want) =
      let (acts, ds) = pin_all takes false want all in
      record { code = 0; actions = acts; devices = ds; resident = none }
  act takes timer now all (usage want) = record {
    code = 2;
    actions = [];
    devices = list_devices all;
    resident = none;
  }
  act takes timer now all (enforcing want) =
      let (acts, ds) = pin_all takes true want all in
      record {
        code = if timer then 0 else 1;
        actions = acts;
        devices = ds;
        resident =
            if timer
            then some (record {
              watcher = record started {
                last_activity = now;
                burst_start = now;
                log = begun now ∷ [];
              };
              listeners = watch_devices all no_listeners;
            })
            else none;
      }

  unfoldable pub main : (Device → Bool) → Bool → ℕ → Option (List Device) → List String → Exit
  main takes timer now all args = act takes timer now all (mode args)
