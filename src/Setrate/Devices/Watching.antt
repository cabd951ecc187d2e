-- ===== src/Setrate/Devices/Watching.antt =====
-- Which devices the resident mode of contrib/latsof-setrate.c listens to.
use lat_sofaudio.Prelude.{
  ℕ, ◌≡◌, refl, sym, ◌∙◌, Bool, false, not, ◌&&◌, ◌||◌, Option, List, [], ◌∷◌, ◌==◌, arith,
}
use lat_sofaudio.Setrate.Devices.{
  Rates, Device, is_target, list_devices, Listeners, listen, remove_all, add_device, add_all,
  watch_devices, Resident, on_notice,
}

unfoldable pub has : ℕ → List ℕ → Bool
has j [] = false
has j (i ∷ is) = j == i || has j is

module _ (rt : Rates) where
  -- Among the devices there is a target with the ID.
  unfoldable pub names : ℕ → List (Device rt) → Bool
  names j [] = false
  names j (d ∷ ds) = is_target rt d.uid && j == d.id || names j ds

  -- CoreAudio knows the listeners of the devices of gWatched, and no others.
  pub record IsSynced (l : Listeners rt) : Type 0 where
    pub rate_of : (j : ℕ) → l.rate_of j ≡ has j l.watched
    pub source_of : (j : ℕ) → l.source_of j ≡ has j l.watched

  remove_all_lem :
      (is : List ℕ) (l : Listeners rt) (j : ℕ)
      → ((remove_all rt is l).rate_of j ≡ (l.rate_of j && not (has j is)))
        × ((remove_all rt is l).source_of j ≡ (l.source_of j && not (has j is)))
  unfolding remove_all listen has
  remove_all_lem [] l j = ground arith
  remove_all_lem (i ∷ is) l j = ground (arith, remove_all_lem is (listen rt false i l) j)

  add_device_lem :
      (d : Device rt) (l : Listeners rt) (j : ℕ)
      → let here = is_target rt d.uid && j == d.id in
        let l' = add_device rt d l in
        (l'.rate_of j ≡ (here || l.rate_of j))
        × (l'.source_of j ≡ (here || l.source_of j))
        × (has j l'.watched ≡ (here || has j l.watched))
  unfolding add_device listen has
  add_device_lem d l j = ground arith

  add_all_lem :
      (ds : List (Device rt)) (l : Listeners rt) (j : ℕ)
      → let l' = add_all rt ds l in
        (l'.rate_of j ≡ (names j ds || l.rate_of j))
        × (l'.source_of j ≡ (names j ds || l.source_of j))
        × (has j l'.watched ≡ (names j ds || has j l.watched))
  unfolding add_all names
  add_all_lem [] l j = (refl, refl, refl)
  add_all_lem (d ∷ ds) l j =
      ground (arith, add_all_lem ds (add_device rt d l) j, add_device_lem d l j)

  watch_devices-IsExact :
      (all : Option (List (Device rt))) (l : Listeners rt)
      → IsSynced l
      → (j : ℕ)
      → let l' = watch_devices rt all l in
        let there = names j (list_devices rt all) in
        (l'.rate_of j ≡ there) × (l'.source_of j ≡ there) × (has j l'.watched ≡ there)
  unfolding watch_devices
  watch_devices-IsExact all l s j =
      let gone = remove_all_lem l.watched l j in
      let rate = s.rate_of j in
      let source = s.source_of j in
      let cleared : Listeners rt = record (remove_all rt l.watched l) { watched = [] } in
      let added = add_all_lem (list_devices rt all) cleared j in
      let none_left : has j [] ≡ false = unfold has in refl in ground arith

  unfoldable pub notices : List (ℕ × Option (List (Device rt))) → Resident rt → Resident rt
  notices [] r = r
  notices ((now, all) ∷ ns) r = notices ns (on_notice rt now all r)

  watch_devices-IsSynced :
      (all : Option (List (Device rt))) (l : Listeners rt)
      → IsSynced l
      → IsSynced (watch_devices rt all l)
  watch_devices-IsSynced all l s = record {
    rate_of = λ j. let e = watch_devices-IsExact all l s j in e.0 ∙ sym e.2;
    source_of = λ j. let e = watch_devices-IsExact all l s j in e.1 ∙ sym e.2;
  }

  notices-IsSynced :
      (ns : List (ℕ × Option (List (Device rt)))) (r : Resident rt)
      → IsSynced r.listeners
      → IsSynced (notices ns r).listeners
  unfolding notices on_notice
  notices-IsSynced [] r s = s
  notices-IsSynced ((now, all) ∷ ns) r s =
      notices-IsSynced ns (on_notice rt now all r) (watch_devices-IsSynced all r.listeners s)

  -- From the first listeners on, over any sequence of notifications with whatever devices come and go:
  -- after the last notification on_change is registered for the rate and for the source of exactly
  -- the targets that are listed then, and gWatched holds exactly their IDs.
  pub notices-IsExact :
      (ns : List (ℕ × Option (List (Device rt)))) (now : ℕ) (all : Option (List (Device rt)))
      (r : Resident rt)
      → IsSynced r.listeners
      → (j : ℕ)
      → let l = (on_notice rt now all (notices ns r)).listeners in
        let there = names j (list_devices rt all) in
        (l.rate_of j ≡ there) × (l.source_of j ≡ there) × (has j l.watched ≡ there)
  unfolding on_notice
  notices-IsExact ns now all r s =
      watch_devices-IsExact all (notices ns r).listeners (notices-IsSynced ns r s)
