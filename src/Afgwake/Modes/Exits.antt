-- ===== src/Afgwake/Modes/Exits.antt =====
-- How contrib/latsof-afgwake.c leaves the codec in each of its modes.
use lat_sofaudio.Prelude.{
  ℕ, ◌≡◌, refl, Bool, true, false, ◌&&◌, ◌||◌, Option, List, [], ◌∷◌, String, ◌==◌, if◌then◌else◌,
  branch, Bool-cases, inl, inr, arith,
}
use lat_sofaudio.Afgwake.{
  Sent, Tool, Codec, sent_verb, send, codec_verb, any_device_running, Notice,
}
use lat_sofaudio.Afgwake.Rule.{is_lawful, correct_if_wrong-is_lawful, watch-is_lawful}
use lat_sofaudio.Afgwake.Modes.{
  Mode, once, status, resident, codec_open, codec_close, read_states, correct_if_running, act, main,
  mode,
}

-- Only reads of power states.
unfoldable pub only_reads : List Sent → Bool
only_reads [] = true
only_reads (s ∷ ss) = s.verb == 3845 && only_reads ss

-- What a mode may send.
unfoldable pub is_allowed : Mode → List Sent → Bool
is_allowed once log = is_lawful log
is_allowed status log = only_reads log
is_allowed resident log = is_lawful log

codec_verb-only_reads :
    (c : Codec) (nid : ℕ) (t : Tool)
    → only_reads t.log ≡ true
    → only_reads (codec_verb c nid 3845 0 t).tool.log ≡ true
unfolding codec_verb send sent_verb only_reads
codec_verb-only_reads c nid t h = ground arith

correct_if_running-is_lawful :
    (c : Codec) (ds : Option (List (Option ℕ))) (t : Tool)
    → is_lawful t.log ≡ true
    → is_lawful (correct_if_running c ds t).log ≡ true
unfolding correct_if_running
correct_if_running-is_lawful c ds t h =
    branch (λ (u : Tool). is_lawful u.log ≡ true) (any_device_running ds)
      (λ _. correct_if_wrong-is_lawful c t h) (λ _. h)

act-is_allowed :
    (c : Codec) (m : Mode) (ds : Option (List (Option ℕ))) (all : Option (List ℕ))
    (ns : List Notice) (t : Tool)
    → t.log ≡ []
    → let e = act c m ds all ns t in
      (is_allowed m e.tool.log ≡ true) × (e.tool.port ≡ false) × (e.code ≡ 0)
unfolding act is_allowed codec_close read_states
act-is_allowed c once ds all ns t h =
    (correct_if_running-is_lawful c ds t (rw h (unfold is_lawful in refl)), refl, refl)
act-is_allowed c status ds all ns t h = (
  codec_verb-only_reads c 3 _ (
      codec_verb-only_reads c 33 _
        (codec_verb-only_reads c 1 t (rw h (unfold only_reads in refl)))),
  refl,
  refl,
)
act-is_allowed c resident ds all ns t h = (
  watch-is_lawful c ns _ (correct_if_running-is_lawful c ds t (rw h (unfold is_lawful in refl))),
  refl,
  refl,
)

nothing-is_allowed : (m : Mode) → is_allowed m [] ≡ true
unfolding is_allowed is_lawful only_reads
nothing-is_allowed once = refl
nothing-is_allowed status = refl
nothing-is_allowed resident = refl

unfoldable pub is_unused : List Sent → Bool
is_unused [] = true
is_unused (s ∷ ss) = false

-- Whatever the arguments, the codec and the devices: the tool returns with its port closed. With
-- --status it has only read power states; otherwise it has kept to its rule, that it sets D0 only
-- directly after it read another state. It returns 1, having sent nothing, exactly if the codec
-- could not be opened at the start, and 0 otherwise.
pub main-is_allowed :
    (c : Codec) (args : List String) (ds : Option (List (Option ℕ))) (all : Option (List ℕ))
    (ns : List Notice)
    → let e = main c args ds all ns in
      (is_allowed (mode args) e.tool.log ≡ true)
      × (e.tool.port ≡ false)
      × (e.code ≡ (if c.opens [] then 0 else 1))
      × (c.opens [] || is_unused e.tool.log ≡ true)
unfolding main codec_open is_unused
main-is_allowed c args ds all ns = elim (Bool-cases (c.opens [])) [
  | inl o ↦
      let a = act-is_allowed c (mode args) ds all ns (record { port = true; log = [] }) refl in
      rw o (a.0, a.1, a.2, refl)
  | inr o ↦ rw o (nothing-is_allowed (mode args), refl, refl, refl)
]
