-- ===== src/Kext/Registers/Waits.antt =====
-- The bounded waits of kext/LatSOFAudio/LatSOFAudioDevice.cpp: what they find, and when they end.
use lat_sofaudio.Prelude.{
  ℕ, zero, suc, ◌+◌, ◌/◌, ◌≤◌, ◌<◌, ◌≡◌, inl, inr, ◌↔◌, subst, Bool, true, ◌||◌, Bool-cases,
  is_none, arith,
}
use lat_sofaudio.Kext.Registers.{poll, poll32, Ici, await_response, claim_ici, ici_verb}

-- Among the n reads from the t-th on, one is ready.
pub IsReadyWithin : (ℕ → Bool) → ℕ → ℕ → Type 0
IsReadyWithin ready t n = (i : ℕ) × (i < n) × (ready (t + i) ≡ true)

at : (ready : ℕ → Bool) (x y : ℕ) → x ≡ y → ready x ≡ true → ready y ≡ true
at ready x y p e = subst (λ z. ready z ≡ true) p e

poll-IsReadyWithin : (ready : ℕ → Bool) (t n : ℕ) → poll ready t n ≡ true → IsReadyWithin ready t n
unfolding poll IsReadyWithin
poll-IsReadyWithin ready t zero h = ground arith
poll-IsReadyWithin ready t (suc n) h = elim (Bool-cases (ready t)) [
  | inl r ↦ (0, omega arith, at ready t (t + 0) (omega arith) r)
  | inr r ↦
      let (i, l, e) = poll-IsReadyWithin ready (t + 1) n (ground arith) in
      (i + 1, omega arith, at ready (t + 1 + i) (t + (i + 1)) (omega arith) e)
]

IsReadyWithin-poll :
    (ready : ℕ → Bool) (t n i : ℕ) → i < n → ready (t + i) ≡ true → poll ready t n ≡ true
unfolding poll
IsReadyWithin-poll ready t zero i l e = ground arith
IsReadyWithin-poll ready t (suc n) zero l e =
    let e' = at ready (t + 0) t (omega arith) e in ground arith
IsReadyWithin-poll ready t (suc n) (suc i) l e =
    let rest =
      IsReadyWithin-poll ready (t + 1) n i (omega arith)
        (at ready (t + suc i) (t + 1 + i) (omega arith) e) in
    ground arith

pub poll-finds : (ready : ℕ → Bool) (t n : ℕ) → (poll ready t n ≡ true) ↔ IsReadyWithin ready t n
unfolding IsReadyWithin
poll-finds ready t n =
    (poll-IsReadyWithin ready t n, λ f. let (i, l, e) = f in IsReadyWithin-poll ready t n i l e)

-- How far a verb gets: a wait for the response reads at most as often as it may.
await_response-reads :
    (i : Ici) (t n : ℕ)
    → ((await_response i t n).reads ≤ t + n) × ((await_response i t n).issued ≡ true)
unfolding await_response
await_response-reads i t zero = ground arith
await_response-reads i t (suc n) = let (r, s) = await_response-reads i (t + 1) n in ground arith

claim_ici-reads :
    (i : Ici) (t n : ℕ)
    → ((claim_ici i t n).reads ≤ t + n + 101)
      × ((claim_ici i t n).issued || is_none (claim_ici i t n).response ≡ true)
unfolding claim_ici
claim_ici-reads i t zero = let (r, s) = await_response-reads i (t + 1) 100 in ground arith
claim_ici-reads i t (suc n) =
    let (r, s) = await_response-reads i (t + 1) 100 in
    let (r', s') = claim_ici-reads i (t + 1) n in ground arith

-- Whatever the interface reads: iciVerb reads its status at most 201 times, and it has a response only
-- to a verb that it put on the link.
pub ici_verb-reads :
    (i : Ici)
    → ((ici_verb i).reads ≤ 201) × ((ici_verb i).issued || is_none (ici_verb i).response ≡ true)
unfolding ici_verb
ici_verb-reads i = claim_ici-reads i 0 100

-- poll32 finds what it waits for exactly where one of its reads does, one for each 500 µs begun.
pub poll32-finds :
    (ready : ℕ → Bool) (usec : ℕ)
    → (poll32 ready usec ≡ true) ↔ IsReadyWithin ready 0 ((usec + 499) / 500)
unfolding poll32
poll32-finds ready usec = poll-finds ready 0 _
