-- ===== src/Kext/Boot/Wake/Bounds.antt =====
-- How the wait at the beginning of initDSP ends, and what the way back to D0 changes.
use lat_sofaudio.Prelude.{
  ℕ, zero, suc, ◌+◌, ◌*◌, ◌/◌, ◌%◌, ◌≤◌, ◌≡◌, refl, sym, ◌∙◌, ◌↔◌, Bool, true, not, ◌&&◌, ◌||◌,
  Option, none, some, inl, inr, Bool-cases, if◌then◌else◌, ◌==◌, arith,
}
use lat_sofaudio.Kext.Registers.{poll}
use lat_sofaudio.Kext.Registers.Waits.{IsReadyWithin, poll-finds}
use lat_sofaudio.Kext.Boot.Wake.{
  config_read16, link, walk, pm_cap, ConfigWrite, power_write, is_void, await_gcap, await_link,
  begin_init,
}

-- The bytes after a write of 16 bits, where the space keeps what is written.
unfoldable pub store : ConfigWrite → (ℕ → ℕ) → ℕ → ℕ
store w cfg o =
    if o == w.offset then w.value % 256 else if o == w.offset + 1 then w.value / 256 else cfg o

unfoldable pub written : Option ConfigWrite → (ℕ → ℕ) → ℕ → ℕ
written none cfg = cfg
written (some w) cfg = store w cfg

store_back : (w : ConfigWrite) (cfg : ℕ → ℕ) → config_read16 (store w cfg) w.offset ≡ w.value
unfolding config_read16 store
store_back w cfg = ground arith

walk-id : (cfg : ℕ → ℕ) (n off : ℕ) → let pm = walk cfg n off in pm == 0 || cfg pm == 1 ≡ true
unfolding walk
walk-id cfg zero off = refl
walk-id cfg (suc n) off = ground (arith, walk-id cfg n (link (cfg (off + 1))))

pm_cap-id : (cfg : ℕ → ℕ) → let pm = pm_cap cfg in pm == 0 || cfg pm == 1 ≡ true
unfolding pm_cap
pm_cap-id cfg = ground (arith, walk-id cfg 48 (link (cfg 0x34)))

-- Whatever a configuration space holds that keeps what is written (PME_Status, which a written 1
-- clears, is taken for such a bit): what is found is a PM capability, and after the way back it
-- is in D0 with the other bits of its PMCSR as before; no other byte changes.
pub power_write-wakes :
    (cfg : ℕ → ℕ) (o : ℕ)
    → let pm = pm_cap cfg in
      let after = written (power_write cfg) cfg in
      (pm == 0 || cfg pm == 1 ≡ true)
      × (pm == 0 || config_read16 after (pm + 4) == config_read16 cfg (pm + 4) / 4 * 4 ≡ true)
      × (o == pm + 4 || o == pm + 5 || after o == cfg o ≡ true)
unfolding power_write written
power_write-wakes cfg o =
    let pm = pm_cap cfg in
    let pmcs = config_read16 cfg (pm + 4) in
    let w : ConfigWrite = record { offset = pm + 4; value = pmcs / 4 * 4 } in
    let back = store_back w cfg in
    elim (Bool-cases (not (pm == 0) && not (pmcs % 4 == 0))) [
      | inl y ↦ rw y (pm_cap-id cfg, ground (arith, back), unfold store in ground arith)
      | inr n ↦ rw n (pm_cap-id cfg, ground arith, ground arith)
    ]

await_gcap-tries : (gcap : ℕ → ℕ) (t n : ℕ) → (await_gcap gcap t n).tries ≤ t + n
unfolding await_gcap
await_gcap-tries gcap t zero = omega arith
await_gcap-tries gcap t (suc n) = ground (arith, await_gcap-tries gcap (t + 1) n)

-- A read of GCAP that is neither 0 nor all ones.
unfoldable pub answers : (ℕ → ℕ) → ℕ → Bool
answers gcap i = not (gcap i == 0) && not (gcap i == 0xffff)

await_gcap-value :
    (gcap : ℕ → ℕ) (t n : ℕ)
    → not (is_void (await_gcap gcap t n).value) ≡ poll (answers gcap) t (suc n)
unfolding await_gcap poll is_void answers
await_gcap-value gcap t zero = ground arith
await_gcap-value gcap t (suc n) = ground (arith, await_gcap-value gcap (t + 1) n)

await_link_lem : (crst : ℕ → Bool) (t n : ℕ) → await_link crst t n ≤ t + n
unfolding await_link
await_link_lem crst t zero = omega arith
await_link_lem crst t (suc n) = ground (arith, await_link_lem crst (t + 1) n)

begin_init_lem :
    (cfg gcap : ℕ → ℕ) (crst : ℕ → Bool)
    → let b = begin_init cfg gcap crst in (b.decoding ≡ poll (answers gcap) 0 51) × (b.slept ≤ 2260)
unfolding begin_init
begin_init_lem cfg gcap crst =
    let v = await_gcap-value gcap 0 50 in
    let t = await_gcap-tries gcap 0 50 in
    let l = await_link_lem crst 0 100 in
    elim (Bool-cases (is_void (await_gcap gcap 0 50).value)) [
      | inl y ↦ rw y (ground (arith, v), ground (arith, t, l))
      | inr n ↦ rw n (ground (arith, v), ground (arith, t, l))
    ]

-- Whatever the configuration space, the controller and the link read as: the attempt goes on exactly
-- if one of the first 51 reads of GCAP is neither 0 nor all ones, and it has slept at most 2.26 s by
-- the end of its first waits.
pub begin_init-decoding :
    (cfg gcap : ℕ → ℕ) (crst : ℕ → Bool)
    → let b = begin_init cfg gcap crst in
      ((b.decoding ≡ true) ↔ IsReadyWithin (answers gcap) 0 51) × (b.slept ≤ 2260)
begin_init-decoding cfg gcap crst =
    let (d, s) = begin_init_lem cfg gcap crst in
    let (f, g) = poll-finds (answers gcap) 0 51 in ((λ y. f (sym d ∙ y), λ r. d ∙ g r), s)
