-- ===== src/Kext/Boot/Capabilities/First.antt =====
-- The search finds the first capability of each kind.
use lat_sofaudio.Prelude.{
  ℕ, zero, suc, ◌+◌, ◌*◌, ◌-◌, ◌≤◌, ◌<◌, ◌≡◌, ◌≢◌, subst, refl, Bool-cases, true, false, ltb, ◌==◌,
  if◌then◌else◌, inl, inr, branch, arith,
}
use lat_sofaudio.Kext.Boot.Capabilities.{
  hda_cap_ml_id, hda_cap_pp_id, hda_cap_spib_id, Caps, cap_id, note, note_all, scan, find_caps,
}

-- One kind alone.
unfoldable pub scan_one : (ℕ → ℕ) → ℕ → ℕ → ℕ → ℕ → ℕ → ℕ
scan_one mem id len zero o cap = cap
scan_one mem id len (suc n) o cap =
    let rest = scan_one mem id len n (o + 0x10) (note mem id o cap) in
    if ltb o len then rest else cap

scan-scan_one :
    (mem : ℕ → ℕ) (len n o : ℕ) (c : Caps)
    → let s = scan mem len n o c in
      (s.ml_cap ≡ scan_one mem hda_cap_ml_id len n o c.ml_cap)
      × (s.pp_cap ≡ scan_one mem hda_cap_pp_id len n o c.pp_cap)
      × (s.spib_cap ≡ scan_one mem hda_cap_spib_id len n o c.spib_cap)
unfolding scan scan_one note_all
scan-scan_one mem len zero o c = (refl, refl, refl)
scan-scan_one mem len (suc n) o c =
    let rest = scan-scan_one mem len n (o + 0x10) (note_all mem o c) in
    elim (Bool-cases (ltb o len)) [ inl g ↦ rw g rest | inr g ↦ rw g (refl, refl, refl) ]

-- What is found is kept.
scan_one-keeps : (mem : ℕ → ℕ) (id len n o cap : ℕ) → 0 < cap → scan_one mem id len n o cap ≡ cap
unfolding scan_one note
scan_one-keeps mem id len zero o cap h = refl
scan_one-keeps mem id len (suc n) o cap h =
    let same : (cap == 0) ≡ false = ground arith in
    let kept : note mem id o cap ≡ cap = ground arith in
    branch (λ (r : ℕ). r ≡ cap) (ltb o len)
      (λ _. rw kept (scan_one-keeps mem id len n (o + 0x10) cap h)) (λ _. refl)

scan_one-step :
    (mem : ℕ → ℕ) (id len n o cap : ℕ)
    → o < len
    → scan_one mem id len (suc n) o cap ≡ scan_one mem id len n (o + 0x10) (note mem id o cap)
unfolding scan_one
scan_one-step mem id len n o cap h = let g : ltb o len ≡ true = ground arith in rw g refl

-- A capability in range is not passed over: what is found is one of its kind, and none lies before it.
scan_one-first :
    (mem : ℕ → ℕ) (id len n o j : ℕ)
    → 0 < o
    → j < n
    → o + 0x10 * j < len
    → cap_id mem (o + 0x10 * j) ≡ id
    → let r = scan_one mem id len n o 0 in (o ≤ r) × (r ≤ o + 0x10 * j) × (cap_id mem r ≡ id)
scan_one-first mem id len zero o j p l b e = absurd (omega arith)
scan_one-first mem id len (suc n) o j p l b e =
    rw (scan_one-step mem id len n o 0 (omega arith)) (elim (Bool-cases (cap_id mem o == id)) [
      | inl y ↦
          let taken : note mem id o 0 ≡ o = unfold note in rw y refl in
          let found : cap_id mem o ≡ id = ground arith in
          rw (taken, scan_one-keeps mem id len n (o + 0x10) o p) (omega arith, omega arith, found)
      | inr y ↦
          let passed : note mem id o 0 ≡ 0 = unfold note in rw y refl in
          let later : j ≢ 0 = λ z. not_here z y in
          let same : o + 0x10 * j ≡ o + 0x10 + 0x10 * (j - 1) = omega arith in
          let e' : cap_id mem (o + 0x10 + 0x10 * (j - 1)) ≡ id =
            subst (λ i. cap_id mem i ≡ id) same e in
          let r =
            scan_one-first mem id len n (o + 0x10) (j - 1) (omega arith) (omega arith) (omega arith)
              e' in
          rw passed (omega arith, omega arith, r.2)
    ])
  where
    not_here : j ≡ 0 → (cap_id mem o == id) ≡ false → ⊥
    not_here z y =
        let here : o + 0x10 * j ≡ o = omega arith in
        let i : cap_id mem o ≡ id = subst (λ k. cap_id mem k ≡ id) here e in ground arith

-- A capability of each kind in the part of the BAR that is searched: the offset that is found for
-- the kind holds one, and is the first that does.
pub find_caps-first :
    (mem : ℕ → ℕ) (len i j k : ℕ)
    → i < 432
    → j < 432
    → k < 432
    → 0x500 + 0x10 * i < len
    → 0x500 + 0x10 * j < len
    → 0x500 + 0x10 * k < len
    → cap_id mem (0x500 + 0x10 * i) ≡ hda_cap_ml_id
    → cap_id mem (0x500 + 0x10 * j) ≡ hda_cap_pp_id
    → cap_id mem (0x500 + 0x10 * k) ≡ hda_cap_spib_id
    → let c = find_caps mem len in
      (c.ml_cap ≤ 0x500 + 0x10 * i)
      × (cap_id mem c.ml_cap ≡ hda_cap_ml_id)
      × (c.pp_cap ≤ 0x500 + 0x10 * j)
      × (cap_id mem c.pp_cap ≡ hda_cap_pp_id)
      × (c.spib_cap ≤ 0x500 + 0x10 * k)
      × (cap_id mem c.spib_cap ≡ hda_cap_spib_id)
unfolding find_caps
find_caps-first mem len i j k li lj lk bi bj bk ei ej ek =
    let (a, b, c) =
      scan-scan_one mem len 432 0x500 (record { ml_cap = 0; pp_cap = 0; spib_cap = 0 }) in
    let m = scan_one-first mem hda_cap_ml_id len 432 0x500 i (omega arith) li bi ei in
    let p = scan_one-first mem hda_cap_pp_id len 432 0x500 j (omega arith) lj bj ej in
    let s = scan_one-first mem hda_cap_spib_id len 432 0x500 k (omega arith) lk bk ek in
    rw (a, b, c) (m.1, m.2, p.1, p.2, s.1, s.2)
