-- ===== src/Kext/Boot/Bdl/Cover.antt =====
-- What a buffer descriptor list of kext/LatSOFAudio/LatSOFAudioDevice.cpp makes the DMA engine read.
use lat_sofaudio.Prelude.{
  ℕ, zero, suc, ◌+◌, ◌-◌, ◌*◌, ◌/◌, ◌%◌, ◌^◌, ◌≤◌, ◌<◌, ◌≡◌, ◌∙◌, ap, refl, Bool, Bool-cases,
  branch, true, false, differ, not, ◌&&◌, List, [], ◌∷◌, Option, none, some, inl, inr, ltb, leb,
  ◌==◌, if◌then◌else◌, min, arith,
}
use lat_sofaudio.Kext.Boot.Bdl.{
  BdlEntry, Segment, page_size, page_chunk, segment_chunk, entry, image_entries, image_bdl,
  ring_bdl, ring_size, ring_entries, capture_bdl,
}

-- The bytes that a list stands for, and the address of each, as the engine walks through it.
unfoldable pub total : List BdlEntry → ℕ
total [] = 0
total (e ∷ es) = e.size + total es

unfoldable pub locate : List BdlEntry → ℕ → Option ℕ
locate [] i = none
locate (e ∷ es) i =
    if ltb i e.size then some (e.addr_high * 2 ^ 32 + e.addr_low + i) else locate es (i - e.size)

-- An interrupt on completion is asked for by the last entry, and by no other.
unfoldable pub is_empty : List BdlEntry → Bool
is_empty [] = true
is_empty (e ∷ es) = false

unfoldable pub interrupts_last : List BdlEntry → Bool
interrupts_last [] = true
interrupts_last (e ∷ es) = not (differ e.ioc (is_empty es)) && interrupts_last es

-- What getPhysicalSegment is documented to give: at an offset in a buffer of `size` bytes whose
-- bytes are at `phys`, the address of that byte, and a count of bytes that go on from there in
-- order; in a contiguous buffer, all of them.
pub record Describes (phys : ℕ → ℕ) (size : ℕ) (segments : ℕ → Segment) : Type 0 where
  pub addr : (o : ℕ) → o < size → (segments o).addr ≡ phys o
  pub len : (o : ℕ) → o < size → (segments o).len ≡ size - o
  pub run : (o i : ℕ) → o + i < size → phys o + i ≡ phys (o + i)
  pub below : (o : ℕ) → o < size → phys o < 2 ^ 64

segment_chunk-eq : (rem len : ℕ) → rem ≤ len → segment_chunk rem len ≡ page_chunk rem
unfolding segment_chunk page_chunk
segment_chunk-eq rem len h = ground arith

page_chunk-eq-min : (rem : ℕ) → page_chunk rem ≡ min rem page_size
unfolding page_chunk
page_chunk-eq-min rem = ground arith

-- A list that begins with an entry for `c` bytes, up to the whole, and goes on as the rest does.
total-cons : (p n : ℕ) (b : Bool) (es : List BdlEntry) → total (entry p n b ∷ es) ≡ n + total es
unfolding total entry
total-cons p n b es = refl

locate-cons :
    (p n i : ℕ) (b : Bool) (es : List BdlEntry)
    → p < 2 ^ 64
    → locate (entry p n b ∷ es) i ≡ (if ltb i n then some (p + i) else locate es (i - n))
unfolding locate entry
locate-cons p n i b es h =
    let q : p / 2 ^ 32 % 2 ^ 32 * 2 ^ 32 + p % 2 ^ 32 ≡ p = omega arith in rw q refl

module _ (phys : ℕ → ℕ) (size : ℕ) (segments : ℕ → Segment) (d : Describes phys size segments) where
  -- One turn, on a buffer that is contiguous.
  image_bdl_step :
      (n rem boff : ℕ)
      → rem + boff ≡ size
      → 0 < rem
      → let c = page_chunk rem in
        image_bdl segments (suc n) rem boff
        ≡ entry (phys boff) c (leb rem c) ∷ image_bdl segments n (rem - c) (boff + c)
  unfolding image_bdl
  image_bdl_step n rem boff e p =
      let more : (rem == 0) ≡ false = ground arith in
      let a : (segments boff).addr ≡ phys boff = d.addr boff (omega arith) in
      let c = segment_chunk-eq rem (segments boff).len (omega (arith, d.len boff (omega arith))) in
      rw (more, a, c) refl

  nothing : (n boff : ℕ) → image_bdl segments n 0 boff ≡ []
  unfolding image_bdl
  nothing zero boff = refl
  nothing (suc n) boff = refl

  total-image_bdl :
      (n rem boff : ℕ)
      → rem + boff ≡ size
      → total (image_bdl segments n rem boff) ≡ min rem (n * page_size)
  unfolding total image_bdl
  total-image_bdl zero rem boff e = omega arith
  total-image_bdl (suc n) zero boff e = omega arith
  total-image_bdl (suc n) (suc r) boff e =
      let b = page_chunk-eq-min (suc r) in
      let rest =
        total-image_bdl n (suc r - page_chunk (suc r)) (boff + page_chunk (suc r)) (omega arith) in
      rw (image_bdl_step n (suc r) boff e (omega arith), total-cons) (omega arith)

  locate-image_bdl :
      (n rem boff i : ℕ)
      → rem + boff ≡ size
      → i < rem
      → i < n * page_size
      → locate (image_bdl segments n rem boff) i ≡ some (phys (boff + i))
  locate-image_bdl zero rem boff i e h k = absurd (omega arith)
  locate-image_bdl (suc n) rem boff i e h k =
      let c = page_chunk rem in
      rw
        (
          image_bdl_step n rem boff e (omega arith),
          locate-cons (phys boff) c i (leb rem c) (image_bdl segments n (rem - c) (boff + c))
              (d.below boff (omega arith)),
        )
        (branch (λ (r : Option ℕ). r ≡ some (phys (boff + i))) (ltb i c)
          (λ _. ap some (d.run boff i (omega arith)))
          (λ g.
            let m = page_chunk-eq-min rem in
            let past : c ≤ i = ground arith in
            let same : boff + c + (i - c) ≡ boff + i = omega arith in
            locate-image_bdl n (rem - c) (boff + c) (i - c) (omega arith) (omega arith)
              (omega arith)
            ∙ ap (λ o. some (phys o)) same))

  is_empty-image_bdl :
      (n rem boff : ℕ)
      → rem + boff ≡ size
      → rem ≤ n * page_size
      → is_empty (image_bdl segments n rem boff) ≡ (rem == 0)
  unfolding is_empty image_bdl
  is_empty-image_bdl zero rem boff e h = ground arith
  is_empty-image_bdl (suc n) zero boff e h = refl
  is_empty-image_bdl (suc n) (suc r) boff e h =
      let f : (suc r == 0) ≡ false = ground arith in rw f refl

  interrupts_last-image_bdl :
      (n rem boff : ℕ)
      → rem + boff ≡ size
      → rem ≤ n * page_size
      → interrupts_last (image_bdl segments n rem boff) ≡ true
  unfolding interrupts_last entry
  interrupts_last-image_bdl zero rem boff e h = unfold image_bdl in refl
  interrupts_last-image_bdl (suc n) zero boff e h = rw (nothing (suc n) boff) refl
  interrupts_last-image_bdl (suc n) (suc r) boff e h =
      let c = page_chunk (suc r) in
      let m = page_chunk-eq-min (suc r) in
      let rest = interrupts_last-image_bdl n (suc r - c) (boff + c) (omega arith) (omega arith) in
      let end = is_empty-image_bdl n (suc r - c) (boff + c) (omega arith) (omega arith) in
      let same : leb (suc r) c ≡ (suc r - c == 0) = ground arith in
      rw (image_bdl_step n (suc r) boff e (omega arith), rest, end, same)
        (elim (Bool-cases (suc r - c == 0)) [ inl t ↦ rw t refl | inr f ↦ rw f refl ])

-- The firmware image, of at most 256 pages, in a contiguous buffer: the list stands for as many
-- bytes as the image has, each at the address where it lies, and asks for an interrupt with its
-- last entry only.
pub image_bdl-covers :
    (phys : ℕ → ℕ) (size i : ℕ) (segments : ℕ → Segment)
    → Describes phys size segments
    → size ≤ 256 * page_size
    → i < size
    → let es = image_bdl segments (image_entries size) size 0 in
      (total es ≡ size) × (interrupts_last es ≡ true) × (locate es i ≡ some (phys i))
unfolding image_entries
image_bdl-covers phys size i segments d h l =
    let n = image_entries size in
    let m : size ≤ n * page_size = ground arith in
    (
      omega (arith, total-image_bdl phys size segments d n size 0 (omega arith)),
      interrupts_last-image_bdl phys size segments d n size 0 (omega arith) m,
      locate-image_bdl phys size segments d n size 0 i (omega arith) l (omega arith)
          ∙ ap (λ o. some (phys o)) (omega arith),
    )

ring_bdl_step :
    (n rem phys : ℕ)
    → 0 < rem
    → phys + rem < 2 ^ 64
    → let c = page_chunk rem in
      ring_bdl (suc n) rem phys ≡ entry phys c true ∷ ring_bdl n (rem - c) (phys + c)
unfolding ring_bdl
ring_bdl_step n rem phys p b =
    let more : (rem == 0) ≡ false = ground arith in
    let m = page_chunk-eq-min rem in
    let a : (phys + page_chunk rem) % 2 ^ 64 ≡ phys + page_chunk rem = omega arith in
    rw (more, a) refl

locate-ring_bdl :
    (n rem phys i : ℕ)
    → phys + rem < 2 ^ 64
    → i < rem
    → i < n * page_size
    → locate (ring_bdl n rem phys) i ≡ some (phys + i)
locate-ring_bdl zero rem phys i b h k = absurd (omega arith)
locate-ring_bdl (suc n) rem phys i b h k =
    let c = page_chunk rem in
    let m = page_chunk-eq-min rem in
    rw
      (
        ring_bdl_step n rem phys (omega arith) b,
        locate-cons phys c i true (ring_bdl n (rem - c) (phys + c)) (omega arith),
      )
      (branch (λ (r : Option ℕ). r ≡ some (phys + i)) (ltb i c) (λ _. refl)
        (λ g.
          let past : c ≤ i = ground arith in
          locate-ring_bdl n (rem - c) (phys + c) (i - c) (omega arith) (omega arith) (omega arith)
          ∙ ap some (omega arith)))

-- The capture ring's list sends every byte of the ring to its place, for a buffer below the end of
-- the address space.
pub capture_bdl-covers :
    (phys i : ℕ)
    → phys + ring_size < 2 ^ 64
    → i < ring_size
    → locate (capture_bdl phys) i ≡ some (phys + i)
unfolding capture_bdl ring_entries
capture_bdl-covers phys i b h = locate-ring_bdl 32 ring_size phys i b h (omega arith)
