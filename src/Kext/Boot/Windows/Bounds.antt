-- ===== src/Kext/Boot/Windows/Bounds.antt =====
-- Which reads of the DSP's BAR the search of the mailbox windows makes.
use lat_sofaudio.Prelude.{
  ℕ, zero, suc, ◌+◌, ◌≤◌, ◌≡◌, refl, Bool, branch, true, ◌&&◌, List, [], ◌∷◌, ltb, leb, ◌==◌, arith,
}
use lat_sofaudio.Kext.Boot.Windows.{
  mbox_uplink, Read, head, count, window, Boxes, take_window, take_windows, window_count,
  take_record, see_head, is_record, take_records, with_fallback, find_boxes,
}

-- The head of a record and its windows lie in the BAR, and the word with the count of windows begins
-- in it or where it ends.
unfoldable pub is_inside : ℕ → Read → Bool
is_inside len (head o) = leb (o + 4) len
is_inside len (window o) = leb (o + 4) len
is_inside len (count o) = leb o len

unfoldable pub all_inside : ℕ → List Read → Bool
all_inside len [] = true
all_inside len (r ∷ rs) = is_inside len r && all_inside len rs

take_windows-inside :
    (mem : ℕ → ℕ) (len wb n : ℕ) (b : Boxes)
    → all_inside len b.reads ≡ true
    → all_inside len (take_windows mem len wb n b).reads ≡ true
unfolding take_windows take_window all_inside is_inside
take_windows-inside mem len wb zero b h = h
take_windows-inside mem len wb (suc n) b h =
    branch (λ (r : Boxes). all_inside len r.reads ≡ true) (ltb len (wb + 24)) (λ _. h)
      (λ g. take_windows-inside mem len (wb + 24) n (take_window mem wb b) (ground arith))

take_record-inside :
    (mem : ℕ → ℕ) (len ext : ℕ) (b : Boxes)
    → ext + 12 ≤ len
    → all_inside len b.reads ≡ true
    → all_inside len (take_record mem len ext b).reads ≡ true
unfolding take_record all_inside is_inside
take_record-inside mem len ext b l h =
    branch (λ (r : Boxes). all_inside len r.reads ≡ true) (mem (ext + 8) == 1)
      (λ _. take_windows-inside mem len (ext + 16) (window_count (mem (ext + 12))) _ (ground arith))
      (λ _. h)

see_head-inside :
    (len ext : ℕ) (b : Boxes)
    → ext + 12 ≤ len
    → all_inside len b.reads ≡ true
    → all_inside len (see_head ext b).reads ≡ true
unfolding see_head all_inside is_inside
see_head-inside len ext b l h = ground arith

take_records-inside :
    (mem : ℕ → ℕ) (len ext n : ℕ) (b : Boxes)
    → all_inside len b.reads ≡ true
    → all_inside len (take_records mem len ext n b).reads ≡ true
unfolding take_records
take_records-inside mem len ext zero b h = h
take_records-inside mem len ext (suc n) b h =
    branch (λ (r : Boxes). all_inside len r.reads ≡ true) (ltb len (ext + 12)) (λ _. h)
      (λ g.
        let l : ext + 12 ≤ len = ground arith in
        let s = see_head-inside len ext b l h in
        branch (λ (r : Boxes). all_inside len r.reads ≡ true) (is_record mem ext)
          (λ _.
            take_records-inside mem len (ext + mem ext) n _
              (take_record-inside mem len ext (see_head ext b) l s))
          (λ _. s))

-- Whatever the firmware left in its memory and whatever the sizes in it say, the search for the
-- mailboxes reads the heads of records and the windows inside the BAR only, and the word with the
-- count of windows no further than at its end.
pub find_boxes-inside :
    (mem : ℕ → ℕ) (len size : ℕ) → all_inside len (find_boxes mem len size).reads ≡ true
unfolding find_boxes with_fallback
find_boxes-inside mem len size =
    take_records-inside mem len (mbox_uplink + size) 20 _ (unfold all_inside in refl)
