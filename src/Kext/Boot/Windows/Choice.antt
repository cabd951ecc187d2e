-- ===== src/Kext/Boot/Windows/Choice.antt =====
-- Which windows become the mailboxes.
use lat_sofaudio.Prelude.{ℕ, zero, suc, ◌+◌, List, [], ◌∷◌, ◌++◌, ltb, ◌==◌, if◌then◌else◌}
use lat_sofaudio.Kext.Boot.Windows.{sof_ipc_ext_window, window_base, window_count, is_record}

-- A window: its type, and where it lies.
pub record Window : Type 0 where
  pub kind : ℕ
  pub base : ℕ

-- The windows of a record, and of all records, as far as they are taken.
unfoldable pub windows_at : (ℕ → ℕ) → ℕ → ℕ → ℕ → List Window
windows_at mem len wb zero = []
windows_at mem len wb (suc n) =
    let rest = windows_at mem len (wb + 24) n in
    if ltb len (wb + 24)
    then []
    else record { kind = mem (wb + 4); base = window_base mem wb } ∷ rest

unfoldable pub record_windows : (ℕ → ℕ) → ℕ → ℕ → List Window
record_windows mem len ext =
    if mem (ext + 8) == sof_ipc_ext_window
    then windows_at mem len (ext + 16) (window_count (mem (ext + 12)))
    else []

unfoldable pub windows_taken : (ℕ → ℕ) → ℕ → ℕ → ℕ → List Window
windows_taken mem len ext zero = []
windows_taken mem len ext (suc n) =
    let rest = record_windows mem len ext ++ windows_taken mem len (ext + mem ext) n in
    if ltb len (ext + 12) then [] else if is_record mem ext then rest else []

-- The last window of a type.
unfoldable pub last_of : ℕ → ℕ → List Window → ℕ
last_of k d [] = d
last_of k d (w ∷ ws) = last_of k (if w.kind == k then w.base else d) ws

unfoldable pub or_else : ℕ → ℕ → ℕ
or_else d v = if v == 0 then d else v
