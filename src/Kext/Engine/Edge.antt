-- ===== src/Kext/Engine/Edge.antt =====
-- readPositionAtEdge of kext/LatSOFAudio/LatSOFKernelAudio.cpp: what it catches, and that it ends.
use lat_sofaudio.Prelude.{
  ℕ, zero, suc, ◌+◌, ◌*◌, ◌^◌, ◌≤◌, ◌<◌, ◌≡◌, refl, ap, ◌⊎◌, inl, inr, Bool-cases, Bool, true,
  false, not, ◌&&◌, ◌||◌, Option, none, some, ◌==◌, branch, arith,
}
use lat_sofaudio.Kext.Engine.{
  Sample, EdgeResult, caught, missed, lost, unfinished, sub64, is_trusted, is_late, turn, edge_loop,
  read_position_at_edge,
}

-- Whether the loop came to an end of its own.
unfoldable pub is_finished : EdgeResult → Bool
is_finished (caught p t) = true
is_finished missed = true
is_finished lost = true
is_finished unfinished = false

turn-is_finished :
    (p0 start : ℕ) (s : Sample) (o : Option ℕ) (rest : EdgeResult)
    → is_late start s || is_finished rest ≡ true
    → is_finished (turn p0 start s o rest) ≡ true
unfolding turn is_finished
turn-is_finished p0 start s none rest h = refl
turn-is_finished p0 start s (some p) rest h =
    branch (λ (r : EdgeResult). is_finished r ≡ true) (is_trusted s && not (p == p0)) (λ _. refl)
      (λ _.
        branch (λ (r : EdgeResult). is_finished r ≡ true) (is_late start s) (λ _. refl)
          (λ n. ground arith))

edge_loop-is_finished :
    (samples : ℕ → Sample) (p0 start i n : ℕ)
    → i + n ≡ 401
    → is_late start (samples 400) ≡ true
    → i ≤ 400
    → is_finished (edge_loop samples p0 start i n) ≡ true
unfolding edge_loop
edge_loop-is_finished samples p0 start i zero h o l = ground arith
edge_loop-is_finished samples p0 start i (suc n) h o l =
    turn-is_finished p0 start (samples i) (samples i).position
      (edge_loop samples p0 start (i + 1) n)
      (elim (Bool-cases (i == 400)) [
        | inl e ↦
            let same : i ≡ 400 = ground arith in
            let late = ap (λ j. is_late start (samples j)) same in ground arith
        | inr e ↦
            let r =
              edge_loop-is_finished samples p0 start (i + 1) n (omega arith) o (ground arith) in
            ground arith
      ])

-- The clock behind the i-th turn, where each turn waits 5 µs.
after_turn :
    (samples : ℕ → Sample) (start i : ℕ)
    → start ≤ (samples 0).after
    → ((j : ℕ) → (samples j).after + 5000 ≤ (samples (suc j)).after)
    → start + i * 5000 ≤ (samples i).after
after_turn samples start zero b w = omega (arith, b)
after_turn samples start (suc i) b w = omega (arith, after_turn samples start i b w, w i)

-- On a clock that begins at `start`, moves on by at least the 5 µs that the loop waits from each turn
-- to the next, and does not overflow: the loop ends within 401 turns by a catch, by its deadline, or
-- for want of a position.
pub read_position_at_edge-is_finished :
    (samples : ℕ → Sample) (p : Option ℕ) (start : ℕ)
    → start ≤ (samples 0).after
    → ((j : ℕ) → (samples j).after + 5000 ≤ (samples (suc j)).after)
    → (samples 400).after < 2 ^ 64
    → is_finished (read_position_at_edge samples p start) ≡ true
unfolding read_position_at_edge is_late sub64 is_finished
read_position_at_edge-is_finished samples none start b w l = refl
read_position_at_edge-is_finished samples (some p0) start b w l =
    let late = after_turn samples start 400 b w in
    edge_loop-is_finished samples p0 start 0 401 (omega arith) (ground arith) (omega arith)

-- A turn that catches the position `p` at time `t`: it has moved, and the read is trusted.
pub record IsEdge (p0 p t : ℕ) (s : Sample) : Type 0 where
  pub moved : (p == p0) ≡ false
  pub position : s.position ≡ some p
  pub after : s.after ≡ t
  pub prompt : is_trusted s ≡ true

turn-IsEdge :
    (p0 start p t : ℕ) (s : Sample) (o : Option ℕ) (rest : EdgeResult)
    → s.position ≡ o
    → turn p0 start s o rest ≡ caught p t
    → IsEdge p0 p t s ⊎ (rest ≡ caught p t)
unfolding turn
turn-IsEdge p0 start p t s none rest e h = ground arith
turn-IsEdge p0 start p t s (some q) rest e h = ground arith

edge_loop-IsEdge :
    (samples : ℕ → Sample) (p0 start p t i n : ℕ)
    → edge_loop samples p0 start i n ≡ caught p t
    → (j : ℕ) × IsEdge p0 p t (samples j)
unfolding edge_loop
edge_loop-IsEdge samples p0 start p t i zero h = ground arith
edge_loop-IsEdge samples p0 start p t i (suc n) h =
    elim (turn-IsEdge p0 start p t (samples i) (samples i).position
      (edge_loop samples p0 start (i + 1) n) refl h) [
        | inl e ↦ (i, e)
        | inr e ↦ edge_loop-IsEdge samples p0 start p t (i + 1) n e
      ]

-- What readPositionAtEdge catches is a position other than the first one, and the time right after
-- the read that showed it, which took at most 20 µs.
pub read_position_at_edge-IsEdge :
    (samples : ℕ → Sample) (p0 start p t : ℕ)
    → read_position_at_edge samples (some p0) start ≡ caught p t
    → (j : ℕ) × IsEdge p0 p t (samples j)
unfolding read_position_at_edge
read_position_at_edge-IsEdge samples p0 start p t h = edge_loop-IsEdge samples p0 start p t 0 401 h
