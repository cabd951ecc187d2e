-- ===== src/Kext/Engine/Hardware/References.antt =====
-- What is left of the engine's objects, however it comes up.
use lat_sofaudio.Prelude.{◌≡◌, Bool, true, false, ◌&&◌, if◌then◌else◌, branch, arith}
use lat_sofaudio.Kext.Engine.Hardware.{
  Answers, Hardware, Outcome, done, failed, and_then, create, drop_reference, add, add_stream,
  add_control, create_controls, add_timer, init_hardware, stop, Device, init_device,
}

-- The engine holds no reference itself, and its timer is there and on the work loop, or neither.
record IsBalanced (timer : Bool) (h : Hardware) : Type 0 where
  own : h.own ≡ 0
  wrap_timer : h.wrap_timer ≡ timer
  on_loop : h.on_loop ≡ timer

add_stream-IsBalanced :
    (a : Answers) (h : Hardware) → IsBalanced false h → IsBalanced false (add_stream a h).hw
unfolding add_stream add create drop_reference done failed
add_stream-IsBalanced a h b = ground arith

add_control-IsBalanced :
    (x y : Bool) (h : Hardware) → IsBalanced false h → IsBalanced false (add_control x y h).hw
unfolding add_control add create drop_reference done failed
add_control-IsBalanced x y h b = ground arith

add_timer-IsBalanced :
    (a : Answers) (h : Hardware)
    → IsBalanced false h
    → IsBalanced (add_timer a h).ok (add_timer a h).hw
unfolding add_timer done failed
add_timer-IsBalanced a h b = ground arith

-- A step that leaves no timer, and one that tells by its result whether there is one.
and_then-IsBalanced :
    (r : Outcome) (next : Hardware → Outcome)
    → IsBalanced false r.hw
    → ((h : Hardware) → IsBalanced false h → IsBalanced false (next h).hw)
    → IsBalanced false (and_then r next).hw
unfolding and_then
and_then-IsBalanced r next b n = ground (arith, n r.hw)

and_then-tells :
    (r : Outcome) (next : Hardware → Outcome)
    → IsBalanced false r.hw
    → ((h : Hardware) → IsBalanced false h → IsBalanced (next h).ok (next h).hw)
    → IsBalanced (and_then r next).ok (and_then r next).hw
unfolding and_then
and_then-tells r next b n = ground (arith, n r.hw)

init_hardware-tells :
    (a : Answers) (h : Hardware)
    → IsBalanced false h
    → IsBalanced (init_hardware a h).ok (init_hardware a h).hw
unfolding init_hardware create_controls failed
init_hardware-tells a h b =
    let streams = add_stream-IsBalanced a h b in
    let controls = and_then-IsBalanced (add_stream a h) (create_controls a) streams (λ k c.
      unfold create_controls in
      and_then-IsBalanced (add_control a.gain_alloc a.gain_added k)
        (add_control a.source_alloc a.source_added) (add_control-IsBalanced _ _ k c)
        (add_control-IsBalanced _ _)) in
    branch (λ (r : Outcome). IsBalanced r.ok r.hw) (a.base && a.owner && a.ring)
      (λ _. and_then-tells _ (add_timer a) controls (add_timer-IsBalanced a)) (λ _. b)

-- An engine without objects of its own: whatever the audio family and the allocators answer, after
-- initHardware it holds no reference to a stream or control itself, and its timer is there and on
-- the work loop exactly if initHardware returns true; stop() then leaves neither.
pub init_hardware-IsBalanced :
    (a : Answers) (h : Hardware)
    → h.own ≡ 0
    → h.wrap_timer ≡ false
    → h.on_loop ≡ false
    → let r = init_hardware a h in
      (r.hw.own ≡ 0)
      × (r.hw.wrap_timer ≡ r.ok)
      × (r.hw.on_loop ≡ r.ok)
      × ((stop true r.hw).wrap_timer ≡ false)
      × ((stop true r.hw).on_loop ≡ false)
unfolding stop
init_hardware-IsBalanced a h o t l =
    let b = init_hardware-tells a h (record { own = o; wrap_timer = t; on_loop = l }) in
    (b.own, b.wrap_timer, b.on_loop, ground arith, ground arith)

-- The device's pointer to its engine is set exactly if it has come up, and then the family alone
-- holds a reference to the engine; on every failure nothing is left.
pub init_device-IsBalanced :
    (base alloc init active : Bool) (d : Device)
    → d.engine ≡ false
    → d.own ≡ 0
    → d.kept ≡ 0
    → let r = init_device base alloc init active d in
      (r.device.engine ≡ r.ok) × (r.device.own ≡ 0) × (r.device.kept ≡ (if r.ok then 1 else 0))
unfolding init_device
init_device-IsBalanced base alloc init active d e o k = ground arith
