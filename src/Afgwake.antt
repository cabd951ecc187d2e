-- ===== src/Afgwake.antt =====
-- contrib/latsof-afgwake.c: the tool that puts the codec's audio function group back in D0 when audio
-- runs while it is powered down.
pub mod Rule
pub mod Modes
mod Tests
use lat_sofaudio.Prelude.{
  ℕ, ◌+◌, ◌/◌, ◌%◌, ◌^◌, Bool, true, false, not, ◌&&◌, ◌||◌, Option, none, some, List, [], ◌∷◌,
  if◌then◌else◌, ◌==◌, ltb,
}

-- A verb that was sent: its node, its verb and parameter as they are sent, and the answer, none where
-- the call failed.
pub record Sent : Type 0 where
  pub nid : ℕ
  pub verb : ℕ
  pub param : ℕ
  pub answer : Option ℕ

-- Whether gPort is open, and the verbs sent so far, newest first.
pub record Tool : Type 0 where
  pub port : Bool
  pub log : List Sent

-- AppleALC's user client: whether it can be opened, and what it answers to a verb, by all that was
-- sent before.
pub record Codec : Type 0 where
  pub opens : List Sent → Bool
  pub answers : List Sent → Option ℕ

-- A result, and the tool after it.
pub record Result (A : Type 0) : Type 0 where
  pub value : A
  pub tool : Tool

abbrev pub get_power_state : ℕ
get_power_state = 3845

abbrev pub set_power_state : ℕ
set_power_state = 1797

-- `(verb & 0xff) ? verb : (verb >> 8)`
unfoldable pub sent_verb : ℕ → ℕ
sent_verb v = if v % 256 == 0 then v / 256 else v

-- The answer as a `long`: none where it is negative.
unfoldable pub as_long : Option ℕ → Option ℕ
as_long none = none
as_long (some r) = if ltb r (2 ^ 63) then some r else none

-- IOConnectCallScalarMethod on an open port, which a failure closes.
unfoldable pub is_answer : Option ℕ → Bool
is_answer none = false
is_answer (some r) = true

unfoldable pub send : Codec → ℕ → ℕ → ℕ → Tool → Result (Option ℕ)
send c nid v p t =
    let a = c.answers t.log in
    record {
      value = as_long a;
      tool = record {
        port = is_answer a;
        log = record { nid = nid; verb = sent_verb v; param = p; answer = a } ∷ t.log;
      };
    }

-- codec_verb(), codec_open() first
unfoldable pub codec_verb : Codec → ℕ → ℕ → ℕ → Tool → Result (Option ℕ)
codec_verb c nid v p t =
    if t.port || c.opens t.log
    then send c nid v p (record t { port = true })
    else record { value = none; tool = t }

-- power_actual()
unfoldable pub actual : Option ℕ → Option ℕ
actual none = none
actual (some r) = some (r / 16 % 16)

unfoldable pub power_actual : Codec → ℕ → Tool → Result (Option ℕ)
power_actual c nid t =
    let r = codec_verb c nid get_power_state 0 t in record { value = actual r.value; tool = r.tool }

-- A state that was read and is not D0.
unfoldable pub is_wrong : Option ℕ → Bool
is_wrong none = false
is_wrong (some a) = not (a == 0)

-- correct_if_wrong(), with the read that only the message shows
unfoldable pub correct_if_wrong : Codec → Tool → Result Bool
correct_if_wrong c t =
    let a = power_actual c 1 t in
    let w = codec_verb c 1 set_power_state 0 a.tool in
    if is_wrong a.value
    then (if is_answer w.value
        then record { value = true; tool = (power_actual c 1 w.tool).tool }
        else record { value = false; tool = w.tool })
    else record { value = false; tool = a.tool }

-- prearm_for_jack()
unfoldable pub prearm_for_jack : Codec → Tool → Tool
prearm_for_jack c t =
    let before = power_actual c 1 t in
    if is_wrong before.value
    then (codec_verb c 1 set_power_state 0 before.tool).tool
    else before.tool

-- The properties whose changes on_change tells apart, and the rest.
pub data Property : Type 0 where
  jack_is_connected data_source other_property : Property

unfoldable pub is_jack : Property → Bool
is_jack jack_is_connected = true
is_jack data_source = true
is_jack other_property = false

unfoldable pub any_jack : List Property → Bool
any_jack [] = false
any_jack (p ∷ ps) = is_jack p || any_jack ps

-- on_change() and backstop(), by what any_device_running() finds when it is called.
unfoldable pub on_change : Codec → List Property → Bool → Tool → Tool
on_change c ps running t =
    let armed = if any_jack ps then prearm_for_jack c t else t in
    if running then (correct_if_wrong c armed).tool else armed

unfoldable pub backstop : Codec → Bool → Tool → Tool
backstop c running t = if running then (correct_if_wrong c t).tool else t

-- any_device_running(), of the devices' answers: none where a property cannot be read.
unfoldable pub any_running : List (Option ℕ) → Bool
any_running [] = false
any_running (none ∷ ds) = any_running ds
any_running (some v ∷ ds) = not (v == 0) || any_running ds

unfoldable pub any_device_running : Option (List (Option ℕ)) → Bool
any_device_running none = false
any_device_running (some ds) = any_running ds

-- What happens to the resident tool.
pub data Notice : Type 0 where
  changes : List Property → Option (List (Option ℕ)) → Notice
  timer : Option (List (Option ℕ)) → Notice

unfoldable pub handle : Codec → Notice → Tool → Tool
handle c (changes ps ds) t = on_change c ps (any_device_running ds) t
handle c (timer ds) t = backstop c (any_device_running ds) t

unfoldable pub watch : Codec → List Notice → Tool → Tool
watch c [] t = t
watch c (n ∷ ns) t = watch c ns (handle c n t)
