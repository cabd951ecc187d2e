-- ===== src/Kext/Boot/Topology/Graph.antt =====
-- What the messages of initDSP() make of the DSP, taken as the firmware documents them.
use lat_sofaudio.Prelude.{ℕ, Bool, false, ◌&&◌, ◌||◌, List, [], ◌∷◌, ◌==◌, if◌then◌else◌}
use lat_sofaudio.Kext.Boot.Ipc.Heard.{reverse_onto}
use lat_sofaudio.Kext.Boot.Topology.{topology, probe_message, restore_message}

-- The components with their pipelines, the links, the configured types of interface, and the
-- pipelines that are complete, each newest first.
pub record Graph : Type 0 where
  pub components : List (ℕ × ℕ)
  pub links : List (ℕ × ℕ)
  pub configured : List ℕ
  pub pipelines : List ℕ
  pub complete : List ℕ

unfoldable pub knows : ℕ → List (ℕ × ℕ) → Bool
knows a [] = false
knows a ((b, p) ∷ cs) = a == b || knows a cs

unfoldable pub has : ℕ → List ℕ → Bool
has a [] = false
has a (b ∷ bs) = a == b || has a bs

-- A link between components that are there, and a scheduler that is there; others are refused.
unfoldable pub link : ℕ → ℕ → Graph → Graph
link a b g =
    if knows a g.components && knows b g.components
    then record g { links = (a, b) ∷ g.links }
    else g

unfoldable pub finish : ℕ → Graph → Graph
finish s g = if has s g.pipelines then record g { complete = s ∷ g.complete } else g

-- The firmware's commands: COMP_NEW and BUFFER_NEW with id, type and pipeline, PIPE_NEW, COMP_CONNECT,
-- PIPE_COMPLETE and DAI_CONFIG.
unfoldable pub obey : List ℕ → Graph → Graph
obey (n ∷ c ∷ a ∷ b ∷ p ∷ ws) g =
    if c == 0x3001_0000 || c == 0x3020_0000
    then record g { components = (a, p) ∷ g.components }
    else if c == 0x3010_0000
    then record g { pipelines = a ∷ g.pipelines }
    else if c == 0x8001_0000
    then record g { configured = a ∷ g.configured }
    else g
obey (n ∷ c ∷ a ∷ b ∷ []) g = if c == 0x3003_0000 then link a b g else g
obey (n ∷ c ∷ a ∷ []) g = if c == 0x3013_0000 then finish a g else g
obey (n ∷ c ∷ []) g = g
obey (n ∷ []) g = g
obey [] g = g

-- Of the messages, newest first.
unfoldable pub obey_all : List (List ℕ) → Graph → Graph
obey_all [] g = g
obey_all (m ∷ ms) g = obey m (obey_all ms g)

abbrev pub no_graph : Graph
no_graph = record { components = []; links = []; configured = []; pipelines = []; complete = [] }

-- The microphones' interface, linked through a buffer to the host, in a pipeline that is complete.
abbrev pub capture_graph : Graph
capture_graph = record {
  components = (34, 3) ∷ (35, 3) ∷ (31, 3) ∷ [];
  links = (31, 35) ∷ (34, 31) ∷ [];
  configured = 2 ∷ [];
  pipelines = 30 ∷ [];
  complete = 30 ∷ [];
}

-- What is heard, newest first.
abbrev heard_at_boot : List (List ℕ)
heard_at_boot = restore_message ∷ reverse_onto topology (probe_message ∷ [])
