-- ===== src/Plugin/Control/Agree.antt =====
-- What the handlers of a control know, against each other, and the mutex across them.
use lat_sofaudio.Prelude.{ℕ, ◌≡◌, false, true, not, Option, some, arith}
use lat_sofaudio.Plugin.Types.{
  ObjectId, volume_input_master, volume_output_master, mute_input_master, mute_output_master,
  data_source_input_master, data_source_output_master, Selector, base_class,
}
use lat_sofaudio.Plugin.Floats.{Floats}
use lat_sofaudio.Plugin.State.{PlugIn}
use lat_sofaudio.Plugin.Property.{Abi, Input, SetRequest}
use lat_sofaudio.Plugin.Property.Sound.{returns, is_unknown, answers_yes, Leaves, check_set-cases}
use lat_sofaudio.Plugin.Control.Volume.{
  has_volume, volume_settable, volume_size_of, store_volume, set_volume,
}
use lat_sofaudio.Plugin.Control.Mute.{has_mute, mute_settable, mute_size_of, set_mute}
use lat_sofaudio.Plugin.Control.DataSource.{has_source, source_settable, source_size_of, set_source}
use lat_sofaudio.Plugin.Control.{has, any_object, settable, size_of, set, set_control_property_data}

module _ {fl : Floats} where
  volume-agrees :
      (range n : ℕ) (o : ObjectId) (i : Option (Input fl)) (p : Selector) (s : PlugIn fl)
      → s.state_mutex ≡ false
      → (returns (volume_size_of range p s) ≡ has_volume p)
        × (returns (volume_settable p s) ≡ has_volume p)
        × (answers_yes (volume_settable p s) ≡ not (is_unknown (set_volume n o i p s)))
  unfolding volume_size_of has_volume volume_settable set_volume store_volume
  volume-agrees range n o i base_class s free = ground arith
  volume-agrees range n o i _ s free = ground arith

  mute-agrees :
      (n : ℕ) (o : ObjectId) (i : Option (Input fl)) (p : Selector) (s : PlugIn fl)
      → s.state_mutex ≡ false
      → (returns (mute_size_of p s) ≡ has_mute p)
        × (returns (mute_settable p s) ≡ has_mute p)
        × (answers_yes (mute_settable p s) ≡ not (is_unknown (set_mute n o i p s)))
  unfolding mute_size_of has_mute mute_settable set_mute
  mute-agrees n o i base_class s free = ground arith
  mute-agrees n o i _ s free = ground arith

  source-agrees :
      (n : ℕ) (o : ObjectId) (i : Option (Input fl)) (p : Selector) (s : PlugIn fl)
      → s.state_mutex ≡ false
      → (returns (source_size_of p s) ≡ has_source p)
        × (returns (source_settable p s) ≡ has_source p)
        × (answers_yes (source_settable p s) ≡ not (is_unknown (set_source n o i p s)))
  unfolding source_size_of has_source source_settable set_source
  source-agrees n o i base_class s free = ground arith
  source-agrees n o i _ s free = ground arith

  -- With the mutex free, the handlers of every control know the same properties: the ones that it has
  -- are those whose size and settability can be got, and the settable ones are those that
  -- LatSOF_SetControlPropertyData knows, whatever the data.
  pub control_has-agrees :
      (abi : Abi) (n : ℕ) (o : ObjectId) (i : Option (Input fl)) (p : Selector) (s : PlugIn fl)
      → s.state_mutex ≡ false
      → has o base_class ≡ true
      → (returns (size_of abi o p s) ≡ has o p)
        × (returns (settable o p s) ≡ has o p)
        × (answers_yes (settable o p s) ≡ not (is_unknown (set n o i p s)))
  unfolding size_of has settable set
  control_has-agrees abi n volume_input_master i p s free c =
      volume-agrees abi.value_range_bytes n volume_input_master i p s free
  control_has-agrees abi n volume_output_master i p s free c =
      volume-agrees abi.value_range_bytes n volume_output_master i p s free
  control_has-agrees abi n mute_input_master i p s free c =
      mute-agrees n mute_input_master i p s free
  control_has-agrees abi n mute_output_master i p s free c =
      mute-agrees n mute_output_master i p s free
  control_has-agrees abi n data_source_input_master i p s free c =
      source-agrees n data_source_input_master i p s free
  control_has-agrees abi n data_source_output_master i p s free c =
      source-agrees n data_source_output_master i p s free
  control_has-agrees abi n _ i p s free c = ground arith

  set_volume-Leaves :
      (n : ℕ) (o : ObjectId) (i : Input fl) (p : Selector) (s : PlugIn fl)
      → s.state_mutex ≡ false
      → Leaves false (set_volume n o (some i) p s)
  unfolding set_volume store_volume
  set_volume-Leaves n o i base_class s free = ground arith
  set_volume-Leaves n o i _ s free = ground arith

  set_mute-Leaves :
      (n : ℕ) (o : ObjectId) (i : Input fl) (p : Selector) (s : PlugIn fl)
      → s.state_mutex ≡ false
      → Leaves false (set_mute n o (some i) p s)
  unfolding set_mute
  set_mute-Leaves n o i base_class s free = ground arith
  set_mute-Leaves n o i _ s free = ground arith

  set_source-Leaves :
      (n : ℕ) (o : ObjectId) (i : Input fl) (p : Selector) (s : PlugIn fl)
      → s.state_mutex ≡ false
      → Leaves false (set_source n o (some i) p s)
  unfolding set_source
  set_source-Leaves n o i base_class s free = ground arith
  set_source-Leaves n o i _ s free = ground arith

  -- With the mutex free, setting a property of a control, the data given, ends and leaves it free,
  -- no matter whether it fails.
  pub set_control-Leaves :
      (n : ℕ) (o : ObjectId) (i : Input fl) (p : Selector) (s : PlugIn fl)
      → s.state_mutex ≡ false
      → Leaves false (set n o (some i) p s)
  unfolding set
  set_control-Leaves n volume_input_master i p s free =
      set_volume-Leaves n volume_input_master i p s free
  set_control-Leaves n volume_output_master i p s free =
      set_volume-Leaves n volume_output_master i p s free
  set_control-Leaves n mute_input_master i p s free = set_mute-Leaves n mute_input_master i p s free
  set_control-Leaves n mute_output_master i p s free =
      set_mute-Leaves n mute_output_master i p s free
  set_control-Leaves n data_source_input_master i p s free =
      set_source-Leaves n data_source_input_master i p s free
  set_control-Leaves n data_source_output_master i p s free =
      set_source-Leaves n data_source_output_master i p s free
  set_control-Leaves n _ i p s free = free

  pub set_control_property_data-Leaves :
      (r : SetRequest fl) (i : Input fl) (s : PlugIn fl)
      → r.input ≡ some i
      → s.state_mutex ≡ false
      → Leaves false (set_control_property_data r s)
  unfolding set_control_property_data
  set_control_property_data-Leaves r i s given free =
      check_set-cases (Leaves false) any_object r _ s (λ e. free)
        λ a. rw given (set_control-Leaves r.data_size r.object i a.selector s free)
