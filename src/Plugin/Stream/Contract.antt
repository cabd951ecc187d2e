-- ===== src/Plugin/Stream/Contract.antt =====
-- LatSOF_GetStreamPropertyData against its contract, and against the other handlers of a stream.
use lat_sofaudio.Prelude.{
  ℕ, zero, suc, ◌*◌, ◌/◌, ◌≤◌, ◌<◌, ◌≡◌, sym, ap, false, not, Option, some, arith,
}
use native.Mathlib.Nat.{div-mul-le_self, mul-div_cancel, mul-le-mul_right}
use lat_sofaudio.Plugin.Types.{
  ObjectId, Selector, base_class, available_virtual_formats, available_physical_formats,
}
use lat_sofaudio.Plugin.Floats.{Floats}
use lat_sofaudio.Plugin.State.{PlugIn}
use lat_sofaudio.Plugin.Monad.{returned}
use lat_sofaudio.Plugin.Property.{Abi, Request, Input, bytes}
use lat_sofaudio.Plugin.Property.Sound.{
  IsSound, reported, returns, is_unknown, answers_yes, check_get-cases,
}
use lat_sofaudio.Plugin.Stream.{
  has, is_stream, settable, size_of, formats_to_fetch, get_format, available_formats,
  get_available_formats, get, get_stream_property_data, set, set_active, set_format,
}

formats_to_fetch-le :
    (abi : Abi) (n : ℕ)
    → (formats_to_fetch abi n ≤ 2) × (formats_to_fetch abi n ≤ n / abi.ranged_format_bytes)
unfolding formats_to_fetch
formats_to_fetch-le abi n = ground arith

formats_to_fetch-all :
    (abi : Abi)
    → 0 < abi.ranged_format_bytes
    → formats_to_fetch abi (2 * abi.ranged_format_bytes) ≡ 2
unfolding formats_to_fetch
formats_to_fetch-all abi h = ground (arith, mul-div_cancel 2 h)

bytes-available_formats :
    (fl : Floats) (abi : Abi) (k : ℕ)
    → k ≤ 2
    → bytes abi (available_formats {fl = fl} k) ≡ k * abi.ranged_format_bytes
unfolding available_formats
bytes-available_formats fl abi zero h = omega arith
bytes-available_formats fl abi (suc zero) h = omega arith
bytes-available_formats fl abi (suc (suc zero)) h = omega arith
bytes-available_formats fl abi (suc (suc (suc k))) h = omega arith

module _ {fl : Floats} (abi : Abi) where
  get_available_formats-IsSound :
      (n : ℕ) (s : PlugIn fl) → IsSound abi n (get_available_formats abi n s)
  unfolding get_available_formats
  get_available_formats-IsSound n s =
      let k = formats_to_fetch abi n in
      let le = formats_to_fetch-le abi n in
      let same = bytes-available_formats fl abi k (omega (arith, le)) in
      let fit =
        mul-le-mul_right {m = k} {n = n / abi.ranged_format_bytes} abi.ranged_format_bytes (le.1) in
      (omega (arith, same, fit, div-mul-le_self n abi.ranged_format_bytes), ap some (sym same))

  get_stream-IsSound :
      (n : ℕ) (o : ObjectId) (p : Selector) (s : PlugIn fl)
      → s.state_mutex ≡ false
      → IsSound abi n (get abi n o p s)
  unfolding get get_format
  get_stream-IsSound n o available_virtual_formats s free = get_available_formats-IsSound n s
  get_stream-IsSound n o available_physical_formats s free = get_available_formats-IsSound n s
  get_stream-IsSound n o base_class s free = ground arith
  get_stream-IsSound n o _ s free = ground arith

  -- With the mutex free, a request for any property of a stream ends: it fails, or stores at most the
  -- bytes that the caller has room for and reports exactly the bytes stored.
  pub get_stream_property_data-IsSound :
      (r : Request fl) (s : PlugIn fl)
      → s.state_mutex ≡ false
      → IsSound abi r.data_size (get_stream_property_data abi r s)
  unfolding get_stream_property_data
  get_stream_property_data-IsSound r s free =
      check_get-cases (IsSound abi r.data_size) is_stream r
        (λ a. get abi r.data_size r.object a.selector) s (λ e. tt)
        λ a o. get_stream-IsSound r.data_size r.object a.selector s free

  -- With the mutex free, a buffer of the size that LatSOF_GetStreamPropertyDataSize gives gets the
  -- property, and that size is reported.
  pub stream_get-size_of :
      (n : ℕ) (o : ObjectId) (p : Selector) (s s' : PlugIn fl)
      → 0 < abi.ranged_format_bytes
      → s.state_mutex ≡ false
      → size_of abi p s ≡ returned n s'
      → reported (get abi n o p s) ≡ some n
  unfolding get get_format get_available_formats size_of
  stream_get-size_of n o available_virtual_formats s s' pos free e =
      ground (arith, formats_to_fetch-all abi pos)
  stream_get-size_of n o available_physical_formats s s' pos free e =
      ground (arith, formats_to_fetch-all abi pos)
  stream_get-size_of n o base_class s s' pos free e = ground arith
  stream_get-size_of n o _ s s' pos free e = ground arith

  -- With the mutex free, a stream's handlers know the same properties: the ones that it has are those
  -- whose size and settability can be got, and with room for the largest, whose value can; and the
  -- settable ones are those that LatSOF_SetStreamPropertyData knows, whatever the data.
  pub stream_has-agrees :
      (n : ℕ) (o : ObjectId) (i : Option (Input fl)) (p : Selector) (s : PlugIn fl)
      → s.state_mutex ≡ false
      → 4 ≤ n
      → abi.format_bytes ≤ n
      → (returns (size_of abi p s) ≡ has p)
        × (returns (settable p s) ≡ has p)
        × (returns (get abi n o p s) ≡ has p)
        × (answers_yes (settable p s) ≡ not (is_unknown (set abi n o i p s)))
  unfolding get get_format get_available_formats size_of settable has set set_active set_format
  stream_has-agrees n o i base_class s free h h' = ground arith
  stream_has-agrees n o i _ s free h h' = ground arith
