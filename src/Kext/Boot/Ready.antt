-- ===== src/Kext/Boot/Ready.antt =====
-- initDSP() of kext/LatSOFAudio/LatSOFAudioDevice.cpp with its data: the capabilities that it finds, the
-- FW_READY header, and the DSP that answers its messages.
use lat_sofaudio.Prelude.{
  ℕ, ◌+◌, ◌≡◌, refl, Bool, true, false, not, ◌&&◌, ◌||◌, [], leb, ◌==◌, arith,
}
use lat_sofaudio.Kext.State.{Kext}
use lat_sofaudio.Kext.Registers.{output_sd_busy_state}
use lat_sofaudio.Kext.Capture.{send}
use lat_sofaudio.Kext.Init.{Attempt, defers_borrow, settle, make_ready, load, init_dsp}
use lat_sofaudio.Kext.Boot.Capabilities.{find_caps}
use lat_sofaudio.Kext.Boot.Windows.{mbox_uplink, sof_ipc_fw_ready}
use lat_sofaudio.Kext.Boot.Ipc.{Mailbox, Peer, Link}
use lat_sofaudio.Kext.Boot.Topology.{bring_up, is_alive}

-- The two BARs, what a read of 32 bits gives in each, and the DSP.
pub record Board : Type 0 where
  pub hda_mem : ℕ → ℕ
  pub hda_len : ℕ
  pub dsp_mem : ℕ → ℕ
  pub dsp_len : ℕ
  pub peer : Peer
  pub mailbox : Mailbox

-- A mailbox that is long enough, with a FW_READY header of 60 to 200 bytes.
unfoldable pub has_header : Board → Bool
has_header b =
    leb (mbox_uplink + 256) b.dsp_len
    && b.dsp_mem (mbox_uplink + 4) == sof_ipc_fw_ready
    && leb 60 (b.dsp_mem mbox_uplink)
    && leb (b.dsp_mem mbox_uplink) 200

-- What comes of the topology.
unfoldable pub booted : Board → Link
booted b = bring_up b.peer (record { mailbox = b.mailbox; found = []; ipc_ok = 0; ipc_fail = 0 })

-- An attempt on this board.
unfoldable pub attempt_on : Board → Attempt → Attempt
attempt_on b a =
    let c = find_caps b.hda_mem b.hda_len in
    record a {
      has_pp = not (c.pp_cap == 0);
      has_spib = not (c.spib_cap == 0);
      fw_ready = has_header b;
      ipc_ok = (booted b).ipc_ok;
    }

-- An attempt that gets as far as the loan, and whose firmware is loaded.
unfoldable pub gets_loaded : Attempt → Kext → Bool
gets_loaded a k =
    (k.hda_base && k.dsp_base && a.decoding)
    && (a.payload_ok && a.core_power && a.fw_alloc && a.bdl_alloc)
    && not (defers_borrow (output_sd_busy_state a.before_borrow) k)
    && (a.rom_done && a.init_done && a.fw_entered)

load-hw_ready :
    (b : Board) (a : Attempt) (k : Kext)
    → a.rom_done && a.init_done && a.fw_entered ≡ true
    → (load (attempt_on b a) k).hw_ready ≡ (k.hw_ready || has_header b && is_alive (booted b))
unfolding load attempt_on make_ready settle send is_alive
load-hw_ready b a k l = ground arith

-- On an attempt whose firmware is loaded: the driver is ready afterwards exactly if it was before, or
-- the firmware left its header and the DSP answered one of the messages of the topology with 0.
pub init_dsp-hw_ready :
    (b : Board) (a : Attempt) (k : Kext)
    → gets_loaded a k ≡ true
    → let t = init_dsp (attempt_on b a) k in
      (t.device.hw_ready ≡ (k.hw_ready || has_header b && is_alive (booted b)))
      × (t.ok ≡ t.device.hw_ready)
unfolding init_dsp attempt_on gets_loaded
init_dsp-hw_ready b a k h =
    let mapped : k.hda_base && k.dsp_base && a.decoding ≡ true = ground arith in
    let built : a.payload_ok && a.core_power && a.fw_alloc && a.bdl_alloc ≡ true = ground arith in
    let taken : defers_borrow (output_sd_busy_state a.before_borrow) k ≡ false = ground arith in
    rw (mapped, built, taken) (load-hw_ready b a _ (ground arith), refl)
