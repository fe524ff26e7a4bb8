-- ===== src/Table/Defaults.antt =====
-- common/WHASlotsFile.h (FillDefaultSlotTable) with the default values of common/WHASlotTable.h: the
-- Slot Table of a first run. A stream's default quality, 0.4f, is an argument.
pub mod Accepted
use win_hook_audio.Prelude.{
  ℕ, Option, none, some, List, [], ◌∷◌, ◌==◌, if◌then◌else◌, get_or, set, replicate,
}
use win_hook_audio.Prelude.Int.{ℤ, pos}
use win_hook_audio.Table.Text.{Chars, codes, truncate_copy}
use win_hook_audio.Table.Data.{
  Slot, General, NetworkStream, SlotTable, HwIds, HwModes, CableSetting, default_cable, blank_chars,
  k_name_len, k_endpoint_id_len, k_net_streams, k_virtual_cables_first, k_virtual_slot_cables,
  slot_none, slot_hw, wha_pcm_f32,
}
use win_hook_audio.Table.Names.Visible.{blank_slot}

abbrev pub k_master_clock_rate_default : ℕ
k_master_clock_rate_default = 48000

abbrev pub k_master_clock_bits_default : ℕ
k_master_clock_bits_default = 32

abbrev pub k_master_clock_buffer_default : ℕ
k_master_clock_buffer_default = 128

-- `WHAGeneral{}`
unfoldable pub default_general : General
unfolding blank_chars truncate_copy
default_general = record {
  sample_rate = k_master_clock_rate_default;
  bit_depth = k_master_clock_bits_default;
  asio_buffer = k_master_clock_buffer_default;
  hw_buffer = 64;
  virtual_buffer = 256;
  bridge_buffer = replicate 4 128;
  network_pcm_buffer = 512;
  network_vorbis_buffer = 1024;
  jitter_pcm = 20;
  jitter_vorbis = 50;
  virtual_cables = 8;
  virtual_name = truncate_copy [] 32 (some (codes "WinHookAudio Virtual"));
  hw_render_id = blank_chars k_endpoint_id_len;
  hw_capture_id = blank_chars k_endpoint_id_len;
}

-- A slot given its type, its switch and its name.
unfoldable pub name_slot : Slot → ℕ → ℕ → Chars → Slot
unfolding truncate_copy
name_slot s kind enabled name = record s {
  kind = kind;
  enabled = enabled;
  name = truncate_copy s.name k_name_len (some name);
}

-- The first two slots of a direction: a hardware channel and an empty slot.
unfoldable pub first_slots : List Slot → Chars → List Slot
unfolding name_slot blank_slot
first_slots slots name =
    let one = set slots 0 (name_slot (get_or slots 0 blank_slot) slot_hw 1 name) in
    set one 1 (name_slot (get_or slots 1 blank_slot) slot_none 0 (codes "- empty -"))

-- The defaults, with the hardware fields that a creator wrote before.
unfoldable pub keep_hardware : General → General
unfolding default_general truncate_copy
keep_hardware g = record (default_general) {
  hw_buffer = if g.hw_buffer == 0 then default_general.hw_buffer else g.hw_buffer;
  hw_render_id = truncate_copy default_general.hw_render_id k_endpoint_id_len (some g.hw_render_id);
  hw_capture_id =
      truncate_copy default_general.hw_capture_id k_endpoint_id_len (some g.hw_capture_id);
}

module _ {Quality : Type 0} (default_quality : Quality) where
  -- `WHANetworkStream{}`
  unfoldable pub default_stream : NetworkStream Quality
  unfolding blank_chars
  default_stream = record {
    ip = blank_chars 16;
    port = 6980;
    codec = wha_pcm_f32;
    quality = default_quality;
    channels = 2;
  }

  -- `FillDefaultSlotTable(t)`; its loops write every place of the arrays of streams and cables.
  unfoldable pub fill_default_slot_table : SlotTable Quality → SlotTable Quality
  unfolding first_slots keep_hardware default_stream
  fill_default_slot_table t = record t {
    version = 1;
    master_in_count = 2;
    master_in = first_slots t.master_in (codes "Mic 1");
    master_out_count = 2;
    master_out = first_slots t.master_out (codes "Main L");
    general = record (keep_hardware t.general) {
      sample_rate = k_master_clock_rate_default;
      asio_buffer = k_master_clock_buffer_default;
    };
    net_tx = replicate k_net_streams default_stream;
    net_rx = replicate k_net_streams default_stream;
    cables = replicate k_virtual_cables_first default_cable;
    cables_more = replicate k_virtual_cables_first default_cable;
  }
