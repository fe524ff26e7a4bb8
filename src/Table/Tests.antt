-- ===== src/Table/Tests.antt =====
-- common/WHASlotTable.h: the model on concrete tables.
mod First
use win_hook_audio.Prelude.{
  ℕ, ◌≡◌, refl, arith, take, length, true, false, Option, none, some, [], ◌∷◌, replicate,
  length-replicate, set, if◌then◌else◌, ◌==◌,
}
use win_hook_audio.Prelude.Int.{ℤ, pos, negsuc}
use win_hook_audio.Table.Text.{Chars, codes, truncate_copy, c_string}
use win_hook_audio.Table.Data.{
  Slot, SlotTable, General, default_cable, blank_ids, slot_hw, slot_network, slot_bridge2,
}
use win_hook_audio.Table.Access.{
  cable_setting, set_cable_setting, cable_place, hw_device_mode, set_hw_device_mode,
}
use win_hook_audio.Table.Access.Laws.{
  Shape, cable_setting-set_cable_setting, hw_device_mode-set_hw_device_mode, clip_mode,
}
use win_hook_audio.Table.Text.Copy.{truncate_copy_lem}
use win_hook_audio.Table.Access.{hw_device_id, hw_device_listed, clear_hw_more_devices}
use win_hook_audio.Table.Access.Clear.{clear_hw_more_devices_lem}
use win_hook_audio.Table.Names.{daw_channel_name, auto_slot_name}
use win_hook_audio.Table.Names.Visible.{blank_slot, daw_visible_changed}
use win_hook_audio.Table.Names.Stable.{unchanged-daw_channel_name}
use win_hook_audio.Table.Names.Unseen.{reroute, rerouted_network-unseen}

abbrev general : General
general = record {
  sample_rate = 48000;
  bit_depth = 32;
  asio_buffer = 128;
  hw_buffer = 64;
  virtual_buffer = 256;
  bridge_buffer = 128 ∷ 128 ∷ 128 ∷ 128 ∷ [];
  network_pcm_buffer = 512;
  network_vorbis_buffer = 1024;
  jitter_pcm = 20;
  jitter_vorbis = 50;
  virtual_cables = 8;
  virtual_name = codes "WinHookAudio Virtual";
  hw_render_id = 0 ∷ [];
  hw_capture_id = 0 ∷ [];
}

abbrev slot : ℕ → ℤ → ℤ → Slot
slot kind c n = record {
  kind = kind;
  src_channel = c;
  stream_id = n;
  name = 0 ∷ [];
  enabled = 1;
  loopback = 0;
}

-- A HW microphone, a Bridge channel and a network channel in; no slot out.
abbrev table : SlotTable ℕ
table = record {
  version = 1;
  master_in_count = 3;
  master_in =
      slot slot_hw (pos 0) (pos 0)
      ∷ slot slot_bridge2 (pos 2) (pos 0)
      ∷ slot slot_network (pos 0) (pos 1)
      ∷ [];
  master_out_count = 1;
  master_out = blank_slot ∷ [];
  general = general;
  net_tx = [];
  net_rx = [];
  hw_more = blank_ids 3;
  cables = replicate 8 default_cable;
  hw_extra = blank_ids 124;
  hw_modes = record { render = replicate 128 0; capture = replicate 128 0 };
  cables_more = replicate 8 default_cable;
}

shape : Shape table
shape = record {
  cables_length = length-replicate 8 default_cable;
  cables_more_length = length-replicate 8 default_cable;
  render_length = length-replicate {A = ℕ} 128 0;
  capture_length = length-replicate {A = ℕ} 128 0;
}

cable_setting_example :
    cable_setting
      (set_cable_setting table (pos 16) (record { channels = 8; format = 1 }))
      (negsuc 0)
    ≡ (record { channels = 8; format = 1 })
cable_setting_example =
    cable_setting-set_cable_setting table shape (pos 16) (negsuc 0)
      (record { channels = 8; format = 1 })

no_names : ℕ → Option Chars
no_names d = none

rerouted_example :
    daw_visible_changed table (record table {
      master_in =
          set table.master_in 2 (reroute (slot slot_network (pos 0) (pos 1)) (pos 3) (pos 4));
    })
    ≡ false
rerouted_example = rerouted_network-unseen table 2 (pos 3) (pos 4) (omega arith) refl

-- The names before and after it.
name_before :
    auto_slot_name (slot slot_network (pos 0) (pos 1)) true no_names
    ≡ truncate_copy [] 32 (some (codes "Rx2 Ch1"))
unfolding auto_slot_name truncate_copy
name_before = refl

name_after :
    auto_slot_name (slot slot_network (pos 3) (pos 4)) true no_names
    ≡ truncate_copy [] 32 (some (codes "Rx5 Ch4"))
unfolding auto_slot_name truncate_copy
name_after = refl

-- A table whose network slot alone was rerouted leaves the Bridge slot's name.
unchanged_example :
    daw_channel_name (slot slot_bridge2 (pos 2) (pos 0)) true no_names
    ≡ daw_channel_name (slot slot_bridge2 (pos 2) (pos 0)) true no_names
unchanged_example =
    unchanged-daw_channel_name table
      (record table {
        master_in =
            set table.master_in 2 (reroute (slot slot_network (pos 0) (pos 1)) (pos 3) (pos 4));
      })
      true 1 no_names rerouted_example (omega arith) (omega arith) (omega arith)
      (λ e. absurd (omega arith)) (λ e. refl)

clear_hw_more_devices_example :
    let t' = clear_hw_more_devices table in
    (hw_device_listed t' true (pos 7) ≡ (7 == 0))
    × (hw_device_mode t' true (pos 7) ≡ (if 7 == 0 then hw_device_mode table true (pos 0) else 0))
    × (hw_device_id t' true (pos 0) ≡ hw_device_id table true (pos 0))
clear_hw_more_devices_example = clear_hw_more_devices_lem table true 7 (omega arith)
