-- ===== src/Table/Data.antt =====
-- common/WHASlotTable.h: the structs of the Slot Table with their default values. A stream's
-- `quality` is a float that the table only carries, so it is of an arbitrary type.
use win_hook_audio.Prelude.{ℕ, ◌-◌, List, replicate}
use win_hook_audio.Prelude.Int.{ℤ}
use win_hook_audio.Table.Text.{Chars}

abbrev pub k_max : ℕ
k_max = 512

abbrev pub k_name_len : ℕ
k_name_len = 32

abbrev pub k_net_streams : ℕ
k_net_streams = 8

abbrev pub k_endpoint_id_len : ℕ
k_endpoint_id_len = 64

abbrev pub slot_none : ℕ
slot_none = 0

abbrev pub slot_hw : ℕ
slot_hw = 1

abbrev pub slot_virtual : ℕ
slot_virtual = 2

abbrev pub slot_network : ℕ
slot_network = 3

abbrev pub slot_bridge1 : ℕ
slot_bridge1 = 4

abbrev pub slot_bridge2 : ℕ
slot_bridge2 = 5

abbrev pub slot_bridge3 : ℕ
slot_bridge3 = 6

abbrev pub slot_bridge4 : ℕ
slot_bridge4 = 7

abbrev pub wha_pcm_f32 : ℕ
wha_pcm_f32 = 0

abbrev pub wha_pcm_i16 : ℕ
wha_pcm_i16 = 1

abbrev pub wha_vorbis : ℕ
wha_vorbis = 2

pub record Slot : Type 0 where
  pub kind : ℕ
  pub src_channel : ℤ
  pub stream_id : ℤ
  pub name : Chars
  pub enabled : ℕ
  pub loopback : ℕ

pub record General : Type 0 where
  pub sample_rate : ℕ
  pub bit_depth : ℕ
  pub asio_buffer : ℕ
  pub hw_buffer : ℕ
  pub virtual_buffer : ℕ
  pub bridge_buffer : List ℕ
  pub network_pcm_buffer : ℕ
  pub network_vorbis_buffer : ℕ
  pub jitter_pcm : ℕ
  pub jitter_vorbis : ℕ
  pub virtual_cables : ℕ
  pub virtual_name : Chars
  pub hw_render_id : Chars
  pub hw_capture_id : Chars

abbrev pub k_hw_devices : ℕ
k_hw_devices = 128

abbrev pub k_hw_more_devices : ℕ
k_hw_more_devices = 3

abbrev pub k_hw_extra_devices : ℕ
k_hw_extra_devices = k_hw_devices - 1 - k_hw_more_devices

-- Endpoint IDs per direction (`WHAHwMore`, `WHAHwExtra`).
pub record HwIds : Type 0 where
  pub render_id : List Chars
  pub capture_id : List Chars

abbrev pub hw_mode_exclusive : ℕ
hw_mode_exclusive = 0

abbrev pub k_hw_mode_count : ℕ
k_hw_mode_count = 3

pub record HwModes : Type 0 where
  pub render : List ℕ
  pub capture : List ℕ

abbrev pub k_virtual_slot_cables : ℕ
k_virtual_slot_cables = 16

abbrev pub k_virtual_cables_first : ℕ
k_virtual_cables_first = 8

pub record CableSetting : Type 0 where
  pub channels : ℕ
  pub format : ℕ

abbrev pub default_cable : CableSetting
default_cable = record { channels = 2; format = 0 }

-- `const char* x = ""` in an array of `n` chars.
unfoldable pub blank_chars : ℕ → Chars
blank_chars n = replicate n 0

-- The lists that `WHAHwMore{}` and `WHAHwExtra{}` are, of `n` devices.
unfoldable pub blank_ids : ℕ → HwIds
blank_ids n =
    let ids = replicate n (blank_chars k_endpoint_id_len) in
    record { render_id = ids; capture_id = ids }

module _ (Quality : Type 0) where
  pub record NetworkStream : Type 0 where
    pub ip : Chars
    pub port : ℕ
    pub codec : ℕ
    pub quality : Quality
    pub channels : ℕ

  pub record SlotTable : Type 0 where
    pub version : ℕ
    pub master_in_count : ℕ
    pub master_in : List Slot
    pub master_out_count : ℕ
    pub master_out : List Slot
    pub general : General
    pub net_tx : List NetworkStream
    pub net_rx : List NetworkStream
    pub hw_more : HwIds
    pub cables : List CableSetting
    pub hw_extra : HwIds
    pub hw_modes : HwModes
    pub cables_more : List CableSetting

-- `WHAHwDeviceIds`: a copy of every device's endpoint ID and mode.
pub record HwDeviceIds : Type 0 where
  pub render_id : List Chars
  pub capture_id : List Chars
  pub modes : HwModes
