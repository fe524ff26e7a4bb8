-- ===== src/Table/Validate.antt =====
-- common/WHASlotsJson.h (ValidateSlots) and the tests of common/WHASlotTable.h that it calls. The
-- comparisons of a stream's quality with 0.1f and 1.0f are arguments.
pub mod Accept
use win_hook_audio.Prelude.Checks.{require, each, first_error}
use win_hook_audio.Prelude.{
  ℕ, zero, suc, ◌+◌, ◌-◌, Bool, true, false, not, ◌&&◌, ◌||◌, Option, none, some, List, [], ◌∷◌,
  ltb, leb, ◌==◌, if◌then◌else◌, get_or, take, length,
}
use win_hook_audio.Prelude.Int.{ℤ, pos, negsuc}
use win_hook_audio.Table.Text.{Chars, c_string}
use win_hook_audio.Table.Data.{
  Slot, NetworkStream, SlotTable, CableSetting, slot_none, slot_virtual, slot_network, slot_bridge4,
  k_max, k_name_len, k_net_streams, k_endpoint_id_len, k_hw_devices, k_hw_mode_count,
  k_virtual_slot_cables, wha_pcm_f32, wha_pcm_i16, wha_vorbis,
}
use win_hook_audio.Table.Access.{hw_device_id, cable_setting}
use win_hook_audio.Table.Names.Visible.{blank_slot}
use win_hook_audio.Network.Packet.{is_valid_network_channels, is_valid_sample_rate}

abbrev pub k_bridge_count : ℕ
k_bridge_count = 4

unfoldable pub is_valid_count : ℕ → Bool
is_valid_count count = leb 1 count && leb count k_max

unfoldable pub is_loopback_valid : Slot → Bool
is_loopback_valid slot = (slot.loopback == 0) || (slot.kind == slot_virtual)

unfoldable pub is_valid_slot_enabled : ℕ → Bool
is_valid_slot_enabled v = (v == 0) || (v == 1)

unfoldable pub is_valid_slot_loopback : ℕ → Bool
is_valid_slot_loopback v = (v == 0) || (v == 1)

unfoldable pub is_valid_codec : ℕ → Bool
is_valid_codec codec = (codec == wha_pcm_f32) || (codec == wha_pcm_i16) || (codec == wha_vorbis)

unfoldable pub is_valid_buffer : ℕ → Bool
is_valid_buffer v = (v == 64) || (v == 128) || (v == 256) || (v == 512) || (v == 1024)

unfoldable pub is_valid_master_clock : ℕ → ℕ → Bool
unfolding is_valid_sample_rate is_valid_buffer
is_valid_master_clock rate buffer = is_valid_sample_rate rate && is_valid_buffer buffer

unfoldable pub is_valid_cable_setting : CableSetting → Bool
is_valid_cable_setting c =
    ((c.channels == 2) || (c.channels == 4) || (c.channels == 6) || (c.channels == 8))
    && leb c.format 4

-- The checks that can fail, in the place of their messages.
pub data SlotError : Type 0 where
  slot_type_invalid : SlotError
  slot_stream_id : SlotError
  slot_enabled : SlotError
  slot_loopback : SlotError
  slot_loopback_kind : SlotError
  slot_name : SlotError

pub data StreamError : Type 0 where
  stream_codec : StreamError
  stream_channels : StreamError
  stream_quality : StreamError
  stream_port : StreamError
  stream_ip : StreamError

pub data TableError : Type 0 where
  in_count : TableError
  out_count : TableError
  in_slot : SlotError → TableError
  out_slot : SlotError → TableError
  master_clock : TableError
  bit_depth_not_32 : TableError
  cable_count : TableError
  virtual_name_long : TableError
  render_id_long : TableError
  capture_id_long : TableError
  more_id_long : TableError
  device_mode : TableError
  cable_format : TableError
  bridge_buffer_invalid : TableError
  tx_stream : StreamError → TableError
  rx_stream : StreamError → TableError

-- `streamId < 0 || streamId >= WHA_NET_STREAMS`, not so
abbrev pub in_streams : ℤ → Bool
in_streams (pos n) = ltb n k_net_streams
in_streams (negsuc n) = false

-- The body of the loops over the slots, in a list of slots.
unfoldable pub check_slot : (SlotError → TableError) → Slot → Option TableError
unfolding is_valid_slot_enabled is_valid_slot_loopback is_loopback_valid c_string
check_slot at s = require (leb s.kind slot_bridge4) (at slot_type_invalid) (
    require (not (s.kind == slot_network) || in_streams s.stream_id) (at slot_stream_id) (
      require (is_valid_slot_enabled s.enabled) (at slot_enabled) (
        require (is_valid_slot_loopback s.loopback) (at slot_loopback) (
          require (is_loopback_valid s) (at slot_loopback_kind)
            (require (ltb (length (c_string s.name)) k_name_len) (at slot_name) none)))))

-- `strnlen(id, kEndpointIdLen) < kEndpointIdLen`; a null `id` does not occur.
unfoldable pub id_fits : Option Chars → Bool
unfolding c_string
id_fits none = true
id_fits (some id) = ltb (length (c_string (take k_endpoint_id_len id))) k_endpoint_id_len

module _ {Quality : Type 0} (below_min above_max : Quality → Bool) where
  -- The checks of the two streams of a place, in their order.
  unfoldable pub check_streams : NetworkStream Quality → NetworkStream Quality → Option TableError
  unfolding is_valid_codec is_valid_network_channels c_string
  check_streams tx rx = require (is_valid_codec tx.codec) (tx_stream stream_codec) (
      require (is_valid_codec rx.codec) (rx_stream stream_codec) (
        require (is_valid_network_channels tx.codec tx.channels) (tx_stream stream_channels) (
          require (is_valid_network_channels rx.codec rx.channels) (rx_stream stream_channels) (
            require (not (below_min tx.quality || above_max tx.quality)) (tx_stream stream_quality)
              (require (not (below_min rx.quality || above_max rx.quality))
                (rx_stream stream_quality)
                (require (not (tx.port == 0)) (tx_stream stream_port) (
                  require (not (rx.port == 0)) (rx_stream stream_port) (
                    require (ltb (length (c_string tx.ip)) 16) (tx_stream stream_ip) (
                      require (ltb (length (c_string rx.ip)) 16) (rx_stream stream_ip) none)))))))))

module _ {Quality : Type 0} where
  unfoldable pub check_more_ids : SlotTable Quality → ℕ → Option TableError
  unfolding id_fits hw_device_id
  check_more_ids t d =
      require (id_fits (hw_device_id t false (pos d)) && id_fits (hw_device_id t true (pos d)))
        more_id_long none

  unfoldable pub check_modes : SlotTable Quality → ℕ → Option TableError
  check_modes t d =
      require
        (ltb (get_or t.hw_modes.render d 0) k_hw_mode_count
          && ltb (get_or t.hw_modes.capture d 0) k_hw_mode_count)
        device_mode none

  unfoldable pub check_cable : SlotTable Quality → ℕ → Option TableError
  unfolding cable_setting is_valid_cable_setting
  check_cable t c = require (is_valid_cable_setting (cable_setting t (pos c))) cable_format none

  unfoldable pub check_bridge : SlotTable Quality → ℕ → Option TableError
  unfolding is_valid_buffer
  check_bridge t i =
      require (is_valid_buffer (get_or t.general.bridge_buffer i 0)) bridge_buffer_invalid none

module _ {Quality : Type 0} (below_min above_max : Quality → Bool)
    (blank : NetworkStream Quality) where
  -- The loops, one after the other; `blank` stands past the end of the arrays of streams.
  unfoldable pub check_lists : SlotTable Quality → Option TableError
  unfolding check_more_ids check_modes check_cable check_bridge check_streams
  check_lists t = first_error (each (k_hw_devices - 1) (λ i. check_more_ids t (i + 1))) (
      first_error (each k_hw_devices (λ d. check_modes t d)) (
        first_error (each k_virtual_slot_cables (λ c. check_cable t c)) (
          first_error (each k_bridge_count (λ i. check_bridge t i)) (
            each k_net_streams λ i.
              check_streams below_min above_max (get_or t.net_tx i blank)
                (get_or t.net_rx i blank)))))

  unfoldable pub check_general : SlotTable Quality → Option TableError
  unfolding is_valid_master_clock c_string check_lists id_fits
  check_general t =
      let g = t.general in
      require (is_valid_master_clock g.sample_rate g.asio_buffer) master_clock (
        require (g.bit_depth == 32) bit_depth_not_32 (
          require ((g.virtual_cables == 8) || (g.virtual_cables == 64)) cable_count (
            require (ltb (length (c_string g.virtual_name)) 32) virtual_name_long (
              require (id_fits (some g.hw_render_id)) render_id_long
                (require (id_fits (some g.hw_capture_id)) capture_id_long (check_lists t))))))

  -- `ValidateSlots(table, error)`; `none` is the result true.
  unfoldable pub validate_slots : SlotTable Quality → Option TableError
  unfolding is_valid_count check_slot check_general blank_slot
  validate_slots t = require (is_valid_count t.master_in_count) in_count (
      require (is_valid_count t.master_out_count) out_count (
        first_error
          (each t.master_in_count (λ i. check_slot in_slot (get_or t.master_in i blank_slot)))
          (first_error
            (each t.master_out_count (λ i. check_slot out_slot (get_or t.master_out i blank_slot)))
            (check_general t))))
