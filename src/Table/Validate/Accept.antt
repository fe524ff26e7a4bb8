-- ===== src/Table/Validate/Accept.antt =====
-- common/WHASlotsJson.h (ValidateSlots): which tables are accepted.
use win_hook_audio.Prelude.{
  ℕ, ◌+◌, ◌≤◌, ◌<◌, ◌≡◌, ◌≢◌, ◌⊎◌, ◌↔◌, refl, Bool, true, false, not, ◌&&◌, ◌||◌, Option, none,
  some, ltb, leb, ◌==◌, if◌then◌else◌, get_or, take, length, arith, ==_iff,
}
use win_hook_audio.Prelude.Checks.{require_iff, last_iff, first_error_iff, each_iff}
use win_hook_audio.Prelude.Int.{ℤ, pos, negsuc, ◌≤ℤ◌}
use win_hook_audio.Table.Text.{Chars, c_string}
use win_hook_audio.Table.Data.{Slot, NetworkStream, SlotTable, CableSetting}
use win_hook_audio.Table.Access.{hw_device_id, cable_setting}
use win_hook_audio.Table.Names.Visible.{blank_slot}
use win_hook_audio.Network.Packet.{is_valid_network_channels, is_valid_sample_rate}
use win_hook_audio.Table.Validate.{
  is_valid_count, is_loopback_valid, is_valid_slot_enabled, is_valid_slot_loopback, is_valid_codec,
  is_valid_buffer, is_valid_master_clock, is_valid_cable_setting, in_streams, TableError, SlotError,
  check_slot, id_fits, check_streams, check_more_ids, check_modes, check_cable, check_bridge,
  check_lists, check_general, validate_slots, more_id_long, device_mode, cable_format,
  bridge_buffer_invalid, in_slot, out_slot,
}

-- A slot in range: its type, its stream when it is a network slot, flags that are 0 or 1, loopback on
-- a Virtual slot only, and a name that ends in its array.
abbrev pub SlotOk : Slot → Type 0
SlotOk s =
    (s.kind ≤ 7)
    × (((s.kind ≢ 3) ⊎ ((pos 0 ≤ℤ s.stream_id) × (s.stream_id ≤ℤ pos 7)))
        × ((s.enabled ≤ 1)
            × ((s.loopback ≤ 1)
                × (((s.loopback ≡ 0) ⊎ (s.kind ≡ 2)) × (length (c_string s.name) < 32)))))

-- A string that ends in its array of 64.
abbrev pub IdOk : Option Chars → Type 0
IdOk none = 0 ≤ 0
IdOk (some id) = length (c_string (take 64 id)) < 64

abbrev pub BufferOk : ℕ → Type 0
BufferOk v = (v ≡ 64) ⊎ ((v ≡ 128) ⊎ ((v ≡ 256) ⊎ ((v ≡ 512) ⊎ (v ≡ 1024))))

abbrev pub CableOk : CableSetting → Type 0
CableOk c =
    ((c.channels ≡ 2) ⊎ ((c.channels ≡ 4) ⊎ ((c.channels ≡ 6) ⊎ (c.channels ≡ 8)))) × (c.format ≤ 4)

lt_iff : (a b : ℕ) → (ltb a b ≡ true) ↔ (a < b)
lt_iff a b = ground arith

stream_id_iff :
    (kind : ℕ) (id : ℤ)
    → (not (kind == 3) || in_streams id ≡ true) ↔ ((kind ≢ 3) ⊎ ((pos 0 ≤ℤ id) × (id ≤ℤ pos 7)))
stream_id_iff kind (pos n) = ground arith
stream_id_iff kind (negsuc n) = ground arith

slot_flags_iff : (v : ℕ) → (((v == 0) || (v == 1)) ≡ true) ↔ (v ≤ 1)
slot_flags_iff v = ground arith

check_slot_iff : (at : SlotError → TableError) (s : Slot) → (check_slot at s ≡ none) ↔ SlotOk s
unfolding check_slot is_valid_slot_enabled is_valid_slot_loopback is_loopback_valid
check_slot_iff at s = require_iff _ _ _ kind_iff (
    require_iff _ _ _ (stream_id_iff s.kind s.stream_id) (
      require_iff _ _ _ (slot_flags_iff s.enabled) (
        require_iff _ _ _ (slot_flags_iff s.loopback) (
          require_iff _ _ _ (loopback_iff s.loopback s.kind)
            (last_iff _ _ (lt_iff (length (c_string s.name)) 32))))))
  where
    kind_iff : (leb s.kind 7 ≡ true) ↔ (s.kind ≤ 7)
    kind_iff = ground arith

    loopback_iff : (l k : ℕ) → (((l == 0) || (k == 2)) ≡ true) ↔ ((l ≡ 0) ⊎ (k ≡ 2))
    loopback_iff l k = ground arith

buffer_iff : (v : ℕ) → (is_valid_buffer v ≡ true) ↔ BufferOk v
unfolding is_valid_buffer
buffer_iff v = ground arith

cable_iff : (c : CableSetting) → (is_valid_cable_setting c ≡ true) ↔ CableOk c
unfolding is_valid_cable_setting
cable_iff c = ground arith

id_iff : (id : Option Chars) → (id_fits id ≡ true) ↔ IdOk id
unfolding id_fits
id_iff none = ((λ h. omega arith), λ h. refl)
id_iff (some id) = lt_iff (length (c_string (take 64 id))) 64

more_ids_iff : (a b : Option Chars) → (id_fits a && id_fits b ≡ true) ↔ (IdOk a × IdOk b)
more_ids_iff a b = and_iff (id_fits a) (id_fits b) (id_iff a) (id_iff b)
  where
    and_iff :
        {P Q : Type 0} (a b : Bool) → (a ≡ true) ↔ P → (b ≡ true) ↔ Q → (a && b ≡ true) ↔ (P × Q)
    and_iff true b p q = ((λ h. (p.0 refl, q.0 h)), λ (hp, hq). q.1 hq)
    and_iff false b p q = ((λ h. ground arith), λ (hp, hq). p.1 hp)

codec_iff : (codec : ℕ) → (is_valid_codec codec ≡ true) ↔ (codec ≤ 2)
unfolding is_valid_codec
codec_iff codec = ground arith

abbrev pub ChannelsOk : ℕ → ℕ → Type 0
ChannelsOk codec channels = (1 ≤ channels) × (channels ≤ (if codec == 2 then 128 else 32))

channels_iff :
    (codec channels : ℕ)
    → (is_valid_network_channels codec channels ≡ true) ↔ ChannelsOk codec channels
unfolding is_valid_network_channels
channels_iff codec channels = ground arith

count_iff : (count : ℕ) → (is_valid_count count ≡ true) ↔ ((1 ≤ count) × (count ≤ 512))
unfolding is_valid_count
count_iff count = ground arith

modes_iff : (a b : ℕ) → ((ltb a 3 && ltb b 3) ≡ true) ↔ ((a < 3) × (b < 3))
modes_iff a b = ground arith

cables_iff : (n : ℕ) → (((n == 8) || (n == 64)) ≡ true) ↔ ((n ≡ 8) ⊎ (n ≡ 64))
cables_iff n = ground arith

port_iff : (port : ℕ) → (not (port == 0) ≡ true) ↔ (0 < port)
port_iff port = ground arith

quality_iff :
    (below above : Bool) → (not (below || above) ≡ true) ↔ ((below ≡ false) × (above ≡ false))
quality_iff below above = ground arith

-- The Master Clock's rates.
abbrev pub RateOk : ℕ → Type 0
RateOk rate =
    (rate ≡ 44100)
    ⊎ ((rate ≡ 48000) ⊎ ((rate ≡ 88200) ⊎ ((rate ≡ 96000) ⊎ ((rate ≡ 176400) ⊎ (rate ≡ 192000)))))

clock_iff :
    (rate buffer : ℕ) → (is_valid_master_clock rate buffer ≡ true) ↔ (RateOk rate × BufferOk buffer)
unfolding is_valid_master_clock is_valid_sample_rate is_valid_buffer
clock_iff rate buffer = ground arith

module _ {Quality : Type 0} (below_min above_max : Quality → Bool) where
  -- The streams of a place, the sent one and the received one.
  abbrev pub StreamsOk : NetworkStream Quality → NetworkStream Quality → Type 0
  StreamsOk tx rx =
      (tx.codec ≤ 2)
      × ((rx.codec ≤ 2)
          × (ChannelsOk tx.codec tx.channels
              × (ChannelsOk rx.codec rx.channels
                  × (((below_min tx.quality ≡ false) × (above_max tx.quality ≡ false))
                      × (((below_min rx.quality ≡ false) × (above_max rx.quality ≡ false))
                          × ((0 < tx.port)
                              × ((0 < rx.port)
                                  × ((length (c_string tx.ip) < 16)
                                      × (length (c_string rx.ip) < 16)))))))))

  check_streams_iff :
      (tx rx : NetworkStream Quality)
      → (check_streams below_min above_max tx rx ≡ none) ↔ StreamsOk tx rx
  unfolding check_streams
  check_streams_iff tx rx = require_iff _ _ _ (codec_iff tx.codec) (
      require_iff _ _ _ (codec_iff rx.codec) (
        require_iff _ _ _ (channels_iff tx.codec tx.channels) (
          require_iff _ _ _ (channels_iff rx.codec rx.channels) (
            require_iff _ _ _ (quality_iff (below_min tx.quality) (above_max tx.quality)) (
              require_iff _ _ _ (quality_iff (below_min rx.quality) (above_max rx.quality)) (
                require_iff _ _ _ (port_iff tx.port) (
                  require_iff _ _ _ (port_iff rx.port) (
                    require_iff _ _ _ (lt_iff (length (c_string tx.ip)) 16)
                      (last_iff _ _ (lt_iff (length (c_string rx.ip)) 16))))))))))

  module _ (blank : NetworkStream Quality) where
    -- The devices' IDs and modes, the cables, the Bridges' buffers and the streams.
    abbrev pub ListsOk : SlotTable Quality → Type 0
    ListsOk t =
        ((i : ℕ)
          → i < 127
          → IdOk (hw_device_id t false (pos (i + 1))) × IdOk (hw_device_id t true (pos (i + 1))))
        × (((d : ℕ)
              → d < 128
              → (get_or t.hw_modes.render d 0 < 3) × (get_or t.hw_modes.capture d 0 < 3))
            × (((c : ℕ) → c < 16 → CableOk (cable_setting t (pos c)))
                × (((i : ℕ) → i < 4 → BufferOk (get_or t.general.bridge_buffer i 0))
                    × ((i : ℕ)
                        → i < 8
                        → StreamsOk (get_or t.net_tx i blank) (get_or t.net_rx i blank)))))

    check_lists_iff :
        (t : SlotTable Quality) → (check_lists below_min above_max blank t ≡ none) ↔ ListsOk t
    unfolding check_lists check_more_ids check_modes check_cable check_bridge
    check_lists_iff t =
        first_error_iff _ _
          (each_iff 127 _ (λ i. last_iff _ more_id_long (
            more_ids_iff (hw_device_id t false (pos (i + 1))) (hw_device_id t true (pos (i + 1))))))
          (first_error_iff _ _
            (each_iff 128 _ (λ d.
              last_iff _ device_mode
                (modes_iff (get_or t.hw_modes.render d 0) (get_or t.hw_modes.capture d 0))))
            (first_error_iff _ _
              (each_iff 16 _ (λ c. last_iff _ cable_format (cable_iff (cable_setting t (pos c)))))
              (first_error_iff _ _
                (each_iff 4 _ (λ i.
                  last_iff _ bridge_buffer_invalid
                    (buffer_iff (get_or t.general.bridge_buffer i 0))))
                (each_iff 8 _
                  (λ i. check_streams_iff (get_or t.net_tx i blank) (get_or t.net_rx i blank))))))

    -- The settings of the Master Clock, the cables and the first devices, and the lists.
    abbrev pub GeneralOk : SlotTable Quality → Type 0
    GeneralOk t =
        let g = t.general in
        (RateOk g.sample_rate × BufferOk g.asio_buffer)
        × ((g.bit_depth ≡ 32)
            × (((g.virtual_cables ≡ 8) ⊎ (g.virtual_cables ≡ 64))
                × ((length (c_string g.virtual_name) < 32)
                    × (IdOk (some g.hw_render_id) × (IdOk (some g.hw_capture_id) × ListsOk t)))))

    check_general_iff :
        (t : SlotTable Quality) → (check_general below_min above_max blank t ≡ none) ↔ GeneralOk t
    unfolding check_general
    check_general_iff t =
        let g = t.general in
        require_iff _ _ _ (clock_iff g.sample_rate g.asio_buffer) (
          require_iff _ _ _ (==_iff g.bit_depth 32) (
            require_iff _ _ _ (cables_iff g.virtual_cables) (
              require_iff _ _ _ (lt_iff (length (c_string g.virtual_name)) 32) (
                require_iff _ _ _ (id_iff (some g.hw_render_id))
                  (require_iff _ _ _ (id_iff (some g.hw_capture_id)) (check_lists_iff t))))))

    -- A table in range: the counts, every slot up to them, and the settings.
    abbrev pub TableOk : SlotTable Quality → Type 0
    TableOk t =
        ((1 ≤ t.master_in_count) × (t.master_in_count ≤ 512))
        × (((1 ≤ t.master_out_count) × (t.master_out_count ≤ 512))
            × (((i : ℕ) → i < t.master_in_count → SlotOk (get_or t.master_in i blank_slot))
                × (((i : ℕ) → i < t.master_out_count → SlotOk (get_or t.master_out i blank_slot))
                    × GeneralOk t)))

    -- ValidateSlots accepts exactly the tables in range: both counts from 1 to 512, every slot up to
    -- them in range, the Master Clock's settings among the allowed, every string ended in its array,
    -- and every device mode, cable, Bridge buffer and stream in range.
    pub validate_slots_lem :
        (t : SlotTable Quality) → (validate_slots below_min above_max blank t ≡ none) ↔ TableOk t
    unfolding validate_slots
    validate_slots_lem t = require_iff _ _ _ (count_iff t.master_in_count) (
        require_iff _ _ _ (count_iff t.master_out_count) (
          first_error_iff _ _
            (each_iff t.master_in_count _
              (λ i. check_slot_iff in_slot (get_or t.master_in i blank_slot)))
            (first_error_iff _ _
              (each_iff t.master_out_count _
                (λ i. check_slot_iff out_slot (get_or t.master_out i blank_slot)))
              (check_general_iff t))))
