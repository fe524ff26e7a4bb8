-- ===== src/Json/Writer.antt =====
-- common/WHASlotsJson.h (SerializeSlots): the text of a whole Slot Table.
use win_hook_audio.Prelude.{
  ℕ, zero, suc, ◌+◌, ◌-◌, Bool, true, false, Option, none, some, [], ◌∷◌, ◌++◌, get_or,
  if◌then◌else◌,
}
use win_hook_audio.Prelude.Int.{pos}
use win_hook_audio.Table.Text.{Chars, codes, c_string}
use win_hook_audio.Table.Data.{
  General, NetworkStream, SlotTable, CableSetting, k_hw_devices, k_net_streams,
  k_virtual_slot_cables,
}
use win_hook_audio.Table.Access.{hw_device_id, hw_device_listed, cable_setting}
use win_hook_audio.Table.Names.{decimal}
use win_hook_audio.Table.Names.Visible.{blank_slot}
use win_hook_audio.Json.{escape_json_string, comma}
use win_hook_audio.Json.Slots.{slot_to_json}
use win_hook_audio.Json.Streams.{network_stream_to_json}

-- The entries of an array from place `i` on, `n` of them, after an earlier one and at its start.
unfoldable pub later_entries : (ℕ → Chars → Chars) → ℕ → ℕ → Chars → Chars
later_entries write zero i rest = rest
later_entries write (suc n) i rest = comma ∷ write i (later_entries write n (suc i) rest)

unfoldable pub entries : (ℕ → Chars → Chars) → ℕ → ℕ → Chars → Chars
unfolding later_entries
entries write zero i rest = rest
entries write (suc n) i rest = write i (later_entries write n (suc i) rest)

-- `std::to_string` of an unsigned number.
unfoldable pub number : ℕ → Chars → Chars
unfolding decimal
number n rest = decimal (pos n) ++ rest

-- The members of "general" up to the endpoint IDs.
unfoldable pub general_to_json : General → Chars → Chars
unfolding number escape_json_string c_string
general_to_json g rest =
    let ids =
      codes ",\"virtualName\":"
      ++ (escape_json_string (c_string g.virtual_name)
          ++ (codes ",\"hwRenderId\":"
              ++ (escape_json_string (c_string g.hw_render_id)
                  ++ (codes ",\"hwCaptureId\":"
                      ++ (escape_json_string (c_string g.hw_capture_id) ++ rest))))) in
    let network =
      codes ",\"networkPcmBuffer\":"
      ++ number g.network_pcm_buffer (
          codes ",\"networkVorbisBuffer\":"
          ++ number g.network_vorbis_buffer (
              codes ",\"jitterPcm\":"
              ++ number g.jitter_pcm (
                  codes ",\"jitterVorbis\":"
                  ++ number g.jitter_vorbis
                      (codes ",\"virtualCables\":" ++ number g.virtual_cables ids)))) in
    codes "\"sampleRate\":"
    ++ number g.sample_rate (
        codes ",\"bitDepth\":"
        ++ number g.bit_depth (
            codes ",\"asioBuffer\":"
            ++ number g.asio_buffer (
                codes ",\"hwBuffer\":"
                ++ number g.hw_buffer (
                    codes ",\"virtualBuffer\":"
                    ++ number g.virtual_buffer (
                        codes ",\"bridgeBuffer\":["
                        ++ entries (λ i. number (get_or g.bridge_buffer i 0)) 4 0
                            (codes "]" ++ network))))))

abbrev pub id_text : Option Chars → Chars
id_text none = []
id_text (some id) = c_string id

module _ {Quality : Type 0} where
  -- The `count` of the loops over the HW devices, after the devices up to the n-th.
  unfoldable pub listed_count : SlotTable Quality → Bool → ℕ → ℕ
  unfolding hw_device_listed
  listed_count t is_input zero = 1
  listed_count t is_input (suc n) =
      let before = listed_count t is_input n in
      if hw_device_listed t is_input (pos (suc n)) then suc n + 1 else before

  -- The IDs of HW devices 2 and up of a direction.
  unfoldable pub more_to_json : SlotTable Quality → Bool → Chars → Chars
  unfolding listed_count hw_device_id entries escape_json_string
  more_to_json t is_input =
      entries (λ d rest. escape_json_string (id_text (hw_device_id t is_input (pos d))) ++ rest)
        (listed_count t is_input (k_hw_devices - 1) - 1) 1

  unfoldable pub modes_to_json : SlotTable Quality → Bool → Chars → Chars
  unfolding listed_count number entries
  modes_to_json t is_input =
      let modes = if is_input then t.hw_modes.capture else t.hw_modes.render in
      entries (λ d. number (get_or modes d 0)) (listed_count t is_input (k_hw_devices - 1)) 0

  unfoldable pub cable_to_json : SlotTable Quality → ℕ → Chars → Chars
  unfolding cable_setting number
  cable_to_json t c rest =
      let cs : CableSetting = cable_setting t (pos c) in
      codes "{\"channels\":"
      ++ number cs.channels (codes ",\"format\":" ++ number cs.format (codes "}" ++ rest))

  -- The lists at the end of "general".
  unfoldable pub lists_to_json : SlotTable Quality → Chars → Chars
  unfolding more_to_json modes_to_json cable_to_json entries
  lists_to_json t rest =
      codes "\"hwRenderMore\":["
      ++ more_to_json t false (
          codes "],\"hwCaptureMore\":["
          ++ more_to_json t true (
              codes "],\"hwRenderModes\":["
              ++ modes_to_json t false (
                  codes "],\"hwCaptureModes\":["
                  ++ modes_to_json t true (
                      codes "],\"cables\":["
                      ++ entries (cable_to_json t) k_virtual_slot_cables 0 (codes "]" ++ rest)))))

module _ {Quality : Type 0} (quality_text : Quality → Chars) (blank : NetworkStream Quality) where
  -- `SerializeSlots(t)`; `blank` stands past the end of the arrays of streams.
  unfoldable pub serialize_slots : SlotTable Quality → Chars
  unfolding number entries slot_to_json blank_slot general_to_json lists_to_json
      network_stream_to_json
  serialize_slots t =
      let stream = network_stream_to_json quality_text in
      let streams =
        codes "},\"netTx\":["
        ++ entries (λ i. stream (get_or t.net_tx i blank)) k_net_streams 0
            (codes "],\"netRx\":["
              ++ entries (λ i. stream (get_or t.net_rx i blank)) k_net_streams 0 (codes "]}")) in
      codes "{\"version\":"
      ++ number t.version (
          codes ",\"masterInCount\":"
          ++ number t.master_in_count (
              codes ",\"masterIn\":["
              ++ entries (λ i. slot_to_json (get_or t.master_in i blank_slot)) t.master_in_count 0
                  (codes "],\"masterOutCount\":"
                    ++ number t.master_out_count (
                        codes ",\"masterOut\":["
                        ++ entries (λ i. slot_to_json (get_or t.master_out i blank_slot))
                            t.master_out_count 0
                            (codes "],\"general\":{"
                              ++ general_to_json t.general
                                  (codes "," ++ lists_to_json t streams))))))
