-- ===== src/Json/General.antt =====
-- common/WHASlotsJson.h (DeserializeSlots): the object "general" of slots.json.
pub mod Lists
pub mod Values
pub mod Loops
pub mod Stored
pub mod Cables
pub mod Places
pub mod Shapes
pub mod Members
pub mod RoundTrip
pub mod Settings
pub mod Whole
pub mod State
use win_hook_audio.Json.General.State.{
  put_general, new_general, put_sample_rate, put_bit_depth, put_asio_buffer, put_hw_buffer,
  put_virtual_buffer, put_network_pcm_buffer, put_network_vorbis_buffer, put_jitter_pcm,
  put_jitter_vorbis, put_virtual_cables, put_bridge_buffer, put_virtual_name, put_render_id,
  put_capture_id, put_table, put_cables, GeneralParse,
}
use win_hook_audio.Prelude.{
  ℕ, zero, suc, ◌-◌, Bool, true, false, ◌&&◌, ◌||◌, Option, some, List, [], ◌∷◌, leb, ltb, ◌==◌,
  length, if◌then◌else◌,
}
use win_hook_audio.Prelude.Int.{pos}
use Prim.Native.String.{String}
use win_hook_audio.Table.Text.{Chars, codes, truncate_copy}
use win_hook_audio.Table.Data.{
  General, SlotTable, k_endpoint_id_len, k_hw_devices, k_virtual_slot_cables,
}
use win_hook_audio.Json.{
  Reader, eq_text, expect, lbrace, comma, lbracket, rbracket, parse_string, parse_uint,
}
use win_hook_audio.Json.Objects.{
  Result, ok, failed, Parser, ◌>>=◌, ◌>>◌, run, or_fail, fail, blanks, Messages, object,
}
use win_hook_audio.Json.General.Lists.{device_list, mode_list, cable_list, bridge_values}

abbrev pub general_messages : Messages
general_messages = record {
  no_key = "general key";
  no_colon = "general :";
  no_comma = "general object";
}

-- A number whose error is `error`, given to an assignment.
abbrev pub uint : {S : Type 0} → String → (ℕ → S) → Parser S
uint error put = or_fail error parse_uint >>= λ v. ok (put v)

-- A string of fewer than `limit` bytes.
unfoldable pub short_string : String → String → ℕ → Parser Chars
unfolding parse_string
short_string error too_long limit = do
  v ← or_fail error parse_string
  if leb limit (length v) then fail too_long else ok v

unfoldable pub bridge_array : Parser (List ℕ)
unfolding expect bridge_values
bridge_array = do
  or_fail "bridgeBuffer [" (expect lbracket)
  vs ← bridge_values 4
  or_fail "bridgeBuffer ]" (expect rbracket)
  ok vs

module _ {Quality : Type 0} where
  -- The members whose value is a number; any other goes to `other`.
  unfoldable pub number_member :
      Chars → GeneralParse Quality → Parser (GeneralParse Quality) → Parser (GeneralParse Quality)
  unfolding eq_text parse_uint
  number_member key st other =
      if eq_text key (codes "sampleRate")
      then uint "sampleRate" (put_sample_rate st)
      else if eq_text key (codes "bitDepth")
      then uint "bitDepth" (put_bit_depth st)
      else if eq_text key (codes "asioBuffer")
      then uint "asioBuffer" (put_asio_buffer st)
      else if eq_text key (codes "hwBuffer")
      then uint "hwBuffer" (put_hw_buffer st)
      else if eq_text key (codes "virtualBuffer")
      then uint "virtualBuffer" (put_virtual_buffer st)
      else if eq_text key (codes "networkPcmBuffer")
      then uint "networkPcmBuffer" (put_network_pcm_buffer st)
      else if eq_text key (codes "networkVorbisBuffer")
      then uint "networkVorbisBuffer" (put_network_vorbis_buffer st)
      else if eq_text key (codes "jitterPcm")
      then uint "jitterPcm" (put_jitter_pcm st)
      else if eq_text key (codes "jitterVorbis")
      then uint "jitterVorbis" (put_jitter_vorbis st)
      else if eq_text key (codes "virtualCables")
      then uint "virtualCables" (put_virtual_cables st)
      else other

  -- The members whose value is a string.
  unfoldable pub string_member :
      Chars → GeneralParse Quality → Parser (GeneralParse Quality) → Parser (GeneralParse Quality)
  unfolding eq_text short_string truncate_copy
  string_member key st other =
      let g = st.table.general in
      let id = λ (error : String). short_string error "endpoint id too long" k_endpoint_id_len in
      if eq_text key (codes "virtualName")
      then (short_string "virtualName" "virtualName too long" 32 >>= λ v.
          ok (put_virtual_name st (truncate_copy g.virtual_name 32 (some v))))
      else if eq_text key (codes "hwRenderId")
      then (id "hwRenderId" >>= λ v.
          ok (put_render_id st (truncate_copy g.hw_render_id k_endpoint_id_len (some v))))
      else if eq_text key (codes "hwCaptureId")
      then (id "hwCaptureId" >>= λ v.
          ok (put_capture_id st (truncate_copy g.hw_capture_id k_endpoint_id_len (some v))))
      else other

  -- The values that are arrays, with their brackets.
  unfoldable pub device_array : Bool → SlotTable Quality → Parser (SlotTable Quality)
  unfolding expect blanks device_list
  device_array is_input t = do
    or_fail "HW device list [" (expect lbracket)
    blanks
    u ← device_list is_input (k_hw_devices - 1) t
    or_fail "HW device list ]" (expect rbracket)
    ok u

  unfoldable pub mode_array : Bool → SlotTable Quality → Parser (SlotTable Quality)
  unfolding expect blanks mode_list
  mode_array is_input t = do
    or_fail "HW mode list [" (expect lbracket)
    blanks
    u ← mode_list is_input k_hw_devices t
    or_fail "HW mode list ]" (expect rbracket)
    ok u

  unfoldable pub cable_array : SlotTable Quality → Parser (SlotTable Quality)
  unfolding expect cable_list
  cable_array t = do
    or_fail "cables [" (expect lbracket)
    u ← cable_list k_virtual_slot_cables t
    or_fail "cables ]" (expect rbracket)
    ok u

  -- The members whose value is an array.
  unfoldable pub list_member :
      Chars → GeneralParse Quality → Parser (GeneralParse Quality) → Parser (GeneralParse Quality)
  unfolding eq_text bridge_array device_array mode_array cable_array
  list_member key st other =
      if eq_text key (codes "bridgeBuffer")
      then (bridge_array >>= λ vs. ok (put_bridge_buffer st vs))
      else if eq_text key (codes "hwRenderMore")
      then (device_array false st.table >>= λ t. ok (put_table st t))
      else if eq_text key (codes "hwCaptureMore")
      then (device_array true st.table >>= λ t. ok (put_table st t))
      else if eq_text key (codes "hwRenderModes")
      then (mode_array false st.table >>= λ t. ok (put_table st t))
      else if eq_text key (codes "hwCaptureModes")
      then (mode_array true st.table >>= λ t. ok (put_table st t))
      else if eq_text key (codes "cables")
      then (cable_array st.table >>= λ t. ok (put_cables st t))
      else other

  -- The chain of tests of the key.
  unfoldable pub general_member : Chars → GeneralParse Quality → Parser (GeneralParse Quality)
  unfolding number_member string_member list_member
  general_member key st =
      number_member key st (string_member key st (list_member key st (fail "unknown general key")))

  -- Are the members that must be there all read?
  unfoldable pub have_general : GeneralParse Quality → Bool
  have_general st =
      st.have_sr && st.have_bd && st.have_ab && st.have_hw && st.have_vb && st.have_bb
      && st.have_pcm && st.have_vorbis && st.have_jp && st.have_jv && st.have_vc && st.have_vn

  -- The value of the key "general", from `{` on.
  unfoldable pub parse_general : SlotTable Quality → Bool → Parser (GeneralParse Quality)
  unfolding expect object general_member have_general
  parse_general t have_cables = do
    or_fail "general expected {" (expect lbrace)
    st ← object general_messages general_member (new_general t have_cables)
    if have_general st then ok st else fail "general missing fields"
