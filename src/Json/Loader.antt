-- ===== src/Json/Loader.antt =====
-- common/WHASlotsJson.h (DeserializeSlots): a whole slots.json.
pub mod GeneralTotal
pub mod Total
pub mod Checked
pub mod Values
pub mod Kept
pub mod RoundTrip
use win_hook_audio.Prelude.{
  ℕ, zero, suc, ◌+◌, ◌-◌, ◌*◌, ◌/◌, ◌%◌, Bool, true, false, not, ◌&&◌, ◌||◌, Option, none, some,
  List, [], ◌∷◌, ◌++◌, map, ◌==◌, drop, length, replicate, if◌then◌else◌,
}
use win_hook_audio.Prelude.Int.{ℤ, pos, negsuc}
use Prim.Native.String.{String}
use win_hook_audio.Table.Text.{Chars, codes}
use win_hook_audio.Table.Data.{
  Slot, NetworkStream, SlotTable, HwIds, k_max, k_net_streams, k_hw_devices, k_hw_more_devices,
  k_hw_extra_devices, k_virtual_cables_first, slot_virtual, hw_mode_exclusive, default_cable,
  blank_ids,
}
use win_hook_audio.Table.Names.{k_virtual_cable_channels}
use win_hook_audio.Table.Names.Visible.{blank_slot}
use win_hook_audio.Table.Defaults.{default_general, default_stream}
use win_hook_audio.Table.Validate.{TableError, validate_slots}
use win_hook_audio.Json.{
  eq_text, expect, skip_ws, starts, lbrace, comma, lbracket, rbracket, parse_uint,
}
use win_hook_audio.Json.Objects.{
  Result, ok, failed, out_of_fuel, Parser, bind, ◌>>=◌, ◌>>◌, or_fail, fail, blanks, fixed_list,
  Messages, object,
}
use win_hook_audio.Json.Slots.{parse_slot}
use win_hook_audio.Json.Streams.{parse_network_stream}
use win_hook_audio.Json.General.{uint, parse_general}

-- The loop of "masterIn" and "masterOut", past the bracket, with `room` places left.
unfoldable pub slot_array : String → String → ℕ → Parser (List Slot)
unfolding parse_slot skip_ws
slot_array too_many bad_array zero s = failed too_many
slot_array too_many bad_array (suc room) s = bind (parse_slot s) λ slot u.
    let v = skip_ws u in
    let more = bind (slot_array too_many bad_array room (drop 1 v)) λ slots. ok (slot ∷ slots) in
    if starts comma v
    then more
    else if starts rbracket v
    then ok (slot ∷ []) (drop 1 v)
    else failed bad_array

unfoldable pub parse_slots : String → String → String → Parser (List Slot)
unfolding expect skip_ws slot_array
parse_slots no_bracket too_many bad_array s = bind (or_fail no_bracket (expect lbracket) s) λ _ u.
    let v = skip_ws u in
    if starts rbracket v then ok [] (drop 1 v) else slot_array too_many bad_array k_max v

-- The local variables of `DeserializeSlots`; `tmp_in` is the filled part of its array.
pub record Load (Quality : Type 0) : Type 0 where
  pub table : SlotTable Quality
  pub tmp_in_count : ℕ
  pub tmp_out_count : ℕ
  pub tmp_in : List Slot
  pub tmp_out : List Slot
  pub have_version : Bool
  pub have_in_count : Bool
  pub have_in : Bool
  pub have_out_count : Bool
  pub have_out : Bool
  pub have_general : Bool
  pub have_tx : Bool
  pub have_rx : Bool
  pub have_cables : Bool

abbrev pub load_messages : Messages
load_messages = record {
  no_key = "expected key string";
  no_colon = "expected :";
  no_comma = "top object";
}

-- `convert`: a stereo cable's channel in the numbering of 8-channel cables; from channel 2 ^ 29 on the
-- source's int overflows, which is undefined there, and the number here is past every range.
unfoldable pub convert : Slot → Slot
convert slot = elim slot.src_channel [
  | negsuc n ↦ slot
  | pos n ↦
      if slot.kind == slot_virtual
      then record slot { src_channel = pos (n / 2 * k_virtual_cable_channels + n % 2) }
      else slot
]

-- An array of `WHA_MAX` slots with the given ones at its start.
unfoldable pub slot_places : List Slot → List Slot
unfolding blank_slot
slot_places slots = slots ++ replicate (k_max - length slots) blank_slot

module _ {Quality : Type 0} (stof : Chars → Option Quality) (default_quality : Quality) where
  -- `WHASlotTable{}`
  unfoldable pub new_table : SlotTable Quality
  unfolding blank_slot default_general default_stream blank_ids
  new_table = record {
    version = 0;
    master_in_count = 0;
    master_in = replicate k_max blank_slot;
    master_out_count = 0;
    master_out = replicate k_max blank_slot;
    general = default_general;
    net_tx = replicate k_net_streams (default_stream default_quality);
    net_rx = replicate k_net_streams (default_stream default_quality);
    hw_more = blank_ids k_hw_more_devices;
    cables = replicate k_virtual_cables_first default_cable;
    hw_extra = blank_ids k_hw_extra_devices;
    hw_modes = record {
      render = replicate k_hw_devices hw_mode_exclusive;
      capture = replicate k_hw_devices hw_mode_exclusive;
    };
    cables_more = replicate k_virtual_cables_first default_cable;
  }

  unfoldable pub new_load : Load Quality
  unfolding new_table
  new_load = record {
    table = new_table;
    tmp_in_count = 0;
    tmp_out_count = 0;
    tmp_in = [];
    tmp_out = [];
    have_version = false;
    have_in_count = false;
    have_in = false;
    have_out_count = false;
    have_out = false;
    have_general = false;
    have_tx = false;
    have_rx = false;
    have_cables = false;
  }

  -- The loop of "netTx" and "netRx", for the last `n` streams.
  unfoldable pub stream_values : String → ℕ → Parser (List (NetworkStream Quality))
  unfolding parse_network_stream fixed_list
  stream_values no_comma = fixed_list (parse_network_stream stof default_quality) no_comma

  unfoldable pub parse_streams : String → String → String → Parser (List (NetworkStream Quality))
  unfolding stream_values expect
  parse_streams no_bracket no_comma no_end = do
    or_fail no_bracket (expect lbracket)
    streams ← stream_values no_comma k_net_streams
    or_fail no_end (expect rbracket)
    ok streams

  -- The chain of tests of the key.
  unfoldable pub load_member : Chars → Load Quality → Parser (Load Quality)
  unfolding eq_text parse_uint parse_slots parse_general parse_streams
  load_member key st =
      if eq_text key (codes "version")
      then uint "version parse"
          (λ v. record st { table = record (st.table) { version = v }; have_version = true })
      else if eq_text key (codes "masterInCount")
      then uint "masterInCount parse" (λ v. record st { tmp_in_count = v; have_in_count = true })
      else if eq_text key (codes "masterIn")
      then (parse_slots "masterIn expected [" "masterIn too many" "masterIn array" >>= λ slots.
          ok (record st { tmp_in = slots; have_in = true }))
      else if eq_text key (codes "masterOutCount")
      then uint "masterOutCount parse" (λ v. record st { tmp_out_count = v; have_out_count = true })
      else if eq_text key (codes "masterOut")
      then (parse_slots "masterOut expected [" "masterOut too many" "masterOut array" >>= λ slots.
          ok (record st { tmp_out = slots; have_out = true }))
      else if eq_text key (codes "general")
      then (parse_general st.table st.have_cables >>= λ g.
          ok (record st { table = g.table; have_general = true; have_cables = g.have_cables }))
      else if eq_text key (codes "netTx")
      then (parse_streams "netTx [" "netTx ," "netTx ]" >>= λ streams.
          ok (record st { table = record (st.table) { net_tx = streams }; have_tx = true }))
      else if eq_text key (codes "netRx")
      then (parse_streams "netRx [" "netRx ," "netRx ]" >>= λ streams.
          ok (record st { table = record (st.table) { net_rx = streams }; have_rx = true }))
      else fail "unknown top key"

  -- The object of a slots.json.
  unfoldable pub load : Parser (Load Quality)
  unfolding blanks expect object load_member new_load
  load = do blanks; or_fail "expected {" (expect lbrace); object load_messages load_member new_load

module _ {Quality : Type 0} where
  unfoldable pub have_all : Load Quality → Bool
  have_all st =
      st.have_version && st.have_in_count && st.have_in && st.have_out_count && st.have_out
      && st.have_general && st.have_tx && st.have_rx

  -- The assignments after the checks of the counts.
  unfoldable pub loaded_table : Load Quality → SlotTable Quality
  unfolding convert slot_places
  loaded_table st =
      let converted = λ (slots : List Slot). if st.have_cables then slots else map convert slots in
      record st.table {
        master_in_count = length st.tmp_in;
        master_out_count = length st.tmp_out;
        master_in = slot_places (converted st.tmp_in);
        master_out = slot_places (converted st.tmp_out);
      }

-- The result of `DeserializeSlots`; `unfinished` has no counterpart in the program.
pub data Loaded (Quality : Type 0) : Type 0 where
  loaded : SlotTable Quality → Loaded Quality
  rejected : String → Loaded Quality
  invalid : TableError → Loaded Quality
  unfinished : Loaded Quality

module _ {Quality : Type 0} (below_min above_max : Quality → Bool) (default_quality : Quality) where
  -- `ValidateSlots` on the table.
  unfoldable pub validated : SlotTable Quality → Loaded Quality
  unfolding validate_slots default_stream
  validated t = elim (validate_slots below_min above_max (default_stream default_quality) t) [
    | none ↦ loaded t
    | some e ↦ invalid e
  ]

  -- The text past the object, and the checks of what was read.
  unfoldable pub finish_load : Result (Load Quality) → Loaded Quality
  unfolding skip_ws have_all loaded_table validated
  finish_load (failed e) = rejected e
  finish_load out_of_fuel = unfinished
  finish_load (ok st rest) =
      if not (length (skip_ws rest) == 0)
      then rejected "trailing"
      else if not (have_all st)
      then rejected "missing top fields"
      else if not (length st.tmp_in == st.tmp_in_count)
      then rejected "masterInCount mismatch"
      else if not (length st.tmp_out == st.tmp_out_count)
      then rejected "masterOutCount mismatch"
      else validated (loaded_table st)

module _ {Quality : Type 0} (below_min above_max : Quality → Bool) (stof : Chars → Option Quality)
    (default_quality : Quality) where
  -- `DeserializeSlots(s, out, error)`
  unfoldable pub deserialize_slots : Chars → Loaded Quality
  unfolding load finish_load
  deserialize_slots s =
      finish_load below_min above_max default_quality (load stof default_quality s)
