-- ===== src/Json/Slots.antt =====
-- common/WHASlotsJson.h: a slot of slots.json, written by `SlotToJson` and read by `ParseSlot`. A
-- writer takes the text that comes after what it writes.
pub mod RoundTrip
use win_hook_audio.Prelude.{
  ℕ, Bool, true, false, not, ◌&&◌, ◌||◌, Option, some, List, [], ◌∷◌, ◌++◌, leb, ◌==◌, length,
  if◌then◌else◌,
}
use win_hook_audio.Prelude.Int.{ℤ, pos}
use Prim.Native.String.{String}
use win_hook_audio.Table.Text.{Chars, codes, c_string, truncate_copy}
use win_hook_audio.Table.Data.{Slot, k_name_len}
use win_hook_audio.Table.Names.{decimal}
use win_hook_audio.Table.Names.Visible.{blank_slot}
use win_hook_audio.Json.{
  eq_text, escape_json_string, expect, lbrace, parse_string, parse_int, parse_uint, parse_bool,
}
use win_hook_audio.Json.Objects.{
  Result, ok, failed, Parser, ◌>>=◌, ◌>>◌, run, or_fail, fail, Messages, object,
}

abbrev pub bool_text : Bool → Chars
bool_text b = codes (if b then "true" else "false")

unfoldable pub slot_to_json : Slot → Chars → Chars
unfolding decimal escape_json_string c_string
slot_to_json s rest =
    codes "{\"type\":"
    ++ (decimal (pos s.kind)
        ++ (codes ",\"srcChannel\":"
            ++ (decimal s.src_channel
                ++ (codes ",\"streamId\":"
                    ++ (decimal s.stream_id
                        ++ (codes ",\"name\":"
                            ++ (escape_json_string (c_string s.name)
                                ++ (codes ",\"enabled\":"
                                    ++ (bool_text (not (s.enabled == 0))
                                        ++ (codes ",\"loopback\":"
                                            ++ (bool_text (not (s.loopback == 0))
                                                ++ (codes "}" ++ rest))))))))))))

-- The local variables of `ParseSlot`.
pub record SlotParse : Type 0 where
  pub slot : Slot
  pub have_type : Bool
  pub have_src : Bool
  pub have_stream : Bool
  pub have_name : Bool
  pub have_enabled : Bool
  pub have_loopback : Bool
  pub raw_name_too_long : Bool

unfoldable pub new_slot : SlotParse
unfolding blank_slot
new_slot = record {
  slot = blank_slot;
  have_type = false;
  have_src = false;
  have_stream = false;
  have_name = false;
  have_enabled = false;
  have_loopback = false;
  raw_name_too_long = false;
}

abbrev pub flag : Bool → ℕ
flag b = if b then 1 else 0

-- The assignments of the members.
abbrev pub put_type : SlotParse → ℕ → SlotParse
put_type st v = record st { slot = record (st.slot) { kind = v }; have_type = true }

abbrev pub put_src : SlotParse → ℤ → SlotParse
put_src st v = record st { slot = record (st.slot) { src_channel = v }; have_src = true }

abbrev pub put_stream : SlotParse → ℤ → SlotParse
put_stream st v = record st { slot = record (st.slot) { stream_id = v }; have_stream = true }

unfoldable pub put_name : SlotParse → Chars → SlotParse
unfolding truncate_copy
put_name st v = record st {
  slot = record (st.slot) { name = truncate_copy st.slot.name k_name_len (some v) };
  have_name = true;
  raw_name_too_long = st.raw_name_too_long || leb k_name_len (length v);
}

abbrev pub put_enabled : SlotParse → Bool → SlotParse
put_enabled st v = record st { slot = record (st.slot) { enabled = flag v }; have_enabled = true }

abbrev pub put_loopback : SlotParse → Bool → SlotParse
put_loopback st v = record st {
  slot = record (st.slot) { loopback = flag v };
  have_loopback = true;
}

unfoldable pub slot_member : Chars → SlotParse → Parser SlotParse
unfolding eq_text put_name parse_string parse_int parse_uint parse_bool
slot_member key st =
    if eq_text key (codes "type")
    then (or_fail "slot type parse" parse_uint >>= λ v. ok (put_type st v))
    else if eq_text key (codes "srcChannel")
    then (or_fail "slot srcChannel parse" parse_int >>= λ v. ok (put_src st v))
    else if eq_text key (codes "streamId")
    then (or_fail "slot streamId parse" parse_int >>= λ v. ok (put_stream st v))
    else if eq_text key (codes "name")
    then (or_fail "slot name parse" parse_string >>= λ v. ok (put_name st v))
    else if eq_text key (codes "enabled")
    then (or_fail "slot enabled parse" parse_bool >>= λ v. ok (put_enabled st v))
    else if eq_text key (codes "loopback")
    then (or_fail "slot loopback parse" parse_bool >>= λ v. ok (put_loopback st v))
    else fail "slot unknown key"

abbrev pub slot_messages : Messages
slot_messages = record {
  no_key = "slot key parse";
  no_colon = "slot expected :";
  no_comma = "slot object";
}

-- The tests after the loop.
unfoldable pub finish_slot : SlotParse → Parser Slot
finish_slot st =
    if st.have_type && st.have_src && st.have_stream && st.have_name && st.have_enabled
      && st.have_loopback
    then (if st.raw_name_too_long then fail "slot name too long" else ok st.slot)
    else fail "slot missing fields"

unfoldable pub parse_slot : Parser Slot
unfolding expect object slot_member new_slot finish_slot
parse_slot = do
  or_fail "slot expected {" (expect lbrace)
  st ← object slot_messages slot_member new_slot
  finish_slot st
