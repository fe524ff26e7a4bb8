-- ===== src/Json/Slots/RoundTrip.antt =====
-- common/WHASlotsJson.h: what `SlotToJson` writes is read back by `ParseSlot`.
use win_hook_audio.Prelude.{
  ℕ, suc, ◌^◌, ◌<◌, ◌≡◌, refl, ap, ◌∙◌, ◌⊎◌, inl, inr, Bool, true, false, not, some, [], ◌∷◌, ◌++◌,
  leb, ◌==◌, length, arith,
}
use win_hook_audio.Prelude.Int.{ℤ, pos}
use win_hook_audio.Table.Text.{Chars, codes, c_string, truncate_copy}
use win_hook_audio.Table.Data.{Slot, k_name_len}
use win_hook_audio.Table.Names.{decimal}
use win_hook_audio.Json.{
  escape_byte, escape_bytes, eq_text, escape_json_string, expect, comma, rbrace, parse_string,
  parse_int, parse_uint, parse_bool, skip_ws,
}
use win_hook_audio.Json.Strings.{parse_string-escape_json_string}
use win_hook_audio.Json.Numbers.{InInt32, is_number_end, parse_uint-decimal, parse_int-decimal}
use win_hook_audio.Json.Objects.{ok, bind, members, object}
use win_hook_audio.Json.Objects.Steps.{or_fail-read, members-comma, members-last}
use win_hook_audio.Json.Slots.{
  SlotParse, slot_to_json, slot_member, new_slot, slot_messages, put_type, put_src, put_stream,
  put_name, put_enabled, put_loopback, finish_slot, parse_slot, bool_text, flag,
}

-- A slot as the program keeps it: numbers of 32 bits, a name shorter than its array with zeros after
-- it, and switches of 0 or 1.
pub record IsSlot (s : Slot) : Type 0 where
  pub kind_range : s.kind < 2 ^ 32
  pub src_range : InInt32 s.src_channel
  pub stream_range : InInt32 s.stream_id
  pub name_range : length (c_string s.name) < k_name_len
  pub name_padded : truncate_copy [] k_name_len (some (c_string s.name)) ≡ s.name
  pub enabled_range : (s.enabled ≡ 0) ⊎ (s.enabled ≡ 1)
  pub loopback_range : (s.loopback ≡ 0) ⊎ (s.loopback ≡ 1)

pub parse_bool-bool_text :
    (b : Bool) (rest : Chars) → parse_bool (bool_text b ++ rest) ≡ some (b, rest)
unfolding parse_bool skip_ws eq_text
parse_bool-bool_text true rest = refl
parse_bool-bool_text false rest = refl

flag-switch : (v : ℕ) → (v ≡ 0) ⊎ (v ≡ 1) → flag (not (v == 0)) ≡ v
flag-switch v (inl e) = rw e refl
flag-switch v (inr e) = rw e refl

-- Each member, with text after its value that ends a number.
type_member :
    (st : SlotParse) (n : ℕ) (rest : Chars)
    → n < 2 ^ 32
    → is_number_end rest ≡ true
    → slot_member (codes "type") st (decimal (pos n) ++ rest) ≡ ok (put_type st n) rest
unfolding slot_member eq_text
type_member st n rest h e =
    or_fail-read "slot type parse" parse_uint (λ v. ok (put_type st v)) (decimal (pos n) ++ rest)
      rest n (parse_uint-decimal n rest h e)

src_member :
    (st : SlotParse) (z : ℤ) (rest : Chars)
    → InInt32 z
    → is_number_end rest ≡ true
    → slot_member (codes "srcChannel") st (decimal z ++ rest) ≡ ok (put_src st z) rest
unfolding slot_member eq_text
src_member st z rest h e =
    or_fail-read "slot srcChannel parse" parse_int (λ v. ok (put_src st v)) (decimal z ++ rest) rest
      z (parse_int-decimal z rest h e)

stream_member :
    (st : SlotParse) (z : ℤ) (rest : Chars)
    → InInt32 z
    → is_number_end rest ≡ true
    → slot_member (codes "streamId") st (decimal z ++ rest) ≡ ok (put_stream st z) rest
unfolding slot_member eq_text
stream_member st z rest h e =
    or_fail-read "slot streamId parse" parse_int (λ v. ok (put_stream st v)) (decimal z ++ rest)
      rest z (parse_int-decimal z rest h e)

name_member :
    (st : SlotParse) (v rest : Chars)
    → slot_member (codes "name") st (escape_json_string v ++ rest) ≡ ok (put_name st v) rest
unfolding slot_member eq_text
name_member st v rest =
    or_fail-read "slot name parse" parse_string (λ w. ok (put_name st w))
      (escape_json_string v ++ rest) rest v (parse_string-escape_json_string v rest)

enabled_member :
    (st : SlotParse) (b : Bool) (rest : Chars)
    → slot_member (codes "enabled") st (bool_text b ++ rest) ≡ ok (put_enabled st b) rest
unfolding slot_member eq_text
enabled_member st b rest =
    or_fail-read "slot enabled parse" parse_bool (λ w. ok (put_enabled st w)) (bool_text b ++ rest)
      rest b (parse_bool-bool_text b rest)

loopback_member :
    (st : SlotParse) (b : Bool) (rest : Chars)
    → slot_member (codes "loopback") st (bool_text b ++ rest) ≡ ok (put_loopback st b) rest
unfolding slot_member eq_text
loopback_member st b rest =
    or_fail-read "slot loopback parse" parse_bool (λ w. ok (put_loopback st w))
      (bool_text b ++ rest) rest b (parse_bool-bool_text b rest)

module _ (s : Slot) (rest : Chars) where
  -- What is written from each member on.
  loopback_text : Chars
  loopback_text = codes "\"loopback\":" ++ (bool_text (not (s.loopback == 0)) ++ rbrace ∷ rest)

  enabled_text : Chars
  unfolding loopback_text
  enabled_text = codes "\"enabled\":" ++ (bool_text (not (s.enabled == 0)) ++ comma ∷ loopback_text)

  name_text : Chars
  unfolding enabled_text escape_json_string c_string
  name_text = codes "\"name\":" ++ (escape_json_string (c_string s.name) ++ comma ∷ enabled_text)

  stream_text : Chars
  unfolding name_text decimal
  stream_text = codes "\"streamId\":" ++ (decimal s.stream_id ++ comma ∷ name_text)

  src_text : Chars
  unfolding stream_text decimal
  src_text = codes "\"srcChannel\":" ++ (decimal s.src_channel ++ comma ∷ stream_text)

  -- The local variables after the members.
  read_state : SlotParse
  unfolding new_slot put_name
  read_state =
      put_loopback
        (put_enabled
          (put_name (put_stream (put_src (put_type new_slot s.kind) s.src_channel) s.stream_id)
            (c_string s.name))
          (not (s.enabled == 0)))
        (not (s.loopback == 0))

  members-slot :
      (fuel : ℕ)
      → IsSlot s
      → members slot_messages slot_member
          (suc (suc (suc (suc (suc (suc (suc fuel)))))))
          new_slot
          (codes "\"type\":" ++ (decimal (pos s.kind) ++ comma ∷ src_text))
        ≡ ok read_state rest
  unfolding escape_json_string escape_bytes escape_byte loopback_text enabled_text name_text
      stream_text src_text read_state
  members-slot fuel h =
      let st1 = put_type new_slot s.kind in
      let st2 = put_src st1 s.src_channel in
      let st3 = put_stream st2 s.stream_id in
      let st4 = put_name st3 (c_string s.name) in
      let st5 = put_enabled st4 (not (s.enabled == 0)) in
      members-comma slot_messages slot_member (suc (suc (suc (suc (suc (suc fuel))))))
        (codes "type") (decimal (pos s.kind) ++ comma ∷ src_text) new_slot st1 src_text
        (type_member new_slot s.kind (comma ∷ src_text) h.kind_range refl)
      ∙ members-comma slot_messages slot_member (suc (suc (suc (suc (suc fuel)))))
          (codes "srcChannel") (decimal s.src_channel ++ comma ∷ stream_text) st1 st2 stream_text
          (src_member st1 s.src_channel (comma ∷ stream_text) h.src_range refl)
      ∙ members-comma slot_messages slot_member (suc (suc (suc (suc fuel)))) (codes "streamId")
          (decimal s.stream_id ++ comma ∷ name_text) st2 st3 name_text
          (stream_member st2 s.stream_id (comma ∷ name_text) h.stream_range refl)
      ∙ members-comma slot_messages slot_member (suc (suc (suc fuel))) (codes "name")
          (escape_json_string (c_string s.name) ++ comma ∷ enabled_text) st3 st4 enabled_text
          (name_member st3 (c_string s.name) (comma ∷ enabled_text))
      ∙ members-comma slot_messages slot_member (suc (suc fuel)) (codes "enabled")
          (bool_text (not (s.enabled == 0)) ++ comma ∷ loopback_text) st4 st5 loopback_text
          (enabled_member st4 (not (s.enabled == 0)) (comma ∷ loopback_text))
      ∙ members-last slot_messages slot_member fuel (codes "loopback")
          (bool_text (not (s.loopback == 0)) ++ rbrace ∷ rest) st5 read_state rest
          (loopback_member st5 (not (s.loopback == 0)) (rbrace ∷ rest))

same_slot :
    (s : Slot) (name : Chars) (enabled loopback : ℕ)
    → name ≡ s.name
    → enabled ≡ s.enabled
    → loopback ≡ s.loopback
    → record s { name = name; enabled = enabled; loopback = loopback } ≡ s
same_slot s name enabled loopback n e l =
    ap (λ v. record s { name = v; enabled = enabled; loopback = loopback }) n
    ∙ ap (λ v. record s { enabled = v; loopback = loopback }) e
    ∙ ap (λ v. record s { loopback = v }) l

short_name : (n : ℕ) → n < k_name_len → leb k_name_len n ≡ false
short_name n h = ground arith

finish_slot-read_state :
    (s : Slot) (rest : Chars) → IsSlot s → finish_slot (read_state s rest) rest ≡ ok s rest
unfolding finish_slot read_state put_name new_slot truncate_copy
finish_slot-read_state s rest h = rw (short_name (length (c_string s.name)) h.name_range) (
    ap (λ v. ok v rest)
      (same_slot s (truncate_copy [] k_name_len (some (c_string s.name)))
        (flag (not (s.enabled == 0))) (flag (not (s.loopback == 0))) h.name_padded
        (flag-switch s.enabled h.enabled_range) (flag-switch s.loopback h.loopback_range)))

-- ParseSlot on what SlotToJson wrote for a slot as the program keeps it, with any text after it,
-- gives that slot and leaves that text.
pub parse_slot-slot_to_json :
    (s : Slot) (rest : Chars) → IsSlot s → parse_slot (slot_to_json s rest) ≡ ok s rest
unfolding parse_slot slot_to_json object expect skip_ws loopback_text enabled_text name_text
    stream_text src_text
parse_slot-slot_to_json s rest h =
    ap (λ r. bind r finish_slot)
      (members-slot s rest (suc (length (decimal (pos s.kind) ++ comma ∷ src_text s rest))) h)
    ∙ finish_slot-read_state s rest h
