-- ===== src/Json/Lengths/Parts.antt =====
-- common/WHASlotsJson.h: the parsers of a slot, a network stream and the arrays in "general" leave no
-- more text than they are given.
use win_hook_audio.Prelude.{
  ℕ, zero, suc, ◌-◌, ◌≤◌, Bool, ◌&&◌, Option, some, [], ◌∷◌, ◌==◌, leb, ltb, length, if◌then◌else◌,
  if_both, arith,
}
use Prim.Native.String.{String}
use win_hook_audio.Table.Text.{Chars, codes, truncate_copy}
use win_hook_audio.Table.Data.{
  SlotTable, k_hw_devices, k_virtual_slot_cables, k_virtual_cables_first, k_hw_mode_count,
  k_endpoint_id_len,
}
use win_hook_audio.Json.{
  Reader, eq_text, skip_ws, starts, expect, lbrace, rbrace, comma, colon, rbracket, parse_string,
}
use win_hook_audio.Json.Objects.{fixed_list, separator, Parser, ◌>>=◌, or_fail, ok}
use win_hook_audio.Json.Slots.{
  SlotParse, slot_messages, slot_member, new_slot, finish_slot, parse_slot,
}
use win_hook_audio.Json.Streams.{
  StreamParse, stream_messages, stream_member, new_stream, finish_stream, parse_network_stream,
}
use win_hook_audio.Json.General.Lists.{
  bridge_values, at_end, set_hw_device_id, device_entry, device_list, put_mode, mode_entry,
  mode_list, cable_field, cable_entry, cable_list,
}
use win_hook_audio.Json.Lengths.{
  Within, within, Within-weaken, Within-bind, Keeps, LeavesNoMore, LeavesLess-LeavesNoMore,
  bind-Keeps, or_fail-Keeps, ok-Keeps, fail-Keeps, if-Keeps, length-skip_ws, expect-LeavesLess,
  parse_string-LeavesLess, blanks-Keeps,
}
use win_hook_audio.Json.Lengths.Readers.{
  parse_uint-LeavesNoMore, parse_int-LeavesNoMore, parse_bool-LeavesNoMore,
  parse_float-LeavesNoMore, object-Keeps,
}

-- A value that is read and stored.
pub store-Keeps :
    {A B : Type 0} (e : String) {read : Reader A} (put : A → B)
    → LeavesNoMore read
    → Keeps (or_fail e read >>= λ v. ok (put v))
store-Keeps e put h = bind-Keeps (or_fail-Keeps e h) (λ v. ok-Keeps (put v))

pub parse_string-LeavesNoMore : LeavesNoMore parse_string
parse_string-LeavesNoMore = LeavesLess-LeavesNoMore parse_string-LeavesLess

pub expect-Keeps : (e : String) (c : ℕ) → Keeps (or_fail e (expect c))
expect-Keeps e c = or_fail-Keeps e (LeavesLess-LeavesNoMore (expect-LeavesLess c))

slot_member-Keeps : (key : Chars) (st : SlotParse) → Keeps (slot_member key st)
unfolding slot_member
slot_member-Keeps key st =
    if-Keeps (eq_text key (codes "type")) (store-Keeps _ _ parse_uint-LeavesNoMore) (
      if-Keeps (eq_text key (codes "srcChannel")) (store-Keeps _ _ parse_int-LeavesNoMore) (
        if-Keeps (eq_text key (codes "streamId")) (store-Keeps _ _ parse_int-LeavesNoMore) (
          if-Keeps (eq_text key (codes "name")) (store-Keeps _ _ parse_string-LeavesNoMore) (
            if-Keeps (eq_text key (codes "enabled")) (store-Keeps _ _ parse_bool-LeavesNoMore) (
              if-Keeps (eq_text key (codes "loopback")) (store-Keeps _ _ parse_bool-LeavesNoMore)
                (fail-Keeps _))))))

finish_slot-Keeps : (st : SlotParse) → Keeps (finish_slot st)
unfolding finish_slot
finish_slot-Keeps st =
    if-Keeps
      (st.have_type && st.have_src && st.have_stream && st.have_name && st.have_enabled
        && st.have_loopback)
      (if-Keeps st.raw_name_too_long (fail-Keeps _) (ok-Keeps st.slot)) (fail-Keeps _)

pub parse_slot-Keeps : Keeps parse_slot
unfolding parse_slot
parse_slot-Keeps = bind-Keeps (expect-Keeps _ lbrace) λ _.
    bind-Keeps (object-Keeps slot_messages slot_member slot_member-Keeps new_slot) finish_slot-Keeps

module _ {Quality : Type 0} (stof : Chars → Option Quality) (default_quality : Quality) where
  stream_member-Keeps :
      (key : Chars) (st : StreamParse Quality) → Keeps (stream_member stof default_quality key st)
  unfolding stream_member
  stream_member-Keeps key st =
      if-Keeps (eq_text key (codes "ip")) (store-Keeps _ _ parse_string-LeavesNoMore) (
        if-Keeps (eq_text key (codes "port")) (store-Keeps _ _ parse_uint-LeavesNoMore) (
          if-Keeps (eq_text key (codes "codec")) (store-Keeps _ _ parse_uint-LeavesNoMore) (
            if-Keeps (eq_text key (codes "quality"))
              (store-Keeps _ _ (parse_float-LeavesNoMore stof))
              (if-Keeps (eq_text key (codes "channels")) (store-Keeps _ _ parse_uint-LeavesNoMore)
                (fail-Keeps _)))))

  finish_stream-Keeps : (st : StreamParse Quality) → Keeps (finish_stream st)
  unfolding finish_stream
  finish_stream-Keeps st =
      if-Keeps (st.have_ip && st.have_port && st.have_codec && st.have_quality && st.have_channels)
        (if-Keeps st.raw_ip_too_long (fail-Keeps _) (ok-Keeps st.stream)) (fail-Keeps _)

  pub parse_network_stream-Keeps : Keeps (parse_network_stream stof default_quality)
  unfolding parse_network_stream
  parse_network_stream-Keeps = bind-Keeps (expect-Keeps _ lbrace) λ _.
      bind-Keeps
        (object-Keeps stream_messages (stream_member stof default_quality) stream_member-Keeps
          (new_stream stof default_quality))
        finish_stream-Keeps

separator-Keeps : (e : String) (n : ℕ) → Keeps (separator e n)
unfolding separator
separator-Keeps e zero = ok-Keeps tt
separator-Keeps e (suc n) = expect-Keeps e comma

pub fixed_list-Keeps :
    {A : Type 0} {value : Parser A} (e : String) (n : ℕ)
    → Keeps value
    → Keeps (fixed_list value e n)
unfolding fixed_list
fixed_list-Keeps e zero h = ok-Keeps []
fixed_list-Keeps {A} {value} e (suc n) h = bind-Keeps h λ v. bind-Keeps blanks-Keeps λ _.
    bind-Keeps (separator-Keeps e n)
      λ _. bind-Keeps (fixed_list-Keeps e n h) λ vs. ok-Keeps (v ∷ vs)

pub bridge_values-Keeps : (n : ℕ) → Keeps (bridge_values n)
unfolding bridge_values
bridge_values-Keeps n =
    fixed_list-Keeps "bridgeBuffer ," n (or_fail-Keeps _ parse_uint-LeavesNoMore)

-- A loop's test for its end.
until-Keeps :
    {A : Type 0} (stop : Chars → Bool) (a : A) {p : Parser A}
    → Keeps p
    → Keeps (λ s. if stop s then ok a s else p s)
until-Keeps stop a {p} h = record {
  keeps = λ s. if_both (Within (suc (length s))) (stop s) ((ok-Keeps a).keeps s) (h.keeps s);
}

module _ {Quality : Type 0} where
  device_entry-Keeps :
      (is_input : Bool) (d : ℕ) (t : SlotTable Quality) → Keeps (device_entry is_input d t)
  unfolding device_entry
  device_entry-Keeps is_input d t =
      bind-Keeps (if-Keeps (ltb 1 d) (expect-Keeps "HW device list ," comma) (ok-Keeps tt)) λ _.
        bind-Keeps (or_fail-Keeps _ parse_string-LeavesNoMore) λ v.
          bind-Keeps (if-Keeps (leb k_endpoint_id_len (length v)) (fail-Keeps _) (ok-Keeps tt)) λ _.
            bind-Keeps blanks-Keeps λ _.
              ok-Keeps (set_hw_device_id t is_input d (truncate_copy [] k_endpoint_id_len (some v)))

  mode_entry-Keeps :
      (is_input : Bool) (d : ℕ) (t : SlotTable Quality) → Keeps (mode_entry is_input d t)
  unfolding mode_entry
  mode_entry-Keeps is_input d t =
      bind-Keeps (if-Keeps (ltb 0 d) (expect-Keeps "HW mode list ," comma) (ok-Keeps tt)) λ _.
        bind-Keeps (or_fail-Keeps _ parse_uint-LeavesNoMore) λ v.
          bind-Keeps (if-Keeps (leb k_hw_mode_count v) (fail-Keeps _) (ok-Keeps tt))
            λ _. bind-Keeps blanks-Keeps λ _. ok-Keeps (put_mode t is_input d v)

  pub device_list-Keeps :
      (is_input : Bool) (room : ℕ) (t : SlotTable Quality) → Keeps (device_list is_input room t)
  unfolding device_list
  device_list-Keeps is_input zero t =
      until-Keeps at_end t (bind-Keeps (expect-Keeps _ comma) λ _. fail-Keeps _)
  device_list-Keeps is_input (suc room) t = until-Keeps at_end t (
      bind-Keeps (device_entry-Keeps is_input (k_hw_devices - suc room) t)
        (device_list-Keeps is_input room))

  pub mode_list-Keeps :
      (is_input : Bool) (room : ℕ) (t : SlotTable Quality) → Keeps (mode_list is_input room t)
  unfolding mode_list
  mode_list-Keeps is_input zero t =
      until-Keeps at_end t (bind-Keeps (expect-Keeps _ comma) λ _. fail-Keeps _)
  mode_list-Keeps is_input (suc room) t = until-Keeps at_end t (
      bind-Keeps (mode_entry-Keeps is_input (k_hw_devices - suc room) t)
        (mode_list-Keeps is_input room))

  cable_field-Keeps : (t : SlotTable Quality) (c : ℕ) → Keeps (cable_field t c)
  unfolding cable_field
  cable_field-Keeps t c = bind-Keeps (or_fail-Keeps _ parse_string-LeavesNoMore) λ key.
      bind-Keeps (expect-Keeps _ colon) λ _.
        bind-Keeps (or_fail-Keeps _ parse_uint-LeavesNoMore) λ v.
          bind-Keeps (if-Keeps (ltb 255 v) (fail-Keeps _) (ok-Keeps tt)) λ _.
            if-Keeps (eq_text key (codes "channels")) (ok-Keeps _)
              (if-Keeps (eq_text key (codes "format")) (ok-Keeps _) (fail-Keeps _))

  cable_entry-Keeps : (t : SlotTable Quality) (c : ℕ) → Keeps (cable_entry t c)
  unfolding cable_entry
  cable_entry-Keeps t c =
      bind-Keeps (if-Keeps (ltb 0 c) (expect-Keeps "cables list ," comma) (ok-Keeps tt)) λ _.
        bind-Keeps (expect-Keeps "cables {" lbrace) λ _. bind-Keeps (cable_field-Keeps t c) λ t1.
          bind-Keeps (expect-Keeps "cables ," comma) λ _.
            bind-Keeps (cable_field-Keeps t1 c)
              λ t2. bind-Keeps (expect-Keeps "cables }" rbrace) λ _. ok-Keeps t2

  pub cable_list-Keeps : (rounds : ℕ) (t : SlotTable Quality) → Keeps (cable_list rounds t)
  unfolding cable_list
  cable_list-Keeps zero t = ok-Keeps t
  cable_list-Keeps (suc rounds) t = record {
    keeps = λ s.
        let c = k_virtual_slot_cables - suc rounds in
        let u = if c == k_virtual_cables_first then skip_ws s else s in
        let short : length u ≤ length s =
          if_both (λ (x : Chars). length x ≤ length s) (c == k_virtual_cables_first)
            (length-skip_ws s) (omega arith) in
        if_both (Within (suc (length s))) ((c == k_virtual_cables_first) && starts rbracket u)
          (within (omega arith))
          (Within-bind ((cable_entry-Keeps t c).keeps u)
            λ t2 rest h. Within-weaken ((cable_list-Keeps rounds t2).keeps rest) (omega arith));
  }
