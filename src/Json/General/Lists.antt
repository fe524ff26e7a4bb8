-- ===== src/Json/General/Lists.antt =====
-- common/WHASlotsJson.h (DeserializeSlots): the arrays in the object "general" of slots.json. The
-- number that each loop is given is the number of rounds it may still make.
use win_hook_audio.Prelude.{
  ℕ, zero, suc, ◌-◌, Bool, true, ◌&&◌, some, List, [], ◌∷◌, ltb, leb, ◌==◌, set, length,
  if◌then◌else◌,
}
use win_hook_audio.Prelude.Int.{pos}
use win_hook_audio.Table.Text.{Chars, codes, truncate_copy}
use win_hook_audio.Table.Data.{
  SlotTable, CableSetting, k_endpoint_id_len, k_hw_devices, k_hw_more_devices, k_hw_mode_count,
  k_virtual_slot_cables, k_virtual_cables_first,
}
use win_hook_audio.Table.Access.{cable_setting, set_cable_setting}
use win_hook_audio.Json.{
  eq_text, skip_ws, starts, expect, lbrace, rbrace, comma, colon, rbracket, parse_string,
  parse_uint,
}
use win_hook_audio.Json.Objects.{
  fixed_list, ok, Parser, ◌>>=◌, ◌>>◌, bind, run, or_fail, fail, blanks,
}

-- The four values of "bridgeBuffer", with a comma after each but the last.
unfoldable pub bridge_values : ℕ → Parser (List ℕ)
unfolding parse_uint fixed_list
bridge_values = fixed_list (or_fail "bridgeBuffer val" parse_uint) "bridgeBuffer ,"

-- `p >= s.size() || s[p] == ']'`
abbrev pub at_end : Chars → Bool
at_end [] = true
at_end (c ∷ s) = c == rbracket

module _ {Quality : Type 0} where
  -- An assignment to the array that `HwDeviceId(t, isInput, d)` points to.
  unfoldable pub set_hw_device_id : SlotTable Quality → Bool → ℕ → Chars → SlotTable Quality
  set_hw_device_id t is_input d id =
      let more = t.hw_more in
      let extra = t.hw_extra in
      let e = d - 1 - k_hw_more_devices in
      if d == 0
      then (if is_input
          then record t { general = record (t.general) { hw_capture_id = id } }
          else record t { general = record (t.general) { hw_render_id = id } })
      else if leb d k_hw_more_devices
      then (if is_input
          then record t { hw_more = record more { capture_id = set more.capture_id (d - 1) id } }
          else record t { hw_more = record more { render_id = set more.render_id (d - 1) id } })
      else if is_input
      then record t { hw_extra = record extra { capture_id = set extra.capture_id e id } }
      else record t { hw_extra = record extra { render_id = set extra.render_id e id } }

  -- The body of the loop of "hwRenderMore" and "hwCaptureMore", for device `d`.
  unfoldable pub device_entry : Bool → ℕ → SlotTable Quality → Parser (SlotTable Quality)
  unfolding expect parse_string set_hw_device_id truncate_copy blanks
  device_entry is_input d t = do
    if ltb 1 d then or_fail "HW device list ," (expect comma) else ok tt
    v ← or_fail "HW device list id" parse_string
    if leb k_endpoint_id_len (length v) then fail "endpoint id too long" else ok tt
    blanks
    ok (set_hw_device_id t is_input d (truncate_copy [] k_endpoint_id_len (some v)))

  -- The loop, from device `k_hw_devices - room` on.
  unfoldable pub device_list : Bool → ℕ → SlotTable Quality → Parser (SlotTable Quality)
  unfolding device_entry expect
  device_list is_input zero t s =
      if at_end s
      then ok t s
      else run s do or_fail "HW device list ," (expect comma); fail "HW device list too long"
  device_list is_input (suc room) t s =
      let more =
        bind (device_entry is_input (k_hw_devices - suc room) t s) (device_list is_input room) in
      if at_end s then ok t s else more

  -- The assignment `place[d] = v`.
  unfoldable pub put_mode : SlotTable Quality → Bool → ℕ → ℕ → SlotTable Quality
  put_mode t is_input d v =
      let m = t.hw_modes in
      if is_input
      then record t { hw_modes = record m { capture = set m.capture d v } }
      else record t { hw_modes = record m { render = set m.render d v } }

  -- The body of the loop of "hwRenderModes" and "hwCaptureModes", for device `d`.
  unfoldable pub mode_entry : Bool → ℕ → SlotTable Quality → Parser (SlotTable Quality)
  unfolding expect parse_uint put_mode blanks
  mode_entry is_input d t = do
    if ltb 0 d then or_fail "HW mode list ," (expect comma) else ok tt
    v ← or_fail "HW mode must be 0..2" parse_uint
    if leb k_hw_mode_count v then fail "HW mode must be 0..2" else ok tt
    blanks
    ok (put_mode t is_input d v)

  -- The loop, from device `k_hw_devices - room` on.
  unfoldable pub mode_list : Bool → ℕ → SlotTable Quality → Parser (SlotTable Quality)
  unfolding mode_entry expect
  mode_list is_input zero t s =
      if at_end s
      then ok t s
      else run s do or_fail "HW mode list ," (expect comma); fail "HW mode list too long"
  mode_list is_input (suc room) t s =
      let more =
        bind (mode_entry is_input (k_hw_devices - suc room) t s) (mode_list is_input room) in
      if at_end s then ok t s else more

  -- One round of the loop over the fields of cable `c`.
  unfoldable pub cable_field : SlotTable Quality → ℕ → Parser (SlotTable Quality)
  unfolding parse_string parse_uint expect eq_text cable_setting set_cable_setting
  cable_field t c = do
    key ← or_fail "cables field" parse_string
    or_fail "cables field" (expect colon)
    v ← or_fail "cables field" parse_uint
    if ltb 255 v then fail "cables field" else ok tt
    let cs : CableSetting = cable_setting t (pos c)
    if eq_text key (codes "channels")
        then ok (set_cable_setting t (pos c) (record cs { channels = v }))
        else if eq_text key (codes "format")
        then ok (set_cable_setting t (pos c) (record cs { format = v }))
        else fail "cables unknown field"

  -- The body of the loop of "cables", from the comma on.
  unfoldable pub cable_entry : SlotTable Quality → ℕ → Parser (SlotTable Quality)
  unfolding cable_field expect
  cable_entry t c = do
    if ltb 0 c then or_fail "cables list ," (expect comma) else ok tt
    or_fail "cables {" (expect lbrace)
    t1 ← cable_field t c
    or_fail "cables ," (expect comma)
    t2 ← cable_field t1 c
    or_fail "cables }" (expect rbrace)
    ok t2

  -- The loop of "cables", from cable `k_virtual_slot_cables - rounds` on.
  unfoldable pub cable_list : ℕ → SlotTable Quality → Parser (SlotTable Quality)
  unfolding cable_entry skip_ws
  cable_list zero t s = ok t s
  cable_list (suc rounds) t s =
      let c = k_virtual_slot_cables - suc rounds in
      let u = if c == k_virtual_cables_first then skip_ws s else s in
      let more = bind (cable_entry t c u) (cable_list rounds) in
      if (c == k_virtual_cables_first) && starts rbracket u then ok t u else more
