-- ===== src/Table/Access.antt =====
-- common/WHASlotTable.h: reading and changing the Slot Table's HW device lists, device modes and
-- Virtual Cable settings. Code reads them through these functions and never by array index.
pub mod Laws
pub mod Clear
use win_hook_audio.Prelude.{
  ℕ, zero, suc, ◌+◌, ◌-◌, ◌*◌, ◌/◌, ◌%◌, Bool, true, false, not, ◌&&◌, ◌||◌, Option, none, some,
  List, [], ◌∷◌, ltb, leb, ◌==◌, if◌then◌else◌, get_or, set, replicate, tabulate,
}
use win_hook_audio.Prelude.Int.{ℤ, pos, negsuc}
use win_hook_audio.Table.Text.{Chars, truncate_copy}
use win_hook_audio.Table.Data.{
  Slot, SlotTable, HwModes, HwDeviceIds, CableSetting, default_cable, blank_ids, k_hw_devices,
  k_hw_more_devices, k_hw_extra_devices, hw_mode_exclusive, k_hw_mode_count, k_virtual_slot_cables,
  k_virtual_cables_first, k_endpoint_id_len,
}

-- The cable whose setting is read; out of range is cable 1.
unfoldable pub cable_place : ℤ → ℕ
cable_place (negsuc c) = 0
cable_place (pos c) = if leb k_virtual_slot_cables c then 0 else c

-- `HwDeviceMode(m, isInput, device)`; out of range or unknown is Exclusive.
unfoldable pub hw_mode_of : HwModes → Bool → ℤ → ℕ
hw_mode_of m is_input (negsuc d) = hw_mode_exclusive
hw_mode_of m is_input (pos d) =
    let v = get_or (if is_input then m.capture else m.render) d 0 in
    if leb k_hw_devices d
    then hw_mode_exclusive
    else if ltb v k_hw_mode_count
    then v
    else hw_mode_exclusive

-- The assignment of `SetHwDeviceMode`, in the modes of a table.
unfoldable pub set_mode : HwModes → Bool → ℤ → ℕ → HwModes
set_mode m is_input (negsuc d) mode = m
set_mode m is_input (pos d) mode =
    if leb k_hw_devices d
    then m
    else if is_input
    then record m { capture = set m.capture d mode }
    else record m { render = set m.render d mode }

-- A HW slot's device: its streamId; one out of range is device 0.
unfoldable pub hw_device_of : Slot → ℕ
hw_device_of s = elim s.stream_id [
  | pos d ↦ if ltb 0 d && ltb d k_hw_devices then d else 0
  | negsuc d ↦ 0
]

-- `HwDeviceId(ids, isInput, device)` of a snapshot
unfoldable pub snapshot_device_id : HwDeviceIds → Bool → ℤ → Option Chars
snapshot_device_id ids is_input (negsuc d) = none
snapshot_device_id ids is_input (pos d) =
    if leb k_hw_devices d
    then none
    else some (get_or (if is_input then ids.capture_id else ids.render_id) d [])

abbrev is_device0 : ℤ → Bool
is_device0 (pos d) = d == 0
is_device0 (negsuc d) = false

module _ {Quality : Type 0} where
  -- The setting at place `c`, in the array that holds it, and an assignment to it.
  unfoldable pub cable_at : SlotTable Quality → ℕ → CableSetting
  cable_at t c =
      if ltb c k_virtual_cables_first
      then get_or t.cables c default_cable
      else get_or t.cables_more (c - k_virtual_cables_first) default_cable

  unfoldable pub set_cable_at : SlotTable Quality → ℕ → CableSetting → SlotTable Quality
  set_cable_at t c v =
      if ltb c k_virtual_cables_first
      then record t { cables = set t.cables c v }
      else record t { cables_more = set t.cables_more (c - k_virtual_cables_first) v }

  -- `CableSetting(t, cable)`, and an assignment to the reference that it returns.
  unfoldable pub cable_setting : SlotTable Quality → ℤ → CableSetting
  cable_setting t cable = cable_at t (cable_place cable)

  unfoldable pub set_cable_setting : SlotTable Quality → ℤ → CableSetting → SlotTable Quality
  set_cable_setting t cable v = set_cable_at t (cable_place cable) v

  -- `HwDeviceId(t, isInput, device)`; `none` is its null pointer.
  unfoldable pub hw_device_id : SlotTable Quality → Bool → ℤ → Option Chars
  hw_device_id t is_input (negsuc d) = none
  hw_device_id t is_input (pos d) =
      let e = d - 1 - k_hw_more_devices in
      if d == 0
      then some (if is_input then t.general.hw_capture_id else t.general.hw_render_id)
      else if leb k_hw_devices d
      then none
      else if leb d k_hw_more_devices
      then some (get_or (if is_input then t.hw_more.capture_id else t.hw_more.render_id) (d - 1) [])
      else some (get_or (if is_input then t.hw_extra.capture_id else t.hw_extra.render_id) e [])

  unfoldable pub hw_device_mode : SlotTable Quality → Bool → ℤ → ℕ
  hw_device_mode t is_input device = hw_mode_of t.hw_modes is_input device

  unfoldable pub set_hw_device_mode : SlotTable Quality → Bool → ℤ → ℕ → SlotTable Quality
  unfolding set_mode
  set_hw_device_mode t is_input device mode = record t {
    hw_modes = set_mode t.hw_modes is_input device mode;
  }

  -- Device 0 is always in the list; the others when they have an ID.
  unfoldable pub hw_device_listed : SlotTable Quality → Bool → ℤ → Bool
  unfolding hw_device_id
  hw_device_listed t is_input device = elim (hw_device_id t is_input device) [
    | none ↦ false
    | some id ↦ is_device0 device || not (get_or id 0 0 == 0)
  ]

  unfoldable pub copy_hw_device_ids : SlotTable Quality → HwDeviceIds
  unfolding hw_device_id truncate_copy
  copy_hw_device_ids t =
      let ids = λ (is_input : Bool).
        tabulate k_hw_devices
          λ d. truncate_copy [] k_endpoint_id_len (hw_device_id t is_input (pos d)) in
      record { render_id = ids false; capture_id = ids true; modes = t.hw_modes }

  -- Every device but 0 out of the lists, with its mode.
  unfoldable pub clear_hw_more_devices : SlotTable Quality → SlotTable Quality
  unfolding blank_ids
  clear_hw_more_devices t =
      let modes = λ (m : List ℕ). get_or m 0 0 ∷ replicate (k_hw_devices - 1) hw_mode_exclusive in
      record t {
        hw_more = blank_ids k_hw_more_devices;
        hw_extra = blank_ids k_hw_extra_devices;
        hw_modes = record { render = modes t.hw_modes.render; capture = modes t.hw_modes.capture };
      }
