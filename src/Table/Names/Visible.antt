-- ===== src/Table/Names/Visible.antt =====
-- common/WHASlotTable.h: `DawVisibleChanged`, which decides whether the DAW is asked for a reset.
use win_hook_audio.Prelude.{
  ℕ, zero, suc, Bool, true, false, not, ◌&&◌, ◌||◌, Option, none, some, List, ◌==◌, get_or, min,
}
use win_hook_audio.Prelude.Int.{pos, eq_ℤ}
use win_hook_audio.Table.Text.{Chars, strncmp_eq}
use win_hook_audio.Table.Data.{
  Slot, SlotTable, HwModes, slot_none, slot_hw, slot_virtual, slot_bridge1, slot_bridge2,
  slot_bridge3, slot_bridge4, k_name_len, k_endpoint_id_len, k_hw_devices, k_max, blank_chars,
}
use win_hook_audio.Table.Access.{hw_device_of, hw_device_id}

unfoldable pub is_bridge_type : ℕ → Bool
is_bridge_type kind =
    (kind == slot_bridge1)
    || (kind == slot_bridge2)
    || (kind == slot_bridge3)
    || (kind == slot_bridge4)

-- `WHASlot{}`
unfoldable pub blank_slot : Slot
unfolding blank_chars
blank_slot = record {
  kind = slot_none;
  src_channel = pos 0;
  stream_id = pos 0;
  name = blank_chars k_name_len;
  enabled = 0;
  loopback = 0;
}

unfoldable pub slot_differs : Slot → Slot → Bool
slot_differs x y =
    not (x.kind == y.kind)
    || not (x.enabled == y.enabled)
    || not (strncmp_eq k_name_len x.name y.name)
    || ((x.kind == slot_hw) && not (hw_device_of x == hw_device_of y))
    || ((is_bridge_type x.kind || (x.kind == slot_virtual))
        && not (eq_ℤ x.src_channel y.src_channel))

-- A loop over the indices below `n` that returns at the first one where the test holds.
unfoldable pub any_below : ℕ → (ℕ → Bool) → Bool
any_below zero test = false
any_below (suc n) test = any_below n test || test n

-- `memcmp(&a.hwModes, &b.hwModes, sizeof(WHAHwModes)) != 0`
unfoldable pub modes_differ : HwModes → HwModes → Bool
unfolding any_below
modes_differ a b = any_below k_hw_devices λ d.
    not (get_or a.render d 0 == get_or b.render d 0)
    || not (get_or a.capture d 0 == get_or b.capture d 0)

-- `strncmp` of two IDs; no device of the loop has a null one.
unfoldable pub id_differs : Option Chars → Option Chars → Bool
unfolding strncmp_eq
id_differs (some x) (some y) = not (strncmp_eq k_endpoint_id_len x y)
id_differs (some x) none = true
id_differs none y = true

unfoldable pub slots_differ : ℕ → List Slot → List Slot → Bool
unfolding any_below slot_differs blank_slot
slots_differ count a b =
    any_below (min count k_max) λ i. slot_differs (get_or a i blank_slot) (get_or b i blank_slot)

module _ {Quality : Type 0} where
  unfoldable pub daw_visible_changed : SlotTable Quality → SlotTable Quality → Bool
  unfolding any_below id_differs hw_device_id modes_differ slots_differ
  daw_visible_changed a b =
      not (a.master_in_count == b.master_in_count)
      || not (a.master_out_count == b.master_out_count)
      || not (a.general.sample_rate == b.general.sample_rate)
      || not (a.general.asio_buffer == b.general.asio_buffer)
      || not (a.general.hw_buffer == b.general.hw_buffer)
      || any_below k_hw_devices (λ d.
        id_differs (hw_device_id a false (pos d)) (hw_device_id b false (pos d))
        || id_differs (hw_device_id a true (pos d)) (hw_device_id b true (pos d)))
      || modes_differ a.hw_modes b.hw_modes
      || slots_differ a.master_in_count a.master_in b.master_in
      || slots_differ a.master_out_count a.master_out b.master_out
