-- ===== src/Table/Names.antt =====
-- common/WHASlotTable.h: the channel names that the DAW sees, and the test for a change that it sees.
pub mod Visible
pub mod Stable
pub mod Unseen
use win_hook_audio.Prelude.{
  ℕ, zero, suc, ◌+◌, ◌-◌, ◌*◌, ◌/◌, ◌%◌, Bool, true, false, not, ◌&&◌, ◌||◌, Option, none, some,
  List, [], ◌∷◌, ◌++◌, ltb, leb, ◌==◌, if◌then◌else◌, get_or, take,
}
use win_hook_audio.Prelude.Int.{ℤ, pos, negsuc, ◌+ℤ◌, eq_ℤ}
use win_hook_audio.Table.Text.{Chars, codes, c_string, strncmp_eq, truncate_copy}
use win_hook_audio.Table.Data.{
  Slot, slot_none, slot_hw, slot_virtual, slot_network, slot_bridge1, k_name_len,
  k_virtual_slot_cables,
}
use win_hook_audio.Table.Access.{hw_device_of}

-- The digits of `%d` before those of `rest`; an `int` has at most 10.
unfoldable pub digits : ℕ → ℕ → Chars → Chars
digits zero n rest = rest
digits (suc fuel) n rest =
    let here = (48 + n % 10) ∷ rest in
    let more = digits fuel (n / 10) here in if ltb n 10 then here else more

-- What `snprintf` writes for `%d`.
unfoldable pub decimal : ℤ → Chars
unfolding digits
decimal (pos n) = digits 10 n []
decimal (negsuc n) = 45 ∷ digits 10 (suc n) []

-- `snprintf(out, kNameLen, ...)` of the formatted text.
unfoldable pub print_name : Chars → Chars
unfolding truncate_copy
print_name text = truncate_copy [] k_name_len (some text)

abbrev pub k_virtual_cable_channels : ℕ
k_virtual_cable_channels = 8

-- The cable and the channel that a srcChannel picks (`VirtualCableOf` and `VirtualChannelOf`).
unfoldable pub virtual_cable_of : ℤ → ℕ
virtual_cable_of (pos c) = (c / k_virtual_cable_channels) % k_virtual_slot_cables
virtual_cable_of (negsuc c) = 0

unfoldable pub virtual_channel_of : ℤ → ℕ
virtual_channel_of (pos c) = c % k_virtual_cable_channels
virtual_channel_of (negsuc c) = 0

-- A name nobody chose: what an empty slot shows.
unfoldable pub is_placeholder_name : Chars → Bool
unfolding strncmp_eq
is_placeholder_name name = (get_or name 0 0 == 0) || strncmp_eq k_name_len name (codes "- empty -")

-- The characters that `ShortDeviceName` keeps: at most `room`, up to the end or " (".
unfoldable pub short_chars : ℕ → Chars → Chars
short_chars zero name = []
short_chars (suc room) [] = []
short_chars (suc room) (c ∷ name) =
    let rest = c ∷ short_chars room name in
    if (c == 0) || ((c == 32) && (get_or name 0 0 == 40)) then [] else rest

-- The string in `out` after `ShortDeviceName(friendly, out, outLen)`, for outLen > 0.
unfoldable pub short_device_name : Option Chars → ℕ → Chars
unfolding short_chars
short_device_name none out_len = []
short_device_name (some friendly) out_len =
    take (out_len - 1) (short_chars (k_name_len - 3) friendly)

-- Side letters: 'L' and 'R'.
side : Bool → Chars
side true = codes " R"
side false = codes " L"

-- The `device` that the HW case prints: the friendly name, or one made from the number.
unfoldable pub device_label : ℕ → Bool → Option Chars → Chars
unfolding short_device_name decimal
device_label d is_input friendly =
    let known = short_device_name friendly k_name_len in
    let direction = codes (if is_input then "HW In" else "HW Out") in
    let numbered = if d == 0 then direction else direction ++ 32 ∷ decimal (pos (d + 1)) in
    elim known [ [] ↦ numbered | c ∷ cs ↦ c ∷ cs ]

-- The `switch` of `AutoSlotName`, for a slot's type, srcChannel and streamId and its HW device.
unfoldable pub source_name : ℕ → ℤ → ℤ → ℕ → Bool → (ℕ → Option Chars) → Chars
unfolding print_name decimal device_label side virtual_cable_of virtual_channel_of ◌+ℤ◌
source_name kind src stream_id d is_input friendly =
    let channel = decimal (src +ℤ pos 1) in
    let device = device_label d is_input (friendly d) in
    let c = virtual_channel_of src in
    let cable = codes "Virtual " ++ decimal (pos (virtual_cable_of src + 1)) in
    let stream = codes (if is_input then "Rx" else "Tx") ++ decimal (stream_id +ℤ pos 1) in
    let bridge = codes "Bridge" ++ decimal (pos (kind - slot_bridge1 + 1)) in
    if kind == slot_none
    then print_name (codes "- empty -")
    else if kind == slot_hw
    then (if eq_ℤ src (pos 0) || eq_ℤ src (pos 1)
        then print_name (device ++ side (eq_ℤ src (pos 1)))
        else print_name (device ++ codes " Ch" ++ channel))
    else if kind == slot_virtual
    then (if ltb c 2
        then print_name (cable ++ side (not (c == 0)))
        else print_name (cable ++ codes " Ch" ++ decimal (pos (c + 1))))
    else if kind == slot_network
    then print_name (stream ++ codes " Ch" ++ channel)
    else print_name (bridge ++ codes " Ch" ++ channel)

-- `AutoSlotName`; `friendly` gives the name of each HW device, when it is known.
unfoldable pub auto_slot_name : Slot → Bool → (ℕ → Option Chars) → Chars
unfolding source_name hw_device_of
auto_slot_name s is_input friendly =
    source_name s.kind s.src_channel s.stream_id (hw_device_of s) is_input friendly

-- `DawChannelName`: the slot's own name or, when nobody named it, its automatic name.
unfoldable pub daw_channel_name : Slot → Bool → (ℕ → Option Chars) → Chars
unfolding truncate_copy is_placeholder_name auto_slot_name
daw_channel_name s is_input friendly =
    if not (s.kind == slot_none) && not (is_placeholder_name s.name)
    then truncate_copy [] k_name_len (some s.name)
    else auto_slot_name s is_input friendly
