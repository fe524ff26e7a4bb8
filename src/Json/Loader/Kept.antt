-- ===== src/Json/Loader/Kept.antt =====
-- common/WHASlotsJson.h: a Slot Table as the program keeps it.
use win_hook_audio.Prelude.{
  ℕ, ◌-◌, ◌^◌, ◌≤◌, ◌<◌, ◌≡◌, Bool, Option, none, List, drop, get_or, length, replicate,
}
use win_hook_audio.Table.Text.{Chars}
use win_hook_audio.Table.Data.{Slot, NetworkStream, SlotTable}
use win_hook_audio.Table.Names.Visible.{blank_slot}
use win_hook_audio.Table.Defaults.{default_stream}
use win_hook_audio.Table.Validate.{validate_slots}
use win_hook_audio.Json.Slots.RoundTrip.{IsSlot}
use win_hook_audio.Json.Streams.RoundTrip.{IsStream}
use win_hook_audio.Json.General.Settings.{IsSettings}

-- An array of slots as the program keeps it, with `count` slots in use.
pub record IsSlotArray (count : ℕ) (slots : List Slot) : Type 0 where
  pub count_range : count ≤ 512
  pub slots_length : length slots ≡ 512
  pub are_slots : (i : ℕ) → IsSlot (get_or slots i blank_slot)
  pub unused : drop count slots ≡ replicate (512 - count) blank_slot

module _ {Quality : Type 0} (quality_text : Quality → Chars) (below_min above_max : Quality → Bool)
    (stof : Chars → Option Quality) (default_quality : Quality) where
  -- The streams of a direction as the program keeps them.
  pub record IsStreamArray (streams : List (NetworkStream Quality)) : Type 0 where
    pub streams_length : length streams ≡ 8
    pub are_streams :
        (i : ℕ) → IsStream quality_text stof (get_or streams i (default_stream default_quality))

  -- A Slot Table as the program keeps it, which ValidateSlots accepts.
  pub record IsTable (t : SlotTable Quality) : Type 0 where
    pub version_range : t.version < 2 ^ 32
    pub in_slots : IsSlotArray t.master_in_count t.master_in
    pub out_slots : IsSlotArray t.master_out_count t.master_out
    pub settings : IsSettings t
    pub tx_streams : IsStreamArray t.net_tx
    pub rx_streams : IsStreamArray t.net_rx
    pub valid : validate_slots below_min above_max (default_stream default_quality) t ≡ none
