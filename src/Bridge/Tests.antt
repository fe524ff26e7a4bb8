-- ===== src/Bridge/Tests.antt =====
-- common/WHABridgeShared.h: the model on concrete regions.
use win_hook_audio.Prelude.{
  ℕ, ◌+◌, ◌*◌, ◌-◌, ◌≤◌, ◌<◌, ◌≡◌, ◌⊎◌, refl, arith, true, none, some, [], ◌∷◌,
}
use win_hook_audio.Prelude.Int.{ℤ, pos, negsuc}
use win_hook_audio.Table.Data.{Slot}
use win_hook_audio.Bridge.{
  BridgeShared, is_free, bridge_delay_blocks, try_add_bridge_client, remove_bridge_client,
  count_bridge_clients, bridge_channel_count, find_bridge_slot,
}
use win_hook_audio.Bridge.Delay.{bridge_delay_blocks_lem}
use win_hook_audio.Bridge.Places.{NoneFree, try_add_bridge_client_lem}
use win_hook_audio.Bridge.Channels.{bridge_channel_count_lem}

bridge_delay_blocks_example :
    let d = bridge_delay_blocks 256 128 in
    (2 ≤ d) × (d ≤ 5) × (d < 5 → 256 ≤ (d - 1) * 128) × (2 < d → (d - 2) * 128 < 256)
bridge_delay_blocks_example = bridge_delay_blocks_lem 256 128 (omega arith) (omega arith)

delay_of_largest : bridge_delay_blocks 1024 64 ≡ 5
unfolding bridge_delay_blocks
delay_of_largest = refl

abbrev shared : BridgeShared ℕ
shared = record {
  owner = pos 41 ∷ pos 0 ∷ pos 0 ∷ pos 7 ∷ [];
  master_blocks = pos 0;
  client_blocks = negsuc 0 ∷ negsuc 0 ∷ negsuc 0 ∷ negsuc 0 ∷ [];
  client_late = [];
  client_skipped = [];
  from_client = [];
  to_clients = [];
}

try_add_bridge_client_example :
    let (place, b') = try_add_bridge_client shared (pos 99) in
    ((place ≡ none) × (b' ≡ shared) × (count_bridge_clients shared ≡ 4))
    ⊎ ((i : ℕ) × (place ≡ some i)
        × (i < 4)
        × (is_free shared.owner i ≡ true)
        × NoneFree shared.owner 0 i
        × (count_bridge_clients b' ≡ count_bridge_clients shared + 1)
        × ((remove_bridge_client b' (pos i)).owner ≡ shared.owner))
try_add_bridge_client_example = try_add_bridge_client_lem shared (pos 99) refl refl

abbrev slot : ℕ → ℤ → Slot
slot kind c = record {
  kind = kind;
  src_channel = c;
  stream_id = pos 0;
  name = [];
  enabled = 1;
  loopback = 0;
}

bridge_channel_count_example :
    let n = bridge_channel_count (slot 4 (pos 6) ∷ slot 5 (pos 9) ∷ []) 4 2 in
    (2 ≤ n)
    × (n ≤ 64)
    × ((ch i : ℕ)
        → find_bridge_slot (slot 4 (pos 6) ∷ slot 5 (pos 9) ∷ []) 0 4 ch ≡ some i
        → ch < n)
bridge_channel_count_example = bridge_channel_count_lem (slot 4 (pos 6) ∷ slot 5 (pos 9) ∷ []) 4
