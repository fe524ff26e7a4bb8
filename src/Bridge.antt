-- ===== src/Bridge.antt =====
-- common/WHABridgeShared.h: the shared region of a Bridge: its four client places, the delay of a
-- client, and the channels that the Slot Table routes through it. Samples are of an arbitrary type.
pub mod Delay
pub mod Places
pub mod Channels
mod Tests
use win_hook_audio.Prelude.{
  ℕ, zero, suc, ◌+◌, ◌-◌, ◌*◌, ◌/◌, ◌%◌, Bool, true, false, not, ◌&&◌, ◌||◌, Option, none, some,
  List, [], ◌∷◌, ltb, leb, ◌==◌, if◌then◌else◌, get_or, set,
}
use win_hook_audio.Prelude.Int.{ℤ, pos, negsuc, eq_ℤ, ltb_ℤ, ◌+ℤ◌}
use win_hook_audio.Prelude.Words.{u32, sub32}
use win_hook_audio.Table.Data.{Slot}
use win_hook_audio.Table.Names.Visible.{is_bridge_type, blank_slot}

abbrev pub k_bridge_clients : ℕ
k_bridge_clients = 4

abbrev pub k_bridge_channels : ℕ
k_bridge_channels = 64

abbrev pub k_bridge_ring : ℕ
k_bridge_ring = 6

-- Client place i: the process holding it, 0 = free; `client_blocks` is -1 for a client not running.
pub record BridgeShared (A : Type 0) : Type 0 where
  pub owner : List ℤ
  pub master_blocks : ℤ
  pub client_blocks : List ℤ
  pub client_late : List ℤ
  pub client_skipped : List ℤ
  pub from_client : List (List (List (List A)))
  pub to_clients : List (List (List A))

-- `BridgeDelayBlocks`: the blocks a client's output trails the Master, in 32-bit arithmetic.
unfoldable pub bridge_delay_blocks : ℕ → ℕ → ℕ
bridge_delay_blocks bridge_buffer asio_buffer =
    let extra =
      if asio_buffer == 0 then 1 else sub32 (u32 (bridge_buffer + asio_buffer)) 1 / asio_buffer in
    let delay = u32 (1 + extra) in
    if ltb delay 2 then 2 else if ltb (k_bridge_ring - 1) delay then k_bridge_ring - 1 else delay

-- The place is free.
unfoldable pub is_free : List ℤ → ℕ → Bool
is_free owner i = eq_ℤ (get_or owner i (pos 0)) (pos 0)

-- The loop of `CountBridgeClients` over the first `n` places.
unfoldable pub count_owned : List ℤ → ℕ → ℕ
count_owned owner zero = 0
count_owned owner (suc n) = count_owned owner n + (if is_free owner n then 0 else 1)

-- The loop of `TryAddBridgeClient` from place `i` on, with `rounds` places to look at.
unfoldable pub first_free : List ℤ → ℕ → ℕ → Option ℕ
first_free owner i zero = none
first_free owner i (suc rounds) =
    let later = first_free owner (i + 1) rounds in if is_free owner i then some i else later

module _ {A : Type 0} where
  unfoldable pub count_bridge_clients : BridgeShared A → ℕ
  unfolding count_owned
  count_bridge_clients b = count_owned b.owner k_bridge_clients

  -- The client's place, when there is one, and the region afterwards.
  unfoldable pub try_add_bridge_client : BridgeShared A → ℤ → Option ℕ × BridgeShared A
  unfolding first_free
  try_add_bridge_client b owner_pid = elim (first_free b.owner 0 k_bridge_clients) [
    | none ↦ (none, b)
    | some i ↦ (some i, record b { owner = set b.owner i owner_pid })
  ]

  unfoldable pub remove_bridge_client : BridgeShared A → ℤ → BridgeShared A
  remove_bridge_client b (negsuc i) = b
  remove_bridge_client b (pos i) = if leb k_bridge_clients i then b else record b {
    client_blocks = set b.client_blocks i (negsuc 0);
    owner = set b.owner i (pos 0);
  }

-- A slot's channel in the Bridge app; `none` is -1.
unfoldable pub bridge_channel_of : Slot → Option ℕ
unfolding is_bridge_type
bridge_channel_of s = elim s.src_channel [
  | pos c ↦ if is_bridge_type s.kind && ltb c k_bridge_channels then some c else none
  | negsuc c ↦ none
]

abbrev pub k_min_bridge_channels : ℕ
k_min_bridge_channels = 2

-- One round of the loop of `BridgeChannelCount`, for a slot of the type or not and its channel.
abbrev pub grow : Bool → Option ℕ → ℕ → ℕ
grow same none n = n
grow same (some c) n = if same && leb n c then c + 1 else n

unfoldable pub grow_count : ℕ → Slot → ℕ → ℕ
grow_count kind s n = grow (s.kind == kind) (bridge_channel_of s) n

-- `slots` are those in use, `slots[0 .. count)`.
unfoldable pub bridge_channel_count : List Slot → ℕ → ℕ → ℕ
unfolding grow_count
bridge_channel_count [] kind n = n
bridge_channel_count (s ∷ slots) kind n = bridge_channel_count slots kind (grow_count kind s n)

-- The slot is of the type and picks the channel.
abbrev pub is_channel : ℕ → Option ℕ → Bool
is_channel ch none = false
is_channel ch (some c) = c == ch

unfoldable pub picks : ℕ → ℕ → Slot → Bool
picks kind ch s = (s.kind == kind) && is_channel ch (bridge_channel_of s)

-- `FindBridgeSlot` from index `i` on, for a channel of at least 0; `none` is -1.
unfoldable pub find_bridge_slot : List Slot → ℕ → ℕ → ℕ → Option ℕ
unfolding picks
find_bridge_slot [] i kind ch = none
find_bridge_slot (s ∷ slots) i kind ch =
    let later = find_bridge_slot slots (i + 1) kind ch in if picks kind ch s then some i else later

-- `MixBridgeClients`, with the float operations and `tanh` as parameters; `clients` are pairs of a
-- ready flag and a sample.
module _ {A : Type 0} (zero_sample : A) (add : A → A → A) (tanh : A → A) where
  unfoldable pub mix_ready : List (Bool × A) → A × ℕ → A × ℕ
  mix_ready [] acc = acc
  mix_ready ((ready, x) ∷ clients) (sum, n) =
      mix_ready clients (if ready then (add sum x, n + 1) else (sum, n))

  unfoldable pub mix_bridge_clients : List (Bool × A) → A
  unfolding mix_ready
  mix_bridge_clients clients =
      let (sum, n) = mix_ready clients (zero_sample, 0) in if n == 0 then zero_sample else tanh sum
