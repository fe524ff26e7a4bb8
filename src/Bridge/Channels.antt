-- ===== src/Bridge/Channels.antt =====
-- common/WHABridgeShared.h: the channels of a Bridge that the slots of the Slot Table pick.
use win_hook_audio.Prelude.{
  ℕ, ◌+◌, ◌≤◌, ◌<◌, ◌≡◌, inl, inr, refl, sym, ap, subst, ◌∙◌, Bool, true, false, ◌&&◌, Option, none,
  some, List, [], ◌∷◌, ltb, leb, ◌==◌, if◌then◌else◌, arith, Bool-cases, ==_iff,
}
use win_hook_audio.Prelude.Int.{ℤ, pos, negsuc}
use win_hook_audio.Table.Data.{Slot}
use win_hook_audio.Table.Names.Visible.{is_bridge_type}
use win_hook_audio.Bridge.{
  bridge_channel_of, bridge_channel_count, grow_count, picks, grow, is_channel, find_bridge_slot,
}

-- The tests of `picks` and `grow_count`, on the channel alone.
picked :
    (same : Bool) (ch : ℕ) (o : Option ℕ)
    → same && is_channel ch o ≡ true
    → (o ≡ some ch) × (same ≡ true)
picked true ch none h = ground arith
picked false ch none h = ground arith
picked true ch (some c) h = (ap some ((==_iff c ch).0 h), refl)
picked false ch (some c) h = ground arith

and_le : (test : Bool) (n c : ℕ) → test && leb n c ≡ true → n ≤ c + 1
and_le true n c h = ground arith
and_le false n c h = ground arith

grow_bounds :
    (same : Bool) (o : Option ℕ) (n : ℕ)
    → n ≤ 64
    → ((c : ℕ) → o ≡ some c → c < 64)
    → (n ≤ grow same o n) × (grow same o n ≤ 64)
grow_bounds same none n small h = (omega arith, small)
grow_bounds same (some c) n small h =
    let below = h c refl in
    elim (Bool-cases (same && leb n c)) [
      | inl e ↦ rw e (and_le same n c e, omega arith)
      | inr e ↦ rw e (omega arith, small)
    ]

grow-picked : (n ch : ℕ) → ch < grow true (some ch) n
grow-picked n ch = ground arith

picks-channel :
    (kind ch : ℕ) (s : Slot)
    → picks kind ch s ≡ true
    → (bridge_channel_of s ≡ some ch) × ((s.kind == kind) ≡ true)
unfolding picks
picks-channel kind ch s h = picked (s.kind == kind) ch (bridge_channel_of s) h

in_range : (test : Bool) (c d : ℕ) → (if test && ltb c 64 then some c else none) ≡ some d → d < 64
in_range true c d h = ground arith
in_range false c d h = ground arith

bridge_channel_of-lt : (s : Slot) (c : ℕ) → bridge_channel_of s ≡ some c → c < 64
unfolding bridge_channel_of
bridge_channel_of-lt s c h = channel s.src_channel h
  where
    channel :
        (z : ℤ)
        → (elim z [
          | pos k ↦ if is_bridge_type s.kind && ltb k 64 then some k else none
          | negsuc k ↦ none
        ])
          ≡ some c
        → c < 64
    channel (pos k) h = in_range (is_bridge_type s.kind) k c h
    channel (negsuc k) h = ground arith

grow_count_bounds :
    (kind : ℕ) (s : Slot) (n : ℕ) → n ≤ 64 → (n ≤ grow_count kind s n) × (grow_count kind s n ≤ 64)
unfolding grow_count
grow_count_bounds kind s n small =
    grow_bounds (s.kind == kind) (bridge_channel_of s) n small (bridge_channel_of-lt s)

grow_count-picks :
    (kind ch : ℕ) (s : Slot) (n : ℕ) → picks kind ch s ≡ true → ch < grow_count kind s n
unfolding grow_count
grow_count-picks kind ch s n h =
    let (e, same) = picks-channel kind ch s h in
    subst (λ o. ch < grow (s.kind == kind) o n) (sym e)
      (subst (λ b. ch < grow b (some ch) n) (sym same) (grow-picked n ch))

bridge_channel_count_bounds :
    (slots : List Slot) (kind n : ℕ)
    → n ≤ 64
    → (n ≤ bridge_channel_count slots kind n) × (bridge_channel_count slots kind n ≤ 64)
unfolding bridge_channel_count
bridge_channel_count_bounds [] kind n small = (omega arith, small)
bridge_channel_count_bounds (s ∷ slots) kind n small =
    let (lo, hi) = grow_count_bounds kind s n small in
    let (lo', hi') = bridge_channel_count_bounds slots kind (grow_count kind s n) hi in
    (omega arith, hi')

find_bridge_slot-lt :
    (slots : List Slot) (i kind ch n k : ℕ)
    → n ≤ 64
    → find_bridge_slot slots i kind ch ≡ some k
    → ch < bridge_channel_count slots kind n
unfolding bridge_channel_count find_bridge_slot
find_bridge_slot-lt [] i kind ch n k small h = ground arith
find_bridge_slot-lt (s ∷ slots) i kind ch n k small h =
    let (lo, hi) = grow_count_bounds kind s n small in
    let (lo', hi') = bridge_channel_count_bounds slots kind (grow_count kind s n) hi in
    elim (Bool-cases (picks kind ch s)) [
      | inl e ↦ let here = grow_count-picks kind ch s n e in omega arith
      | inr e ↦
          find_bridge_slot-lt slots (i + 1) kind ch (grow_count kind s n) k hi
            (ap (λ b. if b then some i else find_bridge_slot slots (i + 1) kind ch) (sym e) ∙ h)
    ]

-- A Bridge app gets 2 to 64 channels, and every channel on which FindBridgeSlot finds a slot is one
-- of them.
pub bridge_channel_count_lem :
    (slots : List Slot) (kind : ℕ)
    → let n = bridge_channel_count slots kind 2 in
      (2 ≤ n) × (n ≤ 64) × ((ch i : ℕ) → find_bridge_slot slots 0 kind ch ≡ some i → ch < n)
bridge_channel_count_lem slots kind =
    let (lo, hi) = bridge_channel_count_bounds slots kind 2 (omega arith) in
    (lo, hi, λ ch i h. find_bridge_slot-lt slots 0 kind ch 2 i (omega arith) h)
