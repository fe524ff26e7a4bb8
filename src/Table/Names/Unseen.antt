-- ===== src/Table/Names/Unseen.antt =====
-- common/WHASlotTable.h: the sources that `DawVisibleChanged` does not compare, although the automatic
-- names show them.
use win_hook_audio.Prelude.{
  ℕ, zero, suc, ◌<◌, ◌≡◌, ◌⊎◌, inl, inr, refl, subst, ◌-◌, ◌≢◌, [], Bool, true, false, not, ◌&&◌,
  ◌||◌, List, leb, ◌==◌, if◌then◌else◌, get_or, set, length, drop, min, arith, Bool-cases,
  get_or-set_self, get_or-set_ne, ==_iff,
}
use win_hook_audio.Prelude.Int.{ℤ, pos, negsuc, eq_ℤ}
use win_hook_audio.Table.Text.{Chars, strncmp_eq}
use win_hook_audio.Table.Data.{Slot, SlotTable, HwModes, slot_network, k_hw_devices}
use win_hook_audio.Table.Access.{hw_device_of, hw_device_id}
use win_hook_audio.Table.Names.Visible.{
  slot_differs, slots_differ, any_below, daw_visible_changed, blank_slot, is_bridge_type,
  modes_differ, id_differs,
}

not_both : (b : Bool) → b ≡ true → b ≡ false → ⊥
not_both b h k = ground arith

==_self : (n : ℕ) → (n == n) ≡ true
==_self n = ground arith

eq_ℤ_self : (a : ℤ) → eq_ℤ a a ≡ true
eq_ℤ_self (pos n) = ==_self n
eq_ℤ_self (negsuc n) = ==_self n

strncmp_eq_self : (n : ℕ) (x : Chars) → strncmp_eq n x x ≡ true
unfolding strncmp_eq
strncmp_eq_self zero x = refl
strncmp_eq_self (suc n) x =
    rw (==_self (get_or x 0 0), strncmp_eq_self n (drop 1 x))
      (elim (Bool-cases (get_or x 0 0 == 0)) [ inl e ↦ rw e refl | inr e ↦ rw e refl ])

any_below-none :
    (n : ℕ) (test : ℕ → Bool) → ((i : ℕ) → i < n → test i ≡ false) → any_below n test ≡ false
unfolding any_below
any_below-none zero test h = refl
any_below-none (suc n) test h =
    rw (any_below-none n test (λ i below. h i (omega arith)), h n (omega arith)) refl

or_none : {a b : Bool} → a ≡ false → b ≡ false → (a || b) ≡ false
or_none ha hb = rw (ha, hb) refl

same_number : (n : ℕ) → not (n == n) ≡ false
same_number n = rw (==_self n) refl

-- The slot with another stream and channel.
abbrev pub reroute : Slot → ℤ → ℤ → Slot
reroute s c n = record s { src_channel = c; stream_id = n }

and_none : {a b : Bool} → (a ≡ false) ⊎ (b ≡ false) → a && b ≡ false
and_none (inl h) = rw h refl
and_none {a} (inr h) = rw h (elim (Bool-cases a) [ inl e ↦ rw e refl | inr e ↦ rw e refl ])

not-true : {a : Bool} → a ≡ true → not a ≡ false
not-true h = rw h refl

slot_differs_self : (s : Slot) → slot_differs s s ≡ false
unfolding slot_differs
slot_differs_self s =
    or_none
      (or_none
        (or_none (or_none (same_number s.kind) (same_number s.enabled))
          (not-true (strncmp_eq_self 32 s.name)))
        (and_none (inr (same_number (hw_device_of s)))))
      (and_none (inr (not-true (eq_ℤ_self s.src_channel))))

slot_differs-reroute :
    (s : Slot) (c n : ℤ) → s.kind ≡ slot_network → slot_differs s (reroute s c n) ≡ false
unfolding slot_differs is_bridge_type
slot_differs-reroute s c n h =
    let not_hw : (s.kind == 1) ≡ false = ground arith in
    let not_app : (s.kind == 4) || (s.kind == 5) || (s.kind == 6) || (s.kind == 7) || (s.kind == 2)
        ≡ false =
      ground arith in
    or_none
      (or_none
        (or_none (or_none (same_number s.kind) (same_number s.enabled))
          (not-true (strncmp_eq_self 32 s.name)))
        (and_none (inl not_hw)))
      (and_none (inl not_app))

id_differs_self :
    {Quality : Type 0} (t : SlotTable Quality) (b : Bool) (d : ℕ)
    → d < k_hw_devices
    → id_differs (hw_device_id t b (pos d)) (hw_device_id t b (pos d)) ≡ false
unfolding id_differs hw_device_id
id_differs_self t b d h = elim (Bool-cases (d == 0)) [
  | inl e ↦ rw e (
      not-true (strncmp_eq_self 64 (if b then t.general.hw_capture_id else t.general.hw_render_id)))
  | inr e ↦
      let near : leb k_hw_devices d ≡ false = ground arith in
      rw (e, near)
        (elim (Bool-cases (leb d 3)) [
          | inl f ↦ rw f (
              not-true (
                strncmp_eq_self 64
                  (get_or (if b then t.hw_more.capture_id else t.hw_more.render_id) (d - 1) [])))
          | inr f ↦ rw f (
              not-true (
                strncmp_eq_self 64 (
                  get_or (if b then t.hw_extra.capture_id else t.hw_extra.render_id) (d - 1 - 3)
                    [])))
        ])
]

modes_differ_self : (m : HwModes) → modes_differ m m ≡ false
unfolding modes_differ
modes_differ_self m =
    any_below-none 128 _
      λ d h. or_none (same_number (get_or m.render d 0)) (same_number (get_or m.capture d 0))

slots_differ_self : (n : ℕ) (xs : List Slot) → slots_differ n xs xs ≡ false
unfolding slots_differ
slots_differ_self n xs =
    any_below-none (min n 512) _ λ i h. slot_differs_self (get_or xs i blank_slot)

slots_differ-set :
    (n : ℕ) (xs : List Slot) (i : ℕ) (v : Slot)
    → slot_differs (get_or xs i blank_slot) v ≡ false
    → i < length xs
    → slots_differ n xs (set xs i v) ≡ false
unfolding slots_differ
slots_differ-set n xs i v h room = any_below-none (min n 512) _ λ j below.
    elim (Bool-cases (i == j)) [
      | inl e ↦
          subst
            (λ k. slot_differs (get_or xs k blank_slot) (get_or (set xs i v) k blank_slot) ≡ false)
            ((==_iff i j).0 e) (rw (get_or-set_self xs i v blank_slot room) h)
      | inr e ↦
          let other : i ≢ j = λ p. not_both (i == j) ((==_iff i j).1 p) e in
          rw (get_or-set_ne xs v blank_slot other) (slot_differs_self (get_or xs j blank_slot))
    ]

-- A NETWORK slot in use can move to any other stream and channel, which its automatic name shows, and
-- DawVisibleChanged is false.
pub rerouted_network-unseen :
    {Quality : Type 0} (t : SlotTable Quality) (i : ℕ) (c n : ℤ)
    → i < length t.master_in
    → (get_or t.master_in i blank_slot).kind ≡ slot_network
    → daw_visible_changed t
        (record t { master_in = set t.master_in i (reroute (get_or t.master_in i blank_slot) c n) })
      ≡ false
unfolding daw_visible_changed
rerouted_network-unseen t i c n room wired =
    or_none
      (or_none
        (or_none
          (or_none
            (or_none
              (or_none
                (or_none (or_none (same_number t.master_in_count) (same_number t.master_out_count))
                  (same_number t.general.sample_rate))
                (same_number t.general.asio_buffer))
              (same_number t.general.hw_buffer))
            (any_below-none 128 _
              λ d h. or_none (id_differs_self t false d h) (id_differs_self t true d h)))
          (modes_differ_self t.hw_modes))
        (slots_differ-set t.master_in_count t.master_in i _
          (slot_differs-reroute (get_or t.master_in i blank_slot) c n wired) room))
      (slots_differ_self t.master_out_count t.master_out)
