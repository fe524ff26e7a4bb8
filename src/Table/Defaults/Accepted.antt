-- ===== src/Table/Defaults/Accepted.antt =====
-- common/WHASlotsFile.h: the table of FillDefaultSlotTable under ValidateSlots.
use win_hook_audio.Prelude.{
  ℕ, zero, suc, ◌+◌, ◌-◌, ◌≤◌, ◌<◌, ◌≡◌, refl, sym, inl, inr, ap, subst, Bool, true, false, none,
  some, List, [], ◌∷◌, ltb, ◌==◌, get_or, take_all, length, length-take, replicate, arith, if_cases,
}
use win_hook_audio.Prelude.Int.{pos}
use win_hook_audio.Table.Text.{Chars, codes, c_string, truncate_copy}
use win_hook_audio.Table.Text.Copy.{truncate_copy_lem}
use win_hook_audio.Table.Data.{Slot, NetworkStream, SlotTable, default_cable, blank_chars}
use win_hook_audio.Table.Access.{hw_device_id, cable_setting, cable_at, cable_place}
use win_hook_audio.Table.Names.Visible.{blank_slot}
use win_hook_audio.Table.Validate.{validate_slots}
use win_hook_audio.Table.Validate.Accept.{
  SlotOk, IdOk, BufferOk, CableOk, StreamsOk, ListsOk, validate_slots_lem,
}
use win_hook_audio.Table.Defaults.{
  default_general, name_slot, first_slots, keep_hardware, default_stream, fill_default_slot_table,
}

get_or-replicate : {A : Type 0} (n : ℕ) (a d : A) (i : ℕ) → i < n → get_or (replicate n a) i d ≡ a
get_or-replicate zero a d i h = absurd (omega arith)
get_or-replicate (suc n) a d zero h = refl
get_or-replicate (suc n) a d (suc i) h = get_or-replicate n a d i (omega arith)

name_fits :
    (dst src : Chars) (n : ℕ) → length (c_string (truncate_copy dst (suc n) (some src))) < suc n
name_fits dst src n =
    omega (arith, ap length (truncate_copy_lem dst n src).1, length-take n (c_string src))

device_id_fits : (dst src : Chars) → IdOk (some (truncate_copy dst 64 (some src)))
device_id_fits dst src =
    let whole =
      take_all 64 (truncate_copy dst 64 (some src))
        (omega (arith, (truncate_copy_lem dst 63 src).0)) in
    subst (λ (id : Chars). length (c_string id) < 64) (sym whole) (name_fits dst src 63)

-- What the creator of a table leaves in it: at least two places a direction, no loopback in them, the
-- IDs of the devices past the first ended in their arrays, and modes in range.
pub record Prepared {Quality : Type 0} (t : SlotTable Quality) : Type 0 where
  pub in_places : 2 ≤ length t.master_in
  pub out_places : 2 ≤ length t.master_out
  pub in_loopback : (i : ℕ) → i < 2 → (get_or t.master_in i blank_slot).loopback ≡ 0
  pub out_loopback : (i : ℕ) → i < 2 → (get_or t.master_out i blank_slot).loopback ≡ 0
  pub ids :
      (i : ℕ)
      → i < 127
      → IdOk (hw_device_id t false (pos (i + 1))) × IdOk (hw_device_id t true (pos (i + 1)))
  pub modes :
      (d : ℕ) → d < 128 → (get_or t.hw_modes.render d 0 < 3) × (get_or t.hw_modes.capture d 0 < 3)

name_slot-SlotOk :
    (s : Slot) (kind enabled : ℕ) (name : Chars)
    → kind ≤ 1
    → enabled ≤ 1
    → s.loopback ≡ 0
    → SlotOk (name_slot s kind enabled name)
unfolding name_slot
name_slot-SlotOk s kind enabled name hk he quiet = (
  (omega arith),
  (inl (λ e. omega arith), (he, (omega arith, (inl quiet, name_fits s.name name 31)))),
)

first_slots-SlotOk :
    (slots : List Slot) (name : Chars) (i : ℕ)
    → 2 ≤ length slots
    → ((j : ℕ) → j < 2 → (get_or slots j blank_slot).loopback ≡ 0)
    → i < 2
    → SlotOk (get_or (first_slots slots name) i blank_slot)
unfolding first_slots
first_slots-SlotOk [] name i enough quiet lt = absurd (omega arith)
first_slots-SlotOk (a ∷ []) name i enough quiet lt = absurd (omega arith)
first_slots-SlotOk (a ∷ b ∷ slots) name zero enough quiet lt =
    name_slot-SlotOk a 1 1 name (omega arith) (omega arith) (quiet 0 (omega arith))
first_slots-SlotOk (a ∷ b ∷ slots) name (suc zero) enough quiet lt =
    name_slot-SlotOk b 0 0 (codes "- empty -") (omega arith) (omega arith) (quiet 1 (omega arith))
first_slots-SlotOk (a ∷ b ∷ slots) name (suc (suc i)) enough quiet lt = absurd (omega arith)

module _ {Quality : Type 0} (below_min above_max : Quality → Bool) (quality : Quality)
    (blank : NetworkStream Quality) where
  stream-StreamsOk :
      below_min quality ≡ false
      → above_max quality ≡ false
      → StreamsOk below_min above_max (default_stream quality) (default_stream quality)
  unfolding default_stream blank_chars c_string
  stream-StreamsOk low high =
      let known : 0 ≤ 2 = omega arith in
      let two : (1 ≤ 2) × (2 ≤ 32) = (omega arith, omega arith) in
      let port : 0 < 6980 = omega arith in
      let ip : 0 < 16 = omega arith in
      (known, (known, (two, (two, ((low, high), ((low, high), (port, (port, (ip, ip)))))))))

  stereo : CableOk default_cable
  stereo = ground arith

  cables-CableOk :
      (t : SlotTable Quality) (c : ℕ)
      → c < 16
      → CableOk (cable_setting (fill_default_slot_table quality t) (pos c))
  unfolding fill_default_slot_table cable_setting cable_at cable_place
  cables-CableOk t c lt =
      let filled = fill_default_slot_table quality t in
      let place : cable_place (pos c) ≡ c = ground arith in
      let each_place = λ (i : ℕ) (h : i < 8).
        subst CableOk (sym (get_or-replicate 8 default_cable default_cable i h)) stereo in
      subst (λ (p : ℕ). CableOk (cable_at filled p)) (sym place)
        (if_cases CableOk (ltb c 8) (λ (e : ltb c 8 ≡ true). each_place c (ground arith))
          (λ (e : ltb c 8 ≡ false). each_place (c - 8) (ground arith)))

  more_id-kept :
      (t : SlotTable Quality) (is_input : Bool) (i : ℕ)
      → hw_device_id (fill_default_slot_table quality t) is_input (pos (i + 1))
        ≡ hw_device_id t is_input (pos (i + 1))
  unfolding fill_default_slot_table hw_device_id
  more_id-kept t is_input i = let past : (i + 1 == 0) ≡ false = ground arith in rw past refl

  lists-ListsOk :
      (t : SlotTable Quality)
      → below_min quality ≡ false
      → above_max quality ≡ false
      → Prepared t
      → ListsOk below_min above_max blank (fill_default_slot_table quality t)
  unfolding fill_default_slot_table keep_hardware default_general
  lists-ListsOk t low high v =
      let stream = default_stream quality in
      let ok = stream-StreamsOk low high in
      let buffer : BufferOk 128 = ground arith in
      (
        (λ i lt. (
          subst IdOk (sym (more_id-kept t false i)) (v.ids i lt).0,
          subst IdOk (sym (more_id-kept t true i)) (v.ids i lt).1,
        )),
        (
          v.modes,
          (
            cables-CableOk t,
            (
              (λ i lt. subst BufferOk (sym (get_or-replicate 4 128 0 i lt)) buffer),
              λ i lt.
                  subst (λ (s : NetworkStream Quality). StreamsOk below_min above_max s s)
                    (sym (get_or-replicate 8 stream blank i lt)) ok,
            ),
          ),
        ),
      )

  -- A first run's table passes ValidateSlots, where the creator has left valid device IDs and modes
  -- and no loopback in the first slots, and 0.4f is neither below 0.1f nor above 1.0f.
  pub validate_slots-fill_default_slot_table :
      (t : SlotTable Quality)
      → below_min quality ≡ false
      → above_max quality ≡ false
      → Prepared t
      → validate_slots below_min above_max blank (fill_default_slot_table quality t) ≡ none
  unfolding fill_default_slot_table keep_hardware default_general
  validate_slots-fill_default_slot_table t low high v =
      let filled = fill_default_slot_table quality t in
      let two : (1 ≤ 2) × (2 ≤ 512) = (omega arith, omega arith) in
      (validate_slots_lem below_min above_max blank filled).1 (
        two,
        (
          two,
          (
            (λ i lt. first_slots-SlotOk t.master_in (codes "Mic 1") i v.in_places v.in_loopback lt),
            (
              (λ i lt.
                  first_slots-SlotOk t.master_out (codes "Main L") i v.out_places v.out_loopback
                    lt),
              (
                ((inr (inl refl)), inr (inl refl)),
                (
                  refl,
                  (
                    inl refl,
                    (
                      name_fits [] (codes "WinHookAudio Virtual") 31,
                      (
                        device_id_fits default_general.hw_render_id t.general.hw_render_id,
                        (
                          device_id_fits default_general.hw_capture_id t.general.hw_capture_id,
                          lists-ListsOk t low high v,
                        ),
                      ),
                    ),
                  ),
                ),
              ),
            ),
          ),
        ),
      )
