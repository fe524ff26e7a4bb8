-- ===== src/Json/General/Members.antt =====
-- common/WHASlotsJson.h: the arrays of "general" that a Slot Table is written with, read into a new
-- Slot Table.
use win_hook_audio.Json.General.Shapes.{
  take-append, drop-append_at, entries-cong, ids_place, beyond_more, within_more, id_or, same_text,
  unlisted_empty,
}
use win_hook_audio.Prelude.{
  ℕ, zero, suc, ◌+◌, ◌-◌, ◌≤◌, ◌<◌, ◌≡◌, refl, sym, ap, ap₂, ◌∙◌, inl, inr, Bool, true, false, some,
  List, [], ◌∷◌, ◌++◌, ◌==◌, leb, ltb, ltb→lt, ltb_false→le, drop, get_or, length, length-append,
  length-replicate, replicate, arith, if◌then◌else◌, Bool-cases,
}
use win_hook_audio.Prelude.Int.{pos}
use win_hook_audio.Table.Text.{Chars, truncate_copy}
use win_hook_audio.Table.Data.{SlotTable, blank_chars}
use win_hook_audio.Table.Access.{hw_device_id, hw_device_listed}
use win_hook_audio.Json.{rbracket, escape_json_string}
use win_hook_audio.Json.Arrays.{drop-const, set_from-get_or, set_from-cong}
use win_hook_audio.Json.Objects.{ok}
use win_hook_audio.Json.Writer.{listed_count, id_text, more_to_json, modes_to_json}
use win_hook_audio.Json.General.Lists.{device_list, mode_list}
use win_hook_audio.Json.General.Values.{IsPadded, write_string}
use win_hook_audio.Json.General.Stored.{device_list-entries, mode_list-entries}
use win_hook_audio.Json.General.Places.{with_modes, two_lists, with_ids, put_modes, put_ids}

module _ {Quality : Type 0} (t : SlotTable Quality) (b : Bool) where
  -- The modes of a direction, and the IDs of its devices 1 and up in their two lists.
  abbrev pub modes_of : List ℕ
  modes_of = if b then t.hw_modes.capture else t.hw_modes.render

  abbrev pub more_of : List Chars
  more_of = if b then t.hw_more.capture_id else t.hw_more.render_id

  abbrev pub extra_of : List Chars
  extra_of = if b then t.hw_extra.capture_id else t.hw_extra.render_id

  -- The ID of a device, if there is one.
  unfoldable pub device_id : ℕ → Chars
  unfolding hw_device_id
  device_id d = id_or (hw_device_id t b (pos d))

  -- A direction's lists as the program keeps them: in their lengths, with IDs that end in their
  -- arrays with zeros after them, and modes in range, Exclusive past the last listed device.
  pub record IsDirection : Type 0 where
    pub more_length : length more_of ≡ 3
    pub extra_length : length extra_of ≡ 124
    pub modes_length : length modes_of ≡ 128
    pub ids_padded : (d : ℕ) → d < 128 → IsPadded 64 (device_id d)
    pub modes_range : (d : ℕ) → get_or modes_of d 0 < 3
    pub modes_unlisted :
        (d : ℕ)
        → d < 128
        → ((k : ℕ) → d ≤ k → k < 128 → hw_device_listed t b (pos k) ≡ false)
        → get_or modes_of d 0 ≡ 0

  listed_count-bounds : (n : ℕ) → (1 ≤ listed_count t b n) × (listed_count t b n ≤ n + 1)
  unfolding listed_count
  listed_count-bounds zero = (omega arith, omega arith)
  listed_count-bounds (suc n) = elim (Bool-cases (hw_device_listed t b (pos (suc n)))) [
    | inl e ↦ rw e (omega arith, omega arith)
    | inr e ↦ let ih = listed_count-bounds n in rw e (ih.0, omega arith)
  ]

  listed_count-step :
      (n : ℕ)
      → (hw_device_listed t b (pos (suc n)) ≡ true → listed_count t b (suc n) ≡ suc n + 1)
        × (hw_device_listed t b (pos (suc n)) ≡ false
            → listed_count t b (suc n) ≡ listed_count t b n)
  unfolding listed_count
  listed_count-step n = ((λ e. rw e refl), λ e. rw e refl)

  -- No device from the count on is listed.
  listed_count-last :
      (n k : ℕ) → listed_count t b n ≤ k → k ≤ n → hw_device_listed t b (pos k) ≡ false
  listed_count-last zero k h le = let one = (listed_count-bounds 0).0 in absurd (omega arith)
  listed_count-last (suc n) k h le = elim (Bool-cases (hw_device_listed t b (pos (suc n)))) [
    | inl e ↦ let last = (listed_count-step n).0 e in absurd (omega arith)
    | inr e ↦ elim (Bool-cases (ltb n k)) [
      | inl at ↦
          let above = ltb→lt n k at in ap (λ j. hw_device_listed t b (pos j)) (omega arith) ∙ e
      | inr at ↦
          let last = (listed_count-step n).1 e in
          let below = ltb_false→le n k at in listed_count-last n k (omega arith) (omega arith)
    ]
  ]

  modes_past :
      IsDirection
      → drop (listed_count t b 127) modes_of ≡ drop (listed_count t b 127) (replicate 128 0)
  modes_past h =
      let n = listed_count t b 127 in
      drop-const n modes_of 0 0 (λ i le lt.
        h.modes_unlisted i (omega (arith, h.modes_length))
          (λ k up k128. listed_count-last 127 k (omega arith) (omega arith)))
      ∙ ap (λ (m : ℕ). drop n (replicate {A = ℕ} m 0)) h.modes_length

  pub device_id-place :
      (i : ℕ) → i < 127 → length more_of ≡ 3 → device_id (suc i) ≡ get_or (more_of ++ extra_of) i []
  unfolding device_id hw_device_id
  device_id-place i h l =
      let nonzero : (suc i == 0) ≡ false = ground arith in
      let inside : leb 128 (suc i) ≡ false = ground arith in
      let place : suc i - 1 ≡ i = omega arith in
      let both = ids_place more_of extra_of i l in
      elim (Bool-cases (leb (suc i) 3)) [
        | inl e ↦
            rw (nonzero, inside, e)
              (ap (λ k. get_or more_of k []) place ∙ sym (both.0 (within_more i e)))
        | inr e ↦
            rw (nonzero, inside, e)
              (ap (λ k. get_or extra_of (k - 3) []) place ∙ sym (both.1 (beyond_more i e)))
      ]

  blank_unlisted :
      (i : ℕ)
      → i < 127
      → hw_device_listed t b (pos (suc i)) ≡ false
      → IsPadded 64 (device_id (suc i))
      → device_id (suc i) ≡ blank_chars 64
  unfolding hw_device_listed device_id blank_chars truncate_copy
  blank_unlisted i h e p =
      let nonzero : (suc i == 0) ≡ false = ground arith in
      let empty = unlisted_empty (suc i == 0) (hw_device_id t b (pos (suc i))) nonzero e in
      sym p.padded ∙ ap (λ v. truncate_copy [] 64 (some v)) empty

  ids_past :
      IsDirection
      → drop (listed_count t b 127 - 1) (more_of ++ extra_of)
        ≡ drop (listed_count t b 127 - 1) (replicate 127 (blank_chars 64))
  ids_past h =
      let n = listed_count t b 127 - 1 in
      let bounds = listed_count-bounds 127 in
      let long = length-append more_of extra_of in
      let whole : length (more_of ++ extra_of) ≡ 127 =
        omega (arith, long, h.more_length, h.extra_length) in
      drop-const n (more_of ++ extra_of) (blank_chars 64) [] (λ i le lt.
        sym (device_id-place i (omega (arith, whole)) h.more_length)
        ∙ blank_unlisted i (omega (arith, whole))
            (listed_count-last 127 (suc i) (omega arith) (omega (arith, whole)))
            (h.ids_padded (suc i) (omega (arith, whole))))
      ∙ ap (λ m. drop n (replicate m (blank_chars 64))) whole

  -- The modes, read into a table without any.
  pub mode_list-modes :
      (u : SlotTable Quality) (rest : Chars)
      → IsDirection
      → mode_list b 128 (with_modes u b (replicate 128 0)) (modes_to_json t b (rbracket ∷ rest))
        ≡ ok (with_modes u b modes_of) (rbracket ∷ rest)
  unfolding modes_to_json
  mode_list-modes u rest h =
      let n = listed_count t b 127 in
      let bounds = listed_count-bounds 127 in
      mode_list-entries b (λ d. get_or modes_of d 0) n (with_modes u b (replicate 128 0)) rest
        h.modes_range (omega arith)
      ∙ ap (λ v. ok v (rbracket ∷ rest))
          (put_modes b (λ d. get_or modes_of d 0) n 0 u (replicate 128 0)
            ∙ ap (with_modes u b) (
                set_from-get_or modes_of (replicate 128 0) 0 n
                  (length-replicate {A = ℕ} 128 0 ∙ sym h.modes_length) (modes_past h)
                  (omega (arith, h.modes_length))))

  -- The IDs of the devices, read into a table without any.
  pub device_list-ids :
      (u : SlotTable Quality) (rest : Chars)
      → IsDirection
      → device_list b 127
          (with_ids u b (replicate 127 (blank_chars 64)))
          (more_to_json t b (rbracket ∷ rest))
        ≡ ok (two_lists u b more_of extra_of) (rbracket ∷ rest)
  unfolding more_to_json device_id
  device_list-ids u rest h =
      let n = listed_count t b 127 - 1 in
      let bounds = listed_count-bounds 127 in
      let blank = replicate 127 (blank_chars 64) in
      let all = more_of ++ extra_of in
      let long = length-append more_of extra_of in
      ap (device_list b 127 (with_ids u b blank)) (
        entries-cong (λ d s. escape_json_string (id_text (hw_device_id t b (pos d))) ++ s)
          (λ d. write_string (device_id d)) n 1 (rbracket ∷ rest)
          (λ d s. ap (λ v. escape_json_string v ++ s) (same_text (hw_device_id t b (pos d)))))
      ∙ device_list-entries b device_id n (with_ids u b blank) rest
          (λ d lt. h.ids_padded d (omega arith)) (omega arith)
      ∙ ap (λ v. ok v (rbracket ∷ rest))
          (put_ids b device_id n 0 u blank
            ∙ ap (with_ids u b) (
                set_from-cong blank (λ j. device_id (suc j)) (λ j. get_or all j []) n 0
                  (λ j lt. device_id-place j (omega arith) h.more_length)
                ∙ set_from-get_or all blank [] n
                    (length-replicate 127 (blank_chars 64)
                      ∙ omega (arith, long, h.more_length, h.extra_length))
                    (ids_past h) (omega (arith, h.more_length, h.extra_length)))
            ∙ ap₂ (two_lists u b) (take-append 3 more_of extra_of h.more_length)
                (drop-append_at 3 more_of extra_of h.more_length))
