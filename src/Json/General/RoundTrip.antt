-- ===== src/Json/General/RoundTrip.antt =====
-- common/WHASlotsJson.h: what SerializeSlots writes for "general" is read back by DeserializeSlots.
use win_hook_audio.Prelude.{
  ℕ, zero, suc, drop_all, ◌-◌, ◌^◌, ◌<◌, ◌≡◌, refl, sym, ap, ap₂, ◌∙◌, Bool, ◌∷◌, ◌++◌, get_or,
  length, length-append, replicate, arith,
}
use win_hook_audio.Prelude.Int.{pos}
use win_hook_audio.Table.Text.{Chars}
use win_hook_audio.Table.Data.{SlotTable, default_cable, blank_chars}
use win_hook_audio.Table.Access.{cable_setting, hw_device_id}
use win_hook_audio.Json.{escape_json_string, expect, skip_ws, lbracket, rbracket}
use win_hook_audio.Json.Numbers.{decimal-digit, digit_plain, skip_ws-cons}
use win_hook_audio.Json.Arrays.{set_from-cong, set_from-get_or}
use win_hook_audio.Json.Objects.{ok, bind, ◌>>=◌, or_fail, blanks}
use win_hook_audio.Json.Writer.{
  listed_count, id_text, number, entries, later_entries, more_to_json, modes_to_json, cable_to_json,
}
use win_hook_audio.Json.General.{device_array, mode_array, cable_array}
use win_hook_audio.Json.General.Lists.{device_list, mode_list, cable_list}
use win_hook_audio.Json.General.Cables.{cable_list-entries}
use win_hook_audio.Json.General.Places.{
  with_modes, two_lists, with_ids, with_cables, put_cables_from, get_cable,
}
use win_hook_audio.Json.General.Members.{
  IsDirection, modes_of, more_of, extra_of, mode_list-modes, device_list-ids,
}
use win_hook_audio.Json.General.Shapes.{take-append, drop-append_at}

module _ {Quality : Type 0} (t : SlotTable Quality) where
  -- The cables as the program keeps them: in two lists of eight, settings of a byte.
  pub record IsCables : Type 0 where
    pub cables_length : length t.cables ≡ 8
    pub more_length : length t.cables_more ≡ 8
    pub channels_range : (c : ℕ) → (cable_setting t (pos c)).channels < 256
    pub format_range : (c : ℕ) → (cable_setting t (pos c)).format < 256

  cable_list-cables :
      (u : SlotTable Quality) (rest : Chars)
      → IsCables
      → cable_list 16
          (with_cables u (replicate 16 default_cable))
          (entries (cable_to_json t) 16 0 (rbracket ∷ rest))
        ≡ ok (record u { cables = t.cables; cables_more = t.cables_more }) (rbracket ∷ rest)
  unfolding cable_to_json
  cable_list-cables u rest h =
      let all = t.cables ++ t.cables_more in
      let blank = replicate 16 default_cable in
      let long = length-append t.cables t.cables_more in
      let first = take-append 8 t.cables t.cables_more h.cables_length in
      let second = drop-append_at 8 t.cables t.cables_more h.cables_length in
      let whole : t ≡ with_cables t all =
        ap₂ (λ x y. record t { cables = x; cables_more = y }) (sym first) (sym second) in
      cable_list-entries (λ c. cable_setting t (pos c)) (with_cables u blank) rest
        (λ c. (h.channels_range c, h.format_range c))
      ∙ ap (λ v. ok v (rbracket ∷ rest))
          (put_cables_from (λ c. cable_setting t (pos c)) 16 0 u blank (omega arith) (omega arith)
            ∙ ap (with_cables u) (
                set_from-cong blank (λ c. cable_setting t (pos c)) (λ c. get_or all c default_cable)
                  16 0
                  (λ c lt.
                    ap (λ v. cable_setting v (pos c)) whole ∙ get_cable c t all (omega arith))
                ∙ set_from-get_or all blank default_cable 16
                    (omega (arith, long, h.cables_length, h.more_length))
                    (drop_all 16 all (omega (arith, long, h.cables_length, h.more_length)))
                    (omega (arith, long, h.cables_length, h.more_length)))
            ∙ ap₂ (λ x y. record u { cables = x; cables_more = y }) first second)

skip_ws-entries :
    (w : ℕ → Chars → Chars) (n i : ℕ) (rest : Chars)
    → ((d : ℕ) (s : Chars) → skip_ws (w d s) ≡ w d s)
    → skip_ws (entries w n i (rbracket ∷ rest)) ≡ entries w n i (rbracket ∷ rest)
unfolding entries skip_ws
skip_ws-entries w zero i rest h = refl
skip_ws-entries w (suc n) i rest h = h i (later_entries w n (suc i) (rbracket ∷ rest))

skip_ws-quoted : (v s : Chars) → skip_ws (escape_json_string v ++ s) ≡ escape_json_string v ++ s
unfolding skip_ws escape_json_string
skip_ws-quoted v s = refl

skip_ws-number : (v : ℕ) (s : Chars) → v < 2 ^ 32 → skip_ws (number v s) ≡ number v s
unfolding number
skip_ws-number v s h =
    let (c, ds, shape, digit) = decimal-digit v h in
    ap (λ t. skip_ws (t ++ s)) shape
    ∙ skip_ws-cons c (ds ++ s) ((digit_plain c digit).0)
    ∙ ap (λ t. t ++ s) (sym shape)

module _ {Quality : Type 0} (t : SlotTable Quality) (b : Bool) (rest : Chars) where
  skip_ws-more : skip_ws (more_to_json t b (rbracket ∷ rest)) ≡ more_to_json t b (rbracket ∷ rest)
  unfolding more_to_json
  skip_ws-more =
      skip_ws-entries (λ d s. escape_json_string (id_text (hw_device_id t b (pos d))) ++ s)
        (listed_count t b 127 - 1) 1 rest
        (λ d s. skip_ws-quoted (id_text (hw_device_id t b (pos d))) s)

  skip_ws-modes :
      IsDirection t b
      → skip_ws (modes_to_json t b (rbracket ∷ rest)) ≡ modes_to_json t b (rbracket ∷ rest)
  unfolding modes_to_json
  skip_ws-modes h =
      skip_ws-entries (λ d. number (get_or (modes_of t b) d 0)) (listed_count t b 127) 0 rest
        (λ d s. skip_ws-number (get_or (modes_of t b) d 0) s (omega (arith, h.modes_range d)))

module _ {Quality : Type 0} (t : SlotTable Quality) where
  -- The arrays as they are written.
  abbrev pub write_ids : Bool → Chars → Chars
  write_ids b rest = lbracket ∷ more_to_json t b (rbracket ∷ rest)

  abbrev pub write_modes : Bool → Chars → Chars
  write_modes b rest = lbracket ∷ modes_to_json t b (rbracket ∷ rest)

  abbrev pub write_cables : Chars → Chars
  write_cables rest = lbracket ∷ entries (cable_to_json t) 16 0 (rbracket ∷ rest)

module _ {Quality : Type 0} (t : SlotTable Quality) (b : Bool) (h : IsDirection t b)
    (u : SlotTable Quality) (rest : Chars) where
  pub device_array-ids :
      device_array b (with_ids u b (replicate 127 (blank_chars 64))) (write_ids t b rest)
      ≡ ok (two_lists u b (more_of t b) (extra_of t b)) rest
  unfolding device_array expect skip_ws blanks
  device_array-ids =
      ap
        (λ s.
          bind (device_list b 127 (with_ids u b (replicate 127 (blank_chars 64))) s)
            λ v. or_fail "HW device list ]" (expect rbracket) >>= λ _. ok v)
        (skip_ws-more t b rest)
      ∙ ap (λ r. bind r λ v. or_fail "HW device list ]" (expect rbracket) >>= λ _. ok v)
          (device_list-ids t b u rest h)

  pub mode_array-modes :
      mode_array b (with_modes u b (replicate 128 0)) (write_modes t b rest)
      ≡ ok (with_modes u b (modes_of t b)) rest
  unfolding mode_array expect skip_ws blanks
  mode_array-modes =
      ap
        (λ s.
          bind (mode_list b 128 (with_modes u b (replicate 128 0)) s)
            λ v. or_fail "HW mode list ]" (expect rbracket) >>= λ _. ok v)
        (skip_ws-modes t b rest h)
      ∙ ap (λ r. bind r λ v. or_fail "HW mode list ]" (expect rbracket) >>= λ _. ok v)
          (mode_list-modes t b u rest h)

module _ {Quality : Type 0} (t : SlotTable Quality) (h : IsCables t) (u : SlotTable Quality)
    (rest : Chars) where
  pub cable_array-cables :
      cable_array (with_cables u (replicate 16 default_cable)) (write_cables t rest)
      ≡ ok (record u { cables = t.cables; cables_more = t.cables_more }) rest
  unfolding cable_array expect skip_ws
  cable_array-cables =
      ap (λ r. bind r λ v. or_fail "cables ]" (expect rbracket) >>= λ _. ok v)
        (cable_list-cables t u rest h)
