-- ===== src/Json/General/Stored.antt =====
-- common/WHASlotsJson.h: the modes, device IDs and cables of "general", read as they are written.
use win_hook_audio.Prelude.{
  ℕ, zero, suc, ◌+◌, ◌-◌, ◌^◌, ◌≤◌, ◌<◌, ◌≡◌, refl, ap, ◌∙◌, Bool, true, false, some, [], ◌∷◌, ◌++◌,
  ◌==◌, ltb, leb, length, arith, if◌then◌else◌,
}
use win_hook_audio.Prelude.Int.{pos}
use win_hook_audio.Table.Text.{Chars, c_string, truncate_copy}
use win_hook_audio.Table.Data.{SlotTable}
use win_hook_audio.Table.Names.{decimal}
use win_hook_audio.Json.{
  is_digit, escape_json_string, skip_ws, comma, rbracket, expect, parse_uint, parse_string,
}
use win_hook_audio.Json.Numbers.{decimal-digit, is_number_end, parse_uint-decimal}
use win_hook_audio.Json.Strings.{parse_string-escape_json_string}
use win_hook_audio.Json.Objects.{ok, bind, ◌>>=◌, or_fail, fail, blanks}
use win_hook_audio.Json.Objects.Steps.{or_fail-read}
use win_hook_audio.Json.Writer.{number, entries}
use win_hook_audio.Json.General.Lists.{
  at_end, mode_entry, mode_list, put_mode, device_entry, device_list, set_hw_device_id,
}
use win_hook_audio.Json.General.Values.{IsPadded, write_string}
use win_hook_audio.Json.General.Loops.{EntryEnd, more, done, put_from, loop-entries}

EntryEnd-number : (s : Chars) → EntryEnd s → is_number_end s ≡ true
EntryEnd-number _ (more s) = refl
EntryEnd-number _ (done s) = refl

EntryEnd-skip_ws : (s : Chars) → EntryEnd s → skip_ws s ≡ s
unfolding skip_ws
EntryEnd-skip_ws _ (more s) = refl
EntryEnd-skip_ws _ (done s) = refl

mode_below : (v : ℕ) → v < 3 → leb 3 v ≡ false
mode_below v h = ground arith

digit_no_end : (c : ℕ) → is_digit c ≡ true → (c == rbracket) ≡ false
digit_no_end c h = ground arith

at_end-number : (v : ℕ) (rest : Chars) → v < 2 ^ 32 → at_end (number v rest) ≡ false
unfolding number
at_end-number v rest h =
    let (c, s, shape, digit) = decimal-digit v h in
    ap (λ t. at_end (t ++ rest)) shape ∙ digit_no_end c digit

module _ {Quality : Type 0} (b : Bool) where
  -- A mode, and the part of its entry past the comma.
  mode_value :
      (d v : ℕ) (t : SlotTable Quality) (rest : Chars)
      → v < 3
      → EntryEnd rest
      → (or_fail "HW mode must be 0..2" parse_uint >>= λ w.
            (if leb 3 w then fail "HW mode must be 0..2" else ok tt) >>= λ _.
            blanks >>= λ _. ok (put_mode t b d w))
          (number v rest)
        ≡ ok (put_mode t b d v) rest
  unfolding number blanks
  mode_value d v t rest h e =
      or_fail-read "HW mode must be 0..2" parse_uint
        (λ w. (if leb 3 w then fail "HW mode must be 0..2" else ok tt) >>= λ _.
          blanks >>= λ _. ok (put_mode t b d w))
        (decimal (pos v) ++ rest) rest v
        (parse_uint-decimal v rest (omega arith) (EntryEnd-number rest e))
      ∙ rw (mode_below v h) (ap (λ s. ok (put_mode t b d v) s) (EntryEnd-skip_ws rest e))

  mode_list-entry :
      (room : ℕ) (t : SlotTable Quality) (s : Chars)
      → at_end s ≡ false
      → mode_list b (suc room) t s ≡ bind (mode_entry b (128 - suc room) t s) (mode_list b room)
  unfolding mode_list
  mode_list-entry room t s e = rw e refl

  mode_list-first :
      (room v : ℕ) (t : SlotTable Quality) (rest : Chars)
      → 0 + suc room ≡ 128
      → v < 3
      → EntryEnd rest
      → mode_list b (suc room) t (number v rest) ≡ mode_list b room (put_mode t b 0 v) rest
  unfolding mode_entry
  mode_list-first room v t rest r h e =
      let place : 128 - suc room ≡ 0 = omega arith in
      mode_list-entry room t (number v rest) (at_end-number v rest (omega arith))
      ∙ ap (λ k. bind (mode_entry b k t (number v rest)) (mode_list b room)) place
      ∙ ap (λ r. bind r (mode_list b room)) (mode_value 0 v t rest h e)

  mode_list-later :
      (room d v : ℕ) (t : SlotTable Quality) (rest : Chars)
      → 0 < d
      → d + suc room ≡ 128
      → v < 3
      → EntryEnd rest
      → mode_list b (suc room) t (comma ∷ number v rest) ≡ mode_list b room (put_mode t b d v) rest
  unfolding mode_entry expect skip_ws
  mode_list-later room d v t rest l r h e =
      let place : 128 - suc room ≡ d = omega arith in
      let late : ltb 0 d ≡ true = ground arith in
      let entered : mode_entry b d t (comma ∷ number v rest) ≡ ok (put_mode t b d v) rest =
        rw late (mode_value d v t rest h e) in
      mode_list-entry room t (comma ∷ number v rest) refl
      ∙ ap (λ k. bind (mode_entry b k t (comma ∷ number v rest)) (mode_list b room)) place
      ∙ ap (λ r. bind r (mode_list b room)) entered

  mode_list-stop :
      (room : ℕ) (t : SlotTable Quality) (rest : Chars)
      → mode_list b room t (rbracket ∷ rest) ≡ ok t (rbracket ∷ rest)
  unfolding mode_list
  mode_list-stop zero t rest = refl
  mode_list-stop (suc room) t rest = refl

  -- The modes `f 0`, ..., in the places from 0 on.
  pub mode_list-entries :
      (f : ℕ → ℕ) (n : ℕ) (t : SlotTable Quality) (rest : Chars)
      → ((d : ℕ) → f d < 3)
      → n ≤ 128
      → mode_list b 128 t (entries (λ d. number (f d)) n 0 (rbracket ∷ rest))
        ≡ ok (put_from (λ d u. put_mode u b d (f d)) n 0 t) (rbracket ∷ rest)
  mode_list-entries f n t rest h le =
      loop-entries (mode_list b) (λ d. number (f d)) (λ d u. put_mode u b d (f d)) 128 (128 - n) 0 n
        (λ u r. mode_list-stop (128 - n) u r)
        (λ room u r c e x. mode_list-first room (f 0) u r e (h 0) x)
        (λ room d u r l c e x. mode_list-later room d (f d) u r l e (h d) x) n 128 t rest
        (omega arith) (omega arith) (omega arith)

  -- A device ID, past the comma.
  device_value :
      (d : ℕ) (place : Chars) (t : SlotTable Quality) (rest : Chars)
      → IsPadded 64 place
      → EntryEnd rest
      → (or_fail "HW device list id" parse_string >>= λ v.
            (if leb 64 (length v) then fail "endpoint id too long" else ok tt) >>= λ _.
            blanks >>= λ _. ok (set_hw_device_id t b d (truncate_copy [] 64 (some v))))
          (write_string place rest)
        ≡ ok (set_hw_device_id t b d place) rest
  unfolding blanks
  device_value d place t rest h e =
      or_fail-read "HW device list id" parse_string
        (λ v. (if leb 64 (length v) then fail "endpoint id too long" else ok tt) >>= λ _.
          blanks >>= λ _. ok (set_hw_device_id t b d (truncate_copy [] 64 (some v))))
        (write_string place rest) rest (c_string place)
        (parse_string-escape_json_string (c_string place) rest)
      ∙ rw (h.shorter) (
          ap (λ s. ok (set_hw_device_id t b d (truncate_copy [] 64 (some (c_string place)))) s)
            (EntryEnd-skip_ws rest e)
          ∙ ap (λ p. ok (set_hw_device_id t b d p) rest) h.padded)

  device_list-first :
      (room : ℕ) (place : Chars) (t : SlotTable Quality) (rest : Chars)
      → 1 + suc room ≡ 128
      → IsPadded 64 place
      → EntryEnd rest
      → device_list b (suc room) t (write_string place rest)
        ≡ device_list b room (set_hw_device_id t b 1 place) rest
  unfolding device_list device_entry escape_json_string
  device_list-first room place t rest r h e =
      let at : 128 - suc room ≡ 1 = omega arith in
      ap (λ k. bind (device_entry b k t (write_string place rest)) (device_list b room)) at
      ∙ ap (λ r. bind r (device_list b room)) (device_value 1 place t rest h e)

  device_list-later :
      (room d : ℕ) (place : Chars) (t : SlotTable Quality) (rest : Chars)
      → 1 < d
      → d + suc room ≡ 128
      → IsPadded 64 place
      → EntryEnd rest
      → device_list b (suc room) t (comma ∷ write_string place rest)
        ≡ device_list b room (set_hw_device_id t b d place) rest
  unfolding device_list device_entry expect skip_ws
  device_list-later room d place t rest l r h e =
      let at : 128 - suc room ≡ d = omega arith in
      let late : ltb 1 d ≡ true = ground arith in
      let entered : device_entry b d t (comma ∷ write_string place rest)
          ≡ ok (set_hw_device_id t b d place) rest =
        rw late (device_value d place t rest h e) in
      ap (λ k. bind (device_entry b k t (comma ∷ write_string place rest)) (device_list b room)) at
      ∙ ap (λ r. bind r (device_list b room)) entered

  device_list-stop :
      (room : ℕ) (t : SlotTable Quality) (rest : Chars)
      → device_list b room t (rbracket ∷ rest) ≡ ok t (rbracket ∷ rest)
  unfolding device_list
  device_list-stop zero t rest = refl
  device_list-stop (suc room) t rest = refl

  -- The IDs `f 1`, ..., in the places from 1 on.
  pub device_list-entries :
      (f : ℕ → Chars) (n : ℕ) (t : SlotTable Quality) (rest : Chars)
      → ((d : ℕ) → d < suc n → IsPadded 64 (f d))
      → n ≤ 127
      → device_list b 127 t (entries (λ d. write_string (f d)) n 1 (rbracket ∷ rest))
        ≡ ok (put_from (λ d u. set_hw_device_id u b d (f d)) n 1 t) (rbracket ∷ rest)
  device_list-entries f n t rest h le =
      loop-entries (device_list b) (λ d. write_string (f d)) (λ d u. set_hw_device_id u b d (f d))
        128 (127 - n) 1 (suc n) (λ u r. device_list-stop (127 - n) u r)
        (λ room u r c e x. device_list-first room (f 1) u r e (h 1 c) x)
        (λ room d u r l c e x. device_list-later room d (f d) u r l e (h d c) x) n 127 t rest
        (omega arith) (omega arith) (omega arith)
