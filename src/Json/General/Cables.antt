-- ===== src/Json/General/Cables.antt =====
-- common/WHASlotsJson.h: the cables of "general", read as they are written.
use win_hook_audio.Prelude.{
  ℕ, suc, ◌+◌, ◌-◌, ◌<◌, ◌≡◌, refl, ap, ◌∙◌, true, false, ◌∷◌, ◌++◌, ◌==◌, ltb, arith, Bool-cases,
  inl, inr, if◌then◌else◌,
}
use win_hook_audio.Prelude.Int.{pos}
use win_hook_audio.Table.Text.{Chars, codes}
use win_hook_audio.Table.Data.{SlotTable, CableSetting}
use win_hook_audio.Table.Access.{cable_setting, set_cable_setting}
use win_hook_audio.Table.Names.{decimal}
use win_hook_audio.Json.{
  eq_text, escape_bytes, escape_byte, escape_json_string, skip_ws, expect, colon, comma, lbrace,
  rbrace, rbracket, parse_string, parse_uint,
}
use win_hook_audio.Json.Numbers.{is_number_end, parse_uint-decimal}
use win_hook_audio.Json.Strings.{parse_string-escape_json_string}
use win_hook_audio.Json.Objects.{ok, Parser, bind, ◌>>=◌, or_fail, fail}
use win_hook_audio.Json.Objects.Steps.{or_fail-read}
use win_hook_audio.Json.Writer.{number, entries}
use win_hook_audio.Json.General.Lists.{cable_field, cable_entry, cable_list}
use win_hook_audio.Json.General.Loops.{put_from, loop-entries}

byte_fits : (v : ℕ) → v < 256 → ltb 255 v ≡ false
byte_fits v h = ground arith

abbrev pub write_cable : CableSetting → Chars → Chars
write_cable cs rest =
    codes "{\"channels\":"
    ++ number cs.channels (codes ",\"format\":" ++ number cs.format (codes "}" ++ rest))

module _ {Quality : Type 0} where
  abbrev pub with_channels : SlotTable Quality → ℕ → ℕ → SlotTable Quality
  with_channels t c v =
      let cs : CableSetting = cable_setting t (pos c) in
      set_cable_setting t (pos c) (record cs { channels = v })

  abbrev pub with_format : SlotTable Quality → ℕ → ℕ → SlotTable Quality
  with_format t c v =
      let cs : CableSetting = cable_setting t (pos c) in
      set_cable_setting t (pos c) (record cs { format = v })

  -- The value of a field, and what is done with it.
  field_value :
      (put : ℕ → Parser (SlotTable Quality)) (v : ℕ) (rest : Chars)
      → v < 256
      → is_number_end rest ≡ true
      → (or_fail "cables field" parse_uint >>= λ w.
            (if ltb 255 w then fail "cables field" else ok tt) >>= λ _. put w)
          (number v rest)
        ≡ put v rest
  unfolding number
  field_value put v rest h e =
      or_fail-read "cables field" parse_uint
        (λ w. (if ltb 255 w then fail "cables field" else ok tt) >>= λ _. put w)
        (decimal (pos v) ++ rest) rest v (parse_uint-decimal v rest (omega arith) e)
      ∙ rw (byte_fits v h) refl

  -- The tests of a field's key.
  abbrev put_field : SlotTable Quality → ℕ → Chars → ℕ → Parser (SlotTable Quality)
  put_field t c key w =
      if eq_text key (codes "channels")
      then ok (with_channels t c w)
      else if eq_text key (codes "format")
      then ok (with_format t c w)
      else fail "cables unknown field"

  cable_field-key :
      (t : SlotTable Quality) (c : ℕ) (key : Chars) (v : ℕ) (rest : Chars)
      → v < 256
      → is_number_end rest ≡ true
      → cable_field t c (escape_json_string key ++ colon ∷ number v rest) ≡ put_field t c key v rest
  unfolding cable_field expect skip_ws
  cable_field-key t c key v rest h e =
      or_fail-read "cables field" parse_string
        (λ k. or_fail "cables field" (expect colon) >>= λ _.
          or_fail "cables field" parse_uint >>= λ w.
          (if ltb 255 w then fail "cables field" else ok tt) >>= λ _. put_field t c k w)
        (escape_json_string key ++ colon ∷ number v rest) (colon ∷ number v rest) key
        (parse_string-escape_json_string key (colon ∷ number v rest))
      ∙ field_value (put_field t c key) v rest h e

  abbrev pub put_cable : CableSetting → ℕ → SlotTable Quality → SlotTable Quality
  put_cable cs c t = with_format (with_channels t c cs.channels) c cs.format

  -- The fields of a cable, past the comma.
  cable_fields :
      (t : SlotTable Quality) (c : ℕ) (cs : CableSetting) (rest : Chars)
      → cs.channels < 256
      → cs.format < 256
      → (or_fail "cables {" (expect lbrace) >>= λ _. cable_field t c >>= λ t1.
            or_fail "cables ," (expect comma) >>= λ _.
            cable_field t1 c >>= λ t2. or_fail "cables }" (expect rbrace) >>= λ _. ok t2)
          (write_cable cs rest)
        ≡ ok (put_cable cs c t) rest
  unfolding expect skip_ws eq_text escape_json_string escape_bytes escape_byte
  cable_fields t c cs rest h k =
      let tail = codes "\"format\":" ++ number cs.format (rbrace ∷ rest) in
      ap
        (λ r. bind r λ t1. or_fail "cables ," (expect comma) >>= λ _.
          cable_field t1 c >>= λ t2. or_fail "cables }" (expect rbrace) >>= λ _. ok t2)
        (cable_field-key t c (codes "channels") cs.channels (comma ∷ tail) h refl)
      ∙ ap (λ r. bind r λ t2. or_fail "cables }" (expect rbrace) >>= λ _. ok t2)
          (cable_field-key (with_channels t c cs.channels) c (codes "format") cs.format
            (rbrace ∷ rest) k refl)

  cable_list-first :
      (room : ℕ) (cs : CableSetting) (t : SlotTable Quality) (rest : Chars)
      → 0 + suc room ≡ 16
      → cs.channels < 256
      → cs.format < 256
      → cable_list (suc room) t (write_cable cs rest) ≡ cable_list room (put_cable cs 0 t) rest
  unfolding cable_list cable_entry skip_ws
  cable_list-first room cs t rest e h k =
      let place : 16 - suc room ≡ 0 = omega arith in
      rw place (ap (λ r. bind r (cable_list room)) (cable_fields t 0 cs rest h k))

  cable_list-later :
      (room c : ℕ) (cs : CableSetting) (t : SlotTable Quality) (rest : Chars)
      → 0 < c
      → c + suc room ≡ 16
      → cs.channels < 256
      → cs.format < 256
      → cable_list (suc room) t (comma ∷ write_cable cs rest)
        ≡ cable_list room (put_cable cs c t) rest
  unfolding cable_list cable_entry skip_ws expect
  cable_list-later room c cs t rest l e h k =
      let place : 16 - suc room ≡ c = omega arith in
      let late : ltb 0 c ≡ true = ground arith in
      let entered : cable_entry t c (comma ∷ write_cable cs rest) ≡ ok (put_cable cs c t) rest =
        rw late (cable_fields t c cs rest h k) in
      elim (Bool-cases (c == 8)) [
        | inl at ↦ rw (place, at) (ap (λ r. bind r (cable_list room)) entered)
        | inr at ↦ rw (place, at) (ap (λ r. bind r (cable_list room)) entered)
      ]

  cable_list-stop :
      (t : SlotTable Quality) (rest : Chars)
      → cable_list 0 t (rbracket ∷ rest) ≡ ok t (rbracket ∷ rest)
  unfolding cable_list
  cable_list-stop t rest = refl

  -- The settings `f 0` to `f 15`.
  pub cable_list-entries :
      (f : ℕ → CableSetting) (t : SlotTable Quality) (rest : Chars)
      → ((c : ℕ) → ((f c).channels < 256) × ((f c).format < 256))
      → cable_list 16 t (entries (λ c. write_cable (f c)) 16 0 (rbracket ∷ rest))
        ≡ ok (put_from (λ c. put_cable (f c) c) 16 0 t) (rbracket ∷ rest)
  cable_list-entries f t rest h =
      loop-entries cable_list (λ c. write_cable (f c)) (λ c. put_cable (f c) c) 16 0 0 16
        cable_list-stop (λ room u r c e x. cable_list-first room (f 0) u r e ((h 0).0) ((h 0).1))
        (λ room d u r l c e x. cable_list-later room d (f d) u r l e ((h d).0) ((h d).1)) 16 16 t
        rest (omega arith) (omega arith) (omega arith)
