-- ===== src/Json/Strings.antt =====
-- common/WHASlotsJson.h: what `EscapeJsonString` writes is read back by `ParseString`.
pub mod Ends
use win_hook_audio.Prelude.{
  ℕ, zero, suc, ◌+◌, ◌*◌, ◌/◌, ◌%◌, ◌≤◌, ◌<◌, ◌≡◌, refl, sym, ap, ◌∙◌, inl, inr, true, false, ◌||◌,
  none, some, [], ◌∷◌, ◌++◌, ltb, ◌==◌, length, length-append, Bool-cases, arith, append-nil,
  append_assoc,
}
use win_hook_audio.Table.Text.{Chars}
use win_hook_audio.Config.Yaml.{hex_value, read_hex}
use win_hook_audio.Config.Yaml.RoundTrip.{read_hex-step}
use win_hook_audio.Json.{
  hex_lower, escape_byte, escape_bytes, escape_json_string, closed, appended, stopped,
  escape_unicode, escape_sequence, string_round, string_rounds, parse_string, skip_ws, quote,
  backslash,
}

hex_value-hex_lower : (d : ℕ) → d < 16 → hex_value (hex_lower d) ≡ some d
unfolding hex_value hex_lower
hex_value-hex_lower d h = ground arith

zero_digit : hex_value 48 ≡ some 0
unfolding hex_value
zero_digit = refl

four_long : (n : ℕ) → ltb (suc (suc (suc (suc n)))) 4 ≡ false
four_long n = ground arith

-- The four digits of a control character.
read_hex-escape :
    (c : ℕ) (t : Chars)
    → c < 32
    → read_hex 4 0 (48 ∷ 48 ∷ hex_lower (c / 16) ∷ hex_lower (c % 16) ∷ t) ≡ some c
unfolding read_hex
read_hex-escape c t h =
    let whole : (((0 * 16 + 0) * 16 + 0) * 16 + c / 16) * 16 + c % 16 ≡ c = omega arith in
    read_hex-step 3 0 48 0 (48 ∷ hex_lower (c / 16) ∷ hex_lower (c % 16) ∷ t) zero_digit
    ∙ read_hex-step 2 (0 * 16 + 0) 48 0 (hex_lower (c / 16) ∷ hex_lower (c % 16) ∷ t) zero_digit
    ∙ read_hex-step 1 ((0 * 16 + 0) * 16 + 0) (hex_lower (c / 16)) (c / 16) (hex_lower (c % 16) ∷ t)
        (hex_value-hex_lower (c / 16) (omega arith))
    ∙ read_hex-step 0 (((0 * 16 + 0) * 16 + 0) * 16 + c / 16) (hex_lower (c % 16)) (c % 16) t
        (hex_value-hex_lower (c % 16) (omega arith))
    ∙ ap some whole

escape_unicode-digits :
    (a b c d v : ℕ) (t : Chars)
    → v < 256
    → read_hex 4 0 (a ∷ b ∷ c ∷ d ∷ t) ≡ some v
    → escape_unicode (a ∷ b ∷ c ∷ d ∷ t) ≡ appended v t
unfolding escape_unicode
escape_unicode-digits a b c d v t h e =
    let enough : ltb (length (a ∷ b ∷ c ∷ d ∷ t)) 4 ≡ false = four_long (length t) in
    let low : v % 256 ≡ v = omega arith in
    rw enough (
      ap (λ o. elim o [ none ↦ stopped | some w ↦ appended (w % 256) t ]) e
      ∙ ap (λ w. appended w t) low)

round-special :
    (c : ℕ) (t : Chars)
    → (c == quote) || (c == backslash) ≡ true
    → string_round (backslash ∷ c ∷ t) ≡ appended c t
unfolding string_round escape_sequence
round-special c t e = rw e refl

round-unicode : (s : Chars) → string_round (backslash ∷ 117 ∷ s) ≡ escape_unicode s
unfolding string_round escape_sequence
round-unicode s = refl

round-plain :
    (c : ℕ) (t : Chars)
    → (c == quote) || (c == backslash) ≡ false
    → string_round (c ∷ t) ≡ appended c t
unfolding string_round
round-plain c t e =
    let f : (c == quote) ≡ false = ground arith in
    let g : (c == backslash) ≡ false = ground arith in rw (f, g) refl

-- One round takes what was written for one byte.
string_round-escape_byte : (c : ℕ) (t : Chars) → string_round (escape_byte c ++ t) ≡ appended c t
unfolding escape_byte
string_round-escape_byte c t = elim (Bool-cases ((c == quote) || (c == backslash))) [
  | inl e ↦ rw e (round-special c t e)
  | inr e ↦ elim (Bool-cases (ltb c 32)) [
    | inl f ↦
        let small : c < 32 = ground arith in
        rw (e, f)
          (round-unicode (48 ∷ 48 ∷ hex_lower (c / 16) ∷ hex_lower (c % 16) ∷ t)
            ∙ escape_unicode-digits 48 48 (hex_lower (c / 16)) (hex_lower (c % 16)) c t
                (omega arith) (read_hex-escape c t small))
    | inr f ↦ rw (e, f) (round-plain c t e)
  ]
]

rounds-appended :
    (fuel : ℕ) (s rest : Chars) (c : ℕ) (out : Chars)
    → string_round s ≡ appended c rest
    → string_rounds (suc fuel) out s ≡ string_rounds fuel (out ++ c ∷ []) rest
unfolding string_rounds
rounds-appended fuel s rest c out e =
    ap
      (λ r. elim r [
        | closed t ↦ some (out, t)
        | appended b t ↦ string_rounds fuel (out ++ b ∷ []) t
        | stopped ↦ none
      ])
      e

rounds-escape_bytes :
    (s rest out : Chars) (fuel : ℕ)
    → length s < fuel
    → string_rounds fuel out (escape_bytes s ++ quote ∷ rest) ≡ some (out ++ s, rest)
unfolding escape_bytes string_rounds string_round
rounds-escape_bytes s rest out zero h = absurd (omega arith)
rounds-escape_bytes [] rest out (suc fuel) h = ap (λ o. some (o, rest)) (sym (append-nil out))
rounds-escape_bytes (c ∷ s) rest out (suc fuel) h =
    ap (λ t. string_rounds (suc fuel) out t)
      (append_assoc (escape_byte c) (escape_bytes s) (quote ∷ rest))
    ∙ rounds-appended fuel (escape_byte c ++ (escape_bytes s ++ quote ∷ rest))
        (escape_bytes s ++ quote ∷ rest) c out
        (string_round-escape_byte c (escape_bytes s ++ quote ∷ rest))
    ∙ rounds-escape_bytes s rest (out ++ c ∷ []) fuel (omega arith)
    ∙ ap (λ o. some (o, rest)) (append_assoc out (c ∷ []) s)

escape_byte_some : (c : ℕ) → 1 ≤ length (escape_byte c)
unfolding escape_byte
escape_byte_some c = ground arith

length-escape_bytes : (s : Chars) → length s ≤ length (escape_bytes s)
unfolding escape_bytes
length-escape_bytes [] = omega arith
length-escape_bytes (c ∷ s) = omega (
  arith,
  length-append (escape_byte c) (escape_bytes s),
  escape_byte_some c,
  length-escape_bytes s,
)

-- ParseString on what EscapeJsonString wrote for any bytes, with any text after it, gives those bytes
-- and leaves that text.
pub parse_string-escape_json_string :
    (s rest : Chars) → parse_string (escape_json_string s ++ rest) ≡ some (s, rest)
unfolding parse_string escape_json_string skip_ws
parse_string-escape_json_string s rest =
    let text = append_assoc (escape_bytes s) (quote ∷ []) rest in
    let long = length-append (escape_bytes s ++ quote ∷ []) rest in
    let longer = length-append (escape_bytes s) (quote ∷ []) in
    let whole = (escape_bytes s ++ quote ∷ []) ++ rest in
    ap (λ t. string_rounds (suc (length whole)) [] t) text
    ∙ rounds-escape_bytes s rest [] (suc (length whole))
        (omega (arith, long, longer, length-escape_bytes s))
