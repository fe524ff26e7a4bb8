-- ===== src/Config/Yaml/RoundTrip.antt =====
-- common/WHAYaml.h: what `YamlQuote` writes is read back by `ReadQuoted`.
use win_hook_audio.Prelude.{
  ℕ, zero, suc, ◌+◌, ◌*◌, ◌/◌, ◌%◌, ◌≤◌, ◌<◌, ◌≡◌, refl, sym, ap, ◌∙◌, inl, inr, true, false, ◌||◌,
  none, some, [], ◌∷◌, ◌++◌, ltb, ◌==◌, length, length-append, Bool-cases, arith, append-nil,
  append_assoc,
}
use win_hook_audio.Table.Text.{Chars}
use win_hook_audio.Config.Yaml.{
  hex_char, quote_byte, quote_bytes, yaml_quote, utf8, appended, closed, hex_value, read_hex,
  read_escape_hex, read_escape, read_round, read_rounds, read_quoted, ok, error, failed,
  bad_hex_digit,
}

hex_value-hex_char : (d : ℕ) → d < 16 → hex_value (hex_char d) ≡ some d
unfolding hex_value hex_char
hex_value-hex_char d h = ground arith

pub read_hex-step :
    (n v h d : ℕ) (s : Chars)
    → hex_value h ≡ some d
    → read_hex (suc n) v (h ∷ s) ≡ read_hex n (v * 16 + d) s
unfolding read_hex
read_hex-step n v h d s e = ap (λ o. elim o [ none ↦ none | some k ↦ read_hex n (v * 16 + k) s ]) e

read_hex_byte :
    (c : ℕ) (t : Chars)
    → c < 256
    → read_hex 2 0 (hex_char (c / 16) ∷ hex_char (c % 16) ∷ t) ≡ some c
unfolding read_hex
read_hex_byte c t h =
    let whole : (0 * 16 + c / 16) * 16 + c % 16 ≡ c = omega arith in
    read_hex-step 1 0 (hex_char (c / 16)) (c / 16) (hex_char (c % 16) ∷ t)
      (hex_value-hex_char (c / 16) (omega arith))
    ∙ read_hex-step 0 (0 * 16 + c / 16) (hex_char (c % 16)) (c % 16) t
        (hex_value-hex_char (c % 16) (omega arith))
    ∙ ap some whole

-- A byte below 128 is its own encoding.
read_escape_hex-byte :
    (a b c : ℕ) (t : Chars)
    → c < 128
    → read_hex 2 0 (a ∷ b ∷ t) ≡ some c
    → read_escape_hex 2 (a ∷ b ∷ t) ≡ appended (c ∷ []) t
unfolding read_escape_hex utf8
read_escape_hex-byte a b c t h e =
    let enough : ltb (length (a ∷ b ∷ t)) 2 ≡ false = ground arith in
    let one : ltb c 128 ≡ true = ground arith in
    rw enough (
      ap (λ o. elim o [ none ↦ failed bad_hex_digit | some v ↦ appended (utf8 v) t ]) e
      ∙ rw one refl)

round-special :
    (c : ℕ) (t : Chars)
    → (c == 34) || (c == 92) ≡ true
    → read_round 34 (92 ∷ c ∷ t) ≡ appended (c ∷ []) t
unfolding read_round read_escape
round-special c t e = rw e refl

round-hex : (s : Chars) → read_round 34 (92 ∷ 120 ∷ s) ≡ read_escape_hex 2 s
unfolding read_round read_escape
round-hex s = refl

round-plain :
    (c : ℕ) (t : Chars)
    → (c == 34) || (c == 92) ≡ false
    → read_round 34 (c ∷ t) ≡ appended (c ∷ []) t
unfolding read_round
round-plain c t e =
    let f : (c == 34) ≡ false = ground arith in
    let g : (c == 92) ≡ false = ground arith in rw (f, g) refl

control : (c : ℕ) → ltb c 32 || (c == 127) ≡ true → c < 128
control c h = ground arith

-- One round takes exactly what was written for one byte.
read_round-quote_byte :
    (c : ℕ) (t : Chars) → read_round 34 (quote_byte c ++ t) ≡ appended (c ∷ []) t
unfolding quote_byte
read_round-quote_byte c t = elim (Bool-cases ((c == 34) || (c == 92))) [
  | inl e ↦ rw e (round-special c t e)
  | inr e ↦ elim (Bool-cases (ltb c 32 || (c == 127))) [
    | inl f ↦
        let small = control c f in
        let digits = read_hex_byte c t (omega arith) in
        rw (e, f)
          (round-hex (hex_char (c / 16) ∷ hex_char (c % 16) ∷ t)
            ∙ read_escape_hex-byte (hex_char (c / 16)) (hex_char (c % 16)) c t small digits)
    | inr f ↦ rw (e, f) (round-plain c t e)
  ]
]

rounds-appended :
    (fuel : ℕ) (s rest bytes out : Chars)
    → read_round 34 s ≡ appended bytes rest
    → read_rounds (suc fuel) 34 s out ≡ read_rounds fuel 34 rest (out ++ bytes)
unfolding read_rounds
rounds-appended fuel s rest bytes out e =
    ap
      (λ r. elim r [
        | closed t ↦ ok out t
        | appended b t ↦ read_rounds fuel 34 t (out ++ b)
        | failed x ↦ error x
      ])
      e

-- With a round for each byte and one for the quote.
rounds-quote_bytes :
    (s rest out : Chars) (fuel : ℕ)
    → length s < fuel
    → read_rounds fuel 34 (quote_bytes s ++ 34 ∷ rest) out ≡ ok (out ++ s) rest
unfolding quote_bytes read_rounds read_round
rounds-quote_bytes s rest out zero h = absurd (omega arith)
rounds-quote_bytes [] rest out (suc fuel) h = ap (λ o. ok o rest) (sym (append-nil out))
rounds-quote_bytes (c ∷ s) rest out (suc fuel) h =
    ap (λ t. read_rounds (suc fuel) 34 t out)
      (append_assoc (quote_byte c) (quote_bytes s) (34 ∷ rest))
    ∙ rounds-appended fuel (quote_byte c ++ (quote_bytes s ++ 34 ∷ rest))
        (quote_bytes s ++ 34 ∷ rest) (c ∷ []) out
        (read_round-quote_byte c (quote_bytes s ++ 34 ∷ rest))
    ∙ rounds-quote_bytes s rest (out ++ c ∷ []) fuel (omega arith)
    ∙ ap (λ o. ok o rest) (append_assoc out (c ∷ []) s)

quote_byte_some : (c : ℕ) → 1 ≤ length (quote_byte c)
unfolding quote_byte
quote_byte_some c = elim (Bool-cases ((c == 34) || (c == 92))) [
  | inl e ↦ rw e (omega arith)
  | inr e ↦ rw e (elim (Bool-cases (ltb c 32 || (c == 127))) [
    | inl f ↦ rw f (omega arith)
    | inr f ↦ rw f (omega arith)
  ])
]

length-quote_bytes : (s : Chars) → length s ≤ length (quote_bytes s)
unfolding quote_bytes
length-quote_bytes [] = omega arith
length-quote_bytes (c ∷ s) =
    omega
      (arith, length-append (quote_byte c) (quote_bytes s), quote_byte_some c, length-quote_bytes s)

-- ReadQuoted on what YamlQuote wrote for any bytes, with any text after it, gives those bytes and
-- leaves that text.
pub read_quoted-yaml_quote : (s rest : Chars) → read_quoted (yaml_quote s ++ rest) ≡ ok s rest
unfolding read_quoted yaml_quote
read_quoted-yaml_quote s rest =
    let text = append_assoc (quote_bytes s) (34 ∷ []) rest in
    let long = length-append (quote_bytes s ++ 34 ∷ []) rest in
    let longer = length-append (quote_bytes s) (34 ∷ []) in
    ap (λ t. read_rounds (length ((quote_bytes s ++ 34 ∷ []) ++ rest) + 1) 34 t []) text
    ∙ rounds-quote_bytes s rest [] (length ((quote_bytes s ++ 34 ∷ []) ++ rest) + 1)
        (omega (arith, long, longer, length-quote_bytes s))
