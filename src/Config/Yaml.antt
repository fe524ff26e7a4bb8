-- ===== src/Config/Yaml.antt =====
-- common/WHAYaml.h: quoted scalars, written by `YamlQuote` and read by `ReadQuoted`. Text is a list of
-- bytes. The rounds of the reading loop are fuel; each takes at least one byte.
pub mod RoundTrip
use win_hook_audio.Prelude.{
  ℕ, zero, suc, ◌+◌, ◌-◌, ◌*◌, ◌/◌, ◌%◌, Bool, true, false, not, ◌&&◌, ◌||◌, Option, none, some,
  List, [], ◌∷◌, ◌++◌, ltb, leb, ◌==◌, if◌then◌else◌, get_or, drop, length,
}
use win_hook_audio.Table.Text.{Chars}

-- A digit of `%02X`.
unfoldable pub hex_char : ℕ → ℕ
hex_char d = if ltb d 10 then 48 + d else 55 + d

-- What `YamlQuote` writes for one byte.
unfoldable pub quote_byte : ℕ → Chars
unfolding hex_char
quote_byte c =
    if (c == 34) || (c == 92)
    then 92 ∷ c ∷ []
    else if ltb c 32 || (c == 127)
    then 92 ∷ 120 ∷ hex_char (c / 16) ∷ hex_char (c % 16) ∷ []
    else c ∷ []

-- The loop of `YamlQuote`.
unfoldable pub quote_bytes : Chars → Chars
unfolding quote_byte
quote_bytes [] = []
quote_bytes (c ∷ s) = quote_byte c ++ quote_bytes s

unfoldable pub yaml_quote : Chars → Chars
unfolding quote_bytes
yaml_quote s = 34 ∷ quote_bytes s ++ 34 ∷ []

-- `AppendUtf8`, the bytes it appends for a value below 2^16.
unfoldable pub utf8 : ℕ → Chars
utf8 v =
    if ltb v 128
    then v ∷ []
    else if ltb v 2048
    then (192 + v / 64) ∷ (128 + v % 64) ∷ []
    else (224 + v / 4096) ∷ (128 + v / 64 % 64) ∷ (128 + v % 64) ∷ []

pub data QuoteError : Type 0 where
  unknown_escape : ℕ → QuoteError
  short_escape : QuoteError
  bad_hex_digit : QuoteError
  missing_closing_quote : QuoteError

-- One round of `ReadQuoted`: the closing quote and what follows it, bytes appended and the text left,
-- or an error.
pub data Round : Type 0 where
  closed : Chars → Round
  appended : Chars → Chars → Round
  failed : QuoteError → Round

unfoldable pub hex_value : ℕ → Option ℕ
hex_value h =
    if leb 48 h && leb h 57
    then some (h - 48)
    else if leb 97 h && leb h 102
    then some (h - 87)
    else if leb 65 h && leb h 70
    then some (h - 55)
    else none

-- The loop over the digits of an escape, from the value `v`.
unfoldable pub read_hex : ℕ → ℕ → Chars → Option ℕ
unfolding hex_value
read_hex zero v s = some v
read_hex (suc n) v s = elim (hex_value (get_or s 0 0)) [
  | none ↦ none
  | some d ↦ read_hex n (v * 16 + d) (drop 1 s)
]

unfoldable pub read_escape_hex : ℕ → Chars → Round
unfolding read_hex utf8
read_escape_hex n s = if ltb (length s) n then failed short_escape else elim (read_hex n 0 s) [
  | none ↦ failed bad_hex_digit
  | some v ↦ appended (utf8 v) (drop n s)
]

-- The text after a backslash.
unfoldable pub read_escape : Chars → Round
unfolding read_escape_hex
read_escape [] = failed missing_closing_quote
read_escape (e ∷ s) =
    if (e == 34) || (e == 92) || (e == 47)
    then appended (e ∷ []) s
    else if e == 110
    then appended (10 ∷ []) s
    else if e == 114
    then appended (13 ∷ []) s
    else if e == 116
    then appended (9 ∷ []) s
    else if e == 48
    then appended (0 ∷ []) s
    else if e == 120
    then read_escape_hex 2 s
    else if e == 117
    then read_escape_hex 4 s
    else failed (unknown_escape e)

unfoldable pub read_round : ℕ → Chars → Round
unfolding read_escape
read_round q [] = failed missing_closing_quote
read_round q (c ∷ s) =
    if c == q
    then (if (q == 39) && (get_or s 0 0 == 39) then appended (39 ∷ []) (drop 1 s) else closed s)
    else if not (c == 92) || (q == 39)
    then appended (c ∷ []) s
    else read_escape s

pub data QuoteResult : Type 0 where
  ok : Chars → Chars → QuoteResult
  error : QuoteError → QuoteResult

-- The loop of `ReadQuoted`: the scalar and the text past the closing quote.
unfoldable pub read_rounds : ℕ → ℕ → Chars → Chars → QuoteResult
unfolding read_round
read_rounds zero q s out = error missing_closing_quote
read_rounds (suc fuel) q s out = elim (read_round q s) [
  | closed rest ↦ ok out rest
  | appended bytes rest ↦ read_rounds fuel q rest (out ++ bytes)
  | failed e ↦ error e
]

-- `ReadQuoted` at a text that starts with a quote.
unfoldable pub read_quoted : Chars → QuoteResult
unfolding read_rounds
read_quoted [] = error missing_closing_quote
read_quoted (q ∷ s) = read_rounds (length s + 1) q s []
