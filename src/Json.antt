-- ===== src/Json.antt =====
-- common/WHASlotsJson.h: the JSON values that the reader and the writer of slots.json share. Text is
-- a list of bytes, and a reader returns what it read with the text past it.
pub mod Objects
pub mod Strings
pub mod Numbers
pub mod Decimals
pub mod Arrays
pub mod Lengths
pub mod Slots
pub mod Streams
pub mod Writer
pub mod General
pub mod Loader
mod Tests
use win_hook_audio.Prelude.{
  ℕ, zero, suc, ◌+◌, ◌-◌, ◌*◌, ◌^◌, ◌/◌, ◌%◌, Bool, true, false, not, ◌&&◌, ◌||◌, Option, none,
  some, List, [], ◌∷◌, ◌++◌, ltb, leb, ◌==◌, if◌then◌else◌, get_or, take, drop, length,
}
use win_hook_audio.Prelude.Int.{ℤ, pos, negsuc}
use win_hook_audio.Table.Text.{Chars, codes}
use win_hook_audio.Config.Yaml.{read_hex}

abbrev pub quote : ℕ
quote = 34

abbrev pub backslash : ℕ
backslash = 92

abbrev pub comma : ℕ
comma = 44

abbrev pub colon : ℕ
colon = 58

abbrev pub lbracket : ℕ
lbracket = 91

abbrev pub rbracket : ℕ
rbracket = 93

abbrev pub lbrace : ℕ
lbrace = 123

abbrev pub rbrace : ℕ
rbrace = 125

-- A function that returns false where it finds no `A`.
abbrev pub Reader : Type 0 → Type 0
Reader A = Chars → Option (A × Chars)

-- `std::isspace` in the C locale
abbrev pub is_space : ℕ → Bool
is_space c = (c == 32) || (leb 9 c && leb c 13)

-- `std::isdigit`
abbrev pub is_digit : ℕ → Bool
is_digit c = leb 48 c && leb c 57

unfoldable pub skip_ws : Chars → Chars
skip_ws [] = []
skip_ws (c ∷ s) = let rest = skip_ws s in if is_space c then rest else c ∷ s

-- `==` of two strings
unfoldable pub eq_text : Chars → Chars → Bool
eq_text [] [] = true
eq_text [] (d ∷ b) = false
eq_text (c ∷ a) [] = false
eq_text (c ∷ a) (d ∷ b) = let rest = eq_text a b in if c == d then rest else false

-- `p < s.size() && s[p] == c`
abbrev pub starts : ℕ → Chars → Bool
starts c [] = false
starts c (d ∷ s) = d == c

unfoldable pub expect : ℕ → Reader (Unit {0})
unfolding skip_ws
expect c s = let t = skip_ws s in if starts c t then some (tt, drop 1 t) else none

-- A lower-case digit of `%x`.
unfoldable pub hex_lower : ℕ → ℕ
hex_lower d = if ltb d 10 then 48 + d else 87 + d

-- What `EscapeJsonString` writes for one byte.
unfoldable pub escape_byte : ℕ → Chars
unfolding hex_lower
escape_byte c =
    if (c == quote) || (c == backslash)
    then backslash ∷ c ∷ []
    else if ltb c 32
    then backslash ∷ 117 ∷ 48 ∷ 48 ∷ hex_lower (c / 16) ∷ hex_lower (c % 16) ∷ []
    else c ∷ []

unfoldable pub escape_bytes : Chars → Chars
unfolding escape_byte
escape_bytes [] = []
escape_bytes (c ∷ s) = escape_byte c ++ escape_bytes s

unfoldable pub escape_json_string : Chars → Chars
unfolding escape_bytes
escape_json_string s = quote ∷ escape_bytes s ++ quote ∷ []

-- One round of the loop of `ParseString`: the closing quote, or a byte appended, with the text left.
pub data Round : Type 0 where
  closed : Chars → Round
  appended : ℕ → Chars → Round
  stopped : Round

-- The text after `\u`; a `char` keeps the low byte of the value.
unfoldable pub escape_unicode : Chars → Round
unfolding read_hex
escape_unicode s =
    if ltb (length s) 4
    then stopped
    else elim (read_hex 4 0 s) [ none ↦ stopped | some v ↦ appended (v % 256) (drop 4 s) ]

-- The text after a backslash.
unfoldable pub escape_sequence : Chars → Round
unfolding escape_unicode
escape_sequence [] = stopped
escape_sequence (e ∷ s) =
    if (e == quote) || (e == backslash) || (e == 47)
    then appended e s
    else if e == 110
    then appended 10 s
    else if e == 114
    then appended 13 s
    else if e == 116
    then appended 9 s
    else if e == 117
    then escape_unicode s
    else stopped

unfoldable pub string_round : Chars → Round
unfolding escape_sequence
string_round [] = stopped
string_round (c ∷ s) =
    if c == quote then closed s else if c == backslash then escape_sequence s else appended c s

-- The rounds are fuel; each takes at least one byte.
unfoldable pub string_rounds : ℕ → Chars → Reader Chars
unfolding string_round
string_rounds zero out s = none
string_rounds (suc fuel) out s = elim (string_round s) [
  | closed rest ↦ some (out, rest)
  | appended c rest ↦ string_rounds fuel (out ++ c ∷ []) rest
  | stopped ↦ none
]

unfoldable pub parse_string : Reader Chars
unfolding skip_ws string_rounds
parse_string s =
    let t = skip_ws s in if starts quote t then string_rounds (length t) [] (drop 1 t) else none

-- The digits at the start of a text, and the text past them.
unfoldable pub digits_of : Chars → Chars
digits_of [] = []
digits_of (c ∷ s) = let rest = digits_of s in if is_digit c then c ∷ rest else []

unfoldable pub past_digits : Chars → Chars
past_digits [] = []
past_digits (c ∷ s) = let rest = past_digits s in if is_digit c then rest else c ∷ s

-- The number that digits write after those of `v`.
unfoldable pub digits_value : ℕ → Chars → ℕ
digits_value v [] = v
digits_value v (c ∷ s) = digits_value (v * 10 + (c - 48)) s

-- `std::stoul` of digits; an `unsigned long` has 32 bits.
unfoldable pub stoul : Chars → Option ℕ
unfolding digits_value
stoul [] = none
stoul (c ∷ s) = let v = digits_value 0 (c ∷ s) in if ltb v (2 ^ 32) then some v else none

-- An integer that is read, with the text past it; the number may be out of range.
abbrev pub with_rest : {A : Type 0} → Option A → Chars → Option (A × Chars)
with_rest none rest = none
with_rest (some a) rest = some (a, rest)

unfoldable pub parse_uint : Reader ℕ
unfolding skip_ws digits_of past_digits stoul
parse_uint s = let t = skip_ws s in with_rest (stoul (digits_of t)) (past_digits t)

abbrev pub minus_ℕ : ℕ → ℤ
minus_ℕ zero = pos 0
minus_ℕ (suc n) = negsuc n

-- `std::stoi` of a sign, when there is one, and digits.
unfoldable pub stoi : Bool → Chars → Option ℤ
unfolding digits_value
stoi minus [] = none
stoi minus (c ∷ s) =
    let v = digits_value 0 (c ∷ s) in
    if minus
    then (if leb v (2 ^ 31) then some (minus_ℕ v) else none)
    else if ltb v (2 ^ 31)
    then some (pos v)
    else none

abbrev pub past_sign : Chars → Chars
past_sign s = if starts 45 s || starts 43 s then drop 1 s else s

unfoldable pub parse_int : Reader ℤ
unfolding skip_ws digits_of past_digits stoi
parse_int s =
    let t = skip_ws s in
    with_rest (stoi (starts 45 t) (digits_of (past_sign t))) (past_digits (past_sign t))

-- The exponent of `ParseFloat`, when there is one: the text past it.
unfoldable pub past_exponent : Chars → Option Chars
unfolding digits_of past_digits
past_exponent s =
    let digits = past_sign (drop 1 s) in
    if starts 101 s || starts 69 s
    then (elim (digits_of digits) [ [] ↦ none | c ∷ cs ↦ some (past_digits digits) ])
    else some s

-- The loops of `ParseFloat` over a text without blanks before it: the text past the number.
unfoldable pub past_float : Chars → Option Chars
unfolding digits_of past_digits past_exponent
past_float s =
    let whole = past_sign s in
    let point = past_digits whole in
    let fraction = if starts 46 point then drop 1 point else [] in
    let rest = if starts 46 point then past_digits fraction else point in
    elim (digits_of whole ++ digits_of fraction) [ [] ↦ none | c ∷ cs ↦ past_exponent rest ]

unfoldable pub parse_bool : Reader Bool
unfolding skip_ws eq_text
parse_bool s =
    let t = skip_ws s in
    if eq_text (take 4 t) (codes "true")
    then some (true, drop 4 t)
    else if eq_text (take 5 t) (codes "false")
    then some (false, drop 5 t)
    else none

-- `std::stof` is an argument.
module _ {Quality : Type 0} (stof : Chars → Option Quality) where
  unfoldable pub parse_float : Reader Quality
  unfolding skip_ws past_float
  parse_float s =
      let t = skip_ws s in
      elim (past_float t) [
        | none ↦ none
        | some rest ↦ with_rest (stof (take (length t - length rest) t)) rest
      ]
