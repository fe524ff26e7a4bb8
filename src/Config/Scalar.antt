-- ===== src/Config/Scalar.antt =====
-- common/WHAYaml.h: blanks, scalars, keys and list items on a line of the configuration files.
pub mod KeyLine
use win_hook_audio.Prelude.{
  ℕ, zero, suc, Bool, true, false, ◌&&◌, ◌||◌, Option, none, some, List, [], ◌∷◌, ◌++◌, ◌==◌,
  if◌then◌else◌, get_or,
}
use win_hook_audio.Table.Text.{Chars}
use win_hook_audio.Config.Yaml.{QuoteError, QuoteResult, ok, error, read_quoted}

-- `Line`: its number from 1, its leading spaces, and its text without them, comment and trailing ones.
pub record Line : Type 0 where
  pub number : ℕ
  pub indent : ℕ
  pub text : Chars

abbrev pub is_blank : ℕ → Bool
is_blank c = (c == 32) || (c == 9)

abbrev pub is_empty : Chars → Bool
is_empty [] = true
is_empty (c ∷ s) = false

-- The two loops of `Trim`.
unfoldable pub trim_start : Chars → Chars
trim_start [] = []
trim_start (c ∷ s) = let rest = trim_start s in if is_blank c then rest else c ∷ s

unfoldable pub trim_end : Chars → Chars
trim_end [] = []
trim_end (c ∷ s) = let rest = trim_end s in if is_blank c && is_empty rest then [] else c ∷ rest

unfoldable pub trim : Chars → Chars
unfolding trim_start trim_end
trim s = trim_end (trim_start s)

-- A `YamlNode` that is a scalar.
pub record ScalarNode : Type 0 where
  pub scalar : Chars
  pub quoted : Bool
  pub line : ℕ

pub data ScalarError : Type 0 where
  bad_quotes : QuoteError → ScalarError
  text_after_quote : ScalarError
  flow_map : ScalarError
  anchor_alias_or_tag : ScalarError
  block_scalar : ScalarError

pub data ScalarResult : Type 0 where
  node : ScalarNode → ScalarResult
  refused : ScalarError → ScalarResult

unfoldable pub after_quote : ℕ → QuoteResult → ScalarResult
unfolding trim
after_quote line (error e) = refused (bad_quotes e)
after_quote line (ok out rest) =
    if is_empty (trim rest)
    then node (record { scalar = out; quoted = true; line = line })
    else refused text_after_quote

-- `ReadScalar` on a text without blanks around it.
unfoldable pub read_trimmed : Chars → ℕ → ScalarResult
unfolding read_quoted after_quote
read_trimmed [] line = node (record { scalar = []; quoted = false; line = line })
read_trimmed (c ∷ s) line =
    if (c == 34) || (c == 39)
    then after_quote line (read_quoted (c ∷ s))
    else if c == 123
    then refused flow_map
    else if (c == 38) || (c == 42) || (c == 33)
    then refused anchor_alias_or_tag
    else if (c == 124) || (c == 62)
    then refused block_scalar
    else node (record { scalar = c ∷ s; quoted = false; line = line })

unfoldable pub read_scalar : Chars → ℕ → ScalarResult
unfolding trim read_trimmed
read_scalar text line = read_trimmed (trim text) line

-- The loop of `SplitKey`, with the text before its place.
unfoldable pub split_from : Chars → Chars → Option (Chars × Chars)
unfolding trim
split_from before [] = none
split_from before (c ∷ s) =
    let later = split_from (before ++ c ∷ []) s in
    if (c == 58) && (is_empty s || is_blank (get_or s 0 0))
    then (if is_empty (trim before) then none else some (trim before, s))
    else later

-- `SplitKey(text, key, rest)`
unfoldable pub split_key : Chars → Option (Chars × Chars)
unfolding split_from
split_key [] = none
split_key (c ∷ s) = if (c == 34) || (c == 39) || (c == 91) then none else split_from [] (c ∷ s)

unfoldable pub is_item : Line → Bool
is_item l = (get_or l.text 0 0 == 45) && (is_empty (tail l.text) || (get_or l.text 1 0 == 32))
  where
    tail : Chars → Chars
    tail [] = []
    tail (c ∷ s) = s
