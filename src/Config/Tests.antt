-- ===== src/Config/Tests.antt =====
-- common/WHAYaml.h: the model on concrete text.
use win_hook_audio.Prelude.{◌≡◌, refl, [], ◌∷◌, ◌++◌}
use win_hook_audio.Table.Text.{codes}
use win_hook_audio.Config.Yaml.{yaml_quote, read_quoted, ok, error, bad_hex_digit}
use win_hook_audio.Prelude.{ℕ, zero, suc, true, false, some, get_or, ◌≢◌, arith}
use win_hook_audio.Config.Scalar.{
  read_scalar, split_key, node, refused, flow_map, trim, trim_end, trim_start,
}
use win_hook_audio.Config.Scalar.KeyLine.{IsKey, split_key-read_scalar}
use win_hook_audio.Config.Yaml.RoundTrip.{read_quoted-yaml_quote}

-- A quote, a tab and a byte of a UTF-8 sequence, before the rest of a line.
read_quoted-yaml_quote_example :
    read_quoted (yaml_quote (34 ∷ 9 ∷ 195 ∷ []) ++ codes " # note")
    ≡ ok (34 ∷ 9 ∷ 195 ∷ []) (codes " # note")
read_quoted-yaml_quote_example = read_quoted-yaml_quote (34 ∷ 9 ∷ 195 ∷ []) (codes " # note")

escaped : yaml_quote (9 ∷ []) ≡ 34 ∷ codes "\\x09" ++ 34 ∷ []
unfolding yaml_quote
escaped = refl

single_quotes : read_quoted (codes "'it''s' x") ≡ ok (codes "it's") (codes " x")
unfolding read_quoted
single_quotes = refl

bad_digit : read_quoted (34 ∷ codes "\\xZZ" ++ 34 ∷ []) ≡ error bad_hex_digit
unfolding read_quoted
bad_digit = refl

name-IsKey : IsKey (codes "name")
unfolding trim trim_start trim_end
name-IsKey = record { some_text = refl; no_colon = no_colon; no_blanks = refl; plain_start = refl }
  where
    no_colon : (i : ℕ) → get_or (codes "name") i 0 ≢ 58
    no_colon zero = λ e. ground arith
    no_colon (suc zero) = λ e. ground arith
    no_colon (suc (suc zero)) = λ e. ground arith
    no_colon (suc (suc (suc zero))) = λ e. ground arith
    no_colon (suc (suc (suc (suc i)))) = λ e. ground arith

split_key-read_scalar_example :
    (split_key (codes "name" ++ 58 ∷ 32 ∷ yaml_quote (codes "a: #b"))
      ≡ some (codes "name", 32 ∷ yaml_quote (codes "a: #b")))
    × (read_scalar (32 ∷ yaml_quote (codes "a: #b")) 4
        ≡ node (record { scalar = codes "a: #b"; quoted = true; line = 4 }))
split_key-read_scalar_example = split_key-read_scalar (codes "name") (codes "a: #b") 4 name-IsKey

plain_scalar :
    read_scalar (codes " Bridge 1 ") 2
    ≡ node (record { scalar = codes "Bridge 1"; quoted = false; line = 2 })
unfolding read_scalar
plain_scalar = refl

no_flow_maps : read_scalar (codes "{a: 1}") 2 ≡ refused flow_map
unfolding read_scalar
no_flow_maps = refl
