-- ===== src/Config/Scalar/KeyLine.antt =====
-- common/WHAYaml.h: a line with a key and a quoted value.
use win_hook_audio.Prelude.{
  ℕ, suc, ◌≡◌, ◌≢◌, refl, sym, ap, subst, ◌∙◌, Bool, true, false, ◌&&◌, ◌||◌, some, [], ◌∷◌, ◌++◌,
  ◌==◌, get_or, append-nil, append_assoc, arith,
}
use win_hook_audio.Table.Text.{Chars}
use win_hook_audio.Config.Yaml.{yaml_quote, quote_bytes, read_quoted}
use win_hook_audio.Config.Yaml.RoundTrip.{read_quoted-yaml_quote}
use win_hook_audio.Config.Scalar.{
  is_blank, is_empty, trim, trim_start, trim_end, node, after_quote, read_trimmed, read_scalar,
  split_from, split_key,
}

-- A key as the files have it: some text without a colon, no blanks around it and no quote or bracket
-- at its start.
pub record IsKey (key : Chars) : Type 0 where
  pub some_text : is_empty key ≡ false
  pub no_colon : (i : ℕ) → get_or key i 0 ≢ 58
  pub no_blanks : trim key ≡ key
  pub plain_start :
      (get_or key 0 0 == 34) || (get_or key 0 0 == 39) || (get_or key 0 0 == 91) ≡ false

split_from-key :
    (before key rest : Chars)
    → ((i : ℕ) → get_or key i 0 ≢ 58)
    → is_empty (trim (before ++ key)) ≡ false
    → split_from before (key ++ 58 ∷ 32 ∷ rest) ≡ some (trim (before ++ key), 32 ∷ rest)
unfolding split_from
split_from-key before [] rest h filled =
    let e = append-nil before in
    let filled' = subst (λ (b : Chars). is_empty (trim b) ≡ false) e filled in
    rw e (rw filled' refl)
split_from-key before (c ∷ key) rest h filled =
    let plain : (c == 58) ≡ false = ground (arith, h 0) in
    let e = append_assoc before (c ∷ []) key in
    let filled' = subst (λ (b : Chars). is_empty (trim b) ≡ false) (sym e) filled in
    rw plain (
      split_from-key (before ++ c ∷ []) key rest (λ i. h (suc i)) filled'
      ∙ ap (λ (b : Chars). some (trim b, 32 ∷ rest)) e)

some_last : (s : Chars) → is_empty (s ++ 34 ∷ []) ≡ false
some_last [] = refl
some_last (c ∷ s) = refl

and_false : (b : Bool) → b && false ≡ false
and_false b = ground arith

-- The last byte stays where it is no blank.
trim_end-last : (s : Chars) → trim_end (s ++ 34 ∷ []) ≡ s ++ 34 ∷ []
unfolding trim_end
trim_end-last [] = refl
trim_end-last (c ∷ s) = rw (trim_end-last s, some_last s, and_false (is_blank c)) refl

read_scalar-yaml_quote :
    (s : Chars) (line : ℕ)
    → read_scalar (32 ∷ yaml_quote s) line
      ≡ node (record { scalar = s; quoted = true; line = line })
unfolding read_scalar trim trim_start read_trimmed after_quote yaml_quote
read_scalar-yaml_quote s line =
    ap (λ (t : Chars). after_quote line (read_quoted (34 ∷ t))) (trim_end-last (quote_bytes s))
    ∙ ap (after_quote line) (
        ap read_quoted (sym (append-nil (34 ∷ (quote_bytes s ++ 34 ∷ []))))
        ∙ read_quoted-yaml_quote s [])

-- A line made of a key, a colon, a space and what YamlQuote wrote is split into that key and the rest,
-- and ReadScalar on the rest gives the bytes written, as a quoted scalar.
pub split_key-read_scalar :
    (key s : Chars) (line : ℕ)
    → IsKey key
    → (split_key (key ++ 58 ∷ 32 ∷ yaml_quote s) ≡ some (key, 32 ∷ yaml_quote s))
      × (read_scalar (32 ∷ yaml_quote s) line
          ≡ node (record { scalar = s; quoted = true; line = line }))
unfolding split_key
split_key-read_scalar [] s line v = absurd (ground (arith, v.some_text))
split_key-read_scalar (c ∷ key) s line v = (
  rw v.plain_start (
      split_from-key [] (c ∷ key) (yaml_quote s) v.no_colon
        (subst (λ (k : Chars). is_empty k ≡ false) (sym v.no_blanks) v.some_text)
      ∙ ap (λ (k : Chars). some (k, 32 ∷ yaml_quote s)) v.no_blanks),
  read_scalar-yaml_quote s line,
)
