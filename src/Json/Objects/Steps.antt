-- ===== src/Json/Objects/Steps.antt =====
-- common/WHASlotsJson.h: the loop over the members of an object, on members as they are written.
use win_hook_audio.Prelude.{ℕ, suc, ◌≡◌, ap, ◌∙◌, some, ◌∷◌, ◌++◌}
use Prim.Native.String.{String}
use win_hook_audio.Table.Text.{Chars}
use win_hook_audio.Json.{
  Reader, skip_ws, expect, parse_string, colon, comma, rbrace, escape_json_string,
}
use win_hook_audio.Json.Strings.{parse_string-escape_json_string}
use win_hook_audio.Json.Objects.{
  ok, Parser, bind, lift, ◌>>=◌, or_fail, Messages, key_value, members, separated,
}

-- A reader that finds a value hands it on.
pub or_fail-read :
    {A B : Type 0} (error : String) (read : Reader A) (f : A → Parser B) (s rest : Chars) (a : A)
    → read s ≡ some (a, rest)
    → (or_fail error read >>= f) s ≡ f a rest
or_fail-read error read f s rest a h = ap (λ o. bind (lift error o) f) h

module _ {S : Type 0} (messages : Messages) (member : Chars → S → Parser S) where
  key_value-key :
      (key u : Chars) (st : S)
      → key_value messages member st (escape_json_string key ++ colon ∷ u) ≡ member key st u
  unfolding key_value expect skip_ws
  key_value-key key u st =
      or_fail-read messages.no_key parse_string
        (λ k. or_fail messages.no_colon (expect colon) >>= λ _. member k st)
        (escape_json_string key ++ colon ∷ u) (colon ∷ u) key
        (parse_string-escape_json_string key (colon ∷ u))

  members-key :
      (fuel : ℕ) (key u : Chars) (st st' : S) (rest : Chars)
      → member key st u ≡ ok st' rest
      → members messages member (suc fuel) st (escape_json_string key ++ colon ∷ u)
        ≡ separated messages member (members messages member fuel) st' rest
  unfolding members escape_json_string skip_ws
  members-key fuel key u st st' rest h =
      ap (λ r. bind r (separated messages member (members messages member fuel)))
        (key_value-key key u st ∙ h)

  -- A member with a comma after it, and the last member.
  pub members-comma :
      (fuel : ℕ) (key u : Chars) (st st' : S) (rest : Chars)
      → member key st u ≡ ok st' (comma ∷ rest)
      → members messages member (suc fuel) st (escape_json_string key ++ colon ∷ u)
        ≡ members messages member fuel st' rest
  unfolding separated skip_ws
  members-comma fuel key u st st' rest h = members-key fuel key u st st' (comma ∷ rest) h

  pub members-last :
      (fuel : ℕ) (key u : Chars) (st st' : S) (rest : Chars)
      → member key st u ≡ ok st' (rbrace ∷ rest)
      → members messages member (suc (suc fuel)) st (escape_json_string key ++ colon ∷ u)
        ≡ ok st' rest
  unfolding separated skip_ws members
  members-last fuel key u st st' rest h = members-key (suc fuel) key u st st' (rbrace ∷ rest) h
