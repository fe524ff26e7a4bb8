-- ===== src/Json/Objects.antt =====
-- common/WHASlotsJson.h: a parser of an object that reports its error, and the loop over the members
-- of an object, which the source writes out for each of its four kinds of object. The rounds of the
-- loop are fuel; each takes at least the two quotes of a key.
pub mod Steps
pub mod Chains
pub mod Entries
use win_hook_audio.Prelude.{
  ℕ, zero, suc, Bool, true, false, ◌||◌, Option, none, some, List, [], ◌∷◌, drop, length,
  if◌then◌else◌,
}
use Prim.Native.String.{String}
use win_hook_audio.Table.Text.{Chars}
use win_hook_audio.Json.{
  Reader, skip_ws, starts, expect, parse_string, colon, comma, rbrace, lbrace,
}

-- `out_of_fuel` has no counterpart in the program.
pub data Result (A : Type 0) : Type 0 where
  ok : A → Chars → Result A
  failed : String → Result A
  out_of_fuel : Result A

abbrev pub Parser : Type 0 → Type 0
Parser A = Chars → Result A

abbrev pub bind : {A B : Type 0} → Result A → (A → Parser B) → Result B
bind (ok a rest) f = f a rest
bind (failed e) f = failed e
bind out_of_fuel f = out_of_fuel

infixl 1 ◌>>=◌ ◌>>◌
abbrev pub ◌>>=◌ : {A B : Type 0} → Parser A → (A → Parser B) → Parser B
p >>= f = λ s. bind (p s) f

abbrev pub ◌>>◌ : {A B : Type 0} → Parser A → Parser B → Parser B
p >> q = p >>= λ _. q

abbrev pub run : {A : Type 0} → Chars → Parser A → Result A
run s p = p s

abbrev pub lift : {A : Type 0} → String → Option (A × Chars) → Result A
lift error none = failed error
lift error (some (a, rest)) = ok a rest

-- A reader that found nothing gives the error.
abbrev pub or_fail : {A : Type 0} → String → Reader A → Parser A
or_fail error read s = lift error (read s)

abbrev pub fail : {A : Type 0} → String → Parser A
fail error s = failed error

unfoldable pub blanks : Parser (Unit {0})
unfolding skip_ws
blanks s = ok tt (skip_ws s)

-- What follows a value with `n` more to come.
unfoldable pub separator : String → ℕ → Parser (Unit {0})
unfolding expect
separator no_comma zero = ok tt
separator no_comma (suc n) = or_fail no_comma (expect comma)

module _ {A : Type 0} (value : Parser A) (no_comma : String) where
  -- A loop over a fixed number of values, with a comma after each but the last.
  unfoldable pub fixed_list : ℕ → Parser (List A)
  unfolding blanks separator
  fixed_list zero = ok []
  fixed_list (suc n) = do v ← value; blanks; separator no_comma n; vs ← fixed_list n; ok (v ∷ vs)

-- The errors of a kind of object: a key that is no string, no colon after it, no comma or brace after
-- the value.
pub record Messages : Type 0 where
  pub no_key : String
  pub no_colon : String
  pub no_comma : String

module _ {S : Type 0} (messages : Messages) (member : Chars → S → Parser S) where
  -- The key and the value of one member; `member` is the chain of tests of the key.
  unfoldable pub key_value : S → Parser S
  unfolding parse_string expect
  key_value st s = run s do
    key ← or_fail messages.no_key parse_string
    or_fail messages.no_colon (expect colon)
    member key st

  -- What follows a value, and the rest of the loop.
  unfoldable pub separated : (S → Parser S) → S → Parser S
  unfolding skip_ws
  separated again st s =
      let t = skip_ws s in
      let more = again st (if starts comma t then drop 1 t else t) in
      if starts comma t || starts rbrace t then more else failed messages.no_comma

  -- The loop, past the opening brace.
  unfoldable pub members : ℕ → S → Parser S
  unfolding key_value skip_ws separated
  members zero st s = out_of_fuel
  members (suc fuel) st s =
      let t = skip_ws s in
      let more = bind (key_value st t) (separated (members fuel)) in
      if starts rbrace t then ok st (drop 1 t) else more

  unfoldable pub object : S → Parser S
  unfolding members
  object st s = members (suc (length s)) st s
