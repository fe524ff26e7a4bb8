-- ===== src/Json/Objects/Chains.antt =====
-- common/WHASlotsJson.h: a whole object, member by member as it is written, read by the loop over its
-- members.
use win_hook_audio.Prelude.{
  ℕ, zero, suc, ◌≤◌, ◌<◌, ◌≡◌, refl, subst, ◌∙◌, true, ◌∷◌, ◌++◌, length, length-append, arith,
}
use win_hook_audio.Table.Text.{Chars}
use win_hook_audio.Json.{colon, comma, rbrace, escape_json_string}
use win_hook_audio.Json.Numbers.{is_number_end}
use win_hook_audio.Json.Objects.{ok, Parser, Messages, members, object}
use win_hook_audio.Json.Objects.Steps.{members-comma, members-last}
use win_hook_audio.Json.Lengths.{Within, within, Keeps}

module _ {S : Type 0} (member : Chars → S → Parser S) where
  -- The value that `write` writes for a key takes the state `st` to `st'`.
  abbrev pub ReadsTo : Chars → (Chars → Chars) → S → S → Type 0
  ReadsTo key write st st' =
      (rest : Chars) → is_number_end rest ≡ true → member key st (write rest) ≡ ok st' rest

  -- The members of an object with the states between them.
  pub data Chain : S → S → Type 0 where
    last :
        {st st' : S} (key : Chars) (write : Chars → Chars) → ReadsTo key write st st' → Chain st st'
    next :
        {st st1 st' : S} (key : Chars) (write : Chars → Chars)
        → ReadsTo key write st st1
        → Chain st1 st'
        → Chain st st'

  abbrev pub chain_text : {st st' : S} → Chain st st' → Chars → Chars
  chain_text (last key write h) rest = escape_json_string key ++ colon ∷ write (rbrace ∷ rest)
  chain_text (next key write h c) rest =
      escape_json_string key ++ colon ∷ write (comma ∷ chain_text c rest)

  abbrev chain_length : {st st' : S} → Chain st st' → ℕ
  chain_length (last key write h) = 1
  chain_length (next key write h c) = suc (chain_length c)

  module _ (messages : Messages)
      (member_keeps : (key : Chars) (st : S) → Keeps (member key st)) where
    within-rest : {n : ℕ} {st : S} {rest : Chars} → Within n (ok st rest) → length rest < n
    within-rest (within h) = h

    -- A value has the text after it still to come.
    write-longer :
        {st st' : S} (key : Chars) (write : Chars → Chars)
        → ReadsTo key write st st'
        → (rest : Chars) → is_number_end rest ≡ true
        → length rest ≤ length (write rest)
    write-longer {st} {st'} key write h rest e =
        let kept = (member_keeps key st).keeps (write rest) in
        let left = within-rest (subst (Within (suc (length (write rest)))) (h rest e) kept) in
        omega arith

    chain_length-le :
        {st st' : S} (c : Chain st st') (rest : Chars) → chain_length c ≤ length (chain_text c rest)
    chain_length-le (last key write h) rest =
        omega (arith, length-append (escape_json_string key) (colon ∷ write (rbrace ∷ rest)))
    chain_length-le (next key write h c) rest =
        let later = write-longer key write h (comma ∷ chain_text c rest) refl in
        omega (
          arith,
          length-append (escape_json_string key) (colon ∷ write (comma ∷ chain_text c rest)),
          chain_length-le c rest,
        )

    members-chain :
        {st st' : S} (c : Chain st st') (rest : Chars) (fuel : ℕ)
        → chain_length c < fuel
        → members messages member fuel st (chain_text c rest) ≡ ok st' rest
    members-chain c rest zero lt = absurd (omega arith)
    members-chain (last key write h) rest (suc zero) lt = absurd (omega arith)
    members-chain {st} {st'} (last key write h) rest (suc (suc fuel)) lt =
        members-last messages member fuel key (write (rbrace ∷ rest)) st st' rest
          (h (rbrace ∷ rest) refl)
    members-chain {st} (next {st1} key write h c) rest (suc fuel) lt =
        members-comma messages member fuel key (write (comma ∷ chain_text c rest)) st st1
          (chain_text c rest) (h (comma ∷ chain_text c rest) refl)
        ∙ members-chain {st = st1} c rest fuel (omega arith)

    -- The object is read to its closing brace.
    pub object-chain :
        {st st' : S} (c : Chain st st') (rest : Chars)
        → object messages member st (chain_text c rest) ≡ ok st' rest
    unfolding object
    object-chain c rest =
        members-chain c rest (suc (length (chain_text c rest)))
          (omega (arith, chain_length-le c rest))
