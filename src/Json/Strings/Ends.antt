-- ===== src/Json/Strings/Ends.antt =====
-- common/WHASlotsJson.h: the loop of `ParseString` on its own, without a bound on its rounds.
use win_hook_audio.Prelude.{
  ℕ, zero, suc, ◌≤◌, ◌<◌, ◌≡◌, refl, Option, none, some, [], ◌∷◌, ◌++◌, length, arith,
}
use win_hook_audio.Table.Text.{Chars}
use win_hook_audio.Json.{
  Round, closed, appended, stopped, string_round, string_rounds, parse_string, skip_ws, quote,
}
use win_hook_audio.Json.Lengths.{RoundWithin, appended_within, string_round-RoundWithin}

-- A run of the loop that comes to an end: what it has appended, the text before it, the number of its
-- rounds and what ParseString gives then.
pub data StringRun : Chars → Chars → ℕ → Option (Chars × Chars) → Type 0 where
  closes :
      {out s : Chars} (rest : Chars)
      → string_round s ≡ closed rest
      → StringRun out s 1 (some (out, rest))
  stops : {out s : Chars} → string_round s ≡ stopped → StringRun out s 1 none
  appends :
      {out s : Chars} (c : ℕ) (rest : Chars) {n : ℕ} {r : Option (Chars × Chars)}
      → string_round s ≡ appended c rest
      → StringRun (out ++ c ∷ []) rest n r
      → StringRun out s (suc n) r

-- The loop on so much fuel gives what a run of it gives, which takes at most a round for each byte
-- and one.
abbrev HasRun : ℕ → Chars → Chars → Type 0
HasRun fuel out s = (n : ℕ) × StringRun out s n (string_rounds fuel out s) × (n ≤ suc (length s))

ends_step :
    (fuel : ℕ) (out s : Chars)
    → ((c : ℕ) (rest : Chars) → length rest < length s → HasRun fuel (out ++ c ∷ []) rest)
    → (r : Round) → string_round s ≡ r
    → RoundWithin (length s) r
    → (n : ℕ) × StringRun out s n (elim r [
      | closed rest ↦ some (out, rest)
      | appended c rest ↦ string_rounds fuel (out ++ c ∷ []) rest
      | stopped ↦ none
    ])
      × (n ≤ suc (length s))
ends_step fuel out s later (closed rest) e w = (1, closes rest e, omega arith)
ends_step fuel out s later (appended c rest) e (appended_within fewer) =
    let (n, run, le) = later c rest fewer in (suc n, appends c rest e run, omega arith)
ends_step fuel out s later stopped e w = (1, stops e, omega arith)

string_rounds_ends : (fuel : ℕ) (out s : Chars) → length s < fuel → HasRun fuel out s
unfolding string_rounds
string_rounds_ends zero out s h = absurd (omega arith)
string_rounds_ends (suc fuel) out s h =
    ends_step fuel out s
      (λ c rest fewer. string_rounds_ends fuel (out ++ c ∷ []) rest (omega arith)) (string_round s)
      refl (string_round-RoundWithin s)

pub parse_string_ends :
    (t : Chars) → (n : ℕ) × StringRun [] t n (parse_string (quote ∷ t)) × (n ≤ suc (length t))
unfolding parse_string skip_ws
parse_string_ends t = string_rounds_ends (suc (length t)) [] t (omega arith)
