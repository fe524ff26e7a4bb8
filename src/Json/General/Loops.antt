-- ===== src/Json/General/Loops.antt =====
-- common/WHASlotsJson.h: a loop over an array that stores its entries, read as they are written.
use win_hook_audio.Prelude.{ℕ, zero, suc, ◌+◌, ◌<◌, ◌≡◌, ap, ◌∙◌, arith, ◌∷◌}
use win_hook_audio.Table.Text.{Chars}
use win_hook_audio.Json.{comma, rbracket}
use win_hook_audio.Json.Objects.{ok, Parser}
use win_hook_audio.Json.Writer.{entries, later_entries}

-- The text after an entry: a comma or the bracket.
pub data EntryEnd : Chars → Type 0 where
  more : (s : Chars) → EntryEnd (comma ∷ s)
  done : (s : Chars) → EntryEnd (rbracket ∷ s)

later_entries-EntryEnd :
    (write : ℕ → Chars → Chars) (n d : ℕ) (rest : Chars)
    → EntryEnd (later_entries write n d (rbracket ∷ rest))
unfolding later_entries
later_entries-EntryEnd write zero d rest = done rest
later_entries-EntryEnd write (suc n) d rest =
    more (write d (later_entries write n (suc d) (rbracket ∷ rest)))

module _ {S : Type 0} where
  -- `n` entries stored from place `d` on.
  abbrev pub put_from : (ℕ → S → S) → ℕ → ℕ → S → S
  put_from put zero d t = t
  put_from put (suc n) d t = put_from put n (suc d) (put d t)

  -- `total` places; the loop is given the number of rounds left, of which `left` are not made.
  module _ (loop : ℕ → S → Parser S) (write : ℕ → Chars → Chars) (put : ℕ → S → S)
      (total left first count : ℕ)
      (stop : (t : S) (rest : Chars) → loop left t (rbracket ∷ rest) ≡ ok t (rbracket ∷ rest))
      (start : (room : ℕ) (t : S) (rest : Chars)
        → first < count
        → first + suc room ≡ total
        → EntryEnd rest
        → loop (suc room) t (write first rest) ≡ loop room (put first t) rest)
      (step : (room d : ℕ) (t : S) (rest : Chars)
        → first < d
        → d < count
        → d + suc room ≡ total
        → EntryEnd rest
        → loop (suc room) t (comma ∷ write d rest) ≡ loop room (put d t) rest) where
    loop-later :
        (n d room : ℕ) (t : S) (rest : Chars)
        → first < d
        → d + n ≡ count
        → d + room ≡ total
        → room ≡ n + left
        → loop room t (later_entries write n d (rbracket ∷ rest))
          ≡ ok (put_from put n d t) (rbracket ∷ rest)
    unfolding later_entries
    loop-later zero d room t rest h c e r =
        let same : room ≡ left = omega arith in
        ap (λ k. loop k t (rbracket ∷ rest)) same ∙ stop t rest
    loop-later (suc n) d zero t rest h c e r = absurd (omega arith)
    loop-later (suc n) d (suc room) t rest h c e r =
        step room d t (later_entries write n (suc d) (rbracket ∷ rest)) h (omega arith) e
          (later_entries-EntryEnd write n (suc d) rest)
        ∙ loop-later n (suc d) room (put d t) rest (omega arith) (omega arith) (omega arith)
            (omega arith)

    pub loop-entries :
        (n room : ℕ) (t : S) (rest : Chars)
        → first + n ≡ count
        → first + room ≡ total
        → room ≡ n + left
        → loop room t (entries write n first (rbracket ∷ rest))
          ≡ ok (put_from put n first t) (rbracket ∷ rest)
    unfolding entries
    loop-entries zero room t rest c e r =
        let same : room ≡ left = omega arith in
        ap (λ k. loop k t (rbracket ∷ rest)) same ∙ stop t rest
    loop-entries (suc n) zero t rest c e r = absurd (omega arith)
    loop-entries (suc n) (suc room) t rest c e r =
        start room t (later_entries write n (suc first) (rbracket ∷ rest)) (omega arith) e
          (later_entries-EntryEnd write n (suc first) rest)
        ∙ loop-later n (suc first) room (put first t) rest (omega arith) (omega arith) (omega arith)
            (omega arith)
