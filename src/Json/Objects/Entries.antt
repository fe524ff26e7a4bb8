-- ===== src/Json/Objects/Entries.antt =====
-- common/WHASlotsJson.h: a fixed number of values, read as they are written.
use win_hook_audio.Prelude.{ℕ, zero, suc, ◌≡◌, refl, ap, ◌∙◌, true, ◌∷◌, []}
use Prim.Native.String.{String}
use win_hook_audio.Table.Text.{Chars}
use win_hook_audio.Json.{comma, rbracket, skip_ws, expect}
use win_hook_audio.Json.Numbers.{is_number_end}
use win_hook_audio.Json.Arrays.{from}
use win_hook_audio.Json.Objects.{ok, Parser, bind, ◌>>=◌, ◌>>◌, blanks, separator, fixed_list}
use win_hook_audio.Json.Writer.{entries, later_entries}

module _ {A : Type 0} (value : Parser A) (no_comma : String) (write : ℕ → Chars → Chars) (f : ℕ → A)
    (reads : (i : ℕ) (rest : Chars)
      → is_number_end rest ≡ true
      → value (write i rest) ≡ ok (f i) rest) where
  fixed_list-later :
      (n i : ℕ) (rest : Chars)
      → fixed_list value no_comma
          (suc n)
          (write i (later_entries write n (suc i) (rbracket ∷ rest)))
        ≡ ok (from f (suc n) i) (rbracket ∷ rest)
  unfolding fixed_list separator later_entries blanks skip_ws expect
  fixed_list-later zero i rest =
      ap (λ r. bind r λ v. blanks >> separator no_comma zero >> ok [] >>= λ vs. ok (v ∷ vs))
        (reads i (rbracket ∷ rest) refl)
  fixed_list-later (suc n) i rest =
      let tail = write (suc i) (later_entries write n (suc (suc i)) (rbracket ∷ rest)) in
      ap
        (λ r. bind r λ v. blanks >>= λ _. separator no_comma (suc n) >>= λ _.
          fixed_list value no_comma (suc n) >>= λ vs. ok (v ∷ vs))
        (reads i (comma ∷ tail) refl)
      ∙ ap (λ r. bind r λ vs. ok (f i ∷ vs)) (fixed_list-later n (suc i) rest)

  pub fixed_list-entries :
      (n : ℕ) (rest : Chars)
      → fixed_list value no_comma n (entries write n 0 (rbracket ∷ rest))
        ≡ ok (from f n 0) (rbracket ∷ rest)
  unfolding fixed_list entries
  fixed_list-entries zero rest = refl
  fixed_list-entries (suc n) rest = fixed_list-later n 0 rest
