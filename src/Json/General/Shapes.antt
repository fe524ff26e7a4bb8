-- ===== src/Json/General/Shapes.antt =====
-- common/WHASlotsJson.h: how the lists of "general" are written, and the two lists of IDs as one.
use win_hook_audio.Prelude.{
  ℕ, zero, suc, ◌+◌, ◌-◌, ◌≤◌, ◌<◌, ◌≡◌, refl, sym, ap, ◌∙◌, inl, inr, Bool, true, false, Option,
  none, some, List, [], ◌∷◌, ◌++◌, ◌==◌, leb, not, ◌||◌, take, drop, get_or, get_or-drop, length,
  arith, Bool-cases,
}
use win_hook_audio.Table.Text.{Chars, c_string}
use win_hook_audio.Json.{comma}
use win_hook_audio.Json.Arrays.{get_or-take}
use win_hook_audio.Json.Writer.{entries, later_entries, id_text}

module _ {A : Type 0} where
  pub take-append : (k : ℕ) (xs ys : List A) → length xs ≡ k → take k (xs ++ ys) ≡ xs
  take-append zero [] ys h = refl
  take-append zero (x ∷ xs) ys h = absurd (omega arith)
  take-append (suc k) [] ys h = absurd (omega arith)
  take-append (suc k) (x ∷ xs) ys h = ap (λ t. x ∷ t) (take-append k xs ys (omega arith))

  pub drop-append_at : (k : ℕ) (xs ys : List A) → length xs ≡ k → drop k (xs ++ ys) ≡ ys
  drop-append_at zero [] ys h = refl
  drop-append_at zero (x ∷ xs) ys h = absurd (omega arith)
  drop-append_at (suc k) [] ys h = absurd (omega arith)
  drop-append_at (suc k) (x ∷ xs) ys h = drop-append_at k xs ys (omega arith)

-- What each writer writes does not depend on how it is written.
pub later_entries-cong :
    (w v : ℕ → Chars → Chars) (n i : ℕ) (rest : Chars)
    → ((d : ℕ) (s : Chars) → w d s ≡ v d s)
    → later_entries w n i rest ≡ later_entries v n i rest
unfolding later_entries
later_entries-cong w v zero i rest h = refl
later_entries-cong w v (suc n) i rest h =
    ap (λ s. comma ∷ w i s) (later_entries-cong w v n (suc i) rest h)
    ∙ ap (λ s. comma ∷ s) (h i (later_entries v n (suc i) rest))

pub entries-cong :
    (w v : ℕ → Chars → Chars) (n i : ℕ) (rest : Chars)
    → ((d : ℕ) (s : Chars) → w d s ≡ v d s)
    → entries w n i rest ≡ entries v n i rest
unfolding entries
entries-cong w v zero i rest h = refl
entries-cong w v (suc n) i rest h =
    ap (w i) (later_entries-cong w v n (suc i) rest h) ∙ h i (later_entries v n (suc i) rest)

pub ids_place :
    (more extra : List Chars) (i : ℕ)
    → length more ≡ 3
    → (i < 3 → get_or (more ++ extra) i [] ≡ get_or more i [])
      × (3 ≤ i → get_or (more ++ extra) i [] ≡ get_or extra (i - 3) [])
ids_place more extra i l = (
  (λ h.
      sym (get_or-take 3 (more ++ extra) i [] h)
      ∙ ap (λ xs. get_or xs i []) (take-append 3 more extra l)),
  λ h.
      let place : 3 + (i - 3) ≡ i = omega arith in
      ap (λ k. get_or (more ++ extra) k []) (sym place)
      ∙ sym (get_or-drop 3 (more ++ extra) (i - 3) [])
      ∙ ap (λ xs. get_or xs (i - 3) []) (drop-append_at 3 more extra l),
)

pub beyond_more : (i : ℕ) → leb (suc i) 3 ≡ false → 3 ≤ i
beyond_more i h = ground arith

pub within_more : (i : ℕ) → leb (suc i) 3 ≡ true → i < 3
within_more i h = ground arith

abbrev pub id_or : Option Chars → Chars
id_or none = []
id_or (some id) = id

pub same_text : (o : Option Chars) → id_text o ≡ c_string (id_or o)
unfolding c_string
same_text none = refl
same_text (some id) = refl

pub c_string_empty : (id : Chars) → (get_or id 0 0 == 0) ≡ true → c_string id ≡ []
unfolding c_string
c_string_empty [] e = refl
c_string_empty (c ∷ s) e = rw e refl

-- An ID that is not listed is empty.
pub unlisted_empty :
    (first : Bool) (o : Option Chars)
    → first ≡ false
    → elim o [ none ↦ false | some id ↦ first || not (get_or id 0 0 == 0) ] ≡ false
    → c_string (id_or o) ≡ []
unfolding c_string
unlisted_empty first none f e = refl
unlisted_empty first (some id) f e = elim (Bool-cases (get_or id 0 0 == 0)) [
  | inl z ↦ c_string_empty id z
  | inr z ↦ absurd (ground arith)
]
