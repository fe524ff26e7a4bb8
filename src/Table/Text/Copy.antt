-- ===== src/Table/Text/Copy.antt =====
-- common/WHASlotTable.h: what `TruncateCopy` leaves in the array.
use win_hook_audio.Prelude.{
  ℕ, zero, suc, ◌+◌, ◌-◌, ◌≤◌, ◌≡◌, refl, ap, ◌∙◌, inl, inr, some, [], ◌∷◌, ◌++◌, ◌==◌, take,
  replicate, length, length-append, length-replicate, arith, Bool-cases,
}
use win_hook_audio.Table.Text.{Chars, c_string, copied, truncate_copy}

copied-take : (n : ℕ) (src : Chars) → copied n src ≡ take n (c_string src)
unfolding copied c_string
copied-take zero src = refl
copied-take (suc n) [] = refl
copied-take (suc n) (c ∷ src) = elim (Bool-cases (c == 0)) [
  | inl e ↦ rw e refl
  | inr e ↦ rw e (ap (λ t. c ∷ t) (copied-take n src))
]

c_string-copied : (n : ℕ) (src rest : Chars) → c_string (copied n src ++ 0 ∷ rest) ≡ copied n src
unfolding copied c_string
c_string-copied zero src rest = refl
c_string-copied (suc n) [] rest = refl
c_string-copied (suc n) (c ∷ src) rest = elim (Bool-cases (c == 0)) [
  | inl e ↦ rw e refl
  | inr e ↦ rw e (rw e (ap (λ t. c ∷ t) (c_string-copied n src rest)))
]

length-copied : (n : ℕ) (src : Chars) → length (copied n src) ≤ n
unfolding copied
length-copied zero src = omega arith
length-copied (suc n) [] = omega arith
length-copied (suc n) (c ∷ src) = elim (Bool-cases (c == 0)) [
  | inl e ↦ rw e (omega arith)
  | inr e ↦ rw e (omega (arith, length-copied n src))
]

-- TruncateCopy of a string fills the whole array, which then holds as much of the string as fits
-- before a terminating 0.
pub truncate_copy_lem :
    (dst : Chars) (n : ℕ) (src : Chars)
    → (length (truncate_copy dst (suc n) (some src)) ≡ suc n)
      × (c_string (truncate_copy dst (suc n) (some src)) ≡ take n (c_string src))
unfolding truncate_copy
truncate_copy_lem dst n src =
    let short = length-copied n src in
    let l = length (copied n src) in
    let e : suc n - l ≡ suc (n - l) = omega arith in
    (
      length-append (copied n src) (replicate (suc n - l) 0)
          ∙ ap (λ k. l + k) (length-replicate (suc n - l) 0)
          ∙ omega arith,
      ap (λ k. c_string (copied n src ++ replicate k 0)) e
          ∙ c_string-copied n src (replicate (n - l) 0)
          ∙ copied-take n src,
    )
