-- ===== src/Prelude/Padding.antt =====
-- A list after copies of one element, taken from and dropped from.
use win_hook_audio.Prelude.{
  ℕ, zero, suc, ◌+◌, ◌-◌, ◌≤◌, ◌≡◌, refl, sym, ap, ap₂, ◌∙◌, inl, inr, List, [], ◌∷◌, ◌++◌, ltb,
  if◌then◌else◌, replicate, length, length-replicate, take, drop, drop-append, drop_all, take_all,
  arith, Bool-cases,
}

module _ {A : Type 0} where
  pub replicate-split : (m n : ℕ) (a : A) → replicate (m + n) a ≡ replicate m a ++ replicate n a
  replicate-split zero n a = let e : 0 + n ≡ n = omega arith in rw e refl
  replicate-split (suc m) n a =
      let e : suc m + n ≡ suc (m + n) = omega arith in
      rw e (ap (λ (xs : List A). a ∷ xs) (replicate-split m n a))

  pub drop-replicate : (k n : ℕ) (a : A) → drop k (replicate n a) ≡ replicate (n - k) a
  drop-replicate zero n a = let e : n - 0 ≡ n = omega arith in rw e refl
  drop-replicate (suc k) zero a = let e : 0 - suc k ≡ 0 = omega arith in rw e refl
  drop-replicate (suc k) (suc n) a =
      let e : suc n - suc k ≡ n - k = omega arith in rw e (drop-replicate k n a)

  pub take-replicate : (k n : ℕ) (a : A) → k ≤ n → take k (replicate n a) ≡ replicate k a
  take-replicate zero n a h = refl
  take-replicate (suc k) zero a h = absurd (omega arith)
  take-replicate (suc k) (suc n) a h =
      ap (λ (xs : List A). a ∷ xs) (take-replicate k n a (omega arith))

  pub take-replicate_less :
      (k n : ℕ) (a : A) → take k (replicate n a) ≡ replicate (if ltb k n then k else n) a
  take-replicate_less k n a = elim (Bool-cases (ltb k n)) [
    | inl e ↦ rw e (take-replicate k n a (ground arith))
    | inr e ↦ rw e (take_all k (replicate n a) (ground (arith, length-replicate n a)))
  ]

  pub take-append :
      (k : ℕ) (xs ys : List A) → take k (xs ++ ys) ≡ take k xs ++ take (k - length xs) ys
  take-append zero xs ys = let e : 0 - length xs ≡ 0 = omega arith in rw e refl
  take-append (suc k) [] ys = let e : suc k - 0 ≡ suc k = omega arith in rw e refl
  take-append (suc k) (x ∷ xs) ys =
      let e : suc k - suc (length xs) ≡ k - length xs = omega arith in
      rw e (ap (λ (zs : List A). x ∷ zs) (take-append k xs ys))

  pub drop-padded :
      (n due : ℕ) (quiet : A) (es : List A)
      → drop n (replicate due quiet ++ es) ≡ replicate (due - n) quiet ++ drop (n - due) es
  drop-padded n due quiet es =
      drop-append n (replicate due quiet) es
      ∙ ap₂ (λ (xs : List A) (k : ℕ). xs ++ drop (n - k) es) (drop-replicate n due quiet)
          (length-replicate due quiet)

  -- A drop past the end is a drop of all there is.
  pub drop-capped :
      (k c : ℕ) (es : List A) → length es ≡ c → drop (if ltb c k then c else k) es ≡ drop k es
  drop-capped k c es len = elim (Bool-cases (ltb c k)) [
    | inl e ↦ rw e (drop_all c es (omega arith) ∙ sym (drop_all k es (ground arith)))
    | inr e ↦ rw e refl
  ]
