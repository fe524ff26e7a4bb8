-- ===== src/Prelude/Circular.antt =====
-- A FIFO in a circular array: the frames from an index on, and writing just past them. The index is
-- not reduced, so a window moves by addition; the code's reduced index names the same window.
use win_hook_audio.Prelude.{
  ℕ, zero, suc, ◌+◌, ◌-◌, ◌%◌, ◌≤◌, ◌<◌, ◌≡◌, refl, sym, ap, ap₂, subst, ◌∙◌, ◌≢◌, List, [], ◌∷◌,
  ◌++◌, arith, length, get_or, set, drop, take, length-set, append-nil, append_assoc,
  get_or-set_self, get_or-set_ne,
}
use native.Mathlib.Nat.{mod-add-mod, mod-mod, add-zero}

-- Two indices less than a turn apart are different places.
pub mod-ne : (cap a b : ℕ) → a < b → b < a + cap → a % cap ≢ b % cap
mod-ne cap a b h k e = grind arith

module _ {ℓ} {A : Type ℓ} (d : A) (cap : ℕ) where
  -- The `n` entries from index `h` on, round the end of the array.
  unfoldable pub window : List A → ℕ → ℕ → List A
  window buf h zero = []
  window buf h (suc n) = get_or buf (h % cap) d ∷ window buf (h + 1) n

  pub length-window : (buf : List A) (h n : ℕ) → length (window buf h n) ≡ n
  unfolding window
  length-window buf h zero = refl
  length-window buf h (suc n) = ap suc (length-window buf (h + 1) n)

  pub window-cong : (buf : List A) (h k n : ℕ) → h % cap ≡ k % cap → window buf h n ≡ window buf k n
  unfolding window
  window-cong buf h k zero e = refl
  window-cong buf h k (suc n) e =
      ap₂ (λ i t. get_or buf i d ∷ t) e
        (window-cong buf (h + 1) (k + 1) n
          (sym (mod-add-mod h cap 1) ∙ ap (λ t. (t + 1) % cap) e ∙ mod-add-mod k cap 1))

  -- The index may be reduced.
  pub window-mod : (buf : List A) (h n : ℕ) → window buf (h % cap) n ≡ window buf h n
  window-mod buf h n = window-cong buf (h % cap) h n (grind arith)

  pub drop-window :
      (buf : List A) (k h n : ℕ) → drop k (window buf h n) ≡ window buf (h + k) (n - k)
  unfolding window
  drop-window buf zero h n = ap₂ (window buf) (omega arith) (omega arith)
  drop-window buf (suc k) h zero = let e : 0 ≡ 0 - suc k = omega arith in rw (← e)
  drop-window buf (suc k) h (suc n) =
      drop-window buf k (h + 1) n ∙ ap₂ (window buf) (omega arith) (omega arith)

  pub take-window : (buf : List A) (k h n : ℕ) → k ≤ n → take k (window buf h n) ≡ window buf h k
  unfolding window
  take-window buf zero h n le = refl
  take-window buf (suc k) h zero le = absurd (omega arith)
  take-window buf (suc k) h (suc n) le =
      ap (λ t. get_or buf (h % cap) d ∷ t) (take-window buf k (h + 1) n (omega arith))

  -- A write at a place outside the window leaves the window.
  window-set_ne :
      (buf : List A) (p : ℕ) (x : A) (h n : ℕ)
      → h + n ≤ p
      → p < h + cap
      → window (set buf (p % cap) x) h n ≡ window buf h n
  unfolding window
  window-set_ne buf p x h zero a b = refl
  window-set_ne buf p x h (suc n) a b =
      ap₂ ◌∷◌ (get_or-set_ne buf x d (λ e. mod-ne cap h p (omega arith) (omega arith) (sym e)))
        (window-set_ne buf p x (h + 1) n (omega arith) (omega arith))

  window-snoc :
      (buf : List A) (h n : ℕ)
      → window buf h (suc n) ≡ window buf h n ++ (get_or buf ((h + n) % cap) d ∷ [])
  unfolding window
  window-snoc buf h zero = rw add-zero
  window-snoc buf h (suc n) =
      ap (λ t. get_or buf (h % cap) d ∷ t)
        (window-snoc buf (h + 1) n
          ∙ ap (λ i. window buf (h + 1) n ++ (get_or buf (i % cap) d ∷ [])) (omega arith))

  -- Writing just past a window extends it.
  pub window-set :
      (buf : List A) (x : A) (h n : ℕ)
      → cap ≤ length buf
      → n < cap
      → window (set buf ((h + n) % cap) x) h (suc n) ≡ window buf h n ++ (x ∷ [])
  window-set buf x h n a b =
      window-snoc (set buf ((h + n) % cap) x) h n
      ∙ ap₂ (λ w y. w ++ (y ∷ [])) (window-set_ne buf (h + n) x h n (omega arith) (omega arith))
          (get_or-set_self buf ((h + n) % cap) x d (omega arith))

  -- Writing a list from index `p` on, one entry after the other.
  unfoldable pub put_all : List A → ℕ → List A → List A
  put_all buf p [] = buf
  put_all buf p (x ∷ xs) = put_all (set buf (p % cap) x) (p + 1) xs

  pub length-put_all : (buf : List A) (p : ℕ) (xs : List A) → length (put_all buf p xs) ≡ length buf
  unfolding put_all
  length-put_all buf p [] = refl
  length-put_all buf p (x ∷ xs) =
      length-put_all (set buf (p % cap) x) (p + 1) xs ∙ length-set buf (p % cap) x

  pub put_all-cong :
      (buf : List A) (p q : ℕ) (xs : List A)
      → p % cap ≡ q % cap
      → put_all buf p xs ≡ put_all buf q xs
  unfolding put_all
  put_all-cong buf p q [] e = refl
  put_all-cong buf p q (x ∷ xs) e =
      ap (λ i. put_all (set buf i x) (p + 1) xs) e
      ∙ put_all-cong (set buf (q % cap) x) (p + 1) (q + 1) xs
          (sym (mod-add-mod p cap 1) ∙ ap (λ t. (t + 1) % cap) e ∙ mod-add-mod q cap 1)

  -- The index may be reduced.
  pub put_all-mod :
      (buf : List A) (p : ℕ) (xs : List A) → put_all buf (p % cap) xs ≡ put_all buf p xs
  unfolding put_all
  put_all-mod buf p xs = put_all-cong buf (p % cap) p xs (mod-mod p cap)

  pub window-put_all :
      (xs buf : List A) (h n p : ℕ)
      → cap ≤ length buf
      → p ≡ h + n
      → n + length xs ≤ cap
      → window (put_all buf p xs) h (n + length xs) ≡ window buf h n ++ xs
  unfolding put_all
  window-put_all [] buf h n p a e b = rw (add-zero, append-nil)
  window-put_all (x ∷ xs) buf h n p a e b =
      let buf' = set buf (p % cap) x in
      let moved : n + suc (length xs) ≡ suc n + length xs = omega arith in
      let first : window buf' h (suc n) ≡ window buf h n ++ (x ∷ []) =
        subst (λ q. window (set buf (q % cap) x) h (suc n) ≡ window buf h n ++ (x ∷ [])) (sym e)
          (window-set buf x h n a (omega arith)) in
      ap (window (put_all buf' (p + 1) xs) h) moved
      ∙ window-put_all xs buf' h (suc n) (p + 1) (omega (arith, length-set buf (p % cap) x))
          (omega arith) (omega arith)
      ∙ ap (λ w. w ++ xs) first
      ∙ append_assoc (window buf h n) (x ∷ []) xs

  pub window-append :
      (buf : List A) (h m n : ℕ) → window buf h (m + n) ≡ window buf h m ++ window buf (h + m) n
  unfolding window
  window-append buf h zero n = ap₂ (window buf) (h-zero h) (zero-n n)
    where
      h-zero : (h : ℕ) → h ≡ h + 0
      h-zero h = omega arith

      zero-n : (n : ℕ) → 0 + n ≡ n
      zero-n n = omega arith
  window-append buf h (suc m) n =
      let e : suc m + n ≡ suc (m + n) = omega arith in
      let e' : h + 1 + m ≡ h + suc m = omega arith in
      rw e (
        ap (λ t. get_or buf (h % cap) d ∷ t)
          (window-append buf (h + 1) m n ∙ ap (λ q. window buf (h + 1) m ++ window buf q n) e'))

  pub put_all-append :
      (buf : List A) (p : ℕ) (xs ys : List A)
      → put_all buf p (xs ++ ys) ≡ put_all (put_all buf p xs) (p + length xs) ys
  unfolding put_all
  put_all-append buf p [] ys = let e : p + 0 ≡ p = omega arith in rw e
  put_all-append buf p (x ∷ xs) ys =
      let e : p + 1 + length xs ≡ p + suc (length xs) = omega arith in
      put_all-append (set buf (p % cap) x) (p + 1) xs ys
      ∙ ap (λ q. put_all (put_all (set buf (p % cap) x) (p + 1) xs) q ys) e

  pub get_or-window :
      (buf : List A) (h n i : ℕ)
      → i < n
      → get_or (window buf h n) i d ≡ get_or buf ((h + i) % cap) d
  unfolding window
  get_or-window buf h zero i lt = absurd (omega arith)
  get_or-window buf h (suc n) zero lt = rw add-zero
  get_or-window buf h (suc n) (suc i) lt =
      let e : h + 1 + i ≡ h + suc i = omega arith in
      get_or-window buf (h + 1) n i (omega arith) ∙ ap (λ p. get_or buf (p % cap) d) e
