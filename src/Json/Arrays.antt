-- ===== src/Json/Arrays.antt =====
-- common/WHASlotsJson.h: lists filled in order by the loops over JSON arrays.
use win_hook_audio.Prelude.{
  ℕ, zero, suc, ◌+◌, ◌≤◌, ◌<◌, ◌≡◌, refl, sym, ap, ap₂, ◌∙◌, List, [], ◌∷◌, take, drop, set, get_or,
  replicate, length, arith,
}

module _ {A : Type 0} where
  -- `n` values from place `i` on.
  abbrev pub from : (ℕ → A) → ℕ → ℕ → List A
  from f zero i = []
  from f (suc n) i = f i ∷ from f n (suc i)

  pub from-suc : (f : ℕ → A) (n i : ℕ) → from f n (suc i) ≡ from (λ j. f (suc j)) n i
  from-suc f zero i = refl
  from-suc f (suc n) i = ap (λ t. f (suc i) ∷ t) (from-suc f n (suc i))

  pub from-get_or : (xs : List A) (d : A) → from (λ i. get_or xs i d) (length xs) 0 ≡ xs
  from-get_or [] d = refl
  from-get_or (x ∷ xs) d =
      ap (λ t. x ∷ t) (from-suc (λ i. get_or (x ∷ xs) i d) (length xs) 0 ∙ from-get_or xs d)

  pub length-from : (f : ℕ → A) (n i : ℕ) → length (from f n i) ≡ n
  length-from f zero i = refl
  length-from f (suc n) i = ap suc (length-from f n (suc i))

  -- `n` values stored from place `i` on.
  abbrev pub set_from : List A → (ℕ → A) → ℕ → ℕ → List A
  set_from xs f zero i = xs
  set_from xs f (suc n) i = set_from (set xs i (f i)) f n (suc i)

  set_from-cons :
      (y : A) (ys : List A) (f : ℕ → A) (n i : ℕ)
      → set_from (y ∷ ys) f n (suc i) ≡ y ∷ set_from ys (λ j. f (suc j)) n i
  set_from-cons y ys f zero i = refl
  set_from-cons y ys f (suc n) i = set_from-cons y (set ys i (f (suc i))) f n (suc i)

  -- A list whose places from `n` on hold what was there before is stored whole.
  pub set_from-get_or :
      (xs ys : List A) (d : A) (n : ℕ)
      → length ys ≡ length xs
      → drop n xs ≡ drop n ys
      → n ≤ length xs
      → set_from ys (λ i. get_or xs i d) n 0 ≡ xs
  set_from-get_or xs ys d zero l same le = sym same
  set_from-get_or [] ys d (suc n) l same le = absurd (omega arith)
  set_from-get_or (x ∷ xs) [] d (suc n) l same le = absurd (omega arith)
  set_from-get_or (x ∷ xs) (y ∷ ys) d (suc n) l same le =
      set_from-cons x ys (λ i. get_or (x ∷ xs) i d) n 0
      ∙ ap (λ t. x ∷ t) (set_from-get_or xs ys d n (omega arith) same (omega arith))

  -- A store in a list kept as its first `k` places and the rest.
  pub take-set_below :
      (k : ℕ) (xs : List A) (i : ℕ) (v : A)
      → i < k
      → (take k (set xs i v) ≡ set (take k xs) i v) × (drop k (set xs i v) ≡ drop k xs)
  take-set_below zero xs i v h = absurd (omega arith)
  take-set_below (suc k) [] i v h = (refl, refl)
  take-set_below (suc k) (x ∷ xs) zero v h = (refl, refl)
  take-set_below (suc k) (x ∷ xs) (suc i) v h =
      let ih = take-set_below k xs i v (omega arith) in (ap (λ t. x ∷ t) (ih.0), ih.1)

  pub take-set_above :
      (k : ℕ) (xs : List A) (j : ℕ) (v : A)
      → (take k (set xs (k + j) v) ≡ take k xs) × (drop k (set xs (k + j) v) ≡ set (drop k xs) j v)
  take-set_above zero xs j v = let e : 0 + j ≡ j = omega arith in (refl, ap (λ i. set xs i v) e)
  take-set_above (suc k) [] j v = (refl, refl)
  take-set_above (suc k) (x ∷ xs) j v =
      let e : suc k + j ≡ suc (k + j) = omega arith in
      let ih = take-set_above k xs j v in
      (
        ap (λ i. take (suc k) (set (x ∷ xs) i v)) e ∙ ap (λ t. x ∷ t) (ih.0),
        ap (λ i. drop (suc k) (set (x ∷ xs) i v)) e ∙ ih.1,
      )

  pub get_or-take :
      (k : ℕ) (xs : List A) (i : ℕ) (d : A) → i < k → get_or (take k xs) i d ≡ get_or xs i d
  get_or-take zero xs i d h = absurd (omega arith)
  get_or-take (suc k) [] i d h = refl
  get_or-take (suc k) (x ∷ xs) zero d h = refl
  get_or-take (suc k) (x ∷ xs) (suc i) d h = get_or-take k xs i d (omega arith)

module _ {A : Type 0} where
  pub set-set : (xs : List A) (i : ℕ) (v w : A) → set (set xs i v) i w ≡ set xs i w
  set-set [] i v w = refl
  set-set (x ∷ xs) zero v w = refl
  set-set (x ∷ xs) (suc i) v w = ap (λ t. x ∷ t) (set-set xs i v w)

  pub set_from-cong :
      (xs : List A) (f g : ℕ → A) (n i : ℕ)
      → ((j : ℕ) → j < i + n → f j ≡ g j)
      → set_from xs f n i ≡ set_from xs g n i
  set_from-cong xs f g zero i h = refl
  set_from-cong xs f g (suc n) i h =
      ap (λ v. set_from (set xs i v) f n (suc i)) (h i (omega arith))
      ∙ set_from-cong (set xs i (g i)) f g n (suc i) (λ j lt. h j (omega arith))

module _ {A : Type 0} where
  pub get_or-replicate : (n : ℕ) (x : A) (i : ℕ) → get_or (replicate n x) i x ≡ x
  get_or-replicate zero x i = refl
  get_or-replicate (suc n) x zero = refl
  get_or-replicate (suc n) x (suc i) = get_or-replicate n x i

  pub get_or-replicate_within : (n : ℕ) (x d : A) (i : ℕ) → i < n → get_or (replicate n x) i d ≡ x
  get_or-replicate_within zero x d i h = absurd (omega arith)
  get_or-replicate_within (suc n) x d zero h = refl
  get_or-replicate_within (suc n) x d (suc i) h = get_or-replicate_within n x d i (omega arith)

module _ {A : Type 0} where
  pub replicate-get_or :
      (xs : List A) (x d : A)
      → ((i : ℕ) → i < length xs → get_or xs i d ≡ x)
      → xs ≡ replicate (length xs) x
  replicate-get_or [] x d h = refl
  replicate-get_or (y ∷ ys) x d h =
      ap₂ ◌∷◌ (h 0 (omega arith)) (replicate-get_or ys x d (λ i lt. h (suc i) (omega arith)))

  -- From place `n` on a list holds one value.
  pub drop-const :
      (n : ℕ) (xs : List A) (x d : A)
      → ((i : ℕ) → n ≤ i → i < length xs → get_or xs i d ≡ x)
      → drop n xs ≡ drop n (replicate (length xs) x)
  drop-const zero xs x d h = replicate-get_or xs x d (λ i lt. h i (omega arith) lt)
  drop-const (suc n) [] x d h = refl
  drop-const (suc n) (y ∷ ys) x d h =
      drop-const n ys x d (λ i le lt. h (suc i) (omega arith) (omega arith))
