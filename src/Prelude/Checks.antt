-- ===== src/Prelude/Checks.antt =====
-- Validation as a chain of checks: the first that fails gives its error, and `none` is success.
use win_hook_audio.Prelude.{
  ℕ, zero, suc, ◌<◌, ◌≡◌, ◌↔◌, refl, Bool, true, false, Option, none, some, arith,
}

-- A check of a chain: where it fails, its error and nothing after it.
abbrev pub require : {E : Type 0} → Bool → E → Option E → Option E
require true error rest = rest
require false error rest = some error

pub require-passed :
    {E : Type 0} (test : Bool) (e : E) (rest : Option E)
    → require test e rest ≡ none
    → (test ≡ true) × (rest ≡ none)
require-passed true e rest h = (refl, h)
require-passed false e rest h = ground arith

pub require-pass :
    {E : Type 0} {test : Bool} (e : E) {rest : Option E}
    → test ≡ true
    → rest ≡ none
    → require test e rest ≡ none
require-pass e ht hr = rw (ht, hr) refl

-- The first error of two passes, and of a loop over the places below a number.
abbrev pub first_error : {E : Type 0} → Option E → Option E → Option E
first_error none rest = rest
first_error (some e) rest = some e

abbrev pub each : {E : Type 0} → ℕ → (ℕ → Option E) → Option E
each zero check = none
each (suc n) check = first_error (check 0) (each n (λ i. check (suc i)))

pub first_error-none :
    {E : Type 0} (o rest : Option E) → (first_error o rest ≡ none) ↔ ((o ≡ none) × (rest ≡ none))
first_error-none none rest = ((λ h. (refl, h)), λ (e, h). h)
first_error-none (some e) rest = ((λ h. ground arith), λ (e, h). ground arith)

pub each-none :
    {E : Type 0} (n : ℕ) (check : ℕ → Option E)
    → (each n check ≡ none) ↔ ((i : ℕ) → i < n → check i ≡ none)
each-none zero check = ((λ h i lt. absurd (omega arith)), λ h. refl)
each-none (suc n) check =
    let later = each-none n (λ i. check (suc i)) in
    let both = first_error-none (check 0) (each n (λ i. check (suc i))) in
    (
      (λ h. all (both.0 h).0 (later.0 (both.0 h).1)),
      λ h. both.1 (h 0 (omega arith), later.1 (λ i lt. h (suc i) (omega arith))),
    )
  where
    all :
        check 0 ≡ none
        → ((i : ℕ) → i < n → check (suc i) ≡ none)
        → (i : ℕ) → i < suc n
        → check i ≡ none
    all zeroth rest zero lt = zeroth
    all zeroth rest (suc i) lt = rest i (omega arith)

-- What a passed chain says, from what each of its checks says.
pub require_iff :
    {E P Q : Type 0} (test : Bool) (e : E) (rest : Option E)
    → (test ≡ true) ↔ P
    → (rest ≡ none) ↔ Q
    → (require test e rest ≡ none) ↔ (P × Q)
require_iff test e rest p q = (
  (λ h. (p.0 (require-passed test e rest h).0, q.0 (require-passed test e rest h).1)),
  λ (hp, hq). require-pass e (p.1 hp) (q.1 hq),
)

pub last_iff :
    {E P : Type 0} (test : Bool) (e : E) → (test ≡ true) ↔ P → (require test e none ≡ none) ↔ P
last_iff test e p =
    ((λ h. p.0 (require-passed test e none h).0), λ hp. require-pass e (p.1 hp) refl)

pub first_error_iff :
    {E P Q : Type 0} (o rest : Option E)
    → (o ≡ none) ↔ P
    → (rest ≡ none) ↔ Q
    → (first_error o rest ≡ none) ↔ (P × Q)
first_error_iff o rest p q =
    let both = first_error-none o rest in
    ((λ h. (p.0 (both.0 h).0, q.0 (both.0 h).1)), λ (hp, hq). both.1 (p.1 hp, q.1 hq))

pub each_iff :
    {E : Type 0} {P : ℕ → Type 0} (n : ℕ) (check : ℕ → Option E)
    → ((i : ℕ) → (check i ≡ none) ↔ P i)
    → (each n check ≡ none) ↔ ((i : ℕ) → i < n → P i)
each_iff n check p =
    let all = each-none n check in
    ((λ h i lt. (p i).0 (all.0 h i lt)), λ h. all.1 (λ i lt. (p i).1 (h i lt)))
