-- ===== src/Json/Numbers.antt =====
-- common/WHASlotsJson.h: what `std::to_string` writes for a number is read back by `ParseUInt` and
-- `ParseInt`.
use win_hook_audio.Prelude.{
  ℕ, zero, suc, ◌+◌, ◌-◌, ◌*◌, ◌/◌, ◌%◌, ◌^◌, ◌<◌, ◌≡◌, refl, sym, ap, subst, ap₂, ◌∙◌, inl, inr,
  Bool, true, false, some, [], ◌∷◌, ◌++◌, ltb, leb, ◌==◌, Bool-cases, arith, if◌then◌else◌, if_both,
  if_cases, ltb_false→le,
}
use native.Mathlib.Nat.{pow-suc}
use win_hook_audio.Prelude.Int.{ℤ, pos, negsuc}
use win_hook_audio.Table.Text.{Chars}
use win_hook_audio.Table.Names.{digits, decimal}
use win_hook_audio.Json.{
  is_space, is_digit, skip_ws, starts, digits_of, past_digits, digits_value, stoul, parse_uint,
  stoi, parse_int, past_sign, with_rest, minus_ℕ,
}

-- Text that does not go on with a digit.
abbrev pub is_number_end : Chars → Bool
is_number_end [] = true
is_number_end (c ∷ s) = elim (is_digit c) [ true ↦ false | false ↦ true ]

-- Only digits, at least one.
abbrev pub all_digits : Chars → Bool
all_digits [] = true
all_digits (c ∷ s) = let rest = all_digits s in if is_digit c then rest else false

pub digits_of-append :
    (ds rest : Chars)
    → all_digits ds ≡ true
    → is_number_end rest ≡ true
    → (digits_of (ds ++ rest) ≡ ds) × (past_digits (ds ++ rest) ≡ rest)
unfolding digits_of past_digits
digits_of-append [] [] h e = (refl, refl)
digits_of-append [] (c ∷ s) h e = elim (Bool-cases (is_digit c)) [
  | inl d ↦ absurd (ground arith)
  | inr d ↦ rw d (refl, refl)
]
digits_of-append (c ∷ ds) rest h e = elim (Bool-cases (is_digit c)) [
  | inl d ↦ let ih = digits_of-append ds rest (rw (d) at h) e in rw d (ap (λ t. c ∷ t) (ih.0), ih.1)
  | inr d ↦ absurd (ground arith)
]

digit-is_digit : (n : ℕ) → is_digit (48 + n % 10) ≡ true
digit-is_digit n = ground arith

digits-all :
    (fuel n : ℕ) (acc : Chars) → all_digits acc ≡ true → all_digits (digits fuel n acc) ≡ true
unfolding digits
digits-all zero n acc h = h
digits-all (suc fuel) n acc h =
    let d = digit-is_digit n in
    let here : all_digits ((48 + n % 10) ∷ acc) ≡ true = rw d h in
    if_both (λ t. all_digits t ≡ true) (ltb n 10) here
      (digits-all fuel (n / 10) ((48 + n % 10) ∷ acc) here)

-- The digits of `n` before those of `acc` count as `n` does.
digits_value-digits :
    (fuel n : ℕ) (acc : Chars)
    → n < 10 ^ fuel
    → digits_value 0 (digits fuel n acc) ≡ digits_value n acc
unfolding digits digits_value
digits_value-digits zero n acc h = ap (λ v. digits_value v acc) (omega arith)
digits_value-digits (suc fuel) n acc h =
    if_cases (λ t. digits_value 0 t ≡ digits_value n acc) (ltb n 10)
      (λ e. ap (λ v. digits_value v acc) (small e))
      (λ e.
        digits_value-digits fuel (n / 10) ((48 + n % 10) ∷ acc) (fits e)
        ∙ ap (λ v. digits_value v acc) whole)
  where
    small : ltb n 10 ≡ true → 0 * 10 + (48 + n % 10 - 48) ≡ n
    small e = ground arith

    whole : n / 10 * 10 + (48 + n % 10 - 48) ≡ n
    whole = omega arith

    fits : ltb n 10 ≡ false → n / 10 < 10 ^ fuel
    fits e = omega (arith, pow-suc 10 fuel, ltb_false→le n 10 e)

-- Written digits start with one.
digits_some : (fuel n : ℕ) (acc : Chars) → (c : ℕ) × (s : Chars) × (digits (suc fuel) n acc ≡ c ∷ s)
unfolding digits
digits_some zero n acc =
    (48 + n % 10, acc, if_both (λ t. t ≡ (48 + n % 10) ∷ acc) (ltb n 10) refl refl)
digits_some (suc fuel) n acc =
    if_both (λ t. (c : ℕ) × (s : Chars) × (t ≡ c ∷ s)) (ltb n 10) (48 + n % 10, acc, refl)
      (digits_some fuel (n / 10) ((48 + n % 10) ∷ acc))

pub skip_ws-cons : (c : ℕ) (s : Chars) → is_space c ≡ false → skip_ws (c ∷ s) ≡ c ∷ s
unfolding skip_ws
skip_ws-cons c s e = rw e refl

pub first_digit : (c : ℕ) (s : Chars) → all_digits (c ∷ s) ≡ true → is_digit c ≡ true
first_digit c s h = elim (Bool-cases (is_digit c)) [ inl d ↦ d | inr d ↦ absurd (ground arith) ]

pub digit_plain :
    (c : ℕ) → is_digit c ≡ true → (is_space c ≡ false) × ((c == 45) ≡ false) × ((c == 43) ≡ false)
digit_plain c h = (ground arith, ground arith, ground arith)

stoul-value :
    (c : ℕ) (s : Chars) (v : ℕ) → digits_value 0 (c ∷ s) ≡ v → v < 2 ^ 32 → stoul (c ∷ s) ≡ some v
unfolding stoul
stoul-value c s v same h =
    if_cases (λ o. o ≡ some v) (ltb (digits_value 0 (c ∷ s)) (2 ^ 32)) (λ e. ap some same)
      (λ e. absurd (omega (arith, same, ltb_false→le (digits_value 0 (c ∷ s)) (2 ^ 32) e)))

parse_uint-digits :
    (c : ℕ) (s rest : Chars) (v : ℕ)
    → all_digits (c ∷ s) ≡ true
    → digits_value 0 (c ∷ s) ≡ v
    → v < 2 ^ 32
    → is_number_end rest ≡ true
    → parse_uint (c ∷ s ++ rest) ≡ some (v, rest)
unfolding parse_uint
parse_uint-digits c s rest v all same h e =
    let plain = digit_plain c (first_digit c s all) in
    let split = digits_of-append (c ∷ s) rest all e in
    ap (λ t. with_rest (stoul (digits_of t)) (past_digits t)) (skip_ws-cons c (s ++ rest) (plain.0))
    ∙ ap₂ (λ ds t. with_rest (stoul ds) t) (split.0) (split.1)
    ∙ ap (λ o. with_rest o rest) (stoul-value c s v same h)

-- The text of a number: digits that count as it does.
number_text :
    (n : ℕ)
    → n < 10 ^ 10
    → (c : ℕ) × (s : Chars) × (digits 10 n [] ≡ c ∷ s)
      × (all_digits (c ∷ s) ≡ true)
      × (digits_value 0 (c ∷ s) ≡ n)
unfolding digits_value
number_text n h =
    let (c, s, shape) = digits_some 9 n [] in
    (
      c,
      s,
      shape,
      subst (λ t. all_digits t ≡ true) shape (digits-all 10 n [] refl),
      ap (digits_value 0) (sym shape) ∙ digits_value-digits 10 n [] h,
    )

-- ParseUInt on the digits of a number below 2^32, with text after them that does not go on with a
-- digit, gives that number and leaves that text.
pub parse_uint-decimal :
    (n : ℕ) (rest : Chars)
    → n < 2 ^ 32
    → is_number_end rest ≡ true
    → parse_uint (decimal (pos n) ++ rest) ≡ some (n, rest)
unfolding decimal
parse_uint-decimal n rest h e =
    let (c, s, shape, all, same) = number_text n (omega arith) in
    ap (λ t. parse_uint (t ++ rest)) shape ∙ parse_uint-digits c s rest n all same h e

-- The text of a number starts with a digit.
pub decimal-digit :
    (n : ℕ) → n < 2 ^ 32 → (c : ℕ) × (s : Chars) × (decimal (pos n) ≡ c ∷ s) × (is_digit c ≡ true)
unfolding decimal
decimal-digit n h =
    let (c, s, shape, all, same) = number_text n (omega arith) in (c, s, shape, first_digit c s all)

stoi-pos :
    (c : ℕ) (s : Chars) (v : ℕ)
    → digits_value 0 (c ∷ s) ≡ v
    → v < 2 ^ 31
    → stoi false (c ∷ s) ≡ some (pos v)
unfolding stoi
stoi-pos c s v same h =
    if_cases (λ o. o ≡ some (pos v)) (ltb (digits_value 0 (c ∷ s)) (2 ^ 31))
      (λ e. ap (λ k. some (pos k)) same)
      (λ e. absurd (omega (arith, same, ltb_false→le (digits_value 0 (c ∷ s)) (2 ^ 31) e)))

leb_false→lt : (a b : ℕ) → leb a b ≡ false → b < a
leb_false→lt a b h = ground arith

stoi-neg :
    (c : ℕ) (s : Chars) (v : ℕ)
    → digits_value 0 (c ∷ s) ≡ suc v
    → v < 2 ^ 31
    → stoi true (c ∷ s) ≡ some (negsuc v)
unfolding stoi
stoi-neg c s v same h =
    if_cases (λ o. o ≡ some (negsuc v)) (leb (digits_value 0 (c ∷ s)) (2 ^ 31))
      (λ e. ap (λ k. some (minus_ℕ k)) same)
      (λ e. absurd (omega (arith, same, leb_false→lt (digits_value 0 (c ∷ s)) (2 ^ 31) e)))

-- An `int32_t`.
abbrev pub InInt32 : ℤ → Type 0
InInt32 (pos n) = n < 2 ^ 31
InInt32 (negsuc n) = n < 2 ^ 31

-- ParseInt on what was written for a number of 32 bits, with text after it that does not go on with a
-- digit, gives that number and leaves that text.
pub parse_int-decimal :
    (z : ℤ) (rest : Chars)
    → InInt32 z
    → is_number_end rest ≡ true
    → parse_int (decimal z ++ rest) ≡ some (z, rest)
unfolding decimal parse_int
parse_int-decimal (pos n) rest h e =
    let (c, s, shape, all, same) = number_text n (omega arith) in
    let (space, minus, plus) = digit_plain c (first_digit c s all) in
    let split = digits_of-append (c ∷ s) rest all e in
    ap (λ t. parse_int (t ++ rest)) shape
    ∙ ap (λ t. with_rest (stoi (starts 45 t) (digits_of (past_sign t))) (past_digits (past_sign t)))
        (skip_ws-cons c (s ++ rest) space)
    ∙ rw (minus, plus) (ap₂ (λ ds t. with_rest (stoi false ds) t) (split.0) (split.1))
    ∙ ap (λ o. with_rest o rest) (stoi-pos c s n same h)
parse_int-decimal (negsuc n) rest h e =
    let (c, s, shape, all, same) = number_text (suc n) (omega arith) in
    let split = digits_of-append (c ∷ s) rest all e in
    ap (λ t. parse_int (45 ∷ t ++ rest)) shape
    ∙ ap₂ (λ ds t. with_rest (stoi true ds) t) (split.0) (split.1)
    ∙ ap (λ o. with_rest o rest) (stoi-neg c s n same h)
