-- ===== src/Json/Decimals.antt =====
-- common/WHASlotsJson.h: a decimal number without an exponent, read by `ParseFloat`.
use win_hook_audio.Prelude.{
  ℕ, ◌-◌, ◌≡◌, refl, ap, ap₂, ◌∙◌, true, Option, none, some, [], ◌∷◌, ◌++◌, take, drop, length,
  length-append, arith, append_assoc, if◌then◌else◌,
}
use win_hook_audio.Table.Text.{Chars}
use win_hook_audio.Json.{
  is_digit, skip_ws, starts, digits_of, past_digits, past_sign, past_float, past_exponent,
  parse_float, with_rest, comma,
}
use win_hook_audio.Json.Numbers.{
  all_digits, digits_of-append, digit_plain, first_digit, skip_ws-cons,
}

-- The text of a number that `%.6g` writes without an exponent: digits, or digits with a point and
-- digits after them.
pub data IsDecimalText : Chars → Type 0 where
  digits_only : (c : ℕ) (ds : Chars) → all_digits (c ∷ ds) ≡ true → IsDecimalText (c ∷ ds)
  with_point :
      (c : ℕ) (ds fs : Chars)
      → all_digits (c ∷ ds) ≡ true
      → all_digits fs ≡ true
      → IsDecimalText (c ∷ ds ++ 46 ∷ fs)

take-prefix : (xs ys : Chars) → take (length xs) (xs ++ ys) ≡ xs
take-prefix [] ys = refl
take-prefix (x ∷ xs) ys = ap (λ t. x ∷ t) (take-prefix xs ys)

prefix_taken : (xs ys : Chars) → take (length (xs ++ ys) - length ys) (xs ++ ys) ≡ xs
prefix_taken xs ys =
    ap (λ n. take n (xs ++ ys)) (omega (arith, length-append xs ys)) ∙ take-prefix xs ys

-- `past_float` once the whole digits are found.
abbrev past_point : Chars → Chars → Option Chars
past_point ds point =
    let fraction = if starts 46 point then drop 1 point else [] in
    let rest = if starts 46 point then past_digits fraction else point in
    elim (ds ++ digits_of fraction) [ [] ↦ none | c ∷ cs ↦ past_exponent rest ]

past_sign-digit : (c : ℕ) (s : Chars) → is_digit c ≡ true → past_sign (c ∷ s) ≡ c ∷ s
past_sign-digit c s d = let (space, minus, plus) = digit_plain c d in rw (minus, plus) refl

past_float-digits :
    (c : ℕ) (ds rest : Chars)
    → is_digit c ≡ true
    → past_float (c ∷ ds ++ rest)
      ≡ past_point (digits_of (c ∷ ds ++ rest)) (past_digits (c ∷ ds ++ rest))
unfolding past_float
past_float-digits c ds rest d =
    ap (λ w. past_point (digits_of w) (past_digits w)) (past_sign-digit c (ds ++ rest) d)

past_float-whole :
    (c : ℕ) (ds rest : Chars)
    → all_digits (c ∷ ds) ≡ true
    → past_float (c ∷ ds ++ comma ∷ rest) ≡ some (comma ∷ rest)
unfolding digits_of past_exponent
past_float-whole c ds rest all =
    let split = digits_of-append (c ∷ ds) (comma ∷ rest) all refl in
    past_float-digits c ds (comma ∷ rest) (first_digit c ds all)
    ∙ ap₂ past_point (split.0) (split.1)

past_float-point :
    (c : ℕ) (ds fs rest : Chars)
    → all_digits (c ∷ ds) ≡ true
    → all_digits fs ≡ true
    → past_float (c ∷ ds ++ (46 ∷ fs ++ comma ∷ rest)) ≡ some (comma ∷ rest)
unfolding digits_of past_digits past_exponent
past_float-point c ds fs rest all fall =
    let split = digits_of-append (c ∷ ds) (46 ∷ fs ++ comma ∷ rest) all refl in
    let later = digits_of-append fs (comma ∷ rest) fall refl in
    past_float-digits c ds (46 ∷ fs ++ comma ∷ rest) (first_digit c ds all)
    ∙ ap₂ past_point (split.0) (split.1)
    ∙ ap past_exponent (later.1)

past_float-decimal :
    (text rest : Chars)
    → IsDecimalText text
    → past_float (text ++ comma ∷ rest) ≡ some (comma ∷ rest)
past_float-decimal _ rest (digits_only c ds all) = past_float-whole c ds rest all
past_float-decimal _ rest (with_point c ds fs all fall) =
    ap past_float (append_assoc (c ∷ ds) (46 ∷ fs) (comma ∷ rest))
    ∙ past_float-point c ds fs rest all fall

skip_ws-decimal : (text rest : Chars) → IsDecimalText text → skip_ws (text ++ rest) ≡ text ++ rest
skip_ws-decimal _ rest (digits_only c ds all) =
    skip_ws-cons c (ds ++ rest) ((digit_plain c (first_digit c ds all)).0)
skip_ws-decimal _ rest (with_point c ds fs all fall) =
    skip_ws-cons c ((ds ++ 46 ∷ fs) ++ rest) ((digit_plain c (first_digit c ds all)).0)

-- ParseFloat takes such a text up to a comma and hands it to stof.
pub parse_float-decimal :
    {Quality : Type 0} (stof : Chars → Option Quality) (text rest : Chars)
    → IsDecimalText text
    → parse_float stof (text ++ comma ∷ rest) ≡ with_rest (stof text) (comma ∷ rest)
unfolding parse_float
parse_float-decimal {Quality} stof text rest d =
    ap read (skip_ws-decimal text (comma ∷ rest) d)
    ∙ ap found (past_float-decimal text rest d)
    ∙ ap (λ w. with_rest (stof w) (comma ∷ rest)) (prefix_taken text (comma ∷ rest))
  where
    whole_text : Chars
    whole_text = text ++ comma ∷ rest

    token : Chars → Chars → Option (Quality × Chars)
    token t r = with_rest (stof (take (length t - length r) t)) r

    read : Chars → Option (Quality × Chars)
    read t = elim (past_float t) [ none ↦ none | some r ↦ token t r ]

    found : Option Chars → Option (Quality × Chars)
    found o = elim o [ none ↦ none | some r ↦ token whole_text r ]
