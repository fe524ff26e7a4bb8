-- ===== src/Json/Lengths.antt =====
-- common/WHASlotsJson.h: how much text the readers and the loop over the members leave. A parser that
-- leaves no more than it was given, on fuel that exceeds the text, does not run out.
pub mod Readers
pub mod Parts
use win_hook_audio.Prelude.{
  ℕ, zero, suc, ◌%◌, ◌≤◌, ◌<◌, ◌≡◌, refl, sym, ap, ◌∙◌, inl, inr, Bool, true, false, ◌||◌, Option,
  none, some, List, [], ◌∷◌, ◌++◌, ◌==◌, drop, length, length-drop, if◌then◌else◌, if_both,
  if_cases, Bool-cases, arith, ltb,
}
use Prim.Native.String.{String}
use win_hook_audio.Table.Text.{Chars}
use win_hook_audio.Config.Yaml.{read_hex}
use win_hook_audio.Json.{
  Reader, Round, closed, appended, stopped, skip_ws, starts, expect, escape_unicode,
  escape_sequence, string_round, string_rounds, parse_string, quote, comma, rbrace, is_space,
  is_digit, past_digits, past_sign, past_exponent, past_float, with_rest, parse_uint, parse_int,
  parse_bool, parse_float, colon, backslash,
}
use win_hook_audio.Json.Objects.{
  Result, ok, failed, out_of_fuel, Parser, bind, lift, ◌>>=◌, or_fail, Messages, key_value,
  separated, members, object, blanks, fail,
}

-- A result that leaves fewer than `n` bytes, if it leaves any.
pub data Within {A : Type 0} (n : ℕ) : Result A → Type 0 where
  within : {a : A} {rest : Chars} → length rest < n → Within n (ok a rest)
  refused : {e : String} → Within n (failed e)

pub Within-weaken : {A : Type 0} {n m : ℕ} {r : Result A} → Within n r → n ≤ m → Within m r
Within-weaken (within h) le = within (omega arith)
Within-weaken refused le = refused

pub Within-bind :
    {A B : Type 0} {n m : ℕ} {r : Result A} {f : A → Parser B}
    → Within n r
    → ((a : A) (rest : Chars) → length rest < n → Within m (f a rest))
    → Within m (bind r f)
Within-bind (within {a} {rest} h) k = k a rest h
Within-bind refused k = refused

-- A parser that leaves no more than it is given.
pub record Keeps {A : Type 0} (p : Parser A) : Type 0 where
  pub keeps : (s : Chars) → Within (suc (length s)) (p s)

-- A reader that leaves less than it is given, and one that leaves no more.
pub record LeavesLess {A : Type 0} (read : Reader A) : Type 0 where
  pub less : (s : Chars) (e : String) → Within (length s) (lift e (read s))

pub record LeavesNoMore {A : Type 0} (read : Reader A) : Type 0 where
  pub no_more : (s : Chars) (e : String) → Within (suc (length s)) (lift e (read s))

pub LeavesLess-LeavesNoMore : {A : Type 0} {read : Reader A} → LeavesLess read → LeavesNoMore read
LeavesLess-LeavesNoMore h = record { no_more = λ s e. Within-weaken (h.less s e) (omega arith) }

pub bind-Keeps :
    {A B : Type 0} {p : Parser A} {f : A → Parser B}
    → Keeps p
    → ((a : A) → Keeps (f a))
    → Keeps (p >>= f)
bind-Keeps hp hf = record {
  keeps = λ s. Within-bind (hp.keeps s) λ a rest h. Within-weaken ((hf a).keeps rest) h;
}

pub or_fail-Keeps :
    {A : Type 0} {read : Reader A} (e : String) → LeavesNoMore read → Keeps (or_fail e read)
or_fail-Keeps e h = record { keeps = λ s. h.no_more s e }

pub ok-Keeps : {A : Type 0} (a : A) → Keeps (ok a)
ok-Keeps a = record { keeps = λ s. within (omega arith) }

pub fail-Keeps : {A : Type 0} (e : String) → Keeps {A = A} (fail e)
fail-Keeps e = record { keeps = λ s. refused }

pub if-Keeps :
    {A : Type 0} (test : Bool) {p q : Parser A} → Keeps p → Keeps q → Keeps (if test then p else q)
if-Keeps true hp hq = hp
if-Keeps false hp hq = hq

pub length-skip_ws : (s : Chars) → length (skip_ws s) ≤ length s
unfolding skip_ws
length-skip_ws [] = omega arith
length-skip_ws (c ∷ s) = elim (Bool-cases (is_space c)) [
  | inl e ↦ rw e (omega (arith, length-skip_ws s))
  | inr e ↦ rw e (omega arith)
]

length-past_digits : (s : Chars) → length (past_digits s) ≤ length s
unfolding past_digits
length-past_digits [] = omega arith
length-past_digits (c ∷ s) = elim (Bool-cases (is_digit c)) [
  | inl e ↦ rw e (omega (arith, length-past_digits s))
  | inr e ↦ rw e (omega arith)
]

pub blanks-Keeps : Keeps blanks
unfolding blanks
blanks-Keeps = record { keeps = λ s. within (omega (arith, length-skip_ws s)) }

starts-length : (c : ℕ) (s : Chars) → starts c s ≡ true → length (drop 1 s) < length s
starts-length c [] h = absurd (ground arith)
starts-length c (d ∷ s) h = omega arith

pub expect-LeavesLess : (c : ℕ) → LeavesLess (expect c)
unfolding expect
expect-LeavesLess c = record {
  less = λ s e.
      if_cases (λ (o : Option (Unit {0} × Chars)). Within (length s) (lift e o))
        (starts c (skip_ws s))
        (λ h.
          let shorter = starts-length c (skip_ws s) h in
          let fewer = length-skip_ws s in
          let both : length (drop 1 (skip_ws s)) < length s = omega arith in within both)
        (λ h. refused);
}

-- A round of a string leaves fewer than `n` bytes, if it goes on.
pub data RoundWithin (n : ℕ) : Round → Type 0 where
  closed_within : {rest : Chars} → length rest < n → RoundWithin n (closed rest)
  appended_within : {c : ℕ} {rest : Chars} → length rest < n → RoundWithin n (appended c rest)
  stopped_within : RoundWithin n stopped

RoundWithin-weaken : {n : ℕ} {r : Round} → RoundWithin n r → RoundWithin (suc n) r
RoundWithin-weaken (closed_within h) = closed_within (omega arith)
RoundWithin-weaken (appended_within h) = appended_within (omega arith)
RoundWithin-weaken stopped_within = stopped_within

escape_unicode-RoundWithin : (s : Chars) → RoundWithin (suc (length s)) (escape_unicode s)
unfolding escape_unicode
escape_unicode-RoundWithin s =
    if_both (RoundWithin (suc (length s))) (ltb (length s) 4) stopped_within
      (elim (read_hex 4 0 s)
        as (λ o.
          RoundWithin (suc (length s))
            (elim o [ none ↦ stopped | some v ↦ appended (v % 256) (drop 4 s) ])) [
              | none ↦ stopped_within
              | some v ↦ appended_within (fewer 4)
            ])
  where
    fewer : (n : ℕ) → length (drop n s) < suc (length s)
    fewer n = omega (arith, length-drop n s)

escape_sequence-RoundWithin : (s : Chars) → RoundWithin (suc (length s)) (escape_sequence s)
unfolding escape_sequence
escape_sequence-RoundWithin [] = stopped_within
escape_sequence-RoundWithin (e ∷ s) =
    let plain : (c : ℕ) → RoundWithin (suc (length (e ∷ s))) (appended c s) =
      λ c. appended_within (omega arith) in
    let all = RoundWithin (suc (length (e ∷ s))) in
    if_both all ((e == quote) || (e == backslash) || (e == 47)) (plain e) (
      if_both all (e == 110) (plain 10) (
        if_both all (e == 114) (plain 13) (
          if_both all (e == 116) (plain 9) (
            if_both all (e == 117) (RoundWithin-weaken (escape_unicode-RoundWithin s))
              stopped_within))))

pub string_round-RoundWithin : (s : Chars) → RoundWithin (length s) (string_round s)
unfolding string_round
string_round-RoundWithin [] = stopped_within
string_round-RoundWithin (c ∷ s) =
    let all = RoundWithin (length (c ∷ s)) in
    if_both all (c == quote) (closed_within (omega arith))
      (if_both all (c == backslash) (escape_sequence-RoundWithin s) (appended_within (omega arith)))

rounds_step :
    (fuel : ℕ) (out s : Chars) (e : String)
    → ((later t : Chars) → Within (suc (length t)) (lift e (string_rounds fuel later t)))
    → {r : Round} → RoundWithin (length s) r
    → Within (suc (length s)) (
        lift e (elim r [
          | closed rest ↦ some (out, rest)
          | appended c rest ↦ string_rounds fuel (out ++ c ∷ []) rest
          | stopped ↦ none
        ]))
rounds_step fuel out s e ih (closed_within h) = within (omega arith)
rounds_step fuel out s e ih (appended_within {c} {rest} h) =
    Within-weaken (ih (out ++ c ∷ []) rest) (omega arith)
rounds_step fuel out s e ih stopped_within = refused

string_rounds-Within :
    (fuel : ℕ) (out s : Chars) (e : String)
    → Within (suc (length s)) (lift e (string_rounds fuel out s))
unfolding string_rounds
string_rounds-Within zero out s e = refused
string_rounds-Within (suc fuel) out s e =
    rounds_step fuel out s e (λ later t. string_rounds-Within fuel later t e)
      (string_round-RoundWithin s)

pub parse_string-LeavesLess : LeavesLess parse_string
unfolding parse_string
parse_string-LeavesLess = record {
  less = λ s e.
      if_cases (λ (o : Option (Chars × Chars)). Within (length s) (lift e o))
        (starts quote (skip_ws s))
        (λ h.
          let shorter = starts-length quote (skip_ws s) h in
          let fewer = length-skip_ws s in
          let t = drop 1 (skip_ws s) in
          Within-weaken (string_rounds-Within (length (skip_ws s)) [] t e) (omega arith))
        (λ h. refused);
}
