-- ===== src/Json/Lengths/Readers.antt =====
-- common/WHASlotsJson.h: how much text the readers of numbers and switches leave, and that the loop
-- over the members of an object makes its rounds within its fuel.
use win_hook_audio.Prelude.{
  ℕ, zero, suc, ◌-◌, ◌≤◌, ◌<◌, sym, subst, Bool, ◌||◌, Option, none, some, [], ◌∷◌, ◌++◌, take,
  drop, length, length-drop, if◌then◌else◌, if_both, if_cases, arith,
}
use Prim.Native.String.{String}
use win_hook_audio.Table.Text.{Chars, codes}
use win_hook_audio.Json.{
  eq_text, skip_ws, starts, comma, rbrace, digits_of, past_digits, past_sign, past_exponent,
  past_float, with_rest, stoul, stoi, parse_uint, parse_int, parse_bool, parse_float, colon,
}
use win_hook_audio.Json.Objects.{Parser, lift, Messages, key_value, separated, members, object}
use win_hook_audio.Json.Lengths.{
  Within, within, refused, Within-weaken, Within-bind, Keeps, LeavesNoMore, LeavesLess-LeavesNoMore,
  bind-Keeps, or_fail-Keeps, length-skip_ws, length-past_digits, expect-LeavesLess,
  parse_string-LeavesLess,
}

with_rest-Within :
    {A : Type 0} (n : ℕ) (o : Option A) (rest : Chars) (e : String)
    → length rest < n
    → Within n (lift e (with_rest o rest))
with_rest-Within n none rest e h = refused
with_rest-Within n (some a) rest e h = within h

pub parse_uint-LeavesNoMore : LeavesNoMore parse_uint
unfolding parse_uint
parse_uint-LeavesNoMore = record {
  no_more = λ s e.
      let t = skip_ws s in
      let fewer = length-skip_ws s in
      let past = length-past_digits t in
      with_rest-Within (suc (length s)) (stoul (digits_of t)) (past_digits t) e (omega arith);
}

length-past_sign : (s : Chars) → length (past_sign s) ≤ length s
length-past_sign s =
    if_both (λ (t : Chars). length t ≤ length s) (starts 45 s || starts 43 s) shorter same
  where
    shorter : length (drop 1 s) ≤ length s
    shorter = omega (arith, length-drop 1 s)

    same : length s ≤ length s
    same = omega arith

pub parse_int-LeavesNoMore : LeavesNoMore parse_int
unfolding parse_int
parse_int-LeavesNoMore = record {
  no_more = λ s e.
      let t = skip_ws s in
      let fewer = length-skip_ws s in
      let sign = length-past_sign t in
      let past = length-past_digits (past_sign t) in
      with_rest-Within (suc (length s)) (stoi (starts 45 t) (digits_of (past_sign t)))
        (past_digits (past_sign t)) e (omega arith);
}

pub parse_bool-LeavesNoMore : LeavesNoMore parse_bool
unfolding parse_bool
parse_bool-LeavesNoMore = record {
  no_more = λ s e.
      let t = skip_ws s in
      let all = λ (o : Option (Bool × Chars)). Within (suc (length s)) (lift e o) in
      let dropped : (n : ℕ) → length (drop n t) < suc (length s) =
        λ n. omega (arith, length-drop n t, length-skip_ws s) in
      if_both all (eq_text (take 4 t) (codes "true")) (within (dropped 4))
        (if_both all (eq_text (take 5 t) (codes "false")) (within (dropped 5)) refused);
}

-- A text that is left, if one is, is no longer than `n`.
abbrev NoLonger : ℕ → Option Chars → Type 0
NoLonger n none = Unit
NoLonger n (some rest) = length rest ≤ n

past_exponent-NoLonger : (s : Chars) → NoLonger (length s) (past_exponent s)
unfolding past_exponent
past_exponent-NoLonger s =
    let digits = past_sign (drop 1 s) in
    let past : length (past_digits digits) ≤ length s =
      omega (arith, length-drop 1 s, length-past_sign (drop 1 s), length-past_digits digits) in
    let same : length s ≤ length s = omega arith in
    if_both (NoLonger (length s)) (starts 101 s || starts 69 s)
      (elim (digits_of digits)
        as (λ ds.
          NoLonger (length s) (elim ds [ [] ↦ none | c ∷ cs ↦ some (past_digits digits) ])) [
            | [] ↦ tt
            | c ∷ cs ↦ past
          ])
      same

NoLonger-weaken : {n m : ℕ} (o : Option Chars) → NoLonger n o → n ≤ m → NoLonger m o
NoLonger-weaken none h le = tt
NoLonger-weaken (some rest) h le = omega arith

past_float-NoLonger : (s : Chars) → NoLonger (length s) (past_float s)
unfolding past_float
past_float-NoLonger s =
    let whole = past_sign s in
    let point = past_digits whole in
    let fraction = if starts 46 point then drop 1 point else [] in
    let rest =
      if starts 46 point
      then past_digits (if starts 46 point then drop 1 point else [])
      else point in
    let start : length point ≤ length s =
      omega (arith, length-past_sign s, length-past_digits whole) in
    let left : length rest ≤ length point =
      if_cases (λ (t : Chars). length t ≤ length point) (starts 46 point)
        (λ e.
          subst (λ b. length (past_digits (if b then drop 1 point else [])) ≤ length point) (sym e)
            (omega (arith, length-drop 1 point, length-past_digits (drop 1 point))))
        (λ e. omega arith) in
    elim (digits_of whole ++ digits_of fraction)
      as (λ ds. NoLonger (length s) (elim ds [ [] ↦ none | c ∷ cs ↦ past_exponent rest ])) [
        | [] ↦ tt
        | c ∷ cs ↦ NoLonger-weaken (past_exponent rest) (past_exponent-NoLonger rest) (omega arith)
      ]

module _ {Quality : Type 0} (stof : Chars → Option Quality) where
  float_found :
      (s t : Chars) (o : Option Chars) (e : String)
      → length t ≤ length s
      → NoLonger (length t) o
      → Within (suc (length s)) (
          lift e (elim o [
            | none ↦ none
            | some rest ↦ with_rest (stof (take (length t - length rest) t)) rest
          ]))
  float_found s t none e h left = refused
  float_found s t (some rest) e h left =
      with_rest-Within (suc (length s)) (stof (take (length t - length rest) t)) rest e
        (omega arith)

  pub parse_float-LeavesNoMore : LeavesNoMore (parse_float stof)
  unfolding parse_float
  parse_float-LeavesNoMore = record {
    no_more = λ s e.
        float_found s (skip_ws s) (past_float (skip_ws s)) e (length-skip_ws s)
          (past_float-NoLonger (skip_ws s));
  }

module _ {S : Type 0} (messages : Messages) (member : Chars → S → Parser S)
    (member_keeps : (key : Chars) (st : S) → Keeps (member key st)) where
  key_value-Within : (st : S) (s : Chars) → Within (length s) (key_value messages member st s)
  unfolding key_value
  key_value-Within st s = Within-bind (parse_string-LeavesLess.less s messages.no_key) λ key rest h.
      Within-weaken
        ((bind-Keeps
            (or_fail-Keeps messages.no_colon (LeavesLess-LeavesNoMore (expect-LeavesLess colon)))
            (λ _. member_keeps key st)).keeps
          rest)
        h

  -- Fuel that exceeds the text is enough for the loop.
  members-Within :
      (fuel : ℕ) (st : S) (s : Chars)
      → length s < fuel
      → Within (suc (length s)) (members messages member fuel st s)
  unfolding members separated
  members-Within zero st s h = absurd (omega arith)
  members-Within (suc fuel) st s h =
      let t = skip_ws s in
      let fewer = length-skip_ws s in
      if_both (Within (suc (length s))) (starts rbrace t) (within (done t (omega arith))) (
        Within-bind (key_value-Within st t) λ st' u lt.
          let v = skip_ws u in
          let w = if starts comma v then drop 1 v else v in
          let short : length w ≤ length u =
            if_both (λ (x : Chars). length x ≤ length u) (starts comma v)
              (shorter v (length u) (length-skip_ws u)) (length-skip_ws u) in
          if_both (Within (suc (length s))) (starts comma v || starts rbrace v)
            (Within-weaken (members-Within fuel st' w (omega arith)) (omega arith)) refused)
    where
      done : (t : Chars) → length t ≤ length s → length (drop 1 t) < suc (length s)
      done t le = omega (arith, length-drop 1 t)

      shorter : (v : Chars) (n : ℕ) → length v ≤ n → length (drop 1 v) ≤ n
      shorter v n le = omega (arith, length-drop 1 v)

  -- The loop over the members of an object ends before its fuel does.
  pub object-Keeps : (st : S) → Keeps (object messages member st)
  unfolding object
  object-Keeps st = record { keeps = λ s. members-Within (suc (length s)) st s (omega arith) }
