-- ===== src/Hardware/Resampler/Copy.antt =====
-- common/network/WHADriftResampler.h: the resampler at ratio 1.
use win_hook_audio.Prelude.{
  ℕ, zero, suc, ◌+◌, ◌-◌, ◌≤◌, ◌<◌, ◌≡◌, refl, sym, ap, ◌∙◌, true, false, Option, none, some, List,
  [], ◌∷◌, ◌++◌, append-nil, append_assoc, max, replicate, length-append, length-drop,
  take-append-drop, drop-drop, drop-append, ltb, get_or, drop, take, length, arith,
}
use win_hook_audio.Prelude.Int.{pos, pos_part}
use win_hook_audio.Hardware.Floats.{Floats, ◌⊕◌, ◌⊖◌, num}
use win_hook_audio.Hardware.Resampler.{
  Resampler, reset, put_first, output_frame, rounds, keep, process,
}

-- The entry at a place of a list begins the rest of it.
drop-get_or :
    {A : Type 0} (xs : List A) (d : A) (i : ℕ)
    → i < length xs
    → drop i xs ≡ get_or xs i d ∷ drop (suc i) xs
drop-get_or [] d i h = absurd (omega arith)
drop-get_or (x ∷ xs) d zero h = refl
drop-get_or (x ∷ xs) d (suc i) h = drop-get_or xs d i (omega arith)

-- Exact arithmetic on 0 and 1, which `double` has.
pub record UnitSteps {R : Type 0} (F : Floats R) : Type 0 where
  pub one_step : F.div (F.of_int (pos 1)) (F.of_int (pos 1)) ≡ F.of_int (pos 1)
  pub next : F.add (F.of_int (pos 0)) (F.of_int (pos 1)) ≡ F.of_int (pos 1)
  pub floor_one : F.floor (F.of_int (pos 1)) ≡ F.of_int (pos 1)
  pub cast_one : F.to_int (F.of_int (pos 1)) ≡ pos 1
  pub back : F.sub (F.of_int (pos 1)) (F.of_int (pos 1)) ≡ F.of_int (pos 0)
  pub at_zero : F.eq (F.of_int (pos 0)) (F.of_int (pos 0)) ≡ true

abbrev pub put_before : {A S : Type 0} → List A → Option (List A × S) → Option (List A × S)
put_before out none = none
put_before out (some (out', s)) = some (out ++ out', s)

abbrev pub after :
    {A S : Type 0} → Option (List A × S) → (S → Option (List A × S)) → Option (List A × S)
after none next = none
after (some (out, s)) next = put_before out (next s)

module _ {A : Type 0} where
  unfoldable pub joined : List (List A) → List A
  joined [] = []
  joined (block ∷ blocks) = block ++ joined blocks

  unfoldable pub longest : List (List A) → ℕ
  longest [] = 0
  longest (block ∷ blocks) = max (length block) (longest blocks)

module _ {R A : Type 0} ⦃F : Floats R⦄ ⦃G : Floats A⦄ (narrow : R → A) where
  -- Blocks one after the other.
  unfoldable pub process_all :
      ℕ → Resampler R A → List (List (List A)) → Option (List (List A) × Resampler R A)
  process_all fuel r [] = some ([], r)
  process_all fuel r (block ∷ blocks) =
      after (process narrow fuel r block (num 1)) (λ r'. process_all fuel r' blocks)

module _ {R A : Type 0} ⦃F : Floats R⦄ ⦃G : Floats A⦄ (narrow : R → A) (laws : UnitSteps F) where
  output_frame-zero :
      (r : Resampler R A) (hist : List (List A)) (place : ℕ)
      → output_frame narrow r hist place (num 0) ≡ get_or hist place []
  unfolding output_frame
  output_frame-zero r hist place = rw laws.at_zero refl

  rounds_more :
      (fuel place : ℕ) (r : Resampler R A) (hist out : List (List A)) (end : ℕ) (frac : R)
      → place + 8 < length hist
      → rounds narrow fuel r hist (num 1) (place + 1) (num 0) ≡ some (out, end, frac)
      → rounds narrow (suc fuel) r hist (num 1) place (num 0)
        ≡ some (get_or hist place [] ∷ out, end, frac)
  unfolding rounds
  rounds_more fuel place r hist out end frac h e =
      let more : ltb (place + 8) (length hist) ≡ true = ground arith in
      let w = num 0 ⊕ num 1 in
      ap
        (λ b. elim b [
          | true ↦ put_first (output_frame narrow r hist place (num 0)) (
              rounds narrow fuel r hist (num 1) (place + pos_part (F.to_int (F.floor w)))
                (w ⊖ F.floor w))
          | false ↦ some ([], place, num 0)
        ])
        more
      ∙ rw (laws.next, laws.floor_one, laws.cast_one, laws.back)
          (rw (output_frame-zero r hist place) (ap (put_first (get_or hist place [])) e))

  rounds_copy :
      (fuel n place : ℕ) (r : Resampler R A) (hist : List (List A))
      → length hist ≡ place + 8 + n
      → n < fuel
      → rounds narrow fuel r hist (num 1) place (num 0)
        ≡ some (take n (drop place hist), place + n, num 0)
  unfolding rounds
  rounds_copy zero n place r hist e h = absurd (omega arith)
  rounds_copy (suc fuel) zero place r hist e h =
      let done : ltb (place + 8) (length hist) ≡ false = ground arith in
      let stay : place + 0 ≡ place = omega arith in
      let w = num 0 ⊕ num 1 in
      ap
        (λ b. elim b [
          | true ↦ put_first (output_frame narrow r hist place (num 0)) (
              rounds narrow fuel r hist (num 1) (place + pos_part (F.to_int (F.floor w)))
                (w ⊖ F.floor w))
          | false ↦ some ([], place, num 0)
        ])
        done
      ∙ rw stay refl
  rounds_copy (suc fuel) (suc n) place r hist e h =
      let move : place + 1 + n ≡ place + suc n = omega arith in
      rounds_more fuel place r hist (take n (drop (place + 1) hist)) (place + 1 + n) (num 0)
        (omega arith) (rounds_copy fuel n (place + 1) r hist (omega arith) (omega arith))
      ∙ (let up : place + 1 ≡ suc place = omega arith in
          rw (drop-get_or hist [] place (omega arith), move) (rw up refl))

  -- One call at ratio 1, on a whole read position and a history of at least 15 frames: what it puts
  -- out and what it keeps past its read point are the history past it and the input.
  process_copy :
      (fuel : ℕ) (r : Resampler R A) (input : List (List A))
      → r.frac ≡ num 0
      → 15 ≤ length r.hist
      → length r.hist + length input < fuel
      → (out : List (List A)) × (r' : Resampler R A) × (process narrow fuel r input (num 1)
          ≡ some (out, r'))
        × (r'.frac ≡ num 0)
        × (length r'.hist ≡ 15)
        × (out ++ drop 7 r'.hist ≡ drop 7 r.hist ++ input)
  unfolding process keep
  process_copy fuel r input whole long enough =
      let hist = r.hist ++ input in
      let n = length hist - 15 in
      let total = length-append r.hist input in
      let copied = rounds_copy fuel n 7 r hist (omega arith) (omega arith) in
      let kept : 7 + n + 1 - 8 ≡ n = omega arith in
      let turn : n + 7 ≡ 7 + n = omega arith in
      let past : 7 - length r.hist ≡ 0 = omega arith in
      (
        take n (drop 7 hist),
        record r { hist = drop n hist; frac = num 0 },
        ap (λ s. keep r hist (rounds narrow fuel r hist s 7 r.frac)) laws.one_step
            ∙ ap (λ f. keep r hist (rounds narrow fuel r hist (num 1) 7 f)) whole
            ∙ ap (keep r hist) copied
            ∙ ap (λ k. some (take n (drop 7 hist), record r { hist = drop k hist; frac = num 0 }))
                kept,
        refl,
        omega (arith, length-drop n hist),
        ap (λ t. take n (drop 7 hist) ++ t)
              (drop-drop 7 n hist ∙ ap (λ k. drop k hist) turn ∙ sym (drop-drop n 7 hist))
            ∙ take-append-drop n (drop 7 hist)
            ∙ drop-append 7 r.hist input
            ∙ ap (λ k. drop 7 r.hist ++ drop k input) past,
      )

  process_all_delay :
      (fuel : ℕ) (r : Resampler R A) (blocks : List (List (List A)))
      → r.frac ≡ num 0
      → 15 ≤ length r.hist
      → length r.hist + 15 + longest blocks < fuel
      → (out : List (List A)) × (r' : Resampler R A) × (process_all narrow fuel r blocks
          ≡ some (out, r'))
        × (out ++ drop 7 r'.hist ≡ drop 7 r.hist ++ joined blocks)
  unfolding process_all joined longest
  process_all_delay fuel r [] whole long enough = ([], r, refl, sym (append-nil (drop 7 r.hist)))
  process_all_delay fuel r (block ∷ blocks) whole long enough =
      let (out, r', e, whole', long', split) = process_copy fuel r block whole long (omega arith) in
      let (out', r'', e', split') =
        process_all_delay fuel r' blocks whole' (omega arith) (omega arith) in
      (
        out ++ out',
        r'',
        ap (λ o. after o (λ s. process_all narrow fuel s blocks)) e ∙ ap (put_before out) e',
        append_assoc out out' (drop 7 r''.hist)
            ∙ ap (λ t. out ++ t) split'
            ∙ sym (append_assoc out (drop 7 r'.hist) (joined blocks))
            ∙ ap (λ t. t ++ joined blocks) split
            ∙ append_assoc (drop 7 r.hist) block (joined blocks),
      )

  -- At ratio 1, whatever the sizes of the blocks, a reset resampler delays: what it has put out and
  -- the frames it still holds past its read point are 9 frames of silence and then the input.
  pub process_all-reset :
      (fuel : ℕ) (r : Resampler R A) (channels : ℕ) (blocks : List (List (List A)))
      → 31 + longest blocks < fuel
      → (out : List (List A)) × (r' : Resampler R A) × (process_all narrow fuel
            (reset r channels)
            blocks
          ≡ some (out, r'))
        × (out ++ drop 7 r'.hist ≡ replicate 9 (replicate channels (num 0)) ++ joined blocks)
  unfolding reset
  process_all-reset fuel r channels blocks enough =
      process_all_delay fuel (reset r channels) blocks refl (omega arith) (omega arith)
