-- ===== src/Hardware/Resampler.antt =====
-- common/network/WHADriftResampler.h: the variable-ratio resampler. `hist` is the list of its frames
-- (`histFrames_` is its length); the filter table that `buildTable` fills with sinc values is a field.
pub mod Copy
use win_hook_audio.Prelude.{
  ℕ, zero, suc, ◌+◌, ◌-◌, ◌*◌, Bool, true, false, Option, none, some, List, [], ◌∷◌, ◌++◌, ltb,
  if◌then◌else◌, get_or, drop, replicate, tabulate, length,
}
use win_hook_audio.Prelude.Int.{ℤ, pos, pos_part}
use win_hook_audio.Hardware.Floats.{Floats, ◌⊕◌, ◌⊖◌, ◌⊗◌, ◌⊘◌, num}

abbrev pub k_taps : ℕ
k_taps = 16

abbrev pub k_half : ℕ
k_half = 8

abbrev pub k_phases : ℕ
k_phases = 256

-- `R` is `double`, and `A` is `float`.
module _ (R A : Type 0) where
  pub record Resampler : Type 0 where
    pub table : List A
    pub hist : List (List A)
    pub channels : ℕ
    pub frac : R

-- A frame put out before those of the later rounds.
abbrev pub put_first :
    {A R : Type 0} → List A → Option (List (List A) × ℕ × R) → Option (List (List A) × ℕ × R)
put_first f none = none
put_first f (some (out, place, frac)) = some (f ∷ out, place, frac)

module _ {R A : Type 0} where
  -- Dropping the frames that no later output can touch.
  unfoldable pub keep :
      Resampler R A
      → List (List A)
      → Option (List (List A) × ℕ × R)
      → Option (List (List A) × Resampler R A)
  keep r hist none = none
  keep r hist (some (out, place, frac)) =
      some (out, record r { hist = drop (place + 1 - k_half) hist; frac = frac })

module _ {R A : Type 0} ⦃F : Floats R⦄ ⦃G : Floats A⦄ where
  unfoldable pub reset : Resampler R A → ℕ → Resampler R A
  reset r channels = record r {
    channels = channels;
    hist = replicate k_taps (replicate channels (num 0));
    frac = num 0;
  }

module _ {R A : Type 0} ⦃F : Floats R⦄ ⦃G : Floats A⦄ (narrow : R → A) where
  -- The inner loop over the taps: the sum of the first `n` products.
  unfoldable pub tap_sum : List A → ℕ → A → (ℕ → A) → ℕ → A
  tap_sum table ph t sample zero = num 0
  tap_sum table ph t sample (suc k) =
      let c0 = get_or table (ph * k_taps + k) (num 0) in
      let c1 = get_or table ((ph + 1) * k_taps + k) (num 0) in
      tap_sum table ph t sample k ⊕ (c0 ⊕ t ⊗ (c1 ⊖ c0)) ⊗ sample k

  -- One output frame, at `place` frames into the history and the fraction past it.
  unfoldable pub output_frame : Resampler R A → List (List A) → ℕ → R → List A
  unfolding tap_sum
  output_frame r hist place frac =
      let p = frac ⊗ num k_phases in
      let ph = F.to_int p in
      let t = narrow (p ⊖ F.of_int ph) in
      let first = place + 1 - k_half in
      if F.eq frac (num 0)
      then get_or hist place []
      else tabulate r.channels λ c.
        tap_sum r.table (pos_part ph) t (λ k. get_or (get_or hist (first + k) []) c (num 0)) k_taps

  -- The loop of `process`: the frames put out, and where it ends; `none` when `fuel` runs out.
  unfoldable pub rounds :
      ℕ → Resampler R A → List (List A) → R → ℕ → R → Option (List (List A) × ℕ × R)
  unfolding output_frame
  rounds zero r hist step place frac = none
  rounds (suc fuel) r hist step place frac =
      let next = frac ⊕ step in
      let whole = F.floor next in
      elim (ltb (place + k_half) (length hist)) [
        | true ↦
            put_first (output_frame r hist place frac)
              (rounds fuel r hist step (place + pos_part (F.to_int whole)) (next ⊖ whole))
        | false ↦ some ([], place, frac)
      ]

  -- `process(in, frames, ratio, out)`, the frames that it appends to `out`.
  unfoldable pub process :
      ℕ → Resampler R A → List (List A) → R → Option (List (List A) × Resampler R A)
  unfolding rounds keep
  process fuel r input ratio =
      let hist = r.hist ++ input in
      keep r hist (rounds fuel r hist (num 1 ⊘ ratio) (k_half - 1) r.frac)
