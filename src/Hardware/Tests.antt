-- ===== src/Hardware/Tests.antt =====
-- asio-master/HwInputFifo.h, HwOutputFifo.h and the common headers they use: the model on concrete
-- inputs, with whole numbers for `double`.
mod Inputs
mod Outputs
mod Pacer
use win_hook_audio.Prelude.{
  ℕ, suc, ◌+◌, ◌-◌, ◌*◌, ◌/◌, ◌≡◌, refl, inl, inr, Bool, true, false, List, [], ◌∷◌, ◌++◌, arith,
  if◌then◌else◌, replicate, leb, drop, length, ◌≤◌, some, Option,
}
use win_hook_audio.Prelude.Int.{
  ℤ, pos, negsuc, ltb_ℤ, eq_ℤ, sub_ℕ, pos_part, neg_part, ◌+ℤ◌, ◌-ℤ◌, ◌*ℤ◌,
}
use win_hook_audio.Hardware.Floats.{Floats}
use win_hook_audio.Hardware.Drift
use win_hook_audio.Hardware.Drift.{DriftParams, DriftControl, default_params}
use win_hook_audio.Hardware.Drift.Engage.{
  observe, new_target, run-IsClamped, run-AtRest, IsClamped, Ends, AtRest, Still, no_times,
  one_more, observations,
}
use win_hook_audio.Hardware.Resampler.{Resampler}
use win_hook_audio.Hardware.Resampler
use win_hook_audio.Hardware.Drift.Engage
use win_hook_audio.Hardware.Resampler.Copy.{
  process_all, process_all-reset, UnitSteps, joined, longest,
}

-- A quotient that drops the fraction.
unfoldable pub div_ℤ : ℤ → ℤ → ℤ
div_ℤ (pos a) (pos b) = pos (a / b)
div_ℤ (pos a) (negsuc b) = sub_ℕ 0 (a / suc b)
div_ℤ (negsuc a) (pos b) = sub_ℕ 0 (suc a / b)
div_ℤ (negsuc a) (negsuc b) = pos (suc a / suc b)

-- Whole numbers, a literal rounded up.
instance abbrev pub whole : Floats ℤ
whole = record {
  add = λ a b. a +ℤ b;
  sub = λ a b. a -ℤ b;
  mul = λ a b. a *ℤ b;
  div = div_ℤ;
  neg = λ a. sub_ℕ (neg_part a) (pos_part a);
  lt = ltb_ℤ;
  le = λ a b. leb (pos_part a + neg_part b) (pos_part b + neg_part a);
  eq = eq_ℤ;
  floor = λ a. a;
  of_int = λ a. a;
  to_int = λ a. a;
  literal = λ n d. pos ((n + d - 1) / d);
}

-- The loop with the length of time that has to pass a whole second.
abbrev pub params : DriftParams ℤ
params = record {
  fill_tau_sec = pos 1;
  kp = pos 2;
  ki = pos 1;
  max_ppm = pos 3000000;
  deadband = pos 96;
  engage_sec = pos 1;
}

reset-IsClamped : IsClamped (pos 3000000) (Drift.reset (pos 480) (pos 48000) params)
unfolding Drift.reset
reset-IsClamped = record { limit = refl; ratio = inl refl }

clamp-Ends : Ends (pos 3000000)
unfolding ◌*ℤ◌
clamp-Ends = record { low = refl; high = refl; apart = refl }

run-IsClamped_example : IsClamped (pos 3000000) (
    Engage.run
      (Drift.reset (pos 480) (pos 48000) params)
      (observe (pos 960) (pos 2) ∷ new_target (pos 512) (pos 96) ∷ observe (pos 9600) (pos 2) ∷ []))
run-IsClamped_example =
    run-IsClamped (Drift.reset (pos 480) (pos 48000) params) (pos 3000000)
      (observe (pos 960) (pos 2) ∷ new_target (pos 512) (pos 96) ∷ observe (pos 9600) (pos 2) ∷ [])
      clamp-Ends reset-IsClamped

unmoved : (a : ℤ) → pos 480 +ℤ pos 0 *ℤ a ≡ pos 480
unfolding ◌+ℤ◌ ◌*ℤ◌
unmoved a = ground arith

params-AtRest : AtRest (pos 480) params
unfolding ◌-ℤ◌
params-AtRest = record { no_error = refl; inside = refl; not_yet = refl }

run-AtRest_example :
    Engage.run
      (Drift.reset (pos 480) (pos 48000) params)
      (observations (pos 480) (pos 1 ∷ pos 2 ∷ []))
    ≡ Drift.reset (pos 480) (pos 48000) params
run-AtRest_example =
    run-AtRest (pos 480) (pos 48000) params (pos 1 ∷ pos 2 ∷ []) params-AtRest
      (one_more (pos 1) (unmoved _) (one_more (pos 2) (unmoved _) no_times))

whole_steps : UnitSteps whole
unfolding ◌-ℤ◌ ◌+ℤ◌ div_ℤ
whole_steps = record {
  one_step = refl;
  next = refl;
  floor_one = refl;
  cast_one = refl;
  back = refl;
  at_zero = refl;
}

abbrev resampler : Resampler ℤ ℤ
resampler = record { table = []; hist = []; channels = 1; frac = pos 0 }

abbrev inputs : List (List (List ℤ))
inputs = ((pos 5 ∷ []) ∷ (pos 6 ∷ []) ∷ []) ∷ ((pos 7 ∷ []) ∷ []) ∷ []

process_all-reset_example :
    (out : List (List ℤ)) × (r' : Resampler ℤ ℤ) × (process_all
        (λ (x : ℤ). x)
        40
        (Resampler.reset resampler 1)
        inputs
      ≡ some (out, r'))
    × (out ++ drop 7 r'.hist ≡ replicate 9 (pos 0 ∷ []) ++ joined inputs)
unfolding longest
process_all-reset_example =
    process_all-reset (λ (x : ℤ). x) whole_steps 40 resampler 1 inputs (omega arith)
