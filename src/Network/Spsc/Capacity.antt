-- ===== src/Network/Spsc/Capacity.antt =====
-- The rounding loop of `allocate`: where it ends, and where it does not.
use native.Mathlib.Nat.{pow-suc}
use win_hook_audio.Prelude.{
  ℕ, zero, suc, ◌+◌, ◌*◌, ◌^◌, ◌≤◌, ◌<◌, ◌≡◌, ◌≢◌, refl, ◌∙◌, true, none, some, ltb, inl, inr,
  Bool-cases, arith, ltb→lt, lt→ltb, ltb_false→le,
}
use win_hook_audio.Prelude.Words.{u32}
use win_hook_audio.Prelude.Bits.{pow2_mono}
use native.Mathlib.Decide.{ℕ_discrete}
use win_hook_audio.Network.Spsc.{round_up}

pow2_31 : (k : ℕ) → k ≡ 31 → 2 ^ k ≡ 2 ^ 31
pow2_31 k e = rw e

round_up_next :
    (fuel k frames : ℕ)
    → ltb (2 ^ k) frames ≡ true
    → u32 (2 ^ k * 2) ≡ 2 ^ suc k
    → round_up (suc fuel) (2 ^ k) frames ≡ round_up fuel (2 ^ suc k) frames
unfolding round_up
round_up_next fuel k frames t next = rw (t, next)

round_up_from :
    (fuel k frames : ℕ)
    → k ≤ 31
    → 31 < fuel + k
    → frames ≤ 2 ^ 31
    → 2 ^ k < 2 * frames
    → (j : ℕ) × (round_up fuel (2 ^ k) frames ≡ some (2 ^ j))
      × (j ≤ 31)
      × (frames ≤ 2 ^ j)
      × (2 ^ j < 2 * frames)
unfolding round_up
round_up_from zero k frames a b c d = absurd (omega arith)
round_up_from (suc fuel) k frames a b c d = elim (Bool-cases (ltb (2 ^ k) frames)) [
  | inl t ↦
      let small = ltb→lt (2 ^ k) frames t in
      let ne : k ≢ 31 = λ e. absurd (omega (arith, pow2_31 k e)) in
      let next : u32 (2 ^ k * 2) ≡ 2 ^ suc k = omega (arith, pow-suc 2 k) in
      let (j, e, a', b', c') =
        round_up_from fuel (suc k) frames (omega arith) (omega arith) c
          (omega (arith, pow-suc 2 k)) in
      (j, round_up_next fuel k frames t next ∙ e, a', b', c')
  | inr t ↦ (k, rw t, a, ltb_false→le (2 ^ k) frames t, d)
]

-- For 1 to 2^31 frames the loop ends within 32 rounds, at the least power of two that holds them.
pub round_up_lem :
    (frames : ℕ)
    → 0 < frames
    → frames ≤ 2 ^ 31
    → (j : ℕ) × (round_up 32 1 frames ≡ some (2 ^ j))
      × (j ≤ 31)
      × (frames ≤ 2 ^ j)
      × (2 ^ j < 2 * frames)
round_up_lem frames pos h = round_up_from 32 0 frames (omega arith) (omega arith) h (omega arith)

round_up_zero : (fuel frames : ℕ) → 0 < frames → round_up fuel 0 frames ≡ none
unfolding round_up
round_up_zero zero frames h = refl
round_up_zero (suc fuel) frames h =
    let t : ltb 0 frames ≡ true = ground arith in rw t (round_up_zero fuel frames h)

round_up_over_from :
    (fuel k frames : ℕ) → k ≤ 31 → 2 ^ 31 < frames → round_up fuel (2 ^ k) frames ≡ none
unfolding round_up
round_up_over_from zero k frames a h = refl
round_up_over_from (suc fuel) k frames a h =
    let p = pow2_mono k 31 a in
    let t : ltb (2 ^ k) frames ≡ true = lt→ltb (2 ^ k) frames (omega arith) in
    elim (ℕ_discrete k 31) [
      | yes e ↦
          let z : u32 (2 ^ k * 2) ≡ 0 = omega (arith, pow2_31 k e) in
          rw (t, z) (round_up_zero fuel frames (omega arith))
      | no ne ↦
          let p' = pow2_mono (suc k) 31 (omega arith) in
          let next : u32 (2 ^ k * 2) ≡ 2 ^ suc k = omega (arith, pow-suc 2 k) in
          rw (t, next) (round_up_over_from fuel (suc k) frames (omega arith) h)
    ]

-- For more than 2^31 frames the loop never ends: the shift wraps to 0, and stays there.
pub round_up_over : (fuel frames : ℕ) → 2 ^ 31 < frames → round_up fuel 1 frames ≡ none
round_up_over fuel frames h = round_up_over_from fuel 0 frames (omega arith) h
