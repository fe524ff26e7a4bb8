-- ===== src/Bridge/Delay.antt =====
-- common/WHABridgeShared.h: the delay of a Bridge client, in blocks.
use win_hook_audio.Prelude.{
  ℕ, zero, suc, ◌+◌, ◌-◌, ◌*◌, ◌/◌, ◌^◌, ◌≤◌, ◌<◌, ◌≡◌, refl, ap, false, ltb, ◌==◌, if◌then◌else◌,
  arith,
}
use native.Mathlib.Nat.{div-add-mod', div-le_self, mod-lt}
use win_hook_audio.Prelude.Words.{u32, sub32}
use win_hook_audio.Bridge.{bridge_delay_blocks}

unfoldable clamp : ℕ → ℕ
clamp delay = if ltb delay 2 then 2 else if ltb 5 delay then 5 else delay

bridge_delay_blocks-clamp :
    (b a : ℕ)
    → 0 < a
    → b + a < 2 ^ 32
    → (b + a - 1) / a ≤ b + a - 1
    → bridge_delay_blocks b a ≡ clamp (1 + (b + a - 1) / a)
unfolding bridge_delay_blocks clamp
bridge_delay_blocks-clamp b a positive small quotient =
    let e : (a == 0) ≡ false = ground arith in
    let f : sub32 (u32 (b + a)) 1 ≡ b + a - 1 = omega arith in
    let g : u32 (1 + (b + a - 1) / a) ≡ 1 + (b + a - 1) / a = omega arith in rw (e, f, g) refl

clamp_high : (n : ℕ) → 5 ≤ n → clamp (1 + n) ≡ 5
unfolding clamp
clamp_high n h = ground arith

clamp_bounds_high :
    (n q a b : ℕ)
    → n ≡ 5 + q
    → 0 < a
    → n * a ≤ b + a - 1
    → b + a - 1 < n * a + a
    → let d = clamp (1 + n) in
      (2 ≤ d) × (d ≤ 5) × (d < 5 → b ≤ (d - 1) * a) × (2 < d → (d - 2) * a < b)
clamp_bounds_high n q a b e positive lo hi =
    let scaled : n * a ≡ (5 + q) * a = ap (λ t. t * a) e in
    let expand : (5 + q) * a ≡ 5 * a + q * a = omega arith in
    rw (clamp_high n (omega arith)) (omega arith, omega arith, λ h. omega arith, λ h. omega arith)

clamp_bounds :
    (q a b : ℕ)
    → 0 < a
    → q * a ≤ b + a - 1
    → b + a - 1 < q * a + a
    → let d = clamp (1 + q) in
      (2 ≤ d) × (d ≤ 5) × (d < 5 → b ≤ (d - 1) * a) × (2 < d → (d - 2) * a < b)
unfolding clamp
clamp_bounds zero a b positive lo hi =
    (omega arith, omega arith, λ _. omega arith, λ h. omega arith)
clamp_bounds (suc zero) a b positive lo hi =
    (omega arith, omega arith, λ _. omega arith, λ h. omega arith)
clamp_bounds (suc (suc zero)) a b positive lo hi =
    (omega arith, omega arith, λ _. omega arith, λ h. omega arith)
clamp_bounds (suc (suc (suc zero))) a b positive lo hi =
    (omega arith, omega arith, λ _. omega arith, λ h. omega arith)
clamp_bounds (suc (suc (suc (suc zero)))) a b positive lo hi =
    (omega arith, omega arith, λ _. omega arith, λ h. omega arith)
clamp_bounds (suc (suc (suc (suc (suc q))))) a b positive lo hi =
    clamp_bounds_high (suc (suc (suc (suc (suc q))))) q a b (omega arith) positive lo hi

-- The delay is 2 to 5 blocks and, for sizes whose sum fits 32 bits, the least of those whose blocks
-- after the first hold the Bridge buffer, or 5 when none does.
pub bridge_delay_blocks_lem :
    (b a : ℕ)
    → 0 < a
    → b + a < 2 ^ 32
    → let d = bridge_delay_blocks b a in
      (2 ≤ d) × (d ≤ 5) × (d < 5 → b ≤ (d - 1) * a) × (2 < d → (d - 2) * a < b)
bridge_delay_blocks_lem b a positive small =
    rw (bridge_delay_blocks-clamp b a positive small (div-le_self (b + a - 1) a)) (
      clamp_bounds ((b + a - 1) / a) a b positive (omega (arith, div-add-mod' (b + a - 1) a))
        (omega (arith, div-add-mod' (b + a - 1) a, mod-lt (b + a - 1) positive)))
