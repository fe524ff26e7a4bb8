-- ===== src/Prelude/Bits.antt =====
-- Masking with a power of two less one is a remainder.
use Prim.Native.Nat.{bit_and, digits, bit_and-bitwise}
use native.Mathlib.Nat.{pow-suc}
use win_hook_audio.Prelude.{
  ℕ, zero, suc, ◌+◌, ◌-◌, ◌*◌, ◌/◌, ◌%◌, ◌^◌, ◌≤◌, ◌<◌, min, ◌≡◌, ap, ap₂, ◌∙◌, arith,
}

pub pow2_pos : (k : ℕ) → 0 < 2 ^ k
pow2_pos zero = omega arith
pow2_pos (suc k) = omega (arith, pow2_pos k, pow-suc 2 k)

pub pow2_mono : (k m : ℕ) → k ≤ m → 2 ^ k ≤ 2 ^ m
pow2_mono zero m h = pow2_pos m
pow2_mono (suc k) zero h = absurd (omega arith)
pow2_mono (suc k) (suc m) h = omega (arith, pow2_mono k m (omega arith), pow-suc 2 k, pow-suc 2 m)

-- The lowest digit of a remainder apart.
mod_double : (p n : ℕ) → 0 < p → n / 2 % p * 2 + n % 2 ≡ n % (2 * p)
mod_double p n h = grind arith

mask_digits : (f k a : ℕ) → a ≤ f → digits (λ _. zero) min f a (2 ^ k - 1) ≡ a % 2 ^ k
mask_digits zero k zero h = grind arith
mask_digits zero k (suc a) h = absurd (omega arith)
mask_digits (suc f) k zero h = grind arith
mask_digits (suc f) zero (suc a) h =
    let ih = mask_digits f zero (suc a / 2) (omega arith) in omega (arith, ih)
mask_digits (suc f) (suc k) (suc a) h =
    let p : 0 < 2 ^ k = pow2_pos k in
    let eb : (2 ^ suc k - 1) / 2 ≡ 2 ^ k - 1 = omega (arith, pow-suc 2 k) in
    let em : (2 ^ suc k - 1) % 2 ≡ 1 = omega (arith, pow-suc 2 k) in
    let ih = mask_digits f k (suc a / 2) (omega arith) in
    ap₂ (λ x y. digits (λ _. zero) min f (suc a / 2) x * 2 + min (suc a % 2) y) eb em
    ∙ ap (λ t. t * 2 + min (suc a % 2) 1) ih
    ∙ ap (λ t. suc a / 2 % 2 ^ k * 2 + t) (omega arith)
    ∙ mod_double (2 ^ k) (suc a) p
    ∙ ap (λ t. suc a % t) (omega (arith, pow-suc 2 k))

pub bit_and_mask : (k a : ℕ) → bit_and a (2 ^ k - 1) ≡ a % 2 ^ k
bit_and_mask k a = bit_and-bitwise a (2 ^ k - 1) ∙ mask_digits a k a (omega arith)
