-- ===== src/Hardware/Floats.antt =====
-- The operations of `double` that the drift code uses, as an interface: the development takes no law
-- of floating-point arithmetic but those that a theorem names.
use win_hook_audio.Prelude.{ℕ, Bool, if◌then◌else◌}
use win_hook_audio.Prelude.Int.{ℤ, pos}

pub record Floats (R : Type 0) : Type 0 where
  pub add : R → R → R
  pub sub : R → R → R
  pub mul : R → R → R
  pub div : R → R → R
  pub neg : R → R
  pub lt : R → R → Bool
  pub le : R → R → Bool
  pub eq : R → R → Bool
  pub floor : R → R
  -- An integer as a `double`, and the cast back, which drops the fraction.
  pub of_int : ℤ → R
  pub to_int : R → ℤ
  -- The literal of value n / d.
  pub literal : ℕ → ℕ → R

module _ {R : Type 0} ⦃F : Floats R⦄ where
  infixl 65 ◌⊕◌ ◌⊖◌
  infixl 70 ◌⊗◌ ◌⊘◌
  infix 50 ◌≺◌ ◌≼◌
  abbrev pub ◌⊕◌ : R → R → R
  a ⊕ b = F.add a b

  abbrev pub ◌⊖◌ : R → R → R
  a ⊖ b = F.sub a b

  abbrev pub ◌⊗◌ : R → R → R
  a ⊗ b = F.mul a b

  abbrev pub ◌⊘◌ : R → R → R
  a ⊘ b = F.div a b

  abbrev pub ◌≺◌ : R → R → Bool
  a ≺ b = F.lt a b

  abbrev pub ◌≼◌ : R → R → Bool
  a ≼ b = F.le a b

  -- A whole number.
  abbrev pub num : ℕ → R
  num n = F.of_int (pos n)

  abbrev pub neg : R → R
  neg a = F.neg a

  -- `std::fabs`
  abbrev pub abs_float : R → R
  abs_float a = if a ≺ num 0 then neg a else a

  -- `std::clamp`
  abbrev pub clamp_float : R → R → R → R
  clamp_float a lo hi = if a ≺ lo then lo else if hi ≺ a then hi else a
