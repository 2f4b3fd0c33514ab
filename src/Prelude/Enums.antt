-- ===== src/Prelude/Enums.antt =====
-- A C enumeration: each constructor has a number, and `==` compares the numbers.
use Prim.Native.Nat.{ℕ}
use mathlib.Core.Path.{◌≡◌, sym, ap, ◌∙◌}
use mathlib.Core.Logic.{◌↔◌}
use mathlib.Core.Bool.{Bool, true}
use dbrew.Prelude.Tests.{◌==◌, ==_iff}

-- `of_code` is only used to show that no two constructors share a number.
pub record Enum (A : Type 0) : Type 0 where
  pub code : A → ℕ
  pub of_code : ℕ → A
  pub of_code-code : (a : A) → of_code (code a) ≡ a

infix 50 ◌is◌
abbrev pub ◌is◌ : {A : Type 0} ⦃e : Enum A⦄ → A → A → Bool
◌is◌ ⦃e⦄ a b = e.code a == e.code b

pub is_iff : {A : Type 0} ⦃e : Enum A⦄ (a b : A) → ((a is b) ≡ true) ↔ (a ≡ b)
is_iff ⦃e⦄ a b = (
  λ h. sym (e.of_code-code a) ∙ ap e.of_code ((==_iff _ _).0 h) ∙ e.of_code-code b,
  λ h. (==_iff _ _).1 (ap e.code h),
)
