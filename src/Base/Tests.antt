-- ===== src/Base/Tests.antt =====
-- Boolean tests on numbers and texts, and the conditional of the source's `if` statements.
use Prim.Native.Nat.{ℕ, compare, Ordering}
use Prim.Native.String.{String}
use mathlib.Core.Path.{◌≡◌, refl}
use mathlib.Core.Logic.{◌≢◌, ◌⊎◌, inl, inr}
use mathlib.Core.Bool.{Bool, true, false, ◌&&◌}
use mathlib.Core.Option.{Option, none, some}
use text.Mathlib.Text.{◌==◌ as text_eq}
use text.Mathlib.TextEquality.{eq_iff}

-- The truth of a test, as a number comparison of Python.
abbrev pub ltb : ℕ → ℕ → Bool
ltb a b = elim (compare a b) [ Ordering.lt ↦ true | _ ↦ false ]

abbrev pub leb : ℕ → ℕ → Bool
leb a b = elim (compare a b) [ Ordering.gt ↦ false | _ ↦ true ]

infix 50 ◌==◌
abbrev pub ◌==◌ : String → String → Bool
a == b = text_eq a b

infix 1 if◌then◌else◌
abbrev pub if◌then◌else◌ {ℓ} : {A : Type ℓ} → Bool → A → A → A
if true then x else y = x
if false then x else y = y

-- A split on a computed value that keeps the equation.
pub Bool-cases : (b : Bool) → (b ≡ true) ⊎ (b ≡ false)
Bool-cases true = inl refl
Bool-cases false = inr refl

pub &&→× : (a b : Bool) → (a && b) ≡ true → (a ≡ true) × (b ≡ true)
&&→× true b h = (refl, h)
&&→× false b h = cc

pub Option-cases {ℓ} : {A : Type ℓ} (o : Option A) → (o ≡ none) ⊎ ((a : A) × (o ≡ some a))
Option-cases none = inl refl
Option-cases (some a) = inr (a, refl)

-- Comparison of texts decides equality.
pub ==→≡ : (a b : String) → (a == b) ≡ true → a ≡ b
==→≡ a b = (eq_iff a b).0

pub ≡→== : (a b : String) → a ≡ b → (a == b) ≡ true
≡→== a b = (eq_iff a b).1

pub ==_refl : (a : String) → (a == a) ≡ true
==_refl a = (eq_iff a a).1 refl

pub ≢→== : (a b : String) → a ≢ b → (a == b) ≡ false
≢→== a b h = elim (Bool-cases (a == b)) [ inl e ↦ absurd (h (==→≡ a b e)) | inr e ↦ e ]

pub String-cases : (a b : String) → (a ≡ b) ⊎ ((a ≢ b) × ((a == b) ≡ false))
String-cases a b = elim (Bool-cases (a == b)) [
  | inl e ↦ inl (==→≡ a b e)
  | inr e ↦ inr (λ p. cc (≡→== a b p), e)
]
