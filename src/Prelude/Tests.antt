-- ===== src/Prelude/Tests.antt =====
-- Boolean tests on the native numbers, the conditional, and case splits on computed values.
use Prim.Native.Nat.{ℕ, compare, Ordering}
use mathlib.Core.Path.{◌≡◌, refl}
use mathlib.Core.Logic.{◌⊎◌, inl, inr, ◌≢◌}
use mathlib.Core.Option.{Option, none, some}
use mathlib.Core.Bool.{Bool, true, false}
use native.Mathlib.Omega.{arith}

abbrev pub ltb : ℕ → ℕ → Bool
ltb a b = elim (compare a b) [ Ordering.lt ↦ true | _ ↦ false ]

infix 50 ◌==◌
abbrev pub ◌==◌ : ℕ → ℕ → Bool
a == b = elim (compare a b) [ Ordering.eq ↦ true | _ ↦ false ]

infix 1 if◌then◌else◌
abbrev pub if◌then◌else◌ {ℓ} : {A : Type ℓ} → Bool → A → A → A
if true then x else y = x
if false then x else y = y

abbrev pub to_nat : Bool → ℕ
to_nat true = 1
to_nat false = 0

pub ==_refl : (a : ℕ) → (a == a) ≡ true
==_refl a = ground arith

pub ==_true : {a b : ℕ} → a ≡ b → (a == b) ≡ true
==_true h = ground arith

pub ==_false : {a b : ℕ} → a ≢ b → (a == b) ≡ false
==_false h = ground arith

pub ==→eq : {a b : ℕ} → (a == b) ≡ true → a ≡ b
==→eq h = ground arith

pub ==→ne : {a b : ℕ} → (a == b) ≡ false → a ≢ b
==→ne h = ground arith

pub Bool-cases : (b : Bool) → (b ≡ true) ⊎ (b ≡ false)
Bool-cases true = inl refl
Bool-cases false = inr refl

-- how a node counts itself
pub to_nat_self : (a : ℕ) → to_nat (a == a) ≡ 1
to_nat_self a = ground arith

pub to_nat_eq : {a b : ℕ} → a ≡ b → to_nat (a == b) ≡ 1
to_nat_eq h = ground arith

pub to_nat_ne : {a b : ℕ} → a ≢ b → to_nat (a == b) ≡ 0
to_nat_ne h = ground arith

pub Option-cases {ℓ} : {A : Type ℓ} (o : Option A) → (o ≡ none) ⊎ ((a : A) × (o ≡ some a))
Option-cases none = inl refl
Option-cases (some a) = inr (a, refl)
