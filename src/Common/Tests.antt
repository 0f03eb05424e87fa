-- ===== src/Common/Tests.antt =====
-- Boolean tests on numbers and texts, the conditional, and the case splits that keep an equation.
use Prim.Native.Nat.{ℕ, compare, Ordering}
use Prim.Native.String.{String}
use mathlib.Core.Path.{◌≡◌, refl}
use mathlib.Core.Logic.{◌⊎◌, inl, inr}
use mathlib.Core.Bool.{Bool, true, false, ◌&&◌, ◌||◌}
use mathlib.Core.Option.{Option, none, some}
use native.Mathlib.Omega.{arith}
use text.Mathlib.Text.{◌==◌}
use text.Mathlib.TextEquality.{eq_iff}

abbrev pub ltb : ℕ → ℕ → Bool
ltb a b = elim (compare a b) [ Ordering.lt ↦ true | _ ↦ false ]

abbrev pub leb : ℕ → ℕ → Bool
leb a b = elim (compare a b) [ Ordering.gt ↦ false | _ ↦ true ]

abbrev pub eqb : ℕ → ℕ → Bool
eqb a b = elim (compare a b) [ Ordering.eq ↦ true | _ ↦ false ]

infix 1 if◌then◌else◌
abbrev pub if◌then◌else◌ {ℓ} : {A : Type ℓ} → Bool → A → A → A
if true then x else y = x
if false then x else y = y

pub Bool-cases : (b : Bool) → (b ≡ true) ⊎ (b ≡ false)
Bool-cases true = inl refl
Bool-cases false = inr refl

pub Option-cases {ℓ} : {A : Type ℓ} (o : Option A) → (o ≡ none) ⊎ ((a : A) × (o ≡ some a))
Option-cases none = inl refl
Option-cases (some a) = inr (a, refl)

pub &&-left : (a b : Bool) → (a && b) ≡ true → a ≡ true
&&-left a b h = ground arith

pub &&-right : (a b : Bool) → (a && b) ≡ true → b ≡ true
&&-right a b h = ground arith

pub ||-left : (a b : Bool) → (a || b) ≡ false → a ≡ false
||-left a b h = ground arith

pub ||-right : (a b : Bool) → (a || b) ≡ false → b ≡ false
||-right a b h = ground arith

pub false-of-ne_true : (b : Bool) → ¬ (b ≡ true) → b ≡ false
false-of-ne_true true h = absurd (h refl)
false-of-ne_true false h = refl

-- Equality of texts, as a test and as a path.
pub ==-path : (s t : String) → (s == t) ≡ true → s ≡ t
==-path s t = (eq_iff s t).0

pub ==_of_path : (s t : String) → s ≡ t → (s == t) ≡ true
==_of_path s t = (eq_iff s t).1

pub ==-false : (s t : String) → ¬ (s ≡ t) → (s == t) ≡ false
==-false s t h = false-of-ne_true (s == t) (λ e. h ((eq_iff s t).0 e))

pub true_ne_false : ¬ (true ≡ false)
true_ne_false h = cc h

-- What holds in both cases holds of the conditional, and of the split on an optional value.
pub if-both {ℓ ℓ'} :
    {A : Type ℓ} (P : A → Type ℓ') (b : Bool) (x y : A) → P x → P y → P (if b then x else y)
if-both P true x y hx hy = hx
if-both P false x y hx hy = hy

pub elim-both {ℓ ℓ' ℓ''} :
    {A : Type ℓ} {B : Type ℓ'} (P : B → Type ℓ'') (o : Option A) (x : B) (f : A → B)
    → P x
    → ((a : A) → P (f a))
    → P (elim o [ none ↦ x | some a ↦ f a ])
elim-both P none x f hx hf = hx
elim-both P (some a) x f hx hf = hf a
