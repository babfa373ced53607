-- ===== src/Base/Options.antt =====
-- Whether an optional value is there.
use mathlib.Core.Path.{◌≡◌, refl, ap}
use mathlib.Core.Logic.{◌≢◌}
use mathlib.Core.Bool.{Bool, true, false}
use mathlib.Core.Option.{Option, none, some}
use native.Mathlib.Omega.{arith}

abbrev pub is_some : {A : Type 0} → Option A → Bool
is_some none = false
is_some (some a) = true

pub witness_of : {A : Type 0} (o : Option A) → is_some o ≡ true → (a : A) × (o ≡ some a)
witness_of none h = absurd (ground (arith, h))
witness_of (some a) h = (a, refl)

pub some_injective : {A : Type 0} {a b : A} → some a ≡ some b → a ≡ b
some_injective {a = a} p = ap (λ o. elim o [ none ↦ a | some x ↦ x ]) p

pub none_ne_some : {A : Type 0} {a : A} → none ≢ some a
none_ne_some h = absurd (ground (arith, h))
