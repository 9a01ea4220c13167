-- ===== src/Base/Results.antt =====
-- Steps that give a result, and tests that come out as they should.
use mathlib.Core.Path.{◌≡◌, refl}
use mathlib.Core.Bool.{Bool, true, false}
use mathlib.Core.Option.{Option, some}
use cheetah.Base.Tests.{if◌then◌else◌}
use cheetah.Base.Options.{◌>>=◌}

-- A step that has a result, and what holds of it.
pub data Passes {ℓ} {A : Type ℓ} (P : A → Type 0) : Option A → Type ℓ where
  passed : (a : A) → P a → Passes P (some a)

pub >>=-Passes {ℓ κ} :
    {A : Type ℓ} {B : Type κ} {P : A → Type 0} {Q : B → Type 0} {r : Option A} {f : A → Option B}
    → Passes P r
    → ((a : A) → P a → Passes Q (f a))
    → Passes Q (r >>= f)
>>=-Passes (passed a p) h = h a p

pub Passes-mono {ℓ} :
    {A : Type ℓ} {P Q : A → Type 0} {r : Option A} → Passes P r → ((a : A) → P a → Q a) → Passes Q r
Passes-mono (passed a p) h = passed a (h a p)

-- A step that passes has a result.
pub Passes-some {ℓ} :
    {A : Type ℓ} {P : A → Type 0} {r : Option A} → Passes P r → (a : A) × (r ≡ some a) × P a
Passes-some (passed a p) = (a, refl, p)

pub if_lem {ℓ} : {A : Type ℓ} (b : Bool) (x y : A) → b ≡ true → (if b then x else y) ≡ x
if_lem b x y e = rw e refl

pub else_lem {ℓ} : {A : Type ℓ} (b : Bool) (x y : A) → b ≡ false → (if b then x else y) ≡ y
else_lem b x y e = rw e refl
