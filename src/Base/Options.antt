-- ===== src/Base/Options.antt =====
-- Chains of steps that may fail, or whose fuel may run out.
use mathlib.Core.Path.{◌≡◌}
use mathlib.Core.Option.{Option, none, some}

infixl 5 ◌>>=◌
abbrev pub ◌>>=◌ {ℓ κ} : {A : Type ℓ} {B : Type κ} → Option A → (A → Option B) → Option B
none >>= f = none
some a >>= f = f a

pub some_eq {ℓ} : {A : Type ℓ} {a b : A} → some a ≡ some b → a ≡ b
some_eq e = cc

pub some_of_none {ℓ} : {A : Type ℓ} (o : Option A) {a : A} → o ≡ none → o ≡ some a → ⊥
some_of_none o e f = cc

-- A chain of two steps that give a result.
pub >>=-some {ℓ κ} :
    {A : Type ℓ} {B : Type κ} (m : Option A) (f : A → Option B) {a : A} {b : Option B}
    → m ≡ some a
    → f a ≡ b
    → (m >>= f) ≡ b
>>=-some m f e h = rw e h
