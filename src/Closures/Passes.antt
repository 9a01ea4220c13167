-- ===== src/Closures/Passes.antt =====
-- Steps whose assertions hold.
use cheetah.Closures.{check}
use cheetah.Base.{refl, true, Bool, Option, ◌≡◌, Passes}

pub check-Passes {ℓ} :
    {A : Type ℓ} {P : A → Type 0} {b : Bool} {r : Option A}
    → b ≡ true
    → Passes P r
    → Passes P (check b r)
check-Passes {P = P} {r = r} e h = rw e h

pub check_lem {ℓ} : {A : Type ℓ} (b : Bool) (r : Option A) → b ≡ true → check b r ≡ r
check_lem b r e = rw e refl
