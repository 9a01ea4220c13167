-- ===== src/Join/Resumes.antt =====
-- A closure and its children from one step to the next, with their fibers.
use cheetah.Join.Stacks.{
  IsStacked, held, IsKept, steal-IsKept, IsKept-trans, sync-IsKept, return-IsKept,
}
use cheetah.Join.Fibers.{Fibers, steal, sync, return, take}
use cheetah.Base.{
  some, true, false, ℕ, Option, ◌≡◌, if◌then◌else◌, ◌==◌, ◌+◌, Passes, List, arith, Passes-some,
  subst, some_eq, sym, ◌∙◌,
}

-- A steal to the fiber `new`, a sync, or the return of the child with index `i`.
pub data Move : Type 0 where
  steals : (new : ℕ) → Move
  syncs : Move
  returns : (i : ℕ) → Move

unfoldable pub apply : Fibers → Move → Option Fibers
apply s (steals new) = steal s new
apply s syncs = sync s
apply s (returns i) = return s i

-- The pool gives no fiber that is in use, only frames that are marked as unsynched sync, and only
-- children return.
abbrev pub Enabled : Fibers → Move → Type 0
Enabled s (steals new) = (s.suspended ≡ false) × (held s new ≡ 0)
Enabled s syncs = (s.suspended ≡ false) × (s.unsynched ≡ true)
Enabled s (returns i) = (r : ℕ × List ℕ) × (take i s.children ≡ some r)

-- The fiber that a move takes from the pool.
abbrev pub added : Move → ℕ → ℕ
added (steals new) f = if new == f then 1 else 0
added syncs f = 0
added (returns i) f = 0

pub data Run (s : Fibers) : Fibers → (ℕ → ℕ) → Type 0 where
  start : Run s s (λ f. 0)
  step :
      {t u : Fibers} {a : ℕ → ℕ}
      → Run s t a
      → (m : Move) → Enabled t m
      → apply t m ≡ some u
      → Run s u (λ f. a f + added m f)

apply-IsKept :
    (home : ℕ) (s : Fibers) (m : Move)
    → IsStacked home s
    → Enabled s m
    → Passes (λ s'. IsKept home s s' (added m)) (apply s m)
unfolding apply
apply-IsKept home s (steals new) v (a, b) = steal-IsKept home new s v a b
apply-IsKept home s syncs v (a, b) = sync-IsKept home s v a b
apply-IsKept home s (returns i) v ((f, fs), e) = return-IsKept home i f fs s v e

Run-IsKept :
    {s t : Fibers} {a : ℕ → ℕ} (home : ℕ) → IsStacked home s → Run s t a → IsKept home s t a
Run-IsKept {s} home v start = record { stacked = v; kept = λ f. omega arith }
Run-IsKept {s} home v (step {t} {u} {a} r m e q) =
    let p = Run-IsKept home v r in
    let (w, q', k) = Passes-some (apply-IsKept home t m p.stacked e) in
    IsKept-trans home s t u a (added m) p
      (subst (λ (x : Fibers). IsKept home t x (added m)) (some_eq (sym q' ∙ q)) k)

-- From a state with the closure's frame on the fiber `home`, in which no fiber is held twice,
-- whatever steals, syncs and returns of children have come, each further one that is enabled fails
-- none of the modelled assertions on fibers; where the frame is then marked as synced the closure
-- is on `home` again, and each fiber is held or in the pool as often as before, with those that
-- the steals took from the pool.
pub run_resumes :
    (home : ℕ) (s t : Fibers) (a : ℕ → ℕ) (m : Move)
    → IsStacked home s
    → Run s t a
    → Enabled t m
    → (u : Fibers) × (apply t m ≡ some u) × IsKept home s u (λ f. a f + added m f)
run_resumes home s t a m v r e =
    let p = Run-IsKept home v r in
    let (u, q, k) = Passes-some (apply-IsKept home t m p.stacked e) in
    (u, q, IsKept-trans home s t u a (added m) p k)
