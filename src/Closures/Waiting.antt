-- ===== src/Closures/Waiting.antt =====
-- Nobody waits for nothing: below each closure that waits there is one that does not.
use cheetah.Closures.Facts.{no_child}
use cheetah.Closures.Children.{is_under, children_some}
use cheetah.Closures.Gone.{parent_lives}
use cheetah.Closures.Sound.{IsSound, is_at}
use cheetah.Closures.{Scheduler, is_live, is_suspended}
use cheetah.Base.{
  zero, suc, true, false, inl, inr, ℕ, ◌+◌, ◌<◌, ◌≡◌, arith, ◌≤◌, ℕ_discrete, ◌≢◌, Option-cases,
  Bool-cases, subst,
}

-- The closures of the tree below `c`, with `c` itself.
pub data IsBelow (s : Scheduler) (c : ℕ) : ℕ → Type 0 where
  top : IsBelow s c c
  below : {p x : ℕ} → IsBelow s c p → is_under p (s.closure x) ≡ true → IsBelow s c x

-- Below each closure in use, or there itself, some worker has a closure that does not wait.
abbrev pub IsAttended : Scheduler → Type 0
IsAttended s =
    (c : ℕ)
    → is_live (s.closure c).status ≡ true
    → (x w : ℕ) × IsBelow s c x × (is_at s w x ≡ true) × (is_suspended (s.closure x).status ≡ false)

-- A number above the first `n` values.
bound : ℕ → (ℕ → ℕ) → ℕ
bound zero f = 0
bound (suc n) f = bound n f + f n + 1

lt-bound : (n i : ℕ) (f : ℕ → ℕ) → i < n → f i < bound n f
unfolding bound
lt-bound zero i f h = absurd (omega arith)
lt-bound (suc n) i f h = elim (ℕ_discrete i n) [
  | yes e ↦ rw e (omega arith)
  | no e ↦ omega (arith, lt-bound n i f (omega arith))
]

module _ (n : ℕ) (s : Scheduler) (v : IsSound n s) where
  descend :
      (fuel c d : ℕ)
      → bound n v.ranked.0 ≤ fuel + v.ranked.0 d
      → IsBelow s c d
      → is_live (s.closure d).status ≡ true
      → (x w : ℕ) × IsBelow s c x
        × (is_at s w x ≡ true)
        × (is_suspended (s.closure x).status ≡ false)
  descend zero c d h b l =
      let q = lt-bound n d v.ranked.0 (v.tree.bounded d l) in absurd (omega arith)
  descend (suc fuel) c d h b l = elim (Bool-cases (is_suspended (s.closure d).status)) [
    | inl waits ↦
        let pos = v.tree.waits d waits in
        let count = v.tree.counted d l in
        let (x, under) = children_some n d s.closure (omega arith) in
        let up = v.ranked.1 x d under in
        descend fuel c x (omega arith) (below b under) (ground (arith, under))
    | inr runs ↦
        let (w, at) = v.found d (let q = v.tree.settled d in ground (arith, l, runs, q)) in
        (d, w, b, at, runs)
  ]

  pub waits-IsBelow :
      (c : ℕ)
      → is_live (s.closure c).status ≡ true
      → (x w : ℕ) × IsBelow s c x
        × (is_at s w x ≡ true)
        × (is_suspended (s.closure x).status ≡ false)
  waits-IsBelow c l = descend (bound n v.ranked.0) c c (omega arith) top l

  -- Every closure in use is the root, or has a parent in use.
  parent :
      (x : ℕ)
      → is_live (s.closure x).status ≡ true
      → x ≢ s.root_closure
      → (p : ℕ) × (is_under p (s.closure x) ≡ true)
  parent x l r = elim (Option-cases (s.closure x).spawn_parent) [
    | inr (p, e) ↦ (p, ground (arith, l, e))
    | inl no_spawn ↦ elim (Option-cases (s.closure x).call_parent) [
      | inr (p, e) ↦ (p, ground (arith, l, e))
      | inl no_call ↦ absurd (let q = v.tree.rooted x l in ground (arith, q, no_spawn, no_call, r))
    ]
  ]

  -- A root without children is the only closure in use.
  alone :
      (fuel x : ℕ)
      → v.ranked.0 x < fuel
      → is_live (s.closure s.root_closure).status ≡ true
      → (s.closure s.root_closure).join_counter ≡ 0
      → is_live (s.closure x).status ≡ true
      → x ≡ s.root_closure
  alone zero x h lr z l = absurd (omega arith)
  alone (suc fuel) x h lr z l = elim (ℕ_discrete x s.root_closure) [
    | yes e ↦ e
    | no e ↦
        let (p, under) = parent x l e in
        let up = v.ranked.1 x p under in
        let lp = parent_lives n s x p v.tree under in
        let e' = alone fuel p (omega arith) lr z lp in
        let q = no_child n s.root_closure x s v.tree lr z l in
        absurd (
          let under' : is_under s.root_closure (s.closure x) ≡ true =
            subst (λ k. is_under k (s.closure x) ≡ true) e' under in
          ground (arith, under', q))
  ]

  pub root-alone :
      (x : ℕ)
      → is_live (s.closure s.root_closure).status ≡ true
      → (s.closure s.root_closure).join_counter ≡ 0
      → is_live (s.closure x).status ≡ true
      → x ≡ s.root_closure
  root-alone x = alone (v.ranked.0 x + 1) x (omega arith)
