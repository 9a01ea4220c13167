-- ===== src/Closures/Children.antt =====
-- The children of a closure, counted.
use cheetah.Closures.{Closure, is_live, points_to}
use cheetah.Base.{
  refl, zero, suc, true, false, inl, inr, ℕ, sum_of, Bool, if◌then◌else◌, ◌≡◌, ◌<◌, ◌≤◌, ap, update,
  arith, ◌&&◌, sum_of_congr, ◌+◌, Bool-cases, ℕ_discrete, update_self, sum_of-update, ◌||◌,
  update_ne,
}

abbrev pub is_under : ℕ → Closure → Bool
is_under p c = is_live c.status && (points_to c.spawn_parent p || points_to c.call_parent p)

unfoldable pub weight : ℕ → ℕ → Closure → ℕ
weight p i c = if is_under p c then 1 else 0

-- How many of the closures below `n` have the parent `p`.
abbrev pub children : ℕ → (ℕ → Closure) → ℕ → ℕ
children n closure p = sum_of (weight p) n closure

weight_congr : (p i : ℕ) (c d : Closure) → is_under p c ≡ is_under p d → weight p i c ≡ weight p i d
unfolding weight
weight_congr p i c d e = ap (λ b. if b then 1 else 0) e

-- A write that keeps the parents of a closure.
pub children-same :
    (n p i : ℕ) (f : ℕ → Closure) (c : Closure)
    → is_under p c ≡ is_under p (f i)
    → children n (update f i c) p ≡ children n f p
children-same n p i f c e = sum_of_congr (weight p) n (update f i c) f (λ j h.
    elim (ℕ_discrete i j) [
      | yes same ↦ rw (← same, update_self f i c) (weight_congr p i c (f i) e)
      | no other ↦ rw (update_ne f i j c other) refl
    ])

-- A write that makes a closure a child of `p`, or no child any more.
pub children-under :
    (n p i : ℕ) (f : ℕ → Closure) (c : Closure)
    → i < n
    → children n (update f i c) p + (if is_under p (f i) then 1 else 0)
      ≡ children n f p + (if is_under p c then 1 else 0)
unfolding weight
children-under n p i f c h = sum_of-update (weight p) n i f c h

pub children-le : (n p : ℕ) (f : ℕ → Closure) → children n f p ≤ n
unfolding sum_of weight
children-le zero p f = omega arith
children-le (suc n) p f = elim (Bool-cases (is_under p (f n))) [
  | inl e ↦ rw e (omega (arith, children-le n p f))
  | inr e ↦ rw e (omega (arith, children-le n p f))
]

-- A closure that counts a child has one.
pub children_some :
    (n p : ℕ) (f : ℕ → Closure) → 0 < children n f p → (x : ℕ) × (is_under p (f x) ≡ true)
unfolding sum_of weight
children_some zero p f h = absurd (omega arith)
children_some (suc n) p f h = elim (Bool-cases (is_under p (f n))) [
  | inl e ↦ (n, e)
  | inr e ↦
      children_some n p f
        (let k : 0 < children n f p + (if false then 1 else 0) = rw e at h in omega arith)
]

-- A closure that has a child counts it.
pub children_pos :
    (n p x : ℕ) (f : ℕ → Closure) → x < n → is_under p (f x) ≡ true → 0 < children n f p
unfolding sum_of weight
children_pos zero p x f h e = absurd (omega arith)
children_pos (suc n) p x f h e = elim (ℕ_discrete x n) [
  | yes same ↦ rw (← same, e) (omega arith)
  | no other ↦ omega (arith, children_pos n p x f (omega arith) e)
]
