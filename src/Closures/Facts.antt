-- ===== src/Closures/Facts.antt =====
-- What follows from soundness, and what keeps it.
use cheetah.Closures.Sound.{IsFound, IsTree, IsHeld, IsRanked, is_at}
use cheetah.Closures.Children.{is_under, children, children_some, children_pos}
use cheetah.Closures.{Scheduler, is_running, is_live, is_suspended, is_returning}
use cheetah.Base.{
  none, some, true, false, inl, inr, ℕ, ◌≡◌, fun_ext, ◌||◌, ◌≢◌, Option-cases, ℕ_discrete, arith,
  subst, sym,
}

pub IsRanked-kept :
    (s s' : Scheduler)
    → ((x p : ℕ) → is_under p (s'.closure x) ≡ true → is_under p (s.closure x) ≡ true)
    → IsRanked s
    → IsRanked s'
IsRanked-kept s s' h (rank, r) = (rank, λ x p a. r x p (h x p a))

-- A closure `t` that is at worker `self`, where no other closure moves.
pub IsFound-but :
    (s s' : Scheduler) (t self : ℕ)
    → IsFound s
    → ((is_running (s'.closure t).status || is_returning (s'.closure t).status) ≡ true
        → is_at s' self t ≡ true)
    → ((c w : ℕ)
        → c ≢ t
        → (is_running (s'.closure c).status || is_returning (s'.closure c).status) ≡ true
        → ((is_running (s.closure c).status || is_returning (s.closure c).status) ≡ true)
          × (is_at s w c ≡ true → is_at s' w c ≡ true))
    → IsFound s'
IsFound-but s s' t self old here other c a = elim (ℕ_discrete c t) [
  | yes e ↦ (
    self,
    subst (λ k. is_at s' self k ≡ true) (sym e)
        (here (
          subst
            (λ k. (is_running (s'.closure k).status || is_returning (s'.closure k).status) ≡ true) e
            a)),
  )
  | no e ↦ let b = (other c 0 e a).0 in let (w, at) = old c b in (w, (other c w e a).1 at)
]

pub Scheduler_ext :
    (s t : Scheduler)
    → ((i : ℕ) → s.closure i ≡ t.closure i)
    → ((f : ℕ) → s.flags f ≡ t.flags f)
    → ((w : ℕ) → s.busy w ≡ t.busy w)
    → ((w : ℕ) → s.current w ≡ t.current w)
    → s.root_closure ≡ t.root_closure
    → s ≡ t
Scheduler_ext s t a b c d e = λ i. record {
  closure = fun_ext a i;
  flags = fun_ext b i;
  busy = fun_ext c i;
  current = fun_ext d i;
  root_closure = e i;
}

-- A closure that is not in use is nobody's parent.
pub children_free :
    (n p : ℕ) (s : Scheduler)
    → IsTree s n
    → is_live (s.closure p).status ≡ false
    → children n s.closure p ≡ 0
children_free n p s v free = elim (ℕ_discrete (children n s.closure p) 0) [
  | yes e ↦ e
  | no some_child ↦
      let (x, under) = children_some n p s.closure (omega arith) in
      ground (arith, v.spawned x p, v.called x p)
]

-- A closure in use whose join counter is zero is nobody's parent.
pub no_child :
    (n t x : ℕ) (s : Scheduler)
    → IsTree s n
    → is_live (s.closure t).status ≡ true
    → (s.closure t).join_counter ≡ 0
    → is_live (s.closure x).status ≡ true
    → ((s.closure x).spawn_parent ≢ some t) × ((s.closure x).call_parent ≢ some t)
no_child n t x s v a b c =
    let z = v.counted t a in
    let in' = v.bounded x c in
    (
      λ e. omega (arith, children_pos n t x s.closure in' (ground (arith, e, c))),
      λ e. omega (arith, children_pos n t x s.closure in' (ground (arith, e, c))),
    )

-- A suspended closure is no worker's.
pub suspended-unowned :
    (s : Scheduler) (c : ℕ)
    → IsHeld s
    → is_suspended (s.closure c).status ≡ true
    → (s.closure c).owner ≡ none
suspended-unowned s c v h = elim (Option-cases (s.closure c).owner) [
  | inl e ↦ e
  | inr (w, e) ↦ ground (arith, e, h, v.owner w c, v.busy w c)
]
