-- ===== src/Join/Order.antt =====
-- The serial order of the views: what a parent and its children hold, from left to right.
use cheetah.Base.{
  ℕ, zero, suc, true, none, some, Option, List, [], ◌∷◌, ◌++◌, Bool, ◌≡◌, refl, sym, ap, ◌∙◌,
  append_assoc,
}
use cheetah.Join.{
  Content, Child, Parent, merge_two, do_reductions, left_part, right_part, merge_more,
  closure_return,
}

-- The child with index `i` has nothing to reduce.
pub data IsIdle {ℓ} {T : Type ℓ} : ℕ → List (Child T) → Type ℓ where
  idle_here :
      (active right_ht : Option T) (cs : List (Child T))
      → IsIdle zero (record { lht = none; active = active; rht = none; right_ht = right_ht } ∷ cs)
  idle_later : (i : ℕ) (c : Child T) (cs : List (Child T)) → IsIdle i cs → IsIdle (suc i) (c ∷ cs)

module _ {ℓ} {V : Type ℓ} where
  pub merge_two_assoc :
      (a b c : Option (Content V)) → merge_two (merge_two a b) c ≡ merge_two a (merge_two b c)
  merge_two_assoc none b c = refl
  merge_two_assoc (some a) none c = refl
  merge_two_assoc (some a) (some b) none = refl
  merge_two_assoc (some a) (some b) (some c) = ap some (append_assoc a b c)

  pub merge_two-none : (a : Option (Content V)) → merge_two a none ≡ a
  merge_two-none none = refl
  merge_two-none (some a) = refl

  pub ruleset orders = (merge_two_assoc, merge_two-none)

  abbrev pub child_view : Child (Content V) → Option (Content V)
  child_view c = merge_two c.lht (merge_two c.active (merge_two c.rht c.right_ht))

  unfoldable pub children_view : List (Child (Content V)) → Option (Content V)
  children_view [] = none
  children_view (c ∷ cs) = merge_two (child_view c) (children_view cs)

  -- All tables of the parent and its children, merged from left to right.
  unfoldable pub serial_view : Parent (Content V) → Option (Content V)
  serial_view p =
      merge_two p.child_ht
        (merge_two (children_view p.children) (merge_two p.lht (merge_two p.active p.user_ht)))

  pub children_view-append :
      (cs ds : List (Child (Content V)))
      → children_view (cs ++ ds) ≡ merge_two (children_view cs) (children_view ds)
  unfolding children_view
  children_view-append [] ds = refl
  children_view-append (c ∷ cs) ds = simp (orders, children_view-append cs ds) refl

  -- The return of a child with nothing to reduce keeps the order.
  pub closure_return-order :
      {i : ℕ} {cs : List (Child (Content V))}
      → IsIdle i cs
      → (slot : Option (Content V))
      → (r : Option (Content V) × List (Child (Content V)) × Bool) × (closure_return i slot cs
          ≡ some r)
        × (merge_two r.0 (children_view r.1) ≡ merge_two slot (children_view cs))
  unfolding closure_return children_view
  closure_return-order (idle_here active none cs) none = (
    (active, cs, true),
    refl,
    ap (λ a. merge_two a (children_view cs)) (sym (merge_two-none active)),
  )
  closure_return-order (idle_here active (some t) cs) none = (_, refl, simp orders refl)
  closure_return-order (idle_here active right_ht cs) (some s) = (_, refl, simp orders refl)
  closure_return-order (idle_later i c cs k) slot =
      let (r, run, e) = closure_return-order k c.right_ht in
      ((slot, record c { right_ht = r.0 } ∷ r.1, r.2), rw run refl, simp (orders, e) refl)

  -- Tables merged from left to right.
  unfoldable pub merged : List (Content V) → Option (Content V)
  merged [] = none
  merged (t ∷ ts) = merge_two (some t) (merged ts)

  merge_more-nothing : (ht : Option (Content V)) → merge_more [] ht ≡ ht
  unfolding merge_more
  merge_more-nothing none = refl
  merge_more-nothing (some ht) = refl

  pub do_reductions-plain :
      (lht ht rht : Option (Content V))
      → do_reductions [] [] lht ht rht ≡ merge_two (merge_two lht ht) rht
  unfolding do_reductions left_part right_part
  do_reductions-plain none ht none = sym (merge_two-none ht)
  do_reductions-plain none ht (some rht) = merge_more-nothing (merge_two ht (some rht))
  do_reductions-plain (some lht) ht none =
      merge_more-nothing (merge_two (some lht) ht) ∙ sym (merge_two-none (merge_two (some lht) ht))
  do_reductions-plain (some lht) ht (some rht) =
      merge_more-nothing (merge_two (merge_more [] (merge_two (some lht) ht)) (some rht))
      ∙ ap (λ a. merge_two a (some rht)) (merge_more-nothing (merge_two (some lht) ht))
