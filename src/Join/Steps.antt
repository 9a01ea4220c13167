-- ===== src/Join/Steps.antt =====
-- A parent and its children from one moment to the next: the runtime's steps and the serial order.
use cheetah.Base.{
  ℕ, zero, suc, true, false, none, some, List, [], ◌∷◌, arith, ◌≡◌, refl, sym, ap, ◌∙◌, inl, inr,
  Bool-cases, ◌&&◌,
}
use cheetah.Join.{
  Content, Child, Parent, merge_two, reduce_child, reduce_parent, provably_good_steal_maybe,
  return_child, settle, cilk_sync, promote_child, is_nil,
}
use cheetah.Join.Order.{
  IsIdle, merge_two_assoc, orders, children_view, serial_view, closure_return-order,
}

-- The child with index `i` reduces.
unfoldable pub reduce_at {ℓ} :
    {V : Type ℓ} → ℕ → List (Child (Content V)) → List (Child (Content V))
reduce_at i [] = []
reduce_at zero (c ∷ cs) = reduce_child c ∷ cs
reduce_at (suc i) (c ∷ cs) = c ∷ reduce_at i cs

-- A suspended parent is run by no worker, any other has no table put aside.
pub record IsJoin {ℓ} {T : Type ℓ} (p : Parent T) : Type ℓ where
  pub asleep : p.suspended ≡ true → (p.lht ≡ none) × (p.active ≡ none)
  pub awake : p.suspended ≡ false → p.user_ht ≡ none

pub data Step {ℓ} {V : Type ℓ} : Parent (Content V) → Parent (Content V) → Type ℓ where
  stolen : (p : Parent (Content V)) → p.suspended ≡ false → p.lht ≡ none → Step p (promote_child p)
  returned :
      (i : ℕ) (p q : Parent (Content V))
      → IsIdle i p.children
      → return_child i p ≡ some q
      → Step p q
  reduced :
      (i : ℕ) (p : Parent (Content V)) → Step p (record p { children = reduce_at i p.children })
  synced : (p : Parent (Content V)) → p.suspended ≡ false → p.lht ≡ none → Step p (cilk_sync p)
  parent_reduced : (p : Parent (Content V)) → p.suspended ≡ false → Step p (reduce_parent p)

pub data Reaches {ℓ} {V : Type ℓ} (p : Parent (Content V)) : Parent (Content V) → Type ℓ where
  here : Reaches p p
  next : (q r : Parent (Content V)) → Reaches p q → Step q r → Reaches p r

is_nil-eq {ℓ} : {A : Type ℓ} (xs : List A) → is_nil xs ≡ true → xs ≡ []
is_nil-eq [] e = refl
is_nil-eq (x ∷ xs) e = absurd (cc)

module _ {ℓ} {V : Type ℓ} where
  provably_good_steal_maybe-order :
      (p : Parent (Content V))
      → IsJoin p
      → (serial_view (provably_good_steal_maybe p) ≡ serial_view p)
        × IsJoin (provably_good_steal_maybe p)
  unfolding provably_good_steal_maybe serial_view children_view
  provably_good_steal_maybe-order p v = elim (Bool-cases (is_nil p.children && p.suspended)) [
    | inl e ↦
        let asleep : p.suspended ≡ true = ground (arith, e) in
        let (l, a) = v.asleep asleep in
        let empty = is_nil-eq p.children (ground (arith, e)) in
        rw e
          (simp (empty, l, a, orders) refl, record { asleep = λ f. absurd (cc); awake = λ f. refl })
    | inr e ↦ rw e (refl, v)
  ]

  -- The return of a child with nothing to reduce succeeds and keeps the order.
  pub return_child-order :
      (i : ℕ) (p : Parent (Content V))
      → IsIdle i p.children
      → IsJoin p
      → (q : Parent (Content V)) × (return_child i p ≡ some q)
        × (serial_view q ≡ serial_view p)
        × IsJoin q
  unfolding settle serial_view
  return_child-order i p k v =
      let (r, run, e) = closure_return-order k p.child_ht in
      let p' = record p { child_ht = r.0; children = r.1 } in
      let v' : IsJoin p' = record { asleep = v.asleep; awake = v.awake } in
      let kept : serial_view p' ≡ serial_view p =
        sym
          (merge_two_assoc r.0 (children_view r.1) (merge_two p.lht (merge_two p.active p.user_ht)))
        ∙ ap (λ a. merge_two a (merge_two p.lht (merge_two p.active p.user_ht))) e
        ∙ merge_two_assoc p.child_ht (children_view p.children)
            (merge_two p.lht (merge_two p.active p.user_ht)) in
      let after = provably_good_steal_maybe-order p' v' in
      elim (Bool-cases r.2) [
        | inl gone ↦ (provably_good_steal_maybe p', rw (run, gone) refl, after.0 ∙ kept, after.1)
        | inr stays ↦ (p', rw (run, stays) refl, kept, v')
      ]
