-- ===== src/Join/Progress.antt =====
-- A child that returns is gone after at most one reduction, if no other table comes in between.
use cheetah.Base.{
  suc, true, false, none, some, refl, inl, inr, ℕ, List, ◌≡◌, Option, length, Bool, ◌⊎◌, ◌∷◌, ap,
  Bool-cases, ◌∙◌, ◌&&◌,
}
use cheetah.Join.{
  Content, Child, Parent, closure_return, reduce_child, provably_good_steal_maybe, return_child,
  settle, is_nil,
}
use cheetah.Join.Order.{IsIdle, idle_here, idle_later}
use cheetah.Join.Steps.{reduce_at}

module _ {ℓ} {V : Type ℓ} where
  closure_return-progress :
      {i : ℕ} {cs : List (Child (Content V))}
      → IsIdle i cs
      → (slot : Option (Content V))
      → (r : Option (Content V) × List (Child (Content V)) × Bool) × (closure_return i slot cs
          ≡ some r)
        × ((r.2 ≡ true) × (suc (length r.1) ≡ length cs)
            ⊎ ((r.2 ≡ false)
                × ((r' : Option (Content V) × List (Child (Content V)) × Bool) × (closure_return i
                        r.0
                        (reduce_at i r.1)
                      ≡ some r')
                    × (r'.2 ≡ true)
                    × (suc (length r'.1) ≡ length cs))))
  unfolding closure_return reduce_at reduce_child
  closure_return-progress (idle_here active none cs) none = (_, refl, inl (refl, refl))
  closure_return-progress (idle_here active (some t) cs) none =
      (_, refl, inr (refl, (_, refl, refl, refl)))
  closure_return-progress (idle_here active right_ht cs) (some s) =
      (_, refl, inr (refl, (_, refl, refl, refl)))
  closure_return-progress (idle_later i c cs k) slot =
      let (r, run, e) = closure_return-progress k c.right_ht in
      (
        (slot, record c { right_ht = r.0 } ∷ r.1, r.2),
        rw run refl,
        elim e [
          | inl (gone, shorter) ↦ inl (gone, ap suc shorter)
          | inr (stays, (r', run', gone, shorter)) ↦ inr (
            stays,
            ((slot, record c { right_ht = r'.0 } ∷ r'.1, r'.2), rw run' refl, gone, ap suc shorter),
          )
        ],
      )

  settle-children :
      (p : Parent (Content V)) (r : Option (Content V) × List (Child (Content V)) × Bool)
      → r.2 ≡ true
      → (q : Parent (Content V)) × (settle p (some r) ≡ some q) × (q.children ≡ r.1)
  unfolding settle provably_good_steal_maybe
  settle-children p r gone =
      let p' = record p { child_ht = r.0; children = r.1 } in
      elim (Bool-cases (is_nil r.1 && p.suspended)) [
        | inl e ↦ (provably_good_steal_maybe p', rw gone refl, rw e refl)
        | inr e ↦ (provably_good_steal_maybe p', rw gone refl, rw e refl)
      ]

  -- A child with nothing to reduce that returns is gone at once, or, if no other table has come to
  -- lie beside it in between, after it has reduced and returned again; the parent then has one
  -- child less.
  pub return_child-removes :
      (i : ℕ) (p : Parent (Content V))
      → IsIdle i p.children
      → (q : Parent (Content V)) × (return_child i p ≡ some q)
        × ((suc (length q.children) ≡ length p.children)
            ⊎ ((q' : Parent (Content V)) × (return_child i
                    (record q { children = reduce_at i q.children })
                  ≡ some q')
                × (suc (length q'.children) ≡ length p.children)))
  unfolding settle provably_good_steal_maybe
  return_child-removes i p k =
      let (r, run, e) = closure_return-progress k p.child_ht in
      elim e [
        | inl (gone, shorter) ↦
            let (q, settled, same) = settle-children p r gone in
            (q, rw run settled, inl (ap suc (ap length same) ∙ shorter))
        | inr (stays, (r', run', gone, shorter)) ↦
            let p' = record p { child_ht = r.0; children = r.1 } in
            let p'' = record p' { children = reduce_at i r.1 } in
            let (q', settled, same) = settle-children p'' r' gone in
            (p', rw (run, stays) refl, inr (q', rw run' settled, ap suc (ap length same) ∙ shorter))
      ]
