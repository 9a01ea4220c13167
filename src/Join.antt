-- ===== src/Join.antt =====
-- How the views of a function and of its spawned children come together: `Closure_return`,
-- `provably_good_steal_maybe`, `Cilk_sync`, `__cilkrts_do_reductions` and the tree part of
-- `promote_child` in runtime/scheduler.cpp, for one parent with its children from left to right.
mod Fibers
mod Stacks
mod Resumes
mod Links
mod Unlink
mod Order
mod Steps
mod Progress
mod Examples
use cheetah.Base.{
  ℕ, zero, suc, Bool, true, false, Option, none, some, List, [], ◌∷◌, ◌++◌, ◌||◌, if◌then◌else◌,
  ◌≡◌, ◌&&◌,
}

-- What a table holds for one reducer: the parts that its view there is made of, from left to right,
-- none where the table has no view of it. `merge_two_hts` reduces the left table's view with the
-- right one's, which leaves the left one's parts before the right one's.
abbrev pub Content {ℓ} : Type ℓ → Type ℓ
Content V = List V

-- A spawned child that runs. `active` is the table of its worker (`w->hyper_table`), `lht` and `rht`
-- what the worker has taken to reduce.
pub record Child {ℓ} (T : Type ℓ) : Type ℓ where
  pub lht : Option T
  pub active : Option T
  pub rht : Option T
  pub right_ht : Option T

-- The parent: `active` and `lht` belong to the worker that runs it, `user_ht` is there while it is
-- suspended at a sync.
pub record Parent {ℓ} (T : Type ℓ) : Type ℓ where
  pub child_ht : Option T
  pub children : List (Child T)
  pub lht : Option T
  pub active : Option T
  pub user_ht : Option T
  pub suspended : Bool

abbrev pub is_some {ℓ} : {A : Type ℓ} → Option A → Bool
is_some none = false
is_some (some a) = true

abbrev pub is_nil {ℓ} : {A : Type ℓ} → List A → Bool
is_nil [] = true
is_nil (x ∷ xs) = false

module _ {ℓ} {V : Type ℓ} where
  -- `merge_two_hts`, where a null pointer is no table.
  abbrev pub merge_two : Option (Content V) → Option (Content V) → Option (Content V)
  merge_two none right = right
  merge_two (some left) none = some left
  merge_two (some left) (some right) = some (left ++ right)

  -- The loop that reduces the views which the last reductions have made, on the right.
  unfoldable pub merge_more : List (Content V) → Option (Content V) → Option (Content V)
  merge_more news none = none
  merge_more [] (some ht) = some ht
  merge_more (new ∷ news) (some ht) = merge_more news (merge_two (some ht) (some new))

  unfoldable pub left_part :
      List (Content V) → Option (Content V) → Option (Content V) → Option (Content V)
  left_part news none ht = ht
  left_part news (some lht) ht = merge_more news (merge_two (some lht) ht)

  unfoldable pub right_part :
      List (Content V) → Option (Content V) → Option (Content V) → Option (Content V)
  right_part news ht none = ht
  right_part news ht (some rht) = merge_more news (merge_two ht (some rht))

  -- `lnews` and `rnews` are the tables of views that the functions which reduce make.
  unfoldable pub do_reductions :
      List (Content V)
      → List (Content V)
      → Option (Content V)
      → Option (Content V)
      → Option (Content V)
      → Option (Content V)
  do_reductions lnews rnews lht ht rht = right_part rnews (left_part lnews lht ht) rht

  -- Reductions that make no views.
  unfoldable pub reduce_child : Child (Content V) → Child (Content V)
  reduce_child c = record {
    lht = none;
    active = do_reductions [] [] c.lht c.active c.rht;
    rht = none;
    right_ht = c.right_ht;
  }

  unfoldable pub reduce_parent : Parent (Content V) → Parent (Content V)
  reduce_parent p = record p { lht = none; active = do_reductions [] [] p.lht p.active none }

module _ {ℓ} {T : Type ℓ} where
  -- `Closure_return` for the child with index `i`: the table in the slot to its left, the children
  -- from there on, and whether the child is gone. With a table on either side it takes both to
  -- reduce them, otherwise it leaves its own table in the left slot and goes.
  unfoldable pub closure_return :
      ℕ → Option T → List (Child T) → Option (Option T × List (Child T) × Bool)
  closure_return i slot [] = none
  closure_return zero slot (c ∷ cs) =
      if is_some slot || is_some c.right_ht
      then some (
        none,
        record { lht = slot; active = c.active; rht = c.right_ht; right_ht = none } ∷ cs,
        false,
      )
      else some (c.active, cs, true)
  closure_return (suc i) slot (c ∷ cs) = elim (closure_return i c.right_ht cs) [
    | none ↦ none
    | some r ↦ some (slot, record c { right_ht = r.0 } ∷ r.1, r.2)
  ]

  -- The parent of a child that has gone goes on if it waits for that one only.
  unfoldable pub provably_good_steal_maybe : Parent T → Parent T
  provably_good_steal_maybe p =
      if is_nil p.children && p.suspended
      then record {
        child_ht = none;
        children = p.children;
        lht = p.child_ht;
        active = p.user_ht;
        user_ht = none;
        suspended = false;
      }
      else p

  unfoldable pub settle : Parent T → Option (Option T × List (Child T) × Bool) → Option (Parent T)
  settle p none = none
  settle p (some r) =
      let p' = record p { child_ht = r.0; children = r.1 } in
      some (if r.2 then provably_good_steal_maybe p' else p')

  abbrev pub return_child : ℕ → Parent T → Option (Parent T)
  return_child i p = settle p (closure_return i p.child_ht p.children)

  -- A sync waits for children, or takes what they have left.
  unfoldable pub cilk_sync : Parent T → Parent T
  cilk_sync p =
      if is_nil p.children
      then if is_some p.child_ht then record p { child_ht = none; lht = p.child_ht } else p
      else record p { active = none; user_ht = p.active; suspended = true }

  -- A thief takes the parent; the victim keeps its table with the child, the new rightmost one.
  unfoldable pub promote_child : Parent T → Parent T
  promote_child p = record p {
    children =
        p.children ++ (record { lht = none; active = p.active; rht = none; right_ht = none } ∷ []);
    active = none;
  }
