-- ===== src/Join/Examples.antt =====
-- The theorems about joins at concrete states, with numbers for the parts of views.
use cheetah.Join.Resumes.{
  apply, Enabled, added, Run, steals, syncs, returns, start, step, run_resumes,
}
use cheetah.Join.Stacks.{IsStacked, IsKept}
use cheetah.Join.Fibers.{Fibers, take, steal, sync}
use cheetah.Join.Unlink.{without, remove_child-IsLinked}
use cheetah.Join.Links.{
  Links, IsLinked, add_child, double_link_children, remove_child, store, add_child-IsLinked,
}
use cheetah.Base.{
  refl, true, false, none, some, suc, [], ◌∷◌, List, ◌≡◌, ℕ, length, ◌⊎◌, arith, ◌+◌, update,
}
use cheetah.Join.{Parent, return_child}
use cheetah.Join.Order.{idle_here}
use cheetah.Join.Progress.{return_child-removes}
use cheetah.Join.Steps.{synced, reduce_at}

-- The parent is stolen while it has one view, then it syncs, its child returns, and it reduces.
abbrev spawned : Parent (List ℕ)
spawned = record {
  child_ht = none;
  children = record { lht = none; active = some (1 ∷ []); rht = none; right_ht = none } ∷ [];
  lht = none;
  active = some (2 ∷ []);
  user_ht = none;
  suspended = false;
}

abbrev asleep_parent : Parent (List ℕ)
asleep_parent = record spawned { active = none; user_ht = some (2 ∷ []); suspended = true }

abbrev awake_parent : Parent (List ℕ)
awake_parent = record spawned { children = []; lht = some (1 ∷ []) }

abbrev joined : Parent (List ℕ)
joined = record spawned { children = []; active = some (1 ∷ 2 ∷ []) }

return_child-removes_example :
    (q : Parent (List ℕ)) × (return_child 0 asleep_parent ≡ some q)
    × ((suc (length q.children) ≡ length asleep_parent.children)
        ⊎ ((q' : Parent (List ℕ)) × (return_child 0 (record q { children = reduce_at 0 q.children })
              ≡ some q')
            × (suc (length q'.children) ≡ length asleep_parent.children)))
return_child-removes_example =
    return_child-removes 0 asleep_parent (idle_here (some (1 ∷ [])) none [])

-- Two children, of which the first goes.
abbrev no_links : Links
no_links = record { left_sib = λ i. none; right_sib = λ i. none; right_most_child = none }

no_links-IsLinked : IsLinked no_links 0 (λ i. 0)
no_links-IsLinked = record {
  distinct = λ i j a b e. absurd (omega arith);
  first = λ a. absurd (omega arith);
  left = λ i a. absurd (omega arith);
  right = λ i a. absurd (omega arith);
  last = λ i a. absurd (omega arith);
  empty = λ a. refl;
  most = λ i a. absurd (omega arith);
}

one_child : IsLinked (add_child no_links 10) (0 + 1) (update (λ i. 0) 0 10)
one_child =
    add_child-IsLinked no_links 0 10 (λ i. 0) no_links-IsLinked (λ i a. absurd (omega arith)) refl

two_children :
    IsLinked (add_child (add_child no_links 10) 20) (1 + 1) (update (update (λ i. 0) 0 10) 1 20)
unfolding add_child double_link_children store
two_children =
    add_child-IsLinked (add_child no_links 10) 1 20 (update (λ i. 0) 0 10) one_child
      (λ i a. ground arith) refl

remove_child-IsLinked_example :
    IsLinked
      (remove_child (add_child (add_child no_links 10) 20) (update (update (λ i. 0) 0 10) 1 20 0))
      1
      (without 0 (update (update (λ i. 0) 0 10) 1 20))
remove_child-IsLinked_example =
    remove_child-IsLinked (add_child (add_child no_links 10) 20) 1 0
      (update (update (λ i. 0) 0 10) 1 20) two_children (omega arith)

-- A closure on fiber 1 that is stolen to fiber 2 and waits for its child.
abbrev on_one : Fibers
on_one = record {
  fiber = some 1;
  fiber_child = none;
  children = [];
  suspended = false;
  unsynched = false;
  pool = [];
}

on_one-IsStacked : IsStacked 1 on_one
on_one-IsStacked = record {
  once = λ f. ground arith;
  synced = λ h. (refl, refl, refl);
  unsynced = λ h. cc;
  asleep = λ h. cc;
  awake = λ h. refl;
}

abbrev on_two : Fibers
on_two = record on_one { fiber = some 2; children = 1 ∷ []; unsynched = true }

abbrev on_none : Fibers
on_none = record on_two { fiber = none; suspended = true; pool = 2 ∷ [] }

waits-Run : Run on_one on_none (λ f. (0 + added (steals 2) f) + added syncs f)
unfolding apply steal sync
waits-Run = step (step start (steals 2) (refl, refl) refl) syncs (refl, refl) refl

waits_child : Enabled on_none (returns 0)
unfolding take
waits_child = ((1, []), refl)

run_resumes_example :
    (u : Fibers) × (apply on_none (returns 0) ≡ some u)
    × IsKept 1 on_one u (λ f. ((0 + added (steals 2) f) + added syncs f) + added (returns 0) f)
run_resumes_example =
    run_resumes 1 on_one on_none (λ f. (0 + added (steals 2) f) + added syncs f) (returns 0)
      on_one-IsStacked waits-Run waits_child
