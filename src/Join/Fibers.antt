-- ===== src/Join/Fibers.antt =====
-- The stacks of a closure and of its spawned children: the parts of `extract_top_spawning_closure`,
-- `Closure_return`, `provably_good_steal_maybe`, `Cilk_sync` and `setup_for_sync` in
-- runtime/scheduler.cpp that hand fibers over. A fiber is a number, and `nullptr` is `none`. The
-- result of a step is `none` where one of the assertions fails that say which fibers there are. The
-- assertions on `current_stack_frame` are not modelled.
use cheetah.Join.{is_nil, is_some}
use cheetah.Join.Links.{is_child}
use cheetah.Base.{
  ◌==◌, ◌&&◌, zero, suc, none, some, true, false, [], ◌∷◌, Option, ℕ, List, ◌++◌, if◌then◌else◌,
  ◌>>=◌, Bool, not, ◌||◌,
}

-- `children` has the fibers of the children from left to right, `pool` what has been given back.
-- `unsynched` is the flag of the closure's frame.
pub record Fibers : Type 0 where
  pub fiber : Option ℕ
  pub fiber_child : Option ℕ
  pub children : List ℕ
  pub suspended : Bool
  pub unsynched : Bool
  pub pool : List ℕ

abbrev pub give_back : Option ℕ → List ℕ → List ℕ
give_back none pool = pool
give_back (some f) pool = f ∷ pool

-- A thief takes the closure to the fiber `new`; the child keeps the one that both have run on.
unfoldable pub steal : Fibers → ℕ → Option Fibers
steal s new = elim s.fiber [
  | none ↦ none
  | some f ↦
      some (record s { fiber = some new; children = s.children ++ (f ∷ []); unsynched = true })
]

unfoldable pub setup_for_sync : Fibers → Option Fibers
setup_for_sync s = elim s.fiber_child [
  | none ↦ none
  | some f ↦
      if is_child s.fiber f
      then none
      else some (record s {
        fiber = some f;
        fiber_child = none;
        suspended = false;
        unsynched = false;
        pool = give_back s.fiber s.pool;
      })
]

unfoldable pub sync : Fibers → Option Fibers
sync s =
    if is_nil s.children
    then setup_for_sync s
    else some (record s { fiber = none; suspended = true; pool = give_back s.fiber s.pool })

-- The child with index `i` and what is left without it.
unfoldable pub take : ℕ → List ℕ → Option (ℕ × List ℕ)
take i [] = none
take zero (f ∷ fs) = some (f, fs)
take (suc i) (f ∷ fs) = elim (take i fs) [ none ↦ none | some r ↦ some (r.0, f ∷ r.1) ]

-- The fiber of the leftmost child goes to the parent, that of any other to the pool.
unfoldable pub leave : Fibers → ℕ → ℕ → List ℕ → Option Fibers
leave s i f fs =
    if not (i == 0) || is_some s.fiber_child
    then (if is_child s.fiber_child f
        then none
        else some (record s { children = fs; pool = f ∷ s.pool }))
    else some (record s { children = fs; fiber_child = some f })

unfoldable pub wake : Fibers → Option Fibers
wake s = if is_nil s.children && s.suspended then setup_for_sync s else some s

unfoldable pub return : Fibers → ℕ → Option Fibers
return s i = elim (take i s.children) [ none ↦ none | some r ↦ leave s i r.0 r.1 >>= wake ]
