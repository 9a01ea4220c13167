-- ===== src/Closures/Steal.antt =====
-- A steal passes its checks: `Closure_steal` with `promote_child` and `finish_promote`.
use cheetah.Closures.Passes.{check_lem}
use cheetah.Closures.Facts.{Scheduler_ext}
use cheetah.Closures.Moves.{
  executed, placed, unplaced, promoted, set_lem, finish_promote_lem, xtract_lem,
  setup_for_execution_lem, suspend_lem,
}
use cheetah.Closures.Called.{called, called-IsSound}
use cheetah.Closures.Stolen.{IsFreshFrame, IsFree, left, left-IsSound}
use cheetah.Closures.Sound.{IsSound}
use cheetah.Base.{
  Passes, else_lem, if_lem, passed, refl, none, some, true, false, inl, inr, ℕ, ◌≡◌, ◌<◌, ◌^◌, ◌≢◌,
  arith, update, ◌>>=◌, >>=-some, ◌∙◌, ap,
}
use cheetah.Closures.{
  running, Scheduler, steal_from, promote_child, stolen_closure, spawn, change_status, suspend,
  add_callee, create, add_join, put, finish_steal, points_to, put_flags, suspended,
}

-- The frame at the head of a deque is that of the busy closure, or a spawn helper's that has none and
-- belongs to a closure without a frame, or that of a function that has been called.
pub data IsHead (s : Scheduler) (cl f : ℕ) : Type 0 where
  own : (s.closure cl).frame ≡ some f → (s.flags f).stolen ≡ true → IsHead s cl f
  helper :
      (s.closure cl).frame ≡ none
      → (s.flags f).detached ≡ true
      → (s.flags f).stolen ≡ false
      → IsFreshFrame s f
      → IsHead s cl f
  function : (s.flags f).detached ≡ false → IsFreshFrame s f → IsHead s cl f

-- From the closure that is stolen to the end.
module _ (s : Scheduler) (self pn f parent child : ℕ) where
  abbrev with_child : Scheduler
  with_child =
      put (put s child (record (create none) { spawn_parent = some parent; status = running }))
        parent (add_join (s.closure parent))

  abbrev end : Scheduler
  end = executed (promoted (placed with_child child pn) parent self) parent self

  abbrev stolen : Scheduler
  stolen = record s {
    closure =
        update
          (update s.closure child (record (create none) {
            owner = some pn;
            spawn_parent = some parent;
            status = running;
          }))
          parent (record (add_join (s.closure parent)) { status = running });
    flags = update s.flags f (record (s.flags f) { unsynched = true });
    busy = update s.busy pn (some child);
    current = update s.current self (some parent);
  }

  module _ (a : (s.closure parent).frame ≡ some f) (b : (s.flags f).stolen ≡ true)
      (c : s.busy pn ≡ none) (d : parent ≢ child) where
    spawn_lem : spawn s pn parent child ≡ some (placed with_child child pn, parent)
    unfolding spawn create
    spawn_lem =
        let e : update s.closure child
              (record (create none) { spawn_parent = some parent; status = running }) parent
            ≡ s.closure parent =
          ground (arith, d) in
        rw e (>>=-some _ _ (set_lem with_child child pn (ground (arith, d)) c) refl)

    finish_lem : finish_steal self (placed with_child child pn, parent) ≡ some end
    unfolding finish_steal create add_join change_status
    finish_lem =
        >>=-some _ _
          (finish_promote_lem (placed with_child child pn) parent self (ground (arith, a, b, d)))
          (setup_for_execution_lem (promoted (placed with_child child pn) parent self) parent self
            (ground (arith, a, d)))

    end-eq : (spawn s pn parent child >>= finish_steal self) ≡ some stolen
    unfolding create add_join change_status
    end-eq = >>=-some _ _ spawn_lem (
        finish_lem
        ∙ ap some (
            Scheduler_ext end stolen (λ i. ground (arith, a, d)) (λ i. ground (arith, a, d))
              (λ i. ground (arith, a)) (λ i. ground (arith, a)) (ground (arith, a))))

-- The thief has the closure of the stolen frame, and the victim its new child.
abbrev pub Stolen : ℕ → ℕ → ℕ → ℕ → ℕ → Scheduler → Type 0
Stolen n self pn f child s' =
    IsSound n s'
    × (s'.busy pn ≡ some child)
    × (p : ℕ) × (s'.current self ≡ some p)
    × ((s'.closure p).frame ≡ some f)
    × ((s'.closure child).spawn_parent ≡ some p)

module _ (n : ℕ) (s : Scheduler) (self pn cl f callee child : ℕ) (v : IsSound n s)
    (small : n < 2 ^ 32) (with' : s.busy pn ≡ some cl) (idle : s.current self ≡ none)
    (here : s.busy self ≡ none) (apart : self ≢ pn) (free : IsFree s n child)
    (free' : IsFree s n callee) (two : callee ≢ child) where
  -- The assertions of `promote_child` hold, and the closure to steal is found.
  promote_child-eq :
      (t : Scheduler) (p : ℕ)
      → stolen_closure s pn cl f callee ≡ some (t, p)
      → promote_child s pn cl f callee child ≡ spawn t pn p child
  unfolding promote_child
  promote_child-eq t p e =
      let k = v.held.busy pn cl with' in
      check_lem _ _ (let r = v.tree.rooted cl (ground (arith, k)) in ground (arith, k, r))
      ∙ >>=-some _ (λ r. spawn r.0 pn r.1 child) e refl

  steal_from-eq :
      (t s' : Scheduler) (p : ℕ)
      → stolen_closure s pn cl f callee ≡ some (t, p)
      → (spawn t pn p child >>= finish_steal self) ≡ some s'
      → steal_from s self pn cl (some f) callee child ≡ some s'
  unfolding steal_from
  steal_from-eq t s' p e e' =
      let k = v.held.busy pn cl with' in
      let st : (s.closure cl).status ≡ running = ground (arith, k) in
      rw (st, steal_from) (ap (λ m. m >>= finish_steal self) (promote_child-eq t p e) ∙ e')

  -- In a sound state of fewer than 2 ^ 32 closures, a steal by an idle worker of the frame at the
  -- head of another's deque passes the modelled checks and leaves a sound state: the thief has the
  -- closure of that frame, and the victim has a new child of this closure as its busy one.
  pub steal_from-Stolen :
      IsHead s cl f
      → Passes (Stolen n self pn f child) (steal_from s self pn cl (some f) callee child)
  unfolding stolen_closure suspend add_callee change_status create add_join
  steal_from-Stolen (own a b) =
      let k = v.held.busy pn cl with' in
      let t = unplaced s cl pn in
      let fl = record (s.flags f) { unsynched = true } in
      let e : stolen_closure s pn cl f callee ≡ some (t, cl) =
        (let e0 : points_to (s.closure cl).frame f ≡ true = ground (arith, a) in
          rw (e0, b) (ap (λ (x : Scheduler). some (x, cl)) (xtract_lem s cl pn with'))) in
      let g : stolen t self pn f cl child ≡ left s self pn cl f child fl =
        Scheduler_ext _ _ (λ i. ground (arith, a, k, free)) (λ i. ground (arith, b))
          (λ i. ground arith) (λ i. ground arith) refl in
      rw
        (
          steal_from-eq t (stolen t self pn f cl child) cl e (
              end-eq t self pn f cl child (ground (arith, a)) b (ground arith)
                (ground (arith, k, free))),
          g,
        )
        (passed _ (
          left-IsSound n s self pn cl f child fl v small with' idle here apart free (inl a) refl b,
          ground (arith, k, free),
          cl,
          ground arith,
          ground arith,
          ground (arith, k, free),
        ))
  steal_from-Stolen (helper a b c d) =
      let k = v.held.busy pn cl with' in
      let fl = record (s.flags f) { stolen = true; unsynched = true } in
      let u =
        put (put_flags s f (record (s.flags f) { stolen = true })) cl
          (record (s.closure cl) { frame = some f }) in
      let t = unplaced u cl pn in
      let e : stolen_closure s pn cl f callee ≡ some (t, cl) =
        (let e0 : points_to (s.closure cl).frame f ≡ false = ground (arith, a) in
          else_lem _ _ _ e0
          ∙ if_lem _ _ _ b
          ∙ check_lem _ _ (ground (arith, a, c))
          ∙ ap (λ (x : Scheduler). some (x, cl)) (xtract_lem u cl pn with')) in
      let g : stolen t self pn f cl child ≡ left s self pn cl f child fl =
        Scheduler_ext _ _ (λ i. ground (arith, a, k, free)) (λ i. ground (arith))
          (λ i. ground arith) (λ i. ground arith) refl in
      rw
        (
          steal_from-eq t (stolen t self pn f cl child) cl e (
              end-eq t self pn f cl child (ground (arith, a)) (ground arith) (ground arith)
                (ground (arith, k, free))),
          g,
        )
        (passed _ (
          left-IsSound n s self pn cl f child fl v small with' idle here apart free (inr (a, d))
              refl refl,
          ground (arith, k, free),
          cl,
          ground arith,
          ground arith,
          ground (arith, k, free),
        ))
  steal_from-Stolen (function b d) =
      let k = v.held.busy pn cl with' in
      let fl = record (s.flags f) { stolen = true; unsynched = true } in
      let u = change_status (add_callee s cl f callee) cl suspended in
      let t = unplaced u cl pn in
      let e : stolen_closure s pn cl f callee ≡ some (t, callee) =
        (let e0 : points_to (s.closure cl).frame f ≡ false =
            (let q = d cl in ground (arith, k, q)) in
          else_lem _ _ _ e0
          ∙ else_lem _ _ _ b
          ∙ (let q =
                suspend_lem (add_callee s cl f callee) cl pn (ground (arith, k, free')) with' in
              >>=-some (suspend (add_callee s cl f callee) cl pn) (λ s'. some (s', callee)) q
                refl)) in
      let g : stolen t self pn f callee child ≡ called s self pn cl f callee child fl =
        Scheduler_ext _ _ (λ i. ground (arith, k, free, free', two)) (λ i. ground (arith))
          (λ i. ground arith) (λ i. ground arith) refl in
      rw
        (
          steal_from-eq t (stolen t self pn f callee child) callee e (
              end-eq t self pn f callee child (ground (arith, k, free')) (ground arith)
                (ground arith) two),
          g,
        )
        (passed _ (
          called-IsSound n s self pn cl f callee child fl v small with' idle here apart free free'
              two d refl refl,
          ground (arith, k, free),
          callee,
          ground arith,
          ground arith,
          ground (arith, two, k, free),
        ))
