-- ===== src/Closures/Called.antt =====
-- A steal of a frame that has no closure: a callee stands for it, and its caller waits.
use cheetah.Closures.Facts.{children_free}
use cheetah.Closures.Children.{children, children-same, children-le, children-under}
use cheetah.Closures.Stolen.{IsFree, IsFreshFrame}
use cheetah.Closures.Sound.{IsSound, IsTree, IsHeld, IsRanked, IsFound}
use cheetah.Closures.{Scheduler, Flags, Closure, create, add_join, running, suspended}
use cheetah.Base.{
  none, some, true, ℕ, ◌<◌, ◌^◌, ◌≡◌, ◌≢◌, update, ◌+◌, arith, if◌then◌else◌, ◌==◌, ℕ_discrete,
}

module _ (s : Scheduler) (self pn cl f callee child : ℕ) (fl : Flags) where
  abbrev caller : Closure
  caller = record (add_join (s.closure cl)) { owner = none; status = suspended }

  abbrev callee_stolen : Closure
  callee_stolen = record (add_join (create (some f))) { status = running; call_parent = some cl }

  abbrev child_left : Closure
  child_left = record (create none) {
    owner = some pn;
    status = running;
    spawn_parent = some callee;
  }

  abbrev pub called : Scheduler
  called = record s {
    closure = update (update (update s.closure child child_left) cl caller) callee callee_stolen;
    flags = update s.flags f fl;
    busy = update s.busy pn (some child);
    current = update s.current self (some callee);
  }

module _ (n : ℕ) (s : Scheduler) (self pn cl f callee child : ℕ) (fl : Flags) (v : IsSound n s)
    (small : n < 2 ^ 32) (with' : s.busy pn ≡ some cl) (ready' : s.current self ≡ none)
    (here : s.busy self ≡ none) (apart : self ≢ pn) (free : IsFree s n child)
    (free' : IsFree s n callee) (two : callee ≢ child) (fresh : IsFreshFrame s f)
    (unsyn : fl.unsynched ≡ true) (stol : fl.stolen ≡ true) where
  called-children :
      (p : ℕ)
      → children n (called s self pn cl f callee child fl).closure p
        ≡ children n s.closure p + (if cl == p then 1 else 0) + (if callee == p then 1 else 0)
  unfolding create add_join
  called-children p =
      let k = v.held.busy pn cl with' in
      let a =
        children-same n p cl (update s.closure child (child_left s self pn cl f callee child fl))
          (caller s self pn cl f callee child fl) (ground (arith, k, free)) in
      let b =
        children-under n p child s.closure (child_left s self pn cl f callee child fl) free.0 in
      let c =
        children-under n p callee
          (update (update s.closure child (child_left s self pn cl f callee child fl)) cl
            (caller s self pn cl f callee child fl))
          (callee_stolen s self pn cl f callee child fl) free'.0 in
      ground (arith, a, b, c, k, free, free')

  called-IsTree : IsTree (called s self pn cl f callee child fl) n
  unfolding create add_join
  called-IsTree =
      let o = v.tree in
      let k = v.held.busy pn cl with' in
      let none_yet = children_free n child s o free.1 in
      let none_yet' = children_free n callee s o free'.1 in
      let up = children-le n cl (called s self pn cl f callee child fl).closure in
      let more = called-children cl in
      record {
        bounded = λ c a. ground (arith, k, free, free', o.bounded c, o.bounded cl);
        counted = λ c a.
            let e = called-children c in
            ground
              (arith, k, free, free', e, none_yet, none_yet', more, up, o.counted c, o.counted cl);
        spawned = λ x p a b. ground (arith, k, free, free', fresh p, o.spawned x p, o.spawned cl p);
        called = λ x p a b. ground (arith, k, free, free', o.called x p, o.called cl p);
        callee = λ x y p a b c d. ground (
          arith,
          k,
          free,
          free',
          o.called x p,
          o.called y p,
          o.callee x y p,
          o.callee cl y p,
          o.callee x cl p,
        );
        frames = λ x y g a b c d. ground (arith, k, free, free', fresh x, fresh y, o.frames x y g);
        waits = λ c a. ground (arith, k, free, free', more, up, o.counted cl, o.waits c);
        settled = λ c a. ground (arith, k, free, free', o.settled c);
        top = (let r = o.top in ground (arith, k, free, free', r));
        rooted = λ c a. ground (arith, k, free, free', o.rooted c, o.rooted cl);
      }

  called-IsHeld : IsHeld (called s self pn cl f callee child fl)
  unfolding create add_join
  called-IsHeld =
      let o = v.held in
      let k = o.busy pn cl with' in
      record {
        busy = λ w c a. ground (arith, k, free, free', o.busy w c);
        owner = λ w c a b. ground (arith, k, free, free', o.owner w c);
        current = λ w c a. ground (arith, k, free, free', o.current w c);
        one =
            λ w x c a b. ground (arith, k, free, free', o.one w x c, o.current w c, o.current x c);
        returns = λ c a. ground (arith, k, free, free', o.returns c);
      }

  called-IsRanked : IsRanked (called s self pn cl f callee child fl)
  unfolding create add_join
  called-IsRanked =
      let k = v.held.busy pn cl with' in
      let (rank, r) = v.ranked in
      (
        update (update rank callee (rank cl + 1)) child (rank cl + 2),
        λ x p a. ground (
          arith,
          a,
          k,
          free,
          free',
          two,
          r x p,
          r cl p,
          v.tree.spawned x p,
          v.tree.called x p,
          v.tree.spawned cl p,
          v.tree.called cl p,
        ),
      )

  called-IsFound : IsFound (called s self pn cl f callee child fl)
  called-IsFound c a = elim (ℕ_discrete c child) [
    | yes e ↦ (pn, ground (arith, e))
    | no e ↦ elim (ℕ_discrete c callee) [
      | yes e' ↦ (self, ground (arith, e'))
      | no e' ↦
          let (w, at) = v.found c (ground (arith, a, e, e')) in
          (w, ground (arith, a, at, with', ready', here, e, e'))
    ]
  ]

  -- The state after such a steal is sound.
  pub called-IsSound : IsSound n (called s self pn cl f callee child fl)
  called-IsSound = record {
    tree = called-IsTree;
    held = called-IsHeld;
    ranked = called-IsRanked;
    found = called-IsFound;
  }
