-- ===== src/Closures/Stolen.antt =====
-- A steal: the closure goes to the thief, and a new child stays with the victim.
use cheetah.Closures.Facts.{children_free}
use cheetah.Closures.Children.{children, children-same, children-le, children-under}
use cheetah.Closures.Sound.{IsSound, IsTree, IsHeld, IsRanked, IsFound}
use cheetah.Closures.{Scheduler, is_live, Flags, Closure, create, add_join, running}
use cheetah.Base.{
  none, some, true, false, inl, inr, ℕ, ◌<◌, ◌≡◌, ◌≢◌, ◌^◌, ◌⊎◌, update, ◌+◌, arith, if◌then◌else◌,
  ◌==◌, ℕ_discrete,
}

abbrev pub IsFree : Scheduler → ℕ → ℕ → Type 0
IsFree s n c = (c < n) × (is_live (s.closure c).status ≡ false)

-- No closure in use has the frame.
abbrev pub IsFreshFrame : Scheduler → ℕ → Type 0
IsFreshFrame s f = (c : ℕ) → is_live (s.closure c).status ≡ true → (s.closure c).frame ≢ some f

module _ (s : Scheduler) (self pn cl f child : ℕ) (fl : Flags) where
  abbrev parent_stolen : Closure
  parent_stolen = record (add_join (s.closure cl)) {
    frame = some f;
    owner = none;
    status = running;
  }

  abbrev child_left : Closure
  child_left = record (create none) { owner = some pn; status = running; spawn_parent = some cl }

  abbrev pub left : Scheduler
  left = record s {
    closure = update (update s.closure child child_left) cl parent_stolen;
    flags = update s.flags f fl;
    busy = update s.busy pn (some child);
    current = update s.current self (some cl);
  }

module _ (n : ℕ) (s : Scheduler) (self pn cl f child : ℕ) (fl : Flags) (v : IsSound n s)
    (small : n < 2 ^ 32) (with' : s.busy pn ≡ some cl) (ready' : s.current self ≡ none)
    (here : s.busy self ≡ none) (apart : self ≢ pn) (free : IsFree s n child)
    (frame : ((s.closure cl).frame ≡ some f) ⊎ (((s.closure cl).frame ≡ none) × IsFreshFrame s f))
    (unsyn : fl.unsynched ≡ true) (stol : fl.stolen ≡ true) where
  left-children :
      (p : ℕ)
      → children n (left s self pn cl f child fl).closure p
        ≡ children n s.closure p + (if cl == p then 1 else 0)
  unfolding create add_join
  left-children p =
      let k = v.held.busy pn cl with' in
      let a =
        children-same n p cl (update s.closure child (child_left s self pn cl f child fl))
          (parent_stolen s self pn cl f child fl) (ground (arith, k, free)) in
      let b = children-under n p child s.closure (child_left s self pn cl f child fl) free.0 in
      ground (arith, a, b, free)

  only : (x : ℕ) → is_live (s.closure x).status ≡ true → (s.closure x).frame ≡ some f → x ≡ cl
  only x a e = elim frame [
    | inl own ↦ ground (arith, v.held.busy pn cl with', v.tree.frames x cl f)
    | inr fresh ↦ absurd (fresh.1 x a e)
  ]

  left-IsTree : IsTree (left s self pn cl f child fl) n
  unfolding create add_join
  left-IsTree =
      let o = v.tree in
      let k = v.held.busy pn cl with' in
      let none_yet = children_free n child s o free.1 in
      let up = children-le n cl (left s self pn cl f child fl).closure in
      let more = left-children cl in
      record {
        bounded = λ c a. ground (arith, k, free, o.bounded c, o.bounded cl);
        counted = λ c a.
            let e = left-children c in
            ground (arith, k, free, e, more, none_yet, up, o.counted c, o.counted cl);
        spawned = λ x p a b. ground (arith, k, free, o.spawned x p, o.spawned cl p);
        called = λ x p a b. ground (arith, k, free, o.called x p, o.called cl p);
        callee = λ x y p a b c d.
            ground (arith, k, free, o.callee x y p, o.callee cl y p, o.callee x cl p);
        frames = λ x y g a b c d. ground (arith, k, free, only x, only y, o.frames x y g);
        waits = λ c a. ground (arith, k, free, o.waits c);
        settled = λ c a. ground (arith, k, free, o.settled c);
        top = (let r = o.top in ground (arith, k, free, r));
        rooted = λ c a. ground (arith, k, free, o.rooted c, o.rooted cl);
      }

  left-IsHeld : IsHeld (left s self pn cl f child fl)
  unfolding create add_join
  left-IsHeld =
      let o = v.held in
      let k = o.busy pn cl with' in
      record {
        busy = λ w c a. ground (arith, k, free, o.busy w c);
        owner = λ w c a b. ground (arith, k, free, o.owner w c);
        current = λ w c a. ground (arith, k, free, o.current w c);
        one = λ w x c a b. ground (arith, k, free, o.one w x c, o.current w c, o.current x c);
        returns = λ c a. ground (arith, k, free, o.returns c);
      }

  left-IsRanked : IsRanked (left s self pn cl f child fl)
  unfolding create add_join
  left-IsRanked =
      let k = v.held.busy pn cl with' in
      let (rank, r) = v.ranked in
      (
        update rank child (rank cl + 1),
        λ x p a. ground (
          arith,
          a,
          k,
          free,
          r x p,
          r cl p,
          v.tree.spawned x p,
          v.tree.called x p,
          v.tree.spawned cl p,
          v.tree.called cl p,
        ),
      )

  left-IsFound : IsFound (left s self pn cl f child fl)
  left-IsFound c a = elim (ℕ_discrete c child) [
    | yes e ↦ (pn, ground (arith, e))
    | no e ↦ elim (ℕ_discrete c cl) [
      | yes e' ↦ (self, ground (arith, e'))
      | no e' ↦
          let (w, at) = v.found c (ground (arith, a, e, e')) in
          (w, ground (arith, at, with', ready', here, e, e'))
    ]
  ]

  -- The state after such a steal is sound.
  pub left-IsSound : IsSound n (left s self pn cl f child fl)
  left-IsSound = record {
    tree = left-IsTree;
    held = left-IsHeld;
    ranked = left-IsRanked;
    found = left-IsFound;
  }
