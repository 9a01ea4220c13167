-- ===== src/Closures/Change.antt =====
-- A change of one closure that leaves its place in the tree.
use cheetah.Closures.Facts.{no_child}
use cheetah.Closures.Children.{children, children-same}
use cheetah.Closures.Sound.{IsTree}
use cheetah.Base.{some, true, false, ℕ, ◌≡◌, Option, ◌≢◌, update, arith, ◌<◌}
use cheetah.Closures.{ready, Scheduler, is_live, Closure, Flags, is_returning, is_suspended}

-- The frame is no other closure's.
abbrev pub IsOwnFrame : Scheduler → ℕ → ℕ → Type 0
IsOwnFrame s t f =
    (x : ℕ) → is_live (s.closure x).status ≡ true → x ≢ t → (s.closure x).frame ≢ some f

module _ (n : ℕ) (s : Scheduler) (t : ℕ) (c : Closure) (busy current : ℕ → Option ℕ)
    (v : IsTree s n) (lives : is_live (s.closure t).status ≡ true) (live' : is_live c.status ≡ true)
    (over : c.status ≢ ready) (same_spawn : c.spawn_parent ≡ (s.closure t).spawn_parent)
    (same_call : c.call_parent ≡ (s.closure t).call_parent)
    (same_join : c.join_counter ≡ (s.closure t).join_counter) where
  same-children : (p : ℕ) → children n (update s.closure t c) p ≡ children n s.closure p
  same-children p =
      children-same n p t s.closure c (ground (arith, lives, live', same_spawn, same_call))

  -- A closure without children may change in any other way.
  pub childless-IsTree :
      (f : ℕ) (fl : Flags)
      → (s.closure t).join_counter ≡ 0
      → is_suspended c.status ≡ false
      → IsOwnFrame s t f
      → ((g : ℕ) → c.frame ≡ some g → IsOwnFrame s t g)
      → IsTree
          (record s {
            closure = update s.closure t c;
            flags = update s.flags f fl;
            busy = busy;
            current = current;
          })
          n
  childless-IsTree f fl a b d e = record {
    bounded = λ x h. ground (arith, v.bounded x, lives);
    counted = λ x h.
        let q = same-children x in ground (arith, q, lives, same_join, v.counted x, v.counted t);
    spawned = λ x p h k.
        let lx = v.spawned x p in
        let q = no_child n t x s v lives a in
        ground (arith, lives, same_spawn, same_call, lx, v.spawned t p, q, d p);
    called = λ x p h k.
        let q = no_child n t x s v lives a in
        ground (arith, lives, same_spawn, same_call, v.called x p, v.called t p, q);
    callee = λ x y p h k i j.
        ground (arith, lives, same_call, v.callee x y p, v.callee t y p, v.callee x t p);
    frames = λ x y g h k i j.
        let q = e g in
        ground (
          arith,
          lives,
          v.frames x y g,
          λ (w : c.frame ≡ some g). q w x,
          λ (w : c.frame ≡ some g). q w y,
        );
    waits = λ x h. ground (arith, b, v.waits x);
    settled = λ x h. ground (arith, over, v.settled x);
    top = (let r = v.top in ground (arith, r, live', same_spawn, same_call));
    rooted = λ x h. ground (arith, lives, same_spawn, same_call, v.rooted x, v.rooted t);
  }

  -- A closure that keeps its frame, and does not return.
  pub kept-IsTree :
      c.frame ≡ (s.closure t).frame
      → is_returning c.status ≡ false
      → is_suspended (s.closure t).status ≡ false
      → (is_suspended c.status ≡ true → 0 < c.join_counter)
      → IsTree (record s { closure = update s.closure t c; busy = busy; current = current }) n
  kept-IsTree a b d e = record {
    bounded = λ x h. ground (arith, v.bounded x, lives);
    counted = λ x h.
        let q = same-children x in ground (arith, q, lives, same_join, v.counted x, v.counted t);
    spawned =
        λ x p h k. ground (arith, a, b, lives, same_spawn, same_call, v.spawned x p, v.spawned t p);
    called = λ x p h k. ground (arith, d, lives, same_spawn, same_call, v.called x p, v.called t p);
    callee = λ x y p h k i j.
        ground (arith, lives, same_call, v.callee x y p, v.callee t y p, v.callee x t p);
    frames =
        λ x y g h k i j. ground (arith, a, lives, v.frames x y g, v.frames t y g, v.frames x t g);
    waits = λ x h. ground (arith, e, v.waits x);
    settled = λ x h. ground (arith, over, v.settled x);
    top = (let r = v.top in ground (arith, r, live', same_spawn, same_call));
    rooted = λ x h. ground (arith, lives, same_spawn, same_call, v.rooted x, v.rooted t);
  }
