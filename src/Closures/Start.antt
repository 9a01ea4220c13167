-- ===== src/Closures/Start.antt =====
-- A worker that goes on with its closure, and one that takes its closure to the runtime.
use cheetah.Closures.Facts.{IsRanked-kept, IsFound-but}
use cheetah.Closures.Children.{children-same}
use cheetah.Closures.Returns.{execute}
use cheetah.Closures.Sound.{IsSound, IsTree, IsHeld}
use cheetah.Closures.{Scheduler, is_running, put, set}
use cheetah.Base.{Passes, passed, refl, none, some, true, ℕ, ◌≡◌, update, arith}

module _ (n : ℕ) (s : Scheduler) (self t : ℕ) (v : IsSound n s) (now : s.current self ≡ some t)
    (runs : is_running (s.closure t).status ≡ true) where
  abbrev started : Scheduler
  started =
      put (record s { busy = update s.busy self (some t); current = update s.current self none }) t
        (record (s.closure t) { owner = some self })

  started-IsTree : IsTree started n
  started-IsTree =
      let o = v.tree in
      record {
        bounded = λ c a. ground (arith, o.bounded c, o.bounded t);
        counted = λ c a.
            rw (children-same n c t s.closure (record (s.closure t) { owner = some self }) refl)
              (ground (arith, o.counted c));
        spawned = λ x p a b. ground (arith, o.spawned x p);
        called = λ x p a b. ground (arith, o.called x p);
        callee = λ x y p a b c d. ground (arith, o.callee x y p);
        frames = λ x y f a b c d. ground (arith, o.frames x y f);
        waits = λ c a. ground (arith, o.waits c);
        settled = λ c a. ground (arith, o.settled c);
        top = (let r = o.top in ground (arith, r));
        rooted = λ c a. ground (arith, o.rooted c);
      }

  started-IsHeld : IsHeld started
  started-IsHeld =
      let o = v.held in
      let k = o.current self t now in
      record {
        busy = λ w c a. ground (arith, k, o.busy w c);
        owner = λ w c a b. ground (arith, k, o.owner w c);
        current = λ w c a. ground (arith, k, o.current w c, o.one w self c);
        one = λ w x c a b. ground (arith, k, o.one w x c);
        returns = λ c a. ground (arith, k, o.returns c);
      }

  pub execute-IsSound : Passes (IsSound n) (execute s self t)
  unfolding execute set
  execute-IsSound =
      let k = v.held.current self t now in
      rw (k.1, k.2, k.3)
        (passed _ (record {
          tree = started-IsTree;
          held = started-IsHeld;
          ranked = IsRanked-kept s started (λ x p a. ground (arith, a)) v.ranked;
          found =
              IsFound-but s started t self v.found (λ a. ground arith)
                (λ c w a b. ground (arith, now, k));
        }))
