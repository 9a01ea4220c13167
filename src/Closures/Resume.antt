-- ===== src/Closures/Resume.antt =====
-- A called function that returns to its caller's closure: `__cilkrts_set_return`.
use cheetah.Closures.Passes.{check_lem}
use cheetah.Closures.Facts.{suspended-unowned, IsRanked-kept, IsFound-but, Scheduler_ext}
use cheetah.Closures.Moves.{unplaced, xtract_lem, set_lem}
use cheetah.Closures.Returns.{set_return, resume_call_parent}
use cheetah.Closures.Leave.{synced-childless}
use cheetah.Closures.Sound.{IsSound}
use cheetah.Closures.Gone.{after, after-IsTree}
use cheetah.Base.{
  Passes, passed, refl, none, some, true, false, ℕ, ◌≡◌, update, ◌<◌, ◌^◌, arith, ◌≢◌, ◌&&◌, not,
  >>=-some, ◌∙◌, ap,
}
use cheetah.Closures.{
  running, post_invalid, Scheduler, Closure, sub_join, is_suspended, is_running, has_children,
  is_null, frame_detached, frame_stolen, put, change_status,
}

-- What the caller of `__cilkrts_set_return` knows: a frame that has been stolen and has synced, of a
-- closure that was called.
pub record IsCallDone (s : Scheduler) (t p f : ℕ) : Type 0 where
  pub called : (s.closure t).call_parent ≡ some p
  pub framed : (s.closure t).frame ≡ some f
  pub stolen : (s.flags f).stolen ≡ true
  pub attached : (s.flags f).detached ≡ false
  pub synced : (s.flags f).unsynched ≡ false

module _ (s : Scheduler) (self t p : ℕ) where
  abbrev dead : Closure
  dead = record (s.closure t) { frame = none; owner = none; status = post_invalid }

  abbrev caller : Closure
  caller = record (sub_join (s.closure p)) { owner = some self; status = running }

  abbrev pub resumed : Scheduler
  resumed = after s t p dead caller s.flags (update s.busy self (some p)) s.current

module _ (n : ℕ) (s : Scheduler) (self t p f : ℕ) (v : IsSound n s) (small : n < 2 ^ 32)
    (with' : s.busy self ≡ some t) (here : s.current self ≡ none) (done : IsCallDone s t p f) where
  childless : (s.closure t).join_counter ≡ 0
  childless =
      let e = done.framed in
      let d = done.synced in synced-childless n s self t v with' (ground (arith, e, d))

  parent_waits :
      (is_suspended (s.closure p).status ≡ true)
      × ((s.closure t).spawn_parent ≡ none)
      × ((s.closure p).owner ≡ none)
      × (t ≢ p)
  parent_waits =
      let k = v.held.busy self t with' in
      let c = v.tree.called t p (ground (arith, k)) done.called in
      (c.0, c.1, suspended-unowned s p v.held c.0, λ e. ground (arith, k, c, e))

  resumed-IsSound : IsSound n (resumed s self t p)
  unfolding sub_join
  resumed-IsSound =
      let o = v.held in
      let k = o.busy self t with' in
      let w = parent_waits in
      let up = done.called in
      record {
        tree =
            after-IsTree n s t p (dead s self t p) (caller s self t p) s.flags
              (update s.busy self (some p)) s.current v.tree small (ground (arith, k)) childless
              (ground (arith, k, up)) w.3 refl refl (λ e. cc) refl refl refl refl (λ e. absurd (cc))
              (λ x a b e. let z = v.tree.spawned x p a e in (refl, z.3, z.4))
              (λ x a b e. absurd (b (v.tree.callee x t p a (ground (arith, k)) e up)))
              (λ q a b. (refl, refl));
        ranked = IsRanked-kept s (resumed s self t p) (λ x q a. ground (arith, k, w, a)) v.ranked;
        found =
            IsFound-but s (resumed s self t p) p self v.found (λ a. ground (arith))
              (λ c u a b. ground (arith, with', here, w));
        held = record {
          busy = λ u c a. ground (arith, k, w, o.busy u c);
          owner = λ u c a b. ground (arith, k, w, o.owner u c);
          current = λ u c a. ground (arith, k, w, here, o.current u c);
          one = o.one;
          returns = λ c a. ground (arith, k, w, o.returns c);
        };
      }

  resume-eq : resume_call_parent (unplaced s t self) self t p ≡ some (resumed s self t p)
  unfolding resume_call_parent change_status sub_join
  resume-eq =
      let k = v.held.busy self t with' in
      let w = parent_waits in
      let u = unplaced s t self in
      let u' = put u t (record (u.closure t) { frame = none }) in
      >>=-some _ _ (set_lem u' p self (ground (arith, k, w)) (ground arith)) (
        check_lem _ _ (ground (arith, k, w))
        ∙ ap some (
            Scheduler_ext _ _ (λ i. ground (arith, k, w)) (λ i. refl) (λ i. ground arith)
              (λ i. refl) refl))

  -- In a sound state of fewer than 2 ^ 32 closures, the return of a called function with a closure
  -- of its own, whose frame is not detached, has been stolen and has synced, passes the checks
  -- that the closure runs without children and that its caller waits, and leaves a sound state in
  -- which the worker has the caller's closure as its busy one.
  pub set_return-IsSound : Passes (λ s'. IsSound n s' × (s'.busy self ≡ some p)) (set_return s self)
  unfolding set_return
  set_return-IsSound =
      let k = v.held.busy self t with' in
      let w = parent_waits in
      let z = childless in
      let up = done.called in
      let guard : (is_running (s.closure t).status
            && not (has_children (s.closure t))
            && is_null (s.closure t).spawn_parent
            && not (is_null (s.closure t).frame)
            && not (frame_detached s (s.closure t).frame)
            && frame_stolen s (s.closure t).frame)
          ≡ true =
        (let a = done.framed in
          let b = done.stolen in let c = done.attached in ground (arith, k, w, z, a, b, c)) in
      let u = unplaced s t self in
      let u' = put u t (record (u.closure t) { frame = none }) in
      let e : resume_call_parent u self t p ≡ some (resumed s self t p) = resume-eq in
      rw (with', set_return, check_lem _ _ guard, up, xtract_lem s t self with', e)
        (passed _ (resumed-IsSound, ground arith))
