-- ===== src/Closures/Return.antt =====
-- A spawned child that returns to its parent: `Closure_return` and `provably_good_steal_maybe`.
use cheetah.Closures.Facts.{Scheduler_ext, suspended-unowned, IsRanked-kept, IsFound-but}
use cheetah.Closures.Passes.{check_lem}
use cheetah.Closures.Moves.{setup_for_execution_lem}
use cheetah.Closures.Change.{IsOwnFrame, childless-IsTree}
use cheetah.Closures.Leave.{frame_of}
use cheetah.Closures.Depart.{
  dead, facts, parent, counts_down, frame_flags, stolen_back, leave_parent-eq, stolen_back-IsSound,
  departed, departed-IsSound,
}
use cheetah.Closures.Gone.{after}
use cheetah.Closures.Sound.{IsSound}
use cheetah.Closures.Returns.{
  closure_return, provably_good_steal_maybe, setup_for_sync, leave_parent,
}
use cheetah.Base.{
  if_lem, else_lem, Passes, passed, refl, none, some, true, false, inl, inr, ℕ, ◌<◌, ◌≡◌, update,
  ◌^◌, not, ◌&&◌, arith, ◌+◌, Bool-cases, ◌∙◌, ◌==◌, >>=-some, ap, subst, some_eq, sym, ◌⊎◌,
}
use cheetah.Closures.{
  running, ready, Scheduler, change_status, is_suspended, is_returning, put_flags, is_live,
  sub_join, has_children, is_running, frame_unsynched, is_null, Closure, setup_for_execution,
}

-- The parent is done with waiting.
abbrev pub IsLast : Scheduler → ℕ → Type 0
IsLast s p = (is_suspended (s.closure p).status ≡ true) × ((s.closure p).join_counter ≡ 1)

-- The child is gone. The worker goes on with a parent that waited for it only, and has nothing to go on
-- with otherwise.
abbrev pub Returned : ℕ → Scheduler → ℕ → ℕ → ℕ → Scheduler → Type 0
Returned n s self t p s' =
    IsSound n s'
    × (is_live (s'.closure t).status ≡ false)
    × ((IsLast s p
          × (s'.current self ≡ some p)
          × (is_running (s'.closure p).status ≡ true)
          × (frame_unsynched s' (s'.closure p).frame ≡ false))
        ⊎ ((¬ IsLast s p)
            × (s'.current self ≡ none)
            × ((s'.closure p).status ≡ (s.closure p).status)
            × ((s'.closure p).join_counter + 1 ≡ (s.closure p).join_counter)))

module _ (u : Scheduler) (self p : ℕ) where
  resumes-eq :
      (f : ℕ)
      → (u.closure p).frame ≡ some f
      → is_suspended (u.closure p).status ≡ true
      → (u.closure p).join_counter ≡ 0
      → (u.closure p).owner ≡ none
      → provably_good_steal_maybe u self p
        ≡ some (record u {
          closure = update u.closure p (record (u.closure p) { status = running });
          flags = update u.flags f (record (u.flags f) { unsynched = false });
          current = update u.current self (some p);
        })
  unfolding provably_good_steal_maybe setup_for_sync change_status
  resumes-eq f a b c d =
      let w = put_flags u f (record (u.flags f) { unsynched = false }) in
      let e : setup_for_sync u p ≡ some w = rw (a, setup_for_sync) refl in
      let test : (not (has_children (u.closure p)) && is_suspended (u.closure p).status) ≡ true =
        ground (arith, b, c) in
      let free : is_null (u.closure p).owner ≡ true = ground (arith, d) in
      if_lem _ _ _ test
      ∙ >>=-some (setup_for_sync u p) _ e (
          check_lem _ _ free
          ∙ setup_for_execution_lem (change_status w p ready) p self (ground (arith, a))
          ∙ ap some
              (Scheduler_ext _ _ (λ i. ground arith) (λ i. refl) (λ i. refl) (λ i. refl) refl))

  stays-eq :
      (is_suspended (u.closure p).status ≡ true → 0 < (u.closure p).join_counter)
      → provably_good_steal_maybe u self p
        ≡ some (record u { current = update u.current self none })
  unfolding provably_good_steal_maybe
  stays-eq a =
      let test : (not (has_children (u.closure p)) && is_suspended (u.closure p).status) ≡ false =
        ground (arith, a) in
      else_lem _ _ _ test

module _ (n : ℕ) (s : Scheduler) (self t p f : ℕ) (v : IsSound n s) (small : n < 2 ^ 32)
    (now : s.current self ≡ some t) (returns : is_returning (s.closure t).status ≡ true)
    (child : (s.closure t).spawn_parent ≡ some p) (frame : (s.closure p).frame ≡ some f) where
  gone : Scheduler
  gone =
      after s t p (dead s self t p f) (parent s self t p f)
        (update s.flags f (frame_flags s self t p f)) s.busy s.current

  closure_return-eq :
      (r : Scheduler)
      → provably_good_steal_maybe (leave_parent s t p) self p ≡ some r
      → closure_return s self t false ≡ some r
  unfolding closure_return
  closure_return-eq r e =
      let k = (facts n s self t p f v small now returns child frame) in
      let d = (counts_down n s self t p f v small now returns child frame) in
      rw (closure_return, child)
        (check_lem _ _ (ground (arith, k, returns))
          ∙ check_lem _ _ k.4
          ∙ check_lem _ _ (ground (arith, k, frame, d))
          ∙ e)

  -- In a sound state of fewer than 2 ^ 32 closures, the return of a spawned child with no views
  -- beside it passes the modelled checks and leaves a sound state without that child: its worker
  -- goes on with the parent, marked as synced, if the parent was suspended for this child only,
  -- and otherwise has nothing to go on with and the parent keeps its status, with one less to wait
  -- for.
  pub closure_return-Returned : Passes (Returned n s self t p) (closure_return s self t false)
  unfolding sub_join
  closure_return-Returned =
      let k = (facts n s self t p f v small now returns child frame) in
      let d = (counts_down n s self t p f v small now returns child frame) in
      elim (Bool-cases (is_suspended (s.closure p).status && ((s.closure p).join_counter == 1))) [
        | inl e ↦
            let a : is_suspended (s.closure p).status ≡ true = ground (arith, e) in
            let b : (s.closure p).join_counter ≡ 1 = ground (arith, e) in
            let c : (sub_join (s.closure p)).join_counter ≡ 0 = omega (arith, b, d) in
            let own = suspended-unowned s p v.held a in
            let q : provably_good_steal_maybe (leave_parent s t p) self p
                ≡ some (stolen_back s self t p f) =
              rw (leave_parent-eq n s self t p f v small now returns child frame) (
                resumes-eq _ self p f (ground (arith, frame)) (ground (arith, a))
                  (ground (arith, c)) (ground (arith, own))
                ∙ ap some (
                    Scheduler_ext _ _ (λ i. ground arith) (λ i. ground arith) (λ i. refl)
                      (λ i. refl) refl)) in
            rw (closure_return-eq _ q) (
              passed _ (
                stolen_back-IsSound n s self t p f v small now returns child frame a c,
                ground (arith, k),
                inl ((a, b), ground arith, ground arith, ground (arith, frame)),
              ))
        | inr e ↦
            let a : is_suspended (s.closure p).status ≡ true
                → 0 < (sub_join (s.closure p)).join_counter =
              λ h. ground (arith, e, d, h) in
            let q : provably_good_steal_maybe (leave_parent s t p) self p
                ≡ some (departed s self t p f) =
              rw (leave_parent-eq n s self t p f v small now returns child frame)
                (stays-eq _ self p (λ h. ground (arith, a, h))) in
            rw (closure_return-eq _ q) (
              passed _ (
                departed-IsSound n s self t p f v small now returns child frame a,
                ground (arith, k),
                inr (λ l. ground (arith, l, e), ground arith, ground arith, ground (arith, d)),
              ))
      ]

-- With views to its left or to its right the child goes on, to reduce them.
pub return_to_reduce-IsSound :
    (n : ℕ) (s : Scheduler) (self t : ℕ) (v : IsSound n s)
    → s.current self ≡ some t
    → is_returning (s.closure t).status ≡ true
    → Passes
        (λ s'.
          IsSound n s' × (s'.current self ≡ some t) × (is_running (s'.closure t).status ≡ true))
        (closure_return s self t true)
unfolding closure_return change_status
return_to_reduce-IsSound n s self t v now returns =
    let k = v.held.returns t returns in
    let o = v.held in
    let b = v.held.current self t now in
    let child = frame_of (s.closure t).spawn_parent k.2 in
    let up = v.tree.spawned t child.0 (ground (arith, returns)) child.1 in
    let f = frame_of (s.closure t).frame b.2 in
    let c : Closure = record (s.closure t) { status = running } in
    let own : IsOwnFrame s t f.0 =
      (λ x a h e. h (v.tree.frames x t f.0 a (ground (arith, returns)) e f.1)) in
    let u : Scheduler = record s {
      closure = update s.closure t c;
      flags = update s.flags f.0 (s.flags f.0);
      current = update s.current self (some t);
    } in
    let e : setup_for_execution s self t ≡ some u =
      setup_for_execution_lem s t self b.2
      ∙ ap some (
          Scheduler_ext _ _ (λ i. ground arith) (λ i. ground arith) (λ i. refl) (λ i. refl) refl) in
    let sound : IsSound n u = record {
      tree =
          childless-IsTree n s t c s.busy (update s.current self (some t)) v.tree
            (ground (arith, returns)) refl (λ e. cc) refl refl refl f.0 (s.flags f.0) k.0 refl own
            (λ g h. subst (IsOwnFrame s t) (some_eq (sym f.1 ∙ h)) own);
      ranked = IsRanked-kept s u (λ x p a. ground (arith, returns, a)) v.ranked;
      found = IsFound-but s u t self v.found (λ a. ground (arith)) (λ c w a b. ground (arith, now));
      held = record {
        busy = λ w x a. ground (arith, o.busy w x);
        owner = λ w x a b. ground (arith, returns, o.owner w x, o.busy w x);
        current = λ w x a. ground (arith, b, o.current w x);
        one = λ w y x a b. ground (arith, now, o.one w y x);
        returns = λ x a. ground (arith, o.returns x);
      };
    } in
    let guard : (not (has_children (s.closure t))
          && is_returning (s.closure t).status
          && is_null (s.closure t).owner
          && is_null (s.closure t).call_parent)
        ≡ true =
      ground (arith, k, returns) in
    rw (closure_return, child.1)
      (rw (check_lem _ _ guard, check_lem _ _ up.0, e)
        (passed u (sound, ground arith, ground arith)))
