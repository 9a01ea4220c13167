-- ===== src/Closures/Sync.antt =====
-- A sync: `Cilk_sync` waits for the children, or goes on.
use cheetah.Closures.Passes.{check_lem}
use cheetah.Closures.Facts.{IsRanked-kept, IsFound-but, Scheduler_ext}
use cheetah.Closures.Change.{kept-IsTree, childless-IsTree}
use cheetah.Closures.Returns.{cilk_sync, setup_for_sync}
use cheetah.Closures.Sound.{IsSound, IsTree}
use cheetah.Base.{
  Passes, else_lem, if_lem, passed, refl, none, some, true, false, inl, inr, ℕ, ◌≡◌, update, ◌<◌,
  fun_ext, arith, subst, ◌&&◌, ◌∙◌, ℕ_discrete, ap, ◌⊎◌,
}
use cheetah.Closures.{
  suspended, Scheduler, Closure, put_flags, suspend, is_running, change_status, points_to, xtract,
  has_children, is_suspended,
}

-- With children the closure waits, without it goes on at its worker, with its frame synced.
abbrev pub Synced : ℕ → Scheduler → ℕ → ℕ → ℕ → Scheduler → Type 0
Synced n s self t f s' =
    IsSound n s'
    × ((((s.closure t).join_counter ≡ 0)
          × (s'.busy self ≡ some t)
          × ((s'.flags f).unsynched ≡ false)
          × (is_running (s'.closure t).status ≡ true))
        ⊎ ((0 < (s.closure t).join_counter)
            × (s'.busy self ≡ none)
            × (is_suspended (s'.closure t).status ≡ true)))

module _ (n : ℕ) (s : Scheduler) (self t f : ℕ) (v : IsSound n s) (with' : s.busy self ≡ some t)
    (frame : (s.closure t).frame ≡ some f) where
  abbrev waiting : Closure
  waiting = record (s.closure t) { owner = none; status = suspended }

  abbrev waits : Scheduler
  waits = record s { closure = update s.closure t waiting; busy = update s.busy self none }

  waits-IsSound : 0 < (s.closure t).join_counter → IsSound n waits
  waits-IsSound h =
      let o = v.held in
      let k = o.busy self t with' in
      record {
        tree =
            kept-IsTree n s t waiting (update s.busy self none) s.current v.tree (ground (arith, k))
              refl (λ e. cc) refl refl refl refl refl (ground (arith, k)) (λ e. h);
        ranked = IsRanked-kept s waits (λ x p a. ground (arith, k, a)) v.ranked;
        found =
            IsFound-but s waits t self v.found (λ a. ground (arith, a))
              (λ c w a b. ground (arith, with'));
        held = record {
          busy = λ w c a. ground (arith, k, o.busy w c);
          owner = λ w c a b. ground (arith, k, o.owner w c);
          current = λ w c a. ground (arith, k, o.current w c);
          one = λ w x c a b. o.one w x c a b;
          returns = λ c a. ground (arith, k, o.returns c);
        };
      }

  abbrev goes_on : Scheduler
  goes_on = put_flags s f (record (s.flags f) { unsynched = false })

  goes_on-IsSound : (s.closure t).join_counter ≡ 0 → IsSound n goes_on
  goes_on-IsSound h =
      let o = v.held in
      let k = o.busy self t with' in
      let e : update s.closure t (s.closure t) ≡ s.closure = fun_ext (λ i. ground arith) in
      let tree =
        childless-IsTree n s t (s.closure t) s.busy s.current v.tree (ground (arith, k))
          (ground (arith, k)) (v.tree.settled t) refl refl refl f
          (record (s.flags f) { unsynched = false }) h (ground (arith, k))
          (λ x a b e. b (v.tree.frames x t f a (ground (arith, k)) e frame))
          (λ g a x i j e. j (v.tree.frames x t g i (ground (arith, k)) e a)) in
      record {
        tree = subst (λ (g : ℕ → Closure). IsTree (record goes_on { closure = g }) n) e tree;
        ranked = v.ranked;
        found = v.found;
        held = record {
          busy = o.busy;
          owner = o.owner;
          current = o.current;
          one = o.one;
          returns = o.returns;
        };
      }

  suspend-eq : suspend s t self ≡ some waits
  unfolding suspend change_status xtract
  suspend-eq =
      let k = v.held.busy self t with' in
      check_lem _ _ (ground (arith, k, with'))
      ∙ ap some (
          rw (with', xtract)
            (Scheduler_ext _ waits (λ i. ground arith) (λ i. refl) (λ i. refl) (λ i. refl) refl))

  setup_for_sync-eq : setup_for_sync s t ≡ some goes_on
  unfolding setup_for_sync
  setup_for_sync-eq = rw (frame, setup_for_sync) refl

  -- In a sound state, a sync of the frame of the busy closure, a frame that is marked as stolen,
  -- passes the check that the closure runs and leaves a sound state: with children the closure is
  -- suspended and its worker has no busy one, without it stays and its frame is marked as synced.
  pub cilk_sync-Synced :
      (s.flags f).stolen ≡ true → Passes (Synced n s self t f) (cilk_sync s self f)
  unfolding cilk_sync
  cilk_sync-Synced st =
      let k = v.held.busy self t with' in
      let guard : (is_running (s.closure t).status
            && points_to (s.closure t).frame f
            && (s.flags f).stolen)
          ≡ true =
        ground (arith, k, frame, st) in
      elim (ℕ_discrete (s.closure t).join_counter 0) [
        | yes e ↦
            rw
              (
                with',
                cilk_sync,
                check_lem _ _ guard,
                else_lem (has_children (s.closure t)) (suspend s t self) (setup_for_sync s t)
                    (ground (arith, e)),
                setup_for_sync-eq,
              )
              (passed _ (goes_on-IsSound e, inl (e, with', ground arith, k.1)))
        | no e ↦
            rw
              (
                with',
                cilk_sync,
                check_lem _ _ guard,
                if_lem (has_children (s.closure t)) (suspend s t self) (setup_for_sync s t)
                    (ground (arith, e)),
                suspend-eq,
              )
              (passed _
                (waits-IsSound (omega arith), inr (omega arith, ground arith, ground arith)))
      ]
