-- ===== src/Closures/Leave.antt =====
-- A child that returns: `__cilkrts_exception_handler` where its parent has been stolen, and the end
-- of its reductions.
use cheetah.Closures.Passes.{check_lem}
use cheetah.Closures.Facts.{IsRanked-kept, IsFound-but, Scheduler_ext}
use cheetah.Closures.Children.{children_some}
use cheetah.Closures.Stolen.{IsFreshFrame}
use cheetah.Closures.Returns.{exception_handler, return_again, take_busy}
use cheetah.Closures.Change.{IsOwnFrame, childless-IsTree}
use cheetah.Closures.Sound.{IsSound, IsHeld}
use cheetah.Base.{
  Passes, passed, refl, none, some, true, false, ℕ, ◌≡◌, ℕ_discrete, arith, update, Bool, ◌||◌, not,
  ◌&&◌, Option, ◌∙◌, subst, some_eq, sym,
}
use cheetah.Closures.{
  returning, Scheduler, is_null, frame_unsynched, Closure, Flags, xtract, is_returning, is_running,
  has_children, no_flags, put, change_status, put_flags,
}

-- What the handler's caller knows: a spawned child that has synced.
pub record IsChildDone (s : Scheduler) (t : ℕ) : Type 0 where
  pub spawned : is_null (s.closure t).spawn_parent ≡ false
  pub uncalled : (s.closure t).call_parent ≡ none
  pub synced : frame_unsynched s (s.closure t).frame ≡ false

pub frame_of : (o : Option ℕ) → is_null o ≡ false → (f : ℕ) × (o ≡ some f)
frame_of none e = absurd (cc)
frame_of (some f) e = (f, refl)

take_busy-eq :
    (u : Scheduler) (self t : ℕ)
    → u.busy self ≡ some t
    → take_busy u self t ≡ record u {
      closure = update u.closure t (record (u.closure t) { owner = none });
      busy = update u.busy self none;
      current = update u.current self (some t);
    }
unfolding take_busy xtract
take_busy-eq u self t e = rw (e, xtract) refl

-- A closure that runs and has synced has no children.
pub synced-childless :
    (n : ℕ) (s : Scheduler) (self t : ℕ)
    → IsSound n s
    → s.busy self ≡ some t
    → frame_unsynched s (s.closure t).frame ≡ false
    → (s.closure t).join_counter ≡ 0
synced-childless n s self t v with' synced =
    let k = v.held.busy self t with' in
    elim (ℕ_discrete (s.closure t).join_counter 0) [
      | yes e ↦ e
      | no e ↦
          let c = v.tree.counted t (ground (arith, k)) in
          let (x, under) = children_some n t s.closure (omega arith) in
          ground (arith, k, synced, v.tree.spawned x t, v.tree.called x t)
    ]

module _ (n : ℕ) (s : Scheduler) (self t : ℕ) (v : IsSound n s) (with' : s.busy self ≡ some t)
    (here : s.current self ≡ none) (done : IsChildDone s t) where
  module _ (c : Closure) (st : c.status ≡ returning)
      (same_spawn : c.spawn_parent ≡ (s.closure t).spawn_parent)
      (same_call : c.call_parent ≡ (s.closure t).call_parent)
      (same_join : c.join_counter ≡ (s.closure t).join_counter) (unowned : c.owner ≡ none)
      (framed : is_null c.frame ≡ false) where
    abbrev taken : (ℕ → Flags) → Scheduler
    taken flags = record s {
      closure = update s.closure t c;
      flags = flags;
      busy = update s.busy self none;
      current = update s.current self (some t);
    }

    taken-IsHeld : (flags : ℕ → Flags) → IsHeld (taken flags)
    taken-IsHeld flags =
        let o = v.held in
        let k = o.busy self t with' in
        let z = (synced-childless n s self t v with' done.synced) in
        let d = done.spawned in
        let e = done.uncalled in
        record {
          busy = λ w x a. ground (arith, k, o.busy w x);
          owner = λ w x a b. ground (arith, k, unowned, o.owner w x);
          current = λ w x a. ground (arith, k, st, unowned, framed, o.current w x);
          one = λ w y x a b. ground (arith, k, o.one w y x, o.current w x, o.current y x);
          returns = λ x a.
              ground (arith, k, z, d, e, same_spawn, same_call, same_join, unowned, o.returns x);
        }

    taken-IsSound :
        (f : ℕ) (fl : Flags)
        → IsOwnFrame s t f
        → ((g : ℕ) → c.frame ≡ some g → IsOwnFrame s t g)
        → IsSound n (taken (update s.flags f fl))
    taken-IsSound f fl a b =
        let k = v.held.busy self t with' in
        record {
          tree =
              childless-IsTree n s t c (update s.busy self none) (update s.current self (some t))
                v.tree (ground (arith, k)) (ground (arith, st)) (ground (arith, st)) same_spawn
                same_call same_join f fl (synced-childless n s self t v with' done.synced)
                (ground (arith, st)) a b;
          held = taken-IsHeld (update s.flags f fl);
          ranked =
              IsRanked-kept s (taken (update s.flags f fl))
                (λ x p a. ground (arith, k, st, same_spawn, same_call)) v.ranked;
          found =
              IsFound-but s (taken (update s.flags f fl)) t self v.found (λ a. ground (arith))
                (λ x w a b. ground (arith, with', here));
        }

  -- In a sound state, a spawned child that has synced and whose parent has been stolen comes, with
  -- an exception or without, through the exception handler, its check of the status and the
  -- children included: the state is sound, and the worker holds the closure, which is returning.
  pub exception_handler-IsSound :
      (sf : ℕ) (throws : Bool)
      → IsFreshFrame s sf
      → Passes
          (λ s'.
            IsSound n s' × (s'.current self ≡ some t) × (is_returning (s'.closure t).status ≡ true))
          (exception_handler s self sf throws)
  unfolding exception_handler
  exception_handler-IsSound sf throws fresh =
      let k = v.held.busy self t with' in
      let z = (synced-childless n s self t v with' done.synced) in
      let c : Closure = record (s.closure t) {
        frame = some sf;
        owner = none;
        status = returning;
        exception_pending = (s.closure t).exception_pending || throws;
      } in
      let guard : ((is_running (s.closure t).status && not (has_children (s.closure t)))
            || is_returning (s.closure t).status)
          ≡ true =
        ground (arith, k, z) in
      let flags = update s.flags sf no_flags in
      let u = put (put_flags s sf no_flags) t (record c { owner = (s.closure t).owner }) in
      let e : take_busy u self t ≡ taken c refl refl refl refl refl refl flags =
        take_busy-eq u self t with'
        ∙ Scheduler_ext _ _ (λ i. ground arith) (λ i. refl) (λ i. refl) (λ i. refl) refl in
      let own : IsOwnFrame s t sf = (λ x a b h. fresh x a h) in
      rw (with', exception_handler, check_lem _ _ guard, e)
        (passed _ (
          taken-IsSound c refl refl refl refl refl refl sf no_flags own
              (λ g h. subst (IsOwnFrame s t) (some_eq h) own),
          ground arith,
          ground arith,
        ))

  pub return_again-IsSound :
      is_null (s.closure t).frame ≡ false
      → Passes
          (λ s'.
            IsSound n s' × (s'.current self ≡ some t) × (is_returning (s'.closure t).status ≡ true))
          (return_again s self)
  unfolding return_again change_status
  return_again-IsSound framed =
      let k = v.held.busy self t with' in
      let z = (synced-childless n s self t v with' done.synced) in
      let guard : (not (has_children (s.closure t))) ≡ true = ground (arith, z) in
      let c : Closure = record (s.closure t) { owner = none; status = returning } in
      let f = frame_of (s.closure t).frame framed in
      let flags = update s.flags f.0 (s.flags f.0) in
      let own : IsOwnFrame s t f.0 =
        (λ x a b h. b (v.tree.frames x t f.0 a (ground (arith, k)) h f.1)) in
      let e : take_busy (change_status s t returning) self t
          ≡ taken c refl refl refl refl refl framed flags =
        take_busy-eq (change_status s t returning) self t with'
        ∙ Scheduler_ext _ _ (λ i. ground arith) (λ i. ground arith) (λ i. refl) (λ i. refl) refl in
      rw (with', return_again, check_lem _ _ guard, e)
        (passed _ (
          taken-IsSound c refl refl refl refl refl framed f.0 (s.flags f.0) own
              (λ g h. subst (IsOwnFrame s t) (some_eq (sym f.1 ∙ h)) own),
          ground arith,
          ground arith,
        ))
