-- ===== src/Closures/Depart.antt =====
-- A spawned child that returns to its parent: the states after `Closure_return`.
use cheetah.Closures.Facts.{IsRanked-kept, suspended-unowned, Scheduler_ext, IsFound-but}
use cheetah.Closures.Children.{is_under}
use cheetah.Closures.Returns.{leave_parent}
use cheetah.Closures.Sound.{IsSound}
use cheetah.Closures.Gone.{after, sub_join-counted, after-IsTree, two_children}
use cheetah.Base.{
  refl, none, some, true, false, inl, inr, ℕ, ◌||◌, update, ◌<◌, ◌^◌, ◌≡◌, ◌≢◌, ◌+◌, arith,
  Bool-cases,
}
use cheetah.Closures.{
  running, post_invalid, Scheduler, Closure, Flags, sub_join, is_returning, is_live, is_suspended,
  frame_stolen, change_status, put_flags, frame_unsynched,
}

module _ (s : Scheduler) (self t p f : ℕ) where
  abbrev pub dead : Closure
  dead = record (s.closure t) { status = post_invalid }

  abbrev pub parent : Closure
  parent = record (sub_join (s.closure p)) {
    exception_pending = (s.closure p).exception_pending || (s.closure t).exception_pending;
  }

  abbrev pub frame_flags : Flags
  frame_flags = record (s.flags f) {
    exception_pending = (s.flags f).exception_pending || (s.closure t).exception_pending;
  }

  -- The parent goes on waiting or running.
  abbrev pub departed : Scheduler
  departed =
      after s t p dead parent (update s.flags f frame_flags) s.busy (update s.current self none)

  -- The worker goes on with the parent.
  abbrev pub stolen_back : Scheduler
  stolen_back =
      after s t p dead (record parent { status = running })
        (update s.flags f (record frame_flags { unsynched = false })) s.busy
        (update s.current self (some p))

module _ (n : ℕ) (s : Scheduler) (self t p f : ℕ) (v : IsSound n s) (small : n < 2 ^ 32)
    (now : s.current self ≡ some t) (returns : is_returning (s.closure t).status ≡ true)
    (child : (s.closure t).spawn_parent ≡ some p) (frame : (s.closure p).frame ≡ some f) where
  pub facts :
      ((s.closure t).join_counter ≡ 0)
      × ((s.closure t).call_parent ≡ none)
      × ((s.closure t).owner ≡ none)
      × (t ≢ p)
      × (is_live (s.closure p).status ≡ true)
      × (is_returning (s.closure p).status ≡ false)
      × ((s.flags f).stolen ≡ true)
      × (s.busy self ≡ none)
  facts =
      let k = v.held.returns t returns in
      let q = v.tree.spawned t p (ground (arith, returns)) child in
      let b = v.held.current self t now in
      (k.0, k.1, k.3, λ e. ground (arith, e, returns, q), q.0, q.1, ground (arith, frame, q), b.3)

  kept_frames :
      (fl : Flags)
      → fl.stolen ≡ true
      → (q : ℕ) → is_live (s.closure q).status ≡ true
      → q ≢ p
      → (frame_stolen (put_flags s f fl) (s.closure q).frame ≡ frame_stolen s (s.closure q).frame)
        × (frame_unsynched (put_flags s f fl) (s.closure q).frame
            ≡ frame_unsynched s (s.closure q).frame)
  kept_frames fl a q b c = let k = facts in ground (arith, k, frame, v.tree.frames q p f)

  pub counts_down : (sub_join (s.closure p)).join_counter + 1 ≡ (s.closure p).join_counter
  counts_down =
      sub_join-counted n s t p v.tree small (ground (arith, returns))
        (ground (arith, child, returns))

  no_other :
      (sub_join (s.closure p)).join_counter ≡ 0
      → (x : ℕ) → is_live (s.closure x).status ≡ true
      → x ≢ t
      → is_under p (s.closure x) ≡ false
  no_other z x a b = elim (Bool-cases (is_under p (s.closure x))) [
    | inl e ↦
        let d = counts_down in
        let two =
          two_children n s t x p v.tree b (ground (arith, returns)) a
            (ground (arith, child, returns)) e in
        absurd (omega (arith, two, d, z))
    | inr e ↦ e
  ]

  pub departed-IsSound :
      (is_suspended (s.closure p).status ≡ true → 0 < (sub_join (s.closure p)).join_counter)
      → IsSound n (departed s self t p f)
  unfolding sub_join
  departed-IsSound waits =
      let o = v.held in
      let k = facts in
      record {
        tree =
            after-IsTree n s t p (dead s self t p f) (parent s self t p f)
              (update s.flags f (frame_flags s self t p f)) s.busy (update s.current self none)
              v.tree small (ground (arith, returns)) k.0 (ground (arith, child, returns)) k.3 refl
              k.4 (v.tree.settled p) refl refl refl refl waits
              (λ x a b e. let z = v.tree.spawned x p a e in ground (arith, frame, z))
              (λ x a b e. (v.tree.called x p a e).0) (kept_frames (frame_flags s self t p f) k.6);
        ranked =
            IsRanked-kept s (departed s self t p f) (λ x q a. ground (arith, k, returns, a))
              v.ranked;
        found =
            IsFound-but s (departed s self t p f) t self v.found (λ a. ground (arith, k, a))
              (λ c u a b. ground (arith, now, k));
        held = record {
          busy = λ u c a. ground (arith, k, returns, o.busy u c);
          owner = λ u c a b. ground (arith, k, returns, o.owner u c);
          current = λ u c a. ground (arith, k, returns, now, o.current u c, o.one self u c);
          one = λ u w c a b. ground (arith, o.one u w c);
          returns = λ c a. ground (arith, k, returns, o.returns c);
        };
      }

  pub stolen_back-IsSound :
      is_suspended (s.closure p).status ≡ true
      → (sub_join (s.closure p)).join_counter ≡ 0
      → IsSound n (stolen_back s self t p f)
  unfolding sub_join
  stolen_back-IsSound waits z =
      let o = v.held in
      let k = facts in
      let own = suspended-unowned s p o waits in
      record {
        tree =
            after-IsTree n s t p (dead s self t p f)
              (record (parent s self t p f) { status = running })
              (update s.flags f (record (frame_flags s self t p f) { unsynched = false })) s.busy
              (update s.current self (some p)) v.tree small (ground (arith, returns)) k.0
              (ground (arith, child, returns)) k.3 refl refl (λ e. cc) refl refl refl refl
              (λ e. absurd (cc))
              (λ x a b e. let q = no_other z x a b in absurd (ground (arith, a, e, q)))
              (λ x a b e. let q = no_other z x a b in absurd (ground (arith, a, e, q)))
              (kept_frames (record (frame_flags s self t p f) { unsynched = false }) k.6);
        ranked =
            IsRanked-kept s (stolen_back s self t p f)
              (λ x q a. ground (arith, k, returns, waits, a)) v.ranked;
        found =
            IsFound-but s (stolen_back s self t p f) p self v.found (λ a. ground (arith))
              (λ c u a b. ground (arith, now, k));
        held = record {
          busy = λ u c a. ground (arith, k, returns, waits, o.busy u c);
          owner = λ u c a b. ground (arith, k, returns, waits, own, o.owner u c, o.busy u p);
          current = λ u c a.
              ground (arith, k, returns, now, waits, frame, o.current u c, o.one self u c, own);
          one = λ u w c a b. ground (arith, waits, o.one u w c, o.current u c, o.current w c);
          returns = λ c a. ground (arith, k, returns, o.returns c);
        };
      }

  pub leave_parent-eq :
      leave_parent s t p
      ≡ after s t p
          (dead s self t p f)
          (parent s self t p f)
          (update s.flags f (frame_flags s self t p f))
          s.busy
          s.current
  unfolding leave_parent change_status sub_join
  leave_parent-eq =
      let k = facts in
      Scheduler_ext _ _ (λ i. ground (arith, k, frame)) (λ i. ground (arith, k, frame))
        (λ i. ground (arith, frame)) (λ i. ground (arith, frame)) (ground (arith, frame))
