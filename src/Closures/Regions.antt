-- ===== src/Closures/Regions.antt =====
-- The start and the end of a parallel region: `__cilkrts_internal_invoke_cilkified_root` and
-- `__cilkrts_internal_exit_cilkified_root` of runtime/init.cpp.
use cheetah.Closures.Facts.{Scheduler_ext}
use cheetah.Closures.Passes.{check-Passes}
use cheetah.Closures.Children.{is_under, weight}
use cheetah.Closures.Moves.{setup_for_execution_lem}
use cheetah.Closures.Waiting.{root-alone}
use cheetah.Closures.Leave.{synced-childless}
use cheetah.Closures.Sound.{IsSound}
use cheetah.Closures.Returns.{exit_cilkified_root, invoke_cilkified_root}
use cheetah.Base.{
  Passes, passed, refl, none, some, true, false, inl, inr, ℕ, ◌<◌, update, ◌≡◌, arith, ℕ_discrete,
  sum_of-zero, Bool-cases, ◌∙◌, ap, Option-cases,
}
use cheetah.Closures.{
  running, ready, Scheduler, Closure, is_live, change_status, put_flags, put, no_flags,
}

-- Between two regions no worker has a closure, and only the root's is in use.
pub record IsQuiet (n : ℕ) (s : Scheduler) : Type 0 where
  pub root : s.root_closure < n
  pub others : (c : ℕ) → is_live (s.closure c).status ≡ true → c ≡ s.root_closure
  pub top :
      ((s.closure s.root_closure).spawn_parent ≡ none)
      × ((s.closure s.root_closure).call_parent ≡ none)
      × ((s.closure s.root_closure).owner ≡ none)
      × ((s.closure s.root_closure).join_counter ≡ 0)
  pub busy : (w : ℕ) → s.busy w ≡ none
  pub current : (w : ℕ) → s.current w ≡ none

module _ (n : ℕ) (s : Scheduler) (sf : ℕ) (q : IsQuiet n s) where
  abbrev root_running : Closure
  root_running = record (s.closure s.root_closure) { status = running; frame = some sf }

  abbrev pub begun : Scheduler
  begun = record s {
    closure = update s.closure s.root_closure root_running;
    flags = update s.flags sf (record (s.flags sf) { stolen = true });
    current = update s.current 0 (some s.root_closure);
  }

  not_under : (x p : ℕ) → is_under p (begun.closure x) ≡ false
  not_under x p =
      let t = q.top in
      elim (ℕ_discrete x s.root_closure) [
        | yes e ↦ ground (arith, e, t)
        | no e ↦ elim (Bool-cases (is_live (s.closure x).status)) [
          | inl l ↦ absurd (e (q.others x l))
          | inr l ↦ ground (arith, e, l)
        ]
      ]

  pub begun-IsSound : IsSound n begun
  unfolding weight
  begun-IsSound =
      let t = q.top in
      record {
        tree = record {
          bounded = λ c a. let r = q.root in ground (arith, r, a, q.others c);
          counted = λ c a.
              let z =
                sum_of-zero (weight c) n begun.closure
                  (λ i h. let u = not_under i c in rw u refl) in
              ground (arith, z, t, a, q.others c);
          spawned = λ x p a b. let u = not_under x p in absurd (ground (arith, u, a, b));
          called = λ x p a b. let u = not_under x p in absurd (ground (arith, u, a, b));
          callee = λ x y p a b c d. let u = not_under x p in absurd (ground (arith, u, a, c));
          frames = λ x y f a b c d. ground (arith, a, b, q.others x, q.others y);
          waits = λ c a. ground (arith, a, q.others c);
          settled = λ c a. ground (arith, a, q.others c);
          top = ground (arith, t);
          rooted = λ c a. ground (arith, a, q.others c);
        };
        held = record {
          busy = λ w c a. ground (arith, a, q.busy w);
          owner = λ w c a b. ground (arith, a, b, t, q.others c);
          current = λ w c a. ground (arith, a, t, q.busy w, q.current w);
          one = λ u w c a b. ground (arith, a, b, q.current u, q.current w);
          returns = λ c a. ground (arith, a, q.others c);
        };
        ranked = (λ x. 0, λ x p a. let u = not_under x p in absurd (ground (arith, u, a)));
        found = λ c a. (0, ground (arith, a, q.others c));
      }

  -- A region that starts where no worker has a closure and none but the root's may be in use
  -- passes the modelled checks, and begins in a sound state with the root closure at worker 0.
  pub invoke_cilkified_root-IsSound :
      Passes
        (λ s'. IsSound n s' × (s'.current 0 ≡ some s.root_closure))
        (invoke_cilkified_root s sf)
  unfolding invoke_cilkified_root change_status
  invoke_cilkified_root-IsSound =
      let u =
        put_flags (put s s.root_closure (record (s.closure s.root_closure) { status = ready })) sf
          (record (s.flags sf) { stolen = true }) in
      let w = put u s.root_closure (record (u.closure s.root_closure) { frame = some sf }) in
      let e : invoke_cilkified_root s sf ≡ some begun =
        setup_for_execution_lem w s.root_closure 0 (ground arith)
        ∙ ap some
            (Scheduler_ext _ _ (λ i. ground arith) (λ i. refl) (λ i. refl) (λ i. refl) refl) in
      rw e (passed _ (begun-IsSound, ground arith))

module _ (n : ℕ) (s : Scheduler) (self : ℕ) (v : IsSound n s)
    (with' : s.busy self ≡ some s.root_closure)
    (z : (s.closure s.root_closure).join_counter ≡ 0) where
  live_alone : (x : ℕ) → is_live (s.closure x).status ≡ true → x ≡ s.root_closure
  live_alone x =
      let k = v.held.busy self s.root_closure with' in root-alone n s v x (ground (arith, k)) z

  busy_alone : (w : ℕ) → update s.busy self none w ≡ none
  busy_alone w = elim (Option-cases (s.busy w)) [
    | inl e ↦ ground (arith, e)
    | inr (c, e) ↦
        let k = v.held.busy self s.root_closure with' in
        ground (arith, e, k, v.held.busy w c, live_alone c)
  ]

  current_alone : (w : ℕ) → s.current w ≡ none
  current_alone w = elim (Option-cases (s.current w)) [
    | inl e ↦ e
    | inr (c, e) ↦
        let k = v.held.busy self s.root_closure with' in
        absurd (ground (arith, e, k, v.held.current w c, live_alone c))
  ]

  abbrev ended : ℕ → Scheduler
  ended sf =
      put_flags
        (put (record s { busy = update s.busy self none }) s.root_closure
          (record (s.closure s.root_closure) { owner = none }))
        sf no_flags

  ended-IsQuiet : (sf : ℕ) → IsQuiet n (ended sf)
  ended-IsQuiet sf =
      let k = v.held.busy self s.root_closure with' in
      let t = v.tree.top in
      record {
        root = v.tree.bounded s.root_closure (ground (arith, k));
        others = λ c h. ground (arith, h, live_alone c);
        top = (ground (arith, t), ground (arith, t), ground arith, ground (arith, z));
        busy = busy_alone;
        current = current_alone;
      }

-- At the end of a region, where a worker of a sound state has the root closure and the root's
-- frame has synced, no worker has a closure any more, and none but the root's is in use.
pub exit_cilkified_root-IsQuiet :
    (n : ℕ) (s : Scheduler) (self sf : ℕ)
    → IsSound n s
    → s.busy self ≡ some s.root_closure
    → (s.closure s.root_closure).frame ≡ some sf
    → (s.flags sf).unsynched ≡ false
    → Passes (IsQuiet n) (exit_cilkified_root s self sf)
unfolding exit_cilkified_root
exit_cilkified_root-IsQuiet n s self sf v with' frame synced =
    let z = synced-childless n s self s.root_closure v with' (ground (arith, frame, synced)) in
    check-Passes (ground (arith, synced)) (passed _ (ended-IsQuiet n s self v with' z sf))
