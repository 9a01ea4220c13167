-- ===== src/Closures/Returns.antt =====
-- The ends of functions and of syncs: `Cilk_sync`, `__cilkrts_set_return`,
-- `__cilkrts_exception_handler`, `Cilk_do_reductions_for_return`, `Closure_return`,
-- `provably_good_steal_maybe` and `do_what_it_says` of runtime/scheduler.cpp.
use cheetah.Base.{
  none, some, true, false, ℕ, Option, Bool, if◌then◌else◌, update, not, ◌&&◌, ◌>>=◌, ◌||◌,
}
use cheetah.Closures.{
  running, returning, ready, post_invalid, Scheduler, change_status, xtract, check, put,
  set_frame_flags, is_null, is_running, set, has_children, sub_join, points_to, is_suspended,
  frame_detached, put_flags, is_returning, suspend, frame_stolen, no_flags, setup_for_execution,
  is_live,
}

unfoldable pub setup_for_sync : Scheduler → ℕ → Option Scheduler
setup_for_sync s t =
    let frame = (s.closure t).frame in
    check (not (is_null frame))
      (some (set_frame_flags s frame (λ fl. record fl { unsynched = false })))

-- `frame` is the frame that syncs, which the worker's deque has at its top.
unfoldable pub cilk_sync : Scheduler → ℕ → ℕ → Option Scheduler
unfolding setup_for_sync
cilk_sync s self frame = elim (s.busy self) [
  | none ↦ none
  | some t ↦
      let c = s.closure t in
      check (is_running c.status && points_to c.frame frame && (s.flags frame).stolen)
        (if has_children c then suspend s t self else setup_for_sync s t)
]

-- The part of `__cilkrts_set_return` for the call parent.
unfoldable pub resume_call_parent : Scheduler → ℕ → ℕ → ℕ → Option Scheduler
resume_call_parent s self t parent =
    let s' = put s t (record (s.closure t) { frame = none }) in
    set s' parent self >>= λ s''. check (is_suspended (s''.closure parent).status) (
      some (
        change_status
          (change_status (put s'' parent (sub_join (s''.closure parent))) parent running) t
          post_invalid))

unfoldable pub set_return : Scheduler → ℕ → Option Scheduler
unfolding resume_call_parent
set_return s self = elim (s.busy self) [
  | none ↦ none
  | some t ↦
      let c = s.closure t in
      check
        (is_running c.status
          && not (has_children c)
          && is_null c.spawn_parent
          && not (is_null c.frame)
          && not (frame_detached s c.frame)
          && frame_stolen s c.frame)
        (elim c.call_parent [
          | none ↦ none
          | some parent ↦ resume_call_parent (xtract s self) self t parent
        ])
]

-- The worker goes to the runtime with its busy closure.
unfoldable pub take_busy : Scheduler → ℕ → ℕ → Scheduler
take_busy s self t = xtract (record s { current = update s.current self (some t) }) self

-- `head > tail`: the parent has been stolen. `sf` is the frame for reductions, which
-- `__cilkrts_enter_frame` clears, and `throws` is that there is an exception.
unfoldable pub exception_handler : Scheduler → ℕ → ℕ → Bool → Option Scheduler
unfolding take_busy
exception_handler s self sf throws = elim (s.busy self) [
  | none ↦ none
  | some t ↦
      let c = s.closure t in
      check ((is_running c.status && not (has_children c)) || is_returning c.status) (
        some (
          take_busy
            (put (put_flags s sf no_flags) t (record c {
              frame = some sf;
              status = returning;
              exception_pending = c.exception_pending || throws;
            }))
            self t))
]

-- After the reductions the closure returns again.
unfoldable pub return_again : Scheduler → ℕ → Option Scheduler
unfolding take_busy change_status
return_again s self = elim (s.busy self) [
  | none ↦ none
  | some t ↦
      check (not (has_children (s.closure t)))
        (some (take_busy (change_status s t returning) self t))
]

unfoldable pub provably_good_steal_maybe : Scheduler → ℕ → ℕ → Option Scheduler
unfolding setup_for_sync change_status
provably_good_steal_maybe s self parent =
    let c = s.closure parent in
    if not (has_children c) && is_suspended c.status
    then (setup_for_sync s parent >>= λ s'.
        check (is_null c.owner) (setup_for_execution (change_status s' parent ready) self parent))
    else some (record s { current = update s.current self none })

-- What the child hands to its parent where it goes.
unfoldable pub leave_parent : Scheduler → ℕ → ℕ → Scheduler
leave_parent s child parent =
    let c = s.closure child in
    let p = s.closure parent in
    let s' =
      if c.exception_pending
      then set_frame_flags (put s parent (record p { exception_pending = true })) p.frame
          (λ fl. record fl { exception_pending = true })
      else s in
    change_status (put s' parent (sub_join (s'.closure parent))) child post_invalid

-- `tables` is that there are views to the left or to the right of the child.
unfoldable pub closure_return : Scheduler → ℕ → ℕ → Bool → Option Scheduler
unfolding provably_good_steal_maybe leave_parent
closure_return s self child tables =
    let c = s.closure child in
    check
      (not (has_children c) && is_returning c.status && is_null c.owner && is_null c.call_parent)
      (elim c.spawn_parent [
        | none ↦ none
        | some parent ↦ check (is_live (s.closure parent).status) (
            if tables
            then setup_for_execution s self child
            else check
                (not (is_returning (s.closure parent).status)
                  && not (is_null (s.closure parent).frame)
                  && has_children (s.closure parent))
                (provably_good_steal_maybe (leave_parent s child parent) self parent))
      ])

-- The closure goes to user code, as the busy one of its worker.
unfoldable pub execute : Scheduler → ℕ → ℕ → Option Scheduler
execute s self t =
    check (not (is_null (s.closure t).frame))
      (set (record s { current = update s.current self none }) t self)

-- One round of the loop of `do_what_it_says`.
unfoldable pub do_what_it_says : Scheduler → ℕ → Bool → Option Scheduler
do_what_it_says s self tables = elim (s.current self) [
  | none ↦ some s
  | some t ↦ elim (s.closure t).status [
    | running ↦ execute s self t
    | returning ↦ closure_return s self t tables
    | _ ↦ none
  ]
]

-- What `__cilkrts_internal_invoke_cilkified_root` and `do_what_it_says_boss` do to the root closure,
-- which the boss, worker 0, begins to run with the frame `sf`.
unfoldable pub invoke_cilkified_root : Scheduler → ℕ → Option Scheduler
unfolding change_status
invoke_cilkified_root s sf =
    let root = s.root_closure in
    let s' = put_flags (change_status s root ready) sf (record (s.flags sf) { stolen = true }) in
    setup_for_execution (put s' root (record (s'.closure root) { frame = some sf })) 0 root

-- What `__cilkrts_internal_exit_cilkified_root` does, with the frame `sf`.
unfoldable pub exit_cilkified_root : Scheduler → ℕ → ℕ → Option Scheduler
exit_cilkified_root s self sf =
    let root = s.root_closure in
    let s' =
      put (record s { busy = update s.busy self none }) root
        (record (s.closure root) { owner = none }) in
    check (not (s.flags sf).unsynched) (some (put_flags s' sf no_flags))
