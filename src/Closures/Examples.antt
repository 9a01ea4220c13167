-- ===== src/Closures/Examples.antt =====
-- A region with a spawn that is stolen, and the theorems at its states.
use cheetah.Closures.Children.{weight}
use cheetah.Closures.Resume.{IsCallDone, set_return-IsSound}
use cheetah.Closures.Return.{Returned, closure_return-Returned}
use cheetah.Closures.Sync.{Synced, cilk_sync-Synced}
use cheetah.Closures.Waiting.{IsAttended}
use cheetah.Closures.Stolen.{IsFreshFrame}
use cheetah.Closures.Leave.{IsChildDone, exception_handler-IsSound}
use cheetah.Closures.Returns.{
  invoke_cilkified_root, exit_cilkified_root, set_return, cilk_sync, exception_handler,
  closure_return,
}
use cheetah.Closures.Regions.{
  IsQuiet, begun, begun-IsSound, invoke_cilkified_root-IsSound, exit_cilkified_root-IsQuiet,
}
use cheetah.Closures.Sound.{IsSound}
use cheetah.Base.{Passes, refl, none, some, true, false, Option, arith, ◌≡◌, update, sum_of}
use cheetah.Closures.{running, Scheduler, create, no_flags, steal_from, is_returning, suspended}
use cheetah.Closures.Runs.{
  here, then, steal, sync, round, leave_child, apply, Run, Enabled, Run-IsSound, run_safe,
}
use cheetah.Closures.Steal.{own, Stolen, steal_from-Stolen}

abbrev nothing : Scheduler
nothing = record {
  closure = λ c. create none;
  flags = λ f. no_flags;
  busy = λ w. none;
  current = λ w. none;
  root_closure = 0;
}

abbrev result : Option Scheduler → Scheduler
result none = nothing
result (some s) = s

nothing-IsQuiet : IsQuiet 4 nothing
unfolding create
nothing-IsQuiet = record {
  root = omega arith;
  others = λ c a. cc;
  top = (refl, refl, refl, refl);
  busy = λ w. refl;
  current = λ w. refl;
}

-- The boss begins with frame 10.
abbrev begins : Scheduler
begins = begun 4 nothing 10 nothing-IsQuiet

begins-IsSound : IsSound 4 begins
begins-IsSound = begun-IsSound 4 nothing 10 nothing-IsQuiet

-- It runs the root closure, and worker 1 steals that from it, and runs it.
abbrev runs : Scheduler
runs = result (apply begins (round 0 false))

abbrev steals : Scheduler
steals = result (apply runs (steal 1 0 (some 10) 1 2))

abbrev resumes : Scheduler
resumes = result (apply steals (round 1 false))

-- The root waits at a sync.
abbrev waits : Scheduler
waits = result (apply resumes (sync 1 10))

runs-Run : Run 4 begins runs
unfolding apply
runs-Run = then here (round 0 false) tt refl

steal-Enabled : Enabled 4 runs (steal 1 0 (some 10) 1 2)
unfolding apply
steal-Enabled = (
  refl,
  refl,
  omega arith,
  (omega arith, refl),
  (omega arith, refl),
  omega arith,
  λ cl f a b. own (ground (arith, a, b)) (ground (arith, a, b)),
)

steals-Run : Run 4 begins steals
unfolding apply
steals-Run = then runs-Run (steal 1 0 (some 10) 1 2) steal-Enabled refl

resumes-Run : Run 4 begins resumes
unfolding apply
resumes-Run = then steals-Run (round 1 false) tt refl

waits-Run : Run 4 begins waits
unfolding apply
waits-Run = then resumes-Run (sync 1 10) (0, refl, refl, refl) refl

child_done : IsChildDone waits 2
unfolding apply
child_done = record { spawned = refl; uncalled = refl; synced = refl }

fresh : IsFreshFrame waits 12
unfolding apply
fresh c a b = ground (arith, a, b)

sound : {s : Scheduler} → Run 4 begins s → IsSound 4 s
sound r = Run-IsSound begins-IsSound (omega arith) r

waits_busy : waits.busy 0 ≡ some 2
unfolding apply
waits_busy = refl

runs_busy : runs.busy 0 ≡ some 0
unfolding apply
runs_busy = refl

run_safe_example :
    (u : Scheduler) × (apply waits (leave_child 0 12 false) ≡ some u) × IsSound 4 u × IsAttended u
run_safe_example =
    run_safe 4 begins waits (leave_child 0 12 false) begins-IsSound (omega arith) waits-Run
      (2, waits_busy, child_done, fresh)

steal_from-Stolen_example : Passes (Stolen 4 1 0 10 2) (steal_from runs 1 0 0 (some 10) 1 2)
steal_from-Stolen_example =
    let e = steal-Enabled in
    steal_from-Stolen 4 runs 1 0 0 10 1 2 (sound runs-Run) (omega arith) runs_busy e.0 e.1 e.2 e.3
      e.4 e.5 (e.6 0 10 runs_busy refl)

resumes_busy : resumes.busy 1 ≡ some 0
unfolding apply
resumes_busy = refl

resumes_frame : (resumes.closure 0).frame ≡ some 10
unfolding apply
resumes_frame = refl

resumes_stolen : (resumes.flags 10).stolen ≡ true
unfolding apply
resumes_stolen = refl

cilk_sync-Synced_example : Passes (Synced 4 resumes 1 0 10) (cilk_sync resumes 1 10)
cilk_sync-Synced_example =
    cilk_sync-Synced 4 resumes 1 0 10 (sound resumes-Run) resumes_busy resumes_frame resumes_stolen

waits_current : waits.current 0 ≡ none
unfolding apply
waits_current = refl

exception_handler-IsSound_example :
    Passes
      (λ s'. IsSound 4 s' × (s'.current 0 ≡ some 2) × (is_returning (s'.closure 2).status ≡ true))
      (exception_handler waits 0 12 false)
exception_handler-IsSound_example =
    exception_handler-IsSound 4 waits 0 2 (sound waits-Run) waits_busy waits_current child_done 12
      false fresh

-- The child returns while the root runs.
abbrev leaves : Scheduler
leaves = result (apply steals (leave_child 0 12 false))

leaves-Run : Run 4 begins leaves
unfolding apply
leaves-Run =
    then steals-Run (leave_child 0 12 false)
      (
        2,
        refl,
        record { spawned = refl; uncalled = refl; synced = refl },
        λ c a b. ground (arith, a, b),
      )
      refl

leaves_child :
    (leaves.current 0 ≡ some 2)
    × (is_returning (leaves.closure 2).status ≡ true)
    × ((leaves.closure 2).spawn_parent ≡ some 0)
    × ((leaves.closure 0).frame ≡ some 10)
unfolding apply
leaves_child = (refl, refl, refl, refl)

closure_return-Returned_example : Passes (Returned 4 leaves 0 2 0) (closure_return leaves 0 2 false)
closure_return-Returned_example =
    let e = leaves_child in
    closure_return-Returned 4 leaves 0 2 0 10 (sound leaves-Run) (omega arith) e.0 e.1 e.2 e.3

invoke_cilkified_root-IsSound_example :
    Passes (λ s'. IsSound 4 s' × (s'.current 0 ≡ some 0)) (invoke_cilkified_root nothing 10)
invoke_cilkified_root-IsSound_example = invoke_cilkified_root-IsSound 4 nothing 10 nothing-IsQuiet

runs_root : runs.busy 0 ≡ some runs.root_closure
unfolding apply
runs_root = refl

runs_frame :
    ((runs.closure runs.root_closure).frame ≡ some 10) × ((runs.flags 10).unsynched ≡ false)
unfolding apply
runs_frame = (refl, refl)

exit_cilkified_root-IsQuiet_example : Passes (IsQuiet 4) (exit_cilkified_root runs 0 10)
exit_cilkified_root-IsQuiet_example =
    let e = runs_frame in exit_cilkified_root-IsQuiet 4 runs 0 10 (sound runs-Run) runs_root e.0 e.1

-- A function with frame 11, which closure 0 has called and which has synced.
abbrev calls : Scheduler
calls = record {
  closure =
      update
        (update (λ c. create none) 0
          (record (create (some 10)) { status = suspended; join_counter = 1 }))
        1 (record (create (some 11)) { owner = some 0; status = running; call_parent = some 0 });
  flags = λ f. record no_flags { stolen = true };
  busy = update (λ w. none) 0 (some 1);
  current = λ w. none;
  root_closure = 0;
}

calls-IsSound : IsSound 2 calls
unfolding create sum_of weight
calls-IsSound = record {
  tree = record {
    bounded = λ c a. ground (arith, a);
    counted = λ c a. ground (arith, a);
    spawned = λ x p a b. ground (arith, a, b);
    called = λ x p a b. ground (arith, a, b);
    callee = λ x y p a b c d. ground (arith, a, b, c, d);
    frames = λ x y f a b c d. ground (arith, a, b, c, d);
    waits = λ c a. ground (arith, a);
    settled = λ c a. ground (arith, a);
    top = (refl, refl, refl);
    rooted = λ c a. ground (arith, a);
  };
  held = record {
    busy = λ w c a. ground (arith, a);
    owner = λ w c a b. ground (arith, a, b);
    current = λ w c a. cc;
    one = λ v w c a b. cc;
    returns = λ c a. ground (arith, a);
  };
  ranked = (λ x. x, λ x p a. ground (arith, a));
  found = λ c a. (0, ground (arith, a));
}

calls_done : IsCallDone calls 1 0 11
unfolding create
calls_done = record { called = refl; framed = refl; stolen = refl; attached = refl; synced = refl }

set_return-IsSound_example : Passes (λ s'. IsSound 2 s' × (s'.busy 0 ≡ some 0)) (set_return calls 0)
set_return-IsSound_example =
    set_return-IsSound 2 calls 0 1 0 11 calls-IsSound (omega arith) refl refl calls_done
