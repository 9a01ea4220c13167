-- ===== src/Closures.antt =====
-- The life of closures: runtime/closure.h, runtime/busyclosure.h, and `__cilkrts_set_return`,
-- `provably_good_steal_maybe`, `Closure_return`, `__cilkrts_exception_handler`, `promote_child`,
-- `finish_promote`, `Closure_steal`, `Cilk_sync`, `do_what_it_says` and the closure's methods in
-- runtime/scheduler.cpp. What these do under the locks of a busy closure and of the closures is one
-- step. Closures, frames and workers are numbers, a null pointer and `NO_WORKER` are `none`. The
-- result of a step is `none` where one of the assertions fails that are modelled: on statuses,
-- owners, busy closures, children, join counters and the marks of frames.
mod Returns
mod Passes
mod Children
mod Sound
mod Facts
mod Change
mod Sync
mod Leave
mod Gone
mod Moves
mod Resume
mod Depart
mod Return
mod Waiting
mod Regions
mod Runs
mod Start
mod Examples
mod Stolen
mod Steal
mod Called
use cheetah.Base.{
  ℕ, Bool, true, false, Option, none, some, not, update, if◌then◌else◌, ◌+◌, ◌-◌, ◌==◌, ◌&&◌, ◌||◌,
  ◌>>=◌, ◌%◌, ◌^◌,
}

pub data ClosureStatus : Type 0 where
  running suspended returning ready pre_invalid post_invalid : ClosureStatus

pub record Closure : Type 0 where
  pub frame : Option ℕ
  pub owner : Option ℕ
  pub status : ClosureStatus
  pub exception_pending : Bool
  pub join_counter : ℕ
  pub call_parent : Option ℕ
  pub spawn_parent : Option ℕ

-- The flags of a frame that the steps read or write.
pub record Flags : Type 0 where
  pub stolen : Bool
  pub unsynched : Bool
  pub detached : Bool
  pub exception_pending : Bool

-- `current` is the closure that a worker holds in `do_what_it_says`, outside of its user code.
pub record Scheduler : Type 0 where
  pub closure : ℕ → Closure
  pub flags : ℕ → Flags
  pub busy : ℕ → Option ℕ
  pub current : ℕ → Option ℕ
  pub root_closure : ℕ

abbrev pub is_running : ClosureStatus → Bool
is_running running = true
is_running _ = false

abbrev pub is_suspended : ClosureStatus → Bool
is_suspended suspended = true
is_suspended _ = false

abbrev pub is_returning : ClosureStatus → Bool
is_returning returning = true
is_returning _ = false

-- `checkmagic` and the test of `trylock`.
abbrev pub is_live : ClosureStatus → Bool
is_live running = true
is_live suspended = true
is_live returning = true
is_live ready = true
is_live pre_invalid = false
is_live post_invalid = false

abbrev pub is_null : Option ℕ → Bool
is_null none = true
is_null (some i) = false

abbrev pub points_to : Option ℕ → ℕ → Bool
points_to none i = false
points_to (some j) i = j == i

abbrev pub no_flags : Flags
no_flags = record { stolen = false; unsynched = false; detached = false; exception_pending = false }

-- `CILK_ASSERT`
abbrev pub check {ℓ} : {A : Type ℓ} → Bool → Option A → Option A
check true r = r
check false r = none

-- A new closure.
unfoldable pub create : Option ℕ → Closure
create sf = record {
  frame = sf;
  owner = none;
  status = pre_invalid;
  exception_pending = false;
  join_counter = 0;
  call_parent = none;
  spawn_parent = none;
}

abbrev pub put : Scheduler → ℕ → Closure → Scheduler
put s i c = record s { closure = update s.closure i c }

abbrev pub put_flags : Scheduler → ℕ → Flags → Scheduler
put_flags s f fl = record s { flags = update s.flags f fl }

abbrev pub has_children : Closure → Bool
has_children c = not (c.join_counter == 0)

unfoldable pub xtract : Scheduler → ℕ → Scheduler
xtract s pn = elim (s.busy pn) [
  | none ↦ s
  | some cl ↦
      put (record s { busy = update s.busy pn none }) cl (record (s.closure cl) { owner = none })
]

unfoldable pub set : Scheduler → ℕ → ℕ → Option Scheduler
set s cl pn = check (is_null (s.closure cl).owner && is_null (s.busy pn)) (
    some (
      put (record s { busy = update s.busy pn (some cl) }) cl
        (record (s.closure cl) { owner = some pn })))

unfoldable pub change_status : Scheduler → ℕ → ClosureStatus → Scheduler
change_status s i to = put s i (record (s.closure i) { status = to })

abbrev pub set_frame_flags : Scheduler → Option ℕ → (Flags → Flags) → Scheduler
set_frame_flags s none h = s
set_frame_flags s (some f) h = put_flags s f (h (s.flags f))

abbrev pub frame_stolen : Scheduler → Option ℕ → Bool
frame_stolen s none = false
frame_stolen s (some f) = (s.flags f).stolen

abbrev pub frame_detached : Scheduler → Option ℕ → Bool
frame_detached s none = false
frame_detached s (some f) = (s.flags f).detached

abbrev pub frame_unsynched : Scheduler → Option ℕ → Bool
frame_unsynched s none = false
frame_unsynched s (some f) = (s.flags f).unsynched

-- `++join_counter` and `--join_counter`, on an unsigned int.
unfoldable pub add_join : Closure → Closure
add_join c = record c { join_counter = (c.join_counter + 1) % 2 ^ 32 }

unfoldable pub sub_join : Closure → Closure
sub_join c = record c { join_counter = (c.join_counter + (2 ^ 32 - 1)) % 2 ^ 32 }

-- `suspend` and `suspend_victim`, where the closure is the busy one of worker `pn`.
unfoldable pub suspend : Scheduler → ℕ → ℕ → Option Scheduler
unfolding change_status
suspend s cl pn =
    check (is_running (s.closure cl).status && points_to (s.busy pn) cl)
      (some (xtract (change_status s cl suspended) pn))

-- `add_child` links the child; its sibling links are apart.
unfoldable pub spawn : Scheduler → ℕ → ℕ → ℕ → Option (Scheduler × ℕ)
spawn s pn parent child =
    let s' = put s child (record (create none) { spawn_parent = some parent; status = running }) in
    set (put s' parent (add_join (s'.closure parent))) child pn >>= λ s''. some (s'', parent)

-- The callee that stands for the stolen frame `f` where it has no closure yet.
unfoldable pub add_callee : Scheduler → ℕ → ℕ → ℕ → Scheduler
add_callee s cl f callee =
    let s' = put_flags s f (record (s.flags f) { stolen = true }) in
    put (put s' cl (add_join (s.closure cl))) callee
      (record (create (some f)) { status = running; call_parent = some cl })

-- The closure that is stolen, with the state before the child is made.
unfoldable pub stolen_closure : Scheduler → ℕ → ℕ → ℕ → ℕ → Option (Scheduler × ℕ)
stolen_closure s pn cl f callee =
    if points_to (s.closure cl).frame f
    then check (s.flags f).stolen (some (xtract s pn, cl))
    else if (s.flags f).detached
    then check (not (s.flags f).stolen && is_null (s.closure cl).frame) (
        some (
          xtract
              (put (put_flags s f (record (s.flags f) { stolen = true })) cl
                (record (s.closure cl) { frame = some f }))
              pn,
          cl,
        ))
    else suspend (add_callee s cl f callee) cl pn >>= λ s'. some (s', callee)

-- `callee` and `child` are the closures that the memory has to give.
unfoldable pub promote_child : Scheduler → ℕ → ℕ → ℕ → ℕ → ℕ → Option (Scheduler × ℕ)
promote_child s pn cl f callee child =
    let c = s.closure cl in
    check
      (is_running c.status
        && points_to c.owner pn
        && (cl == s.root_closure || not (is_null c.spawn_parent) || not (is_null c.call_parent)))
      (stolen_closure s pn cl f callee >>= λ r. spawn r.0 pn r.1 child)

unfoldable pub finish_promote : Scheduler → ℕ → Option Scheduler
finish_promote s parent =
    let frame = (s.closure parent).frame in
    check (frame_stolen s frame) (
      some (
        change_status (set_frame_flags s frame (λ fl. record fl { unsynched = true })) parent
          ready))

-- The closure goes to worker `self`; its frame is read through the pointer.
unfoldable pub setup_for_execution : Scheduler → ℕ → ℕ → Option Scheduler
setup_for_execution s self t =
    check (not (is_null (s.closure t).frame))
      (some (change_status (record s { current = update s.current self (some t) }) t running))

unfoldable pub finish_steal : ℕ → Scheduler × ℕ → Option Scheduler
finish_steal self r = finish_promote r.0 r.1 >>= λ s'. setup_for_execution s' self r.1

-- `head` is what `do_dekker_on` gives: the frame to steal, or nothing.
unfoldable pub steal_from : Scheduler → ℕ → ℕ → ℕ → Option ℕ → ℕ → ℕ → Option Scheduler
steal_from s self victim cl head callee child = elim (s.closure cl).status [
  | running ↦ elim head [
    | none ↦ some s
    | some f ↦ promote_child s victim cl f callee child >>= finish_steal self
  ]
  | returning ↦ some s
  | _ ↦ check (cl == s.root_closure) (some s)
]

unfoldable pub closure_steal : Scheduler → ℕ → ℕ → Option ℕ → ℕ → ℕ → Option Scheduler
closure_steal s self victim head callee child = elim (s.busy victim) [
  | none ↦ some s
  | some cl ↦ steal_from s self victim cl head callee child
]
