-- ===== src/Closures/Runs.antt =====
-- A parallel region from one step of a worker to the next.

use cheetah.Closures.Return.{return_to_reduce-IsSound, closure_return-Returned}
use cheetah.Closures.Waiting.{waits-IsBelow, IsAttended}
use cheetah.Closures.Sync.{cilk_sync-Synced}
use cheetah.Closures.Start.{execute-IsSound}
use cheetah.Closures.Resume.{IsCallDone, set_return-IsSound}
use cheetah.Closures.Steal.{IsHead, steal_from-Stolen}
use cheetah.Closures.Stolen.{IsFree, IsFreshFrame}
use cheetah.Closures.Sound.{IsSound}
use cheetah.Closures.Leave.{IsChildDone, exception_handler-IsSound, frame_of, return_again-IsSound}
use cheetah.Closures.Returns.{
  do_what_it_says, cilk_sync, set_return, exception_handler, return_again, closure_return, execute,
}
use cheetah.Base.{
  Passes, Passes-some, Passes-mono, passed, refl, none, some, true, false, inl, inr, ℕ, Option, ◌≡◌,
  Bool, ◌≢◌, Option-cases, ◌<◌, arith, ◌^◌, Bool-cases, subst, some_eq, sym, ◌∙◌,
}
use cheetah.Closures.{
  running, returning, Scheduler, closure_steal, steal_from, Flags, is_null, put_flags, is_running,
  frame_stolen, is_returning, promote_child, stolen_closure, suspend, add_callee, xtract, spawn,
  set, create, add_join, sub_join, finish_steal, finish_promote, change_status, setup_for_execution,
}

-- What a worker does next. `enter` stands for all that user code does to the flags of its own frames.
pub data Event : Type 0 where
  steal : (self victim : ℕ) (head : Option ℕ) (callee child : ℕ) → Event
  sync : (self frame : ℕ) → Event
  leave_call : (self : ℕ) → Event
  leave_child : (self sf : ℕ) (throws : Bool) → Event
  reduced : (self : ℕ) → Event
  round : (self : ℕ) (tables : Bool) → Event
  enter : (frame : ℕ) (flags : Flags) → Event

unfoldable pub apply : Scheduler → Event → Option Scheduler
unfolding closure_steal steal_from promote_child stolen_closure suspend add_callee xtract spawn set
    create add_join sub_join finish_steal finish_promote change_status setup_for_execution cilk_sync
    set_return exception_handler return_again do_what_it_says execute closure_return
apply s (steal self victim head callee child) = closure_steal s self victim head callee child
apply s (sync self frame) = cilk_sync s self frame
apply s (leave_call self) = set_return s self
apply s (leave_child self sf throws) = exception_handler s self sf throws
apply s (reduced self) = return_again s self
apply s (round self tables) = do_what_it_says s self tables
apply s (enter frame flags) = some (put_flags s frame flags)

-- A closure of which nothing but the reductions for its return is left.
pub record IsReduced (s : Scheduler) (t : ℕ) : Type 0 where
  pub done : IsChildDone s t
  pub framed : is_null (s.closure t).frame ≡ false

-- What compiled code and the deques keep to.
abbrev pub Enabled : ℕ → Scheduler → Event → Type 0
Enabled n s (steal self victim head callee child) =
    (s.current self ≡ none)
    × (s.busy self ≡ none)
    × (self ≢ victim)
    × IsFree s n child
    × IsFree s n callee
    × (callee ≢ child)
    × ((cl f : ℕ) → s.busy victim ≡ some cl → head ≡ some f → IsHead s cl f)
Enabled n s (sync self frame) =
    (t : ℕ) × (s.busy self ≡ some t)
    × ((s.closure t).frame ≡ some frame)
    × ((s.flags frame).stolen ≡ true)
Enabled n s (leave_call self) = (t p f : ℕ) × (s.busy self ≡ some t) × IsCallDone s t p f
Enabled n s (leave_child self sf throws) =
    (t : ℕ) × (s.busy self ≡ some t) × IsChildDone s t × IsFreshFrame s sf
Enabled n s (reduced self) = (t : ℕ) × (s.busy self ≡ some t) × IsReduced s t
Enabled n s (round self tables) = Unit {0}
Enabled n s (enter frame flags) = IsFreshFrame s frame

no_current :
    (n : ℕ) (s : Scheduler) (self t : ℕ)
    → IsSound n s
    → s.busy self ≡ some t
    → s.current self ≡ none
no_current n s self t v b = elim (Option-cases (s.current self)) [
  | inl e ↦ e
  | inr (c, e) ↦ absurd (ground (arith, e, b, v.held.current self c))
]

closure_steal-IsSound :
    (n : ℕ) (s : Scheduler) (self victim callee child : ℕ) (head : Option ℕ)
    → IsSound n s
    → n < 2 ^ 32
    → Enabled n s (steal self victim head callee child)
    → Passes (IsSound n) (closure_steal s self victim head callee child)
unfolding closure_steal steal_from
closure_steal-IsSound n s self victim callee child none v small e =
    elim (Option-cases (s.busy victim)) [
      | inl b ↦ rw (b, closure_steal) (passed s v)
      | inr (cl, b) ↦
          let k = v.held.busy victim cl b in
          let st : (s.closure cl).status ≡ running = ground (arith, k) in
          rw (b, closure_steal) (rw (st, steal_from) (passed s v))
    ]
closure_steal-IsSound n s self victim callee child (some f) v small e =
    elim (Option-cases (s.busy victim)) [
      | inl b ↦ rw (b, closure_steal) (passed s v)
      | inr (cl, b) ↦
          rw (b, closure_steal)
            (Passes-mono
              (steal_from-Stolen n s self victim cl f callee child v small b e.0 e.1 e.2 e.3 e.4 e.5
                (e.6 cl f b refl))
              (λ s' h. h.0))
    ]

frame_of_stolen : (s : Scheduler) (o : Option ℕ) → frame_stolen s o ≡ true → (f : ℕ) × (o ≡ some f)
frame_of_stolen s none e = absurd (cc)
frame_of_stolen s (some f) e = (f, refl)

closure_return-IsSound :
    (n : ℕ) (s : Scheduler) (self t : ℕ) (tables : Bool)
    → IsSound n s
    → n < 2 ^ 32
    → s.current self ≡ some t
    → is_returning (s.closure t).status ≡ true
    → Passes (IsSound n) (closure_return s self t tables)
closure_return-IsSound n s self t true v small now returns =
    Passes-mono (return_to_reduce-IsSound n s self t v now returns) (λ s' h. h.0)
closure_return-IsSound n s self t false v small now returns =
    let (p, child) = frame_of (s.closure t).spawn_parent (v.held.returns t returns).2 in
    let up = v.tree.spawned t p (ground (arith, returns)) child in
    let (f, frame) = frame_of_stolen s (s.closure p).frame up.3 in
    Passes-mono (closure_return-Returned n s self t p f v small now returns child frame)
      (λ s' h. h.0)

do_what_it_says-IsSound :
    (n : ℕ) (s : Scheduler) (self : ℕ) (tables : Bool)
    → IsSound n s
    → n < 2 ^ 32
    → Passes (IsSound n) (do_what_it_says s self tables)
unfolding do_what_it_says
do_what_it_says-IsSound n s self tables v small = elim (Option-cases (s.current self)) [
  | inl b ↦ rw (b, do_what_it_says) (passed s v)
  | inr (t, b) ↦
      let k = v.held.current self t b in
      elim (Bool-cases (is_running (s.closure t).status)) [
        | inl r ↦
            let st : (s.closure t).status ≡ running = ground (arith, r) in
            rw (b, do_what_it_says) (rw (st, do_what_it_says) (execute-IsSound n s self t v b r))
        | inr r ↦
            let st : (s.closure t).status ≡ returning = ground (arith, r, k) in
            rw (b, do_what_it_says)
              (rw (st, do_what_it_says)
                (closure_return-IsSound n s self t tables v small b (ground (arith, st))))
      ]
]

enter-IsSound :
    (n : ℕ) (s : Scheduler) (f : ℕ) (fl : Flags)
    → IsSound n s
    → IsFreshFrame s f
    → IsSound n (put_flags s f fl)
enter-IsSound n s f fl v fresh =
    let o = v.tree in
    record {
      tree = record {
        bounded = o.bounded;
        counted = o.counted;
        spawned = λ x p a b. ground (arith, a, b, o.spawned x p, fresh p);
        called = o.called;
        callee = o.callee;
        frames = o.frames;
        waits = o.waits;
        settled = o.settled;
        top = o.top;
        rooted = o.rooted;
      };
      held = record {
        busy = v.held.busy;
        owner = v.held.owner;
        current = v.held.current;
        one = v.held.one;
        returns = v.held.returns;
      };
      ranked = v.ranked;
      found = v.found;
    }

-- A step that is enabled passes its checks, and keeps the closures sound.
pub apply-IsSound :
    (n : ℕ) (s : Scheduler) (e : Event)
    → IsSound n s
    → n < 2 ^ 32
    → Enabled n s e
    → Passes (IsSound n) (apply s e)
unfolding apply
apply-IsSound n s (steal self victim head callee child) v small e =
    closure_steal-IsSound n s self victim callee child head v small e
apply-IsSound n s (sync self frame) v small (t, b, f, st) =
    Passes-mono (cilk_sync-Synced n s self t frame v b f st) (λ s' h. h.0)
apply-IsSound n s (leave_call self) v small (t, p, f, b, done) =
    Passes-mono (set_return-IsSound n s self t p f v small b (no_current n s self t v b) done)
      (λ s' h. h.0)
apply-IsSound n s (leave_child self sf throws) v small (t, b, done, fresh) =
    Passes-mono
      (exception_handler-IsSound n s self t v b (no_current n s self t v b) done sf throws fresh)
      (λ s' h. h.0)
apply-IsSound n s (reduced self) v small (t, b, r) =
    Passes-mono (return_again-IsSound n s self t v b (no_current n s self t v b) r.done r.framed)
      (λ s' h. h.0)
apply-IsSound n s (round self tables) v small e = do_what_it_says-IsSound n s self tables v small
apply-IsSound n s (enter frame flags) v small fresh =
    passed _ (enter-IsSound n s frame flags v fresh)

pub data Run (n : ℕ) (s : Scheduler) : Scheduler → Type 0 where
  here : Run n s s
  then :
      {t u : Scheduler} → Run n s t → (e : Event) → Enabled n t e → apply t e ≡ some u → Run n s u

-- What a run of a region reaches is sound.
pub Run-IsSound : {n : ℕ} {s t : Scheduler} → IsSound n s → n < 2 ^ 32 → Run n s t → IsSound n t
Run-IsSound v small here = v
Run-IsSound {n} v small (then {t = t} r e h q) =
    let (u, q', w) = Passes-some (apply-IsSound n t e (Run-IsSound v small r) small h) in
    subst (IsSound n) (some_eq (sym q' ∙ q)) w

-- From a sound state, whatever steps of the workers a region has taken, each step that is enabled,
-- which says what frames the deques and compiled code present and how these are marked, passes the
-- modelled checks (statuses, owners, busy closures, children and join counters), its result is
-- sound, and every closure then in use has below it, or is itself, one that some worker has and
-- that does not wait.
pub run_safe :
    (n : ℕ) (s t : Scheduler) (e : Event)
    → IsSound n s
    → n < 2 ^ 32
    → Run n s t
    → Enabled n t e
    → (u : Scheduler) × (apply t e ≡ some u) × IsSound n u × IsAttended u
run_safe n s t e v small r h =
    let (u, q, w) = Passes-some (apply-IsSound n t e (Run-IsSound v small r) small h) in
    (u, q, w, waits-IsBelow n u w)
