-- ===== src/Deque/Examples.antt =====
-- The theorem about the deque at a concrete state.
use cheetah.Base.{refl, arith, ℕ, ◌≡◌, ◌+◌, ◌-◌, ◌≤◌}
use cheetah.Deque.{
  Deque, setup_for_execution, detach, pop, check_exc, increment_exception_pointer, do_dekker_on,
  take_head, locked,
}
use cheetah.Deque.Safety.{stolen-apart-resumed}
use cheetah.Deque.Steps.{
  Reaches, here, next, detached, popped_one, thief_locked, incremented, tested, took, checked,
  times, held, open_frames, raise_of, is_handling,
}

-- A frame is pushed, and a thief takes it while the worker pops it.
abbrev pushed_one : Deque
pushed_one = detach 7 setup_for_execution

abbrev with_thief : Deque
with_thief = record pushed_one { thief = locked }

abbrev thief_decided : Deque
thief_decided = do_dekker_on (increment_exception_pointer with_thief)

abbrev taken : Deque
taken = check_exc (take_head (pop thief_decided))

taken_reached : Reaches setup_for_execution taken
unfolding setup_for_execution detach pop check_exc increment_exception_pointer do_dekker_on
    take_head is_handling
taken_reached =
    next _ _
      (next _ _
        (next _ _
          (next _ _
            (next _ _
              (next _ _ (next _ _ here (detached 7 setup_for_execution refl))
                (thief_locked pushed_one refl refl))
              (incremented with_thief refl))
            (tested (increment_exception_pointer with_thief) refl))
          (popped_one thief_decided refl (omega arith)))
        (took (pop thief_decided) refl))
      (checked (take_head (pop thief_decided)) refl)

stolen-apart-resumed_example :
    ((x : ℕ)
      → times x taken.pushed
        ≡ times x taken.stolen
          + times x taken.resumed
          + held x taken.frames taken.head (taken.tail + open_frames taken.victim - taken.head))
    × ((x : ℕ) → times x taken.pushed ≤ 1 → times x taken.stolen + times x taken.resumed ≤ 1)
    × (taken.exc ≡ taken.head + raise_of taken.thief)
stolen-apart-resumed_example = stolen-apart-resumed taken taken_reached
