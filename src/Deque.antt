-- ===== src/Deque.antt =====
-- The deque of frames of a worker and the protocol between it and a thief: `__cilkrts_detach` and
-- `__cilkrts_leave_frame_helper` of runtime/cilk2c_inlined.cpp, `__cilkrts_exception_handler`,
-- `do_dekker_on` and `promote_child` of runtime/scheduler.cpp. Each function is one access to the
-- shared pointers; the memory is sequentially consistent, as the fences make it.
mod Steps
mod Frames
mod Safety
mod Examples
use cheetah.Base.{ℕ, ◌+◌, ◌-◌, Bool, ltb, leb, if◌then◌else◌, update, List, [], ◌∷◌}

-- Where the worker is: in user code, between the store of the tail and the load of the exception
-- pointer, before the lock, in the exception handler, or gone because its parent was stolen.
pub data Victim : Type 0 where
  running : Victim
  popped : Victim
  waiting : Victim
  handling : Victim
  gone : Victim

-- Where the thief that has the lock is, if there is one.
pub data Thief : Type 0 where
  idle : Thief
  locked : Thief
  raised : Thief
  decided : Thief

-- `pushed`, `stolen` and `resumed` are the frames ever pushed, taken by thieves and taken back by the
-- worker.
pub record Deque : Type 0 where
  pub head : ℕ
  pub tail : ℕ
  pub exc : ℕ
  pub frames : ℕ → ℕ
  pub victim : Victim
  pub thief : Thief
  pub pushed : List ℕ
  pub stolen : List ℕ
  pub resumed : List ℕ

unfoldable pub setup_for_execution : Deque
setup_for_execution = record {
  head = 0;
  tail = 0;
  exc = 0;
  frames = λ i. 0;
  victim = running;
  thief = idle;
  pushed = [];
  stolen = [];
  resumed = [];
}

unfoldable pub detach : ℕ → Deque → Deque
detach parent d = record d {
  frames = update d.frames d.tail parent;
  tail = d.tail + 1;
  pushed = parent ∷ d.pushed;
}

unfoldable pub pop : Deque → Deque
pop d = record d { tail = d.tail - 1; victim = popped }

-- The worker goes on with the frame that it has taken back.
unfoldable pub resume : Deque → Deque
resume d = record d { victim = running; resumed = d.frames d.tail ∷ d.resumed }

unfoldable pub check_exc : Deque → Deque
check_exc d = if ltb d.tail d.exc then record d { victim = waiting } else resume d

unfoldable pub exception_handler : Deque → Deque
exception_handler d =
    let d' = record d { exc = d.head } in
    if ltb d.tail d.head then record d' { victim = gone } else resume d'

unfoldable pub increment_exception_pointer : Deque → Deque
increment_exception_pointer d = record d { exc = d.exc + 1; thief = raised }

unfoldable pub do_dekker_on : Deque → Deque
do_dekker_on d =
    if leb d.tail d.head
    then record d { exc = d.exc - 1; thief = idle }
    else record d { thief = decided }

unfoldable pub take_head : Deque → Deque
take_head d = record d { head = d.head + 1; thief = idle; stolen = d.frames d.head ∷ d.stolen }
