-- ===== src/Deque/Steps.antt =====
-- Every interleaving of the worker and of thieves, and what holds in all of them.
use cheetah.Base.{zero, suc, [], ◌∷◌, ℕ, ◌≡◌, ◌<◌, List, if◌then◌else◌, ◌+◌, ◌==◌, ◌≤◌, ◌-◌}
use cheetah.Deque.{
  Victim, running, popped, waiting, handling, gone, Thief, idle, locked, raised, decided, Deque,
  detach, pop, check_exc, exception_handler, increment_exception_pointer, do_dekker_on, take_head,
}

-- Whether the worker has the lock, or has left it for good.
unfoldable pub is_handling : Victim → ℕ
is_handling running = 0
is_handling popped = 0
is_handling waiting = 0
is_handling handling = 1
is_handling gone = 1

pub data Step : Deque → Deque → Type 0 where
  detached : (parent : ℕ) (d : Deque) → d.victim ≡ running → Step d (detach parent d)
  popped_one : (d : Deque) → d.victim ≡ running → 0 < d.tail → Step d (pop d)
  checked : (d : Deque) → d.victim ≡ popped → Step d (check_exc d)
  victim_locked :
      (d : Deque) → d.victim ≡ waiting → d.thief ≡ idle → Step d (record d { victim = handling })
  handled : (d : Deque) → d.victim ≡ handling → Step d (exception_handler d)
  thief_locked :
      (d : Deque) → is_handling d.victim ≡ 0 → d.thief ≡ idle → Step d (record d { thief = locked })
  incremented : (d : Deque) → d.thief ≡ locked → Step d (increment_exception_pointer d)
  tested : (d : Deque) → d.thief ≡ raised → Step d (do_dekker_on d)
  took : (d : Deque) → d.thief ≡ decided → Step d (take_head d)

pub data Reaches (d : Deque) : Deque → Type 0 where
  here : Reaches d d
  next : (e f : Deque) → Reaches d e → Step e f → Reaches d f

unfoldable pub one : ℕ → ℕ → ℕ
one x y = if x == y then 1 else 0

-- How often the frame is in the list.
unfoldable pub times : ℕ → List ℕ → ℕ
times x [] = 0
times x (y ∷ ys) = one x y + times x ys

-- How often it is in the `n` places from `i` on.
unfoldable pub held : ℕ → (ℕ → ℕ) → ℕ → ℕ → ℕ
held x f i zero = 0
held x f i (suc n) = one x (f i) + held x f (i + 1) n

-- A popped frame whose fate is open is still held.
unfoldable pub open_frames : Victim → ℕ
open_frames running = 0
open_frames popped = 1
open_frames waiting = 1
open_frames handling = 1
open_frames gone = 1

unfoldable pub raise_of : Thief → ℕ
raise_of idle = 0
raise_of locked = 0
raise_of raised = 1
raise_of decided = 1

unfoldable pub claim_of : Thief → ℕ
claim_of idle = 0
claim_of locked = 0
claim_of raised = 0
claim_of decided = 1

unfoldable pub busy_of : Thief → ℕ
busy_of idle = 0
busy_of locked = 1
busy_of raised = 1
busy_of decided = 1

-- The exception pointer is at the head, or one above while a thief decides; a thief that has decided
-- finds a frame at the head.
pub record IsDeque (d : Deque) : Type 0 where
  pub exc : d.exc ≡ d.head + raise_of d.thief
  pub claimed : d.head + claim_of d.thief ≤ d.tail + open_frames d.victim
  pub alone : is_handling d.victim ≡ 1 → busy_of d.thief ≡ 0
  pub conserved :
      (x : ℕ)
      → times x d.pushed
        ≡ times x d.stolen
          + times x d.resumed
          + held x d.frames d.head (d.tail + open_frames d.victim - d.head)
