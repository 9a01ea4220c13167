-- ===== src/Deque/Safety.antt =====
-- No frame goes both to a thief and back to the worker that pushed it.
use cheetah.Base.{refl, ap, arith, ℕ, update, ◌≡◌, ◌+◌, ◌-◌, Bool-cases, ◌≤◌, ltb, inl, inr, leb}
use cheetah.Deque.{
  Deque, setup_for_execution, detach, pop, check_exc, exception_handler,
  increment_exception_pointer, do_dekker_on, take_head,
}
use cheetah.Deque.Steps.{
  Step, Reaches, here, next, detached, popped_one, checked, victim_locked, handled, thief_locked,
  incremented, tested, took, IsDeque, held, times, raise_of, claim_of, busy_of, open_frames,
  is_handling,
}
use cheetah.Deque.Frames.{held-pushed, held-stolen, places, busy-raise, resume-IsDeque}

pub Step-IsDeque : {d e : Deque} → Step d e → IsDeque d → IsDeque e
unfolding detach pop check_exc exception_handler increment_exception_pointer do_dekker_on take_head
    open_frames raise_of claim_of is_handling busy_of times
Step-IsDeque (detached parent d a) v =
    let o = ap open_frames a in
    record {
      exc = v.exc;
      claimed = omega (arith, v.claimed);
      alone = v.alone;
      conserved = λ x.
          let old =
            ap (held x d.frames d.head)
              (places d.tail (open_frames d.victim) d.tail d.head (omega (arith, o))) in
          let f = update d.frames d.tail parent in
          let new =
            ap (held x f d.head)
              (places (d.tail + 1) (open_frames d.victim) (d.tail + 1) d.head (omega (arith, o))) in
          omega
            (arith, v.conserved x, held-pushed x d parent (omega (arith, v.claimed, o)), old, new);
    }
Step-IsDeque (popped_one d a some_frame) v =
    let o = ap open_frames a in
    record {
      exc = v.exc;
      claimed = omega (arith, v.claimed, o);
      alone = λ q. absurd (omega (arith, q));
      conserved = λ x.
          let same =
            ap (held x d.frames d.head)
              (places (d.tail - 1) 1 (d.tail + open_frames d.victim) d.head (omega (arith, o))) in
          omega (arith, v.conserved x, same);
    }
Step-IsDeque (checked d a) v =
    let o = ap open_frames a in
    elim (Bool-cases (ltb d.tail d.exc)) [
      | inl e ↦ rw e (record {
        exc = v.exc;
        claimed = omega (arith, v.claimed, o);
        alone = λ q. absurd (omega (arith, q));
        conserved = λ x.
            let same =
              ap (held x d.frames d.head)
                (places d.tail 1 (d.tail + open_frames d.victim) d.head (omega (arith, o))) in
            omega (arith, v.conserved x, same);
      })
      | inr e ↦ rw e (resume-IsDeque d v v.exc o (ground (arith, v.exc, busy-raise d.thief)))
    ]
Step-IsDeque (victim_locked d a b) v =
    let o = ap open_frames a in
    let r = ap raise_of b in
    record {
      exc = v.exc;
      claimed = omega (arith, v.claimed, o);
      alone = λ q. ap busy_of b;
      conserved = λ x.
          let same =
            ap (held x d.frames d.head)
              (places d.tail 1 (d.tail + open_frames d.victim) d.head (omega (arith, o))) in
          omega (arith, v.conserved x, same);
    }
Step-IsDeque (handled d a) v =
    let o = ap open_frames a in
    let free = v.alone (ap is_handling a) in
    let quiet = busy-raise d.thief in
    let r = quiet.1 free in
    let d' = record d { exc = d.head } in
    let v' : IsDeque d' = record {
      exc = omega (arith, r);
      claimed = v.claimed;
      alone = v.alone;
      conserved = v.conserved;
    } in
    elim (Bool-cases (ltb d.tail d.head)) [
      | inl e ↦ rw e (record {
        exc = omega (arith, r);
        claimed = omega (arith, v.claimed, o);
        alone = λ q. free;
        conserved = λ x.
            let same =
              ap (held x d.frames d.head)
                (places d.tail 1 (d.tail + open_frames d.victim) d.head (omega (arith, o))) in
            omega (arith, v.conserved x, same);
      })
      | inr e ↦ rw e (resume-IsDeque d' v' (omega (arith, r)) o (ground (arith, r, quiet)))
    ]
Step-IsDeque (thief_locked d a c) v =
    let r = ap raise_of c in
    let q = ap claim_of c in
    record {
      exc = omega (arith, v.exc, r);
      claimed = omega (arith, v.claimed, q);
      alone = λ k. absurd (omega (arith, a, k));
      conserved = v.conserved;
    }
Step-IsDeque (incremented d a) v =
    let r = ap raise_of a in
    let q = ap claim_of a in
    record {
      exc = omega (arith, v.exc, r);
      claimed = omega (arith, v.claimed, q);
      alone = λ k. absurd (omega (arith, ap busy_of a, v.alone k));
      conserved = v.conserved;
    }
Step-IsDeque (tested d a) v =
    let r = ap raise_of a in
    let q = ap claim_of a in
    elim (Bool-cases (leb d.tail d.head)) [
      | inl e ↦ rw e (record {
        exc = omega (arith, v.exc, r);
        claimed = omega (arith, v.claimed, q);
        alone = λ k. refl;
        conserved = v.conserved;
      })
      | inr e ↦ rw e (record {
        exc = omega (arith, v.exc, r);
        claimed = ground (arith, v.claimed, q);
        alone = λ k. absurd (omega (arith, ap busy_of a, v.alone k));
        conserved = v.conserved;
      })
    ]
Step-IsDeque (took d a) v =
    let r = ap raise_of a in
    let q = ap claim_of a in
    record {
      exc = omega (arith, v.exc, r);
      claimed = omega (arith, v.claimed, q);
      alone = λ k. refl;
      conserved = λ x. omega (
        arith,
        v.conserved x,
        held-stolen x d (d.tail + open_frames d.victim) (omega (arith, v.claimed, q)),
      );
    }

setup-IsDeque : IsDeque setup_for_execution
unfolding setup_for_execution raise_of claim_of open_frames is_handling times held busy_of
setup-IsDeque = record {
  exc = refl;
  claimed = omega arith;
  alone = λ q. refl;
  conserved = λ x. refl;
}

Reaches-IsDeque : {d e : Deque} → Reaches d e → IsDeque d → IsDeque e
Reaches-IsDeque here v = v
Reaches-IsDeque (next e f r step) v = Step-IsDeque step (Reaches-IsDeque r v)

-- In every state that any interleaving of the worker with thieves leads to, each frame has been
-- stolen, was taken back, or is still in the deque (or popped, with its fate open), as often as it was
-- pushed, so that a frame pushed once never goes to a thief and to the worker; and the exception
-- pointer is at the head, or one above it while a thief decides.
pub stolen-apart-resumed :
    (d : Deque)
    → Reaches setup_for_execution d
    → ((x : ℕ)
        → times x d.pushed
          ≡ times x d.stolen
            + times x d.resumed
            + held x d.frames d.head (d.tail + open_frames d.victim - d.head))
      × ((x : ℕ) → times x d.pushed ≤ 1 → times x d.stolen + times x d.resumed ≤ 1)
      × (d.exc ≡ d.head + raise_of d.thief)
stolen-apart-resumed d r =
    let v = Reaches-IsDeque r setup-IsDeque in
    (v.conserved, λ x h. omega (arith, v.conserved x), v.exc)
