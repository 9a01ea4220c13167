-- ===== src/Deque/Frames.antt =====
-- The frames in the places of a deque, counted.
use cheetah.Base.{
  refl, zero, suc, ℕ, ◌≤◌, ◌≡◌, ◌+◌, update, ◌<◌, arith, update_ne, ◌-◌, ap, update_self, ◌∙◌,
}
use cheetah.Deque.{Deque, Thief, idle, locked, raised, decided, resume}
use cheetah.Deque.Steps.{
  IsDeque, held, times, one, raise_of, claim_of, busy_of, open_frames, is_handling,
}

held-last : (x : ℕ) (f : ℕ → ℕ) (i n : ℕ) → held x f i (suc n) ≡ held x f i n + one x (f (i + n))
unfolding held
held-last x f i zero = let e : i + 0 ≡ i = omega arith in rw e (omega arith)
held-last x f i (suc n) =
    let e : i + suc n ≡ i + 1 + n = omega arith in rw e (omega (arith, held-last x f (i + 1) n))

held-update :
    (x : ℕ) (f : ℕ → ℕ) (i n j y : ℕ) → i + n ≤ j → held x (update f j y) i n ≡ held x f i n
unfolding held
held-update x f i zero j y h = refl
held-update x f i (suc n) j y h =
    rw (update_ne f j i y (λ e. absurd (omega arith)))
      (omega (arith, held-update x f (i + 1) n j y (omega arith)))

-- A push adds the frame behind the last place.
pub held-pushed :
    (x : ℕ) (d : Deque) (parent : ℕ)
    → d.head ≤ d.tail
    → held x (update d.frames d.tail parent) d.head (d.tail + 1 - d.head)
      ≡ held x d.frames d.head (d.tail - d.head) + one x parent
held-pushed x d parent h =
    let e : d.tail + 1 - d.head ≡ suc (d.tail - d.head) = omega arith in
    let at : d.head + (d.tail - d.head) ≡ d.tail = omega arith in
    let last = held-last x (update d.frames d.tail parent) d.head (d.tail - d.head) in
    let kept = held-update x d.frames d.head (d.tail - d.head) d.tail parent (omega arith) in
    rw (e, last, at, update_self d.frames d.tail parent, kept) refl

-- The worker takes the frame in the last place back.
held-resumed :
    (x : ℕ) (d : Deque)
    → d.head ≤ d.tail
    → held x d.frames d.head (d.tail + 1 - d.head)
      ≡ held x d.frames d.head (d.tail - d.head) + one x (d.frames d.tail)
held-resumed x d h =
    let e : d.tail + 1 - d.head ≡ suc (d.tail - d.head) = omega arith in
    let at : d.head + (d.tail - d.head) ≡ d.tail = omega arith in
    rw e (held-last x d.frames d.head (d.tail - d.head) ∙ rw at refl)

-- A thief takes the frame in the first place.
pub held-stolen :
    (x : ℕ) (d : Deque) (n : ℕ)
    → d.head < n
    → held x d.frames d.head (n - d.head)
      ≡ one x (d.frames d.head) + held x d.frames (d.head + 1) (n - (d.head + 1))
unfolding held
held-stolen x d n h = let e : n - d.head ≡ suc (n - (d.head + 1)) = omega arith in rw e refl

pub places : (a b c h : ℕ) → a + b ≡ c → a + b - h ≡ c - h
places a b c h e = omega arith

pub busy-raise : (t : Thief) → (claim_of t ≤ raise_of t) × (busy_of t ≡ 0 → raise_of t ≡ 0)
unfolding claim_of raise_of busy_of
busy-raise idle = (omega arith, λ e. refl)
busy-raise locked = (omega arith, λ e. refl)
busy-raise raised = (omega arith, λ e. absurd (omega (arith, e)))
busy-raise decided = (omega arith, λ e. absurd (omega (arith, e)))

pub resume-IsDeque :
    (d : Deque)
    → IsDeque d
    → d.exc ≡ d.head + raise_of d.thief
    → open_frames d.victim ≡ 1
    → d.head + claim_of d.thief ≤ d.tail
    → IsDeque (resume d)
unfolding resume open_frames times is_handling
resume-IsDeque d v e o h = record {
  exc = e;
  claimed = omega arith;
  alone = λ q. absurd (omega arith);
  conserved = λ x.
      let old =
        ap (held x d.frames d.head)
          (places d.tail (open_frames d.victim) (d.tail + 1) d.head (omega (arith, o))) in
      let new = ap (held x d.frames d.head) (places d.tail 0 d.tail d.head (omega arith)) in
      omega (arith, v.conserved x, held-resumed x d (omega arith), old, new);
}
