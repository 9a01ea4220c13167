-- ===== src/FiberPool/Moves.antt =====
-- The loops of runtime/fiber-pool.cpp that move, create and destroy fibers.
use cheetah.Base.{
  ℕ, zero, suc, ◌+◌, ◌≤◌, ◌≡◌, refl, arith, some, List, [], ◌∷◌, length, ◌==◌, if◌then◌else◌,
}
use cheetah.FiberPool.{Allocator, move, create, destroy}

-- How often `x` is in a list.
abbrev pub count : ℕ → List ℕ → ℕ
count x [] = 0
count x (f ∷ fs) = (if x == f then 1 else 0) + count x fs

-- The operating system gives no memory that is in use.
abbrev pub IsFresh : Allocator → Type 0
IsFresh allocate =
    (stack_size : ℕ) (created destroyed : List ℕ)
    → count (allocate stack_size created destroyed) created
      ≤ count (allocate stack_size created destroyed) destroyed

-- No fiber was created again before it was destroyed.
abbrev pub IsOnce : List ℕ → List ℕ → Type 0
IsOnce created destroyed = (x : ℕ) → count x created ≤ count x destroyed + 1

pub create-IsOnce :
    (allocate : Allocator)
    → IsFresh allocate
    → (stack_size : ℕ) (created destroyed : List ℕ) → IsOnce created destroyed
    → IsOnce (allocate stack_size created destroyed ∷ created) destroyed
create-IsOnce allocate fresh stack_size created destroyed h x =
    ground (arith, fresh stack_size created destroyed, h x)

pub move_lem :
    (n capacity : ℕ) (src dst : List ℕ)
    → n ≤ length src
    → length dst + n ≤ capacity
    → (r : List ℕ × List ℕ) × (move n capacity src dst ≡ some r)
      × (length r.0 + n ≡ length src)
      × (length r.1 ≡ length dst + n)
      × ((x : ℕ) → count x r.0 + count x r.1 ≡ count x src + count x dst)
unfolding move
move_lem zero capacity src dst h k = ((src, dst), refl, omega arith, omega arith, λ x. omega arith)
move_lem (suc n) capacity [] dst h k = absurd (omega arith)
move_lem (suc n) capacity (f ∷ src) dst h k =
    let (r, e, a, b, c) = move_lem n capacity src (f ∷ dst) (omega arith) (omega arith) in
    (r, ground (arith, e), omega arith, omega arith, λ x. omega (arith, c x))

pub create_lem :
    (allocate : Allocator)
    → IsFresh allocate
    → (stack_size n capacity : ℕ) (destroyed created dst : List ℕ) → length dst + n ≤ capacity
    → (r : List ℕ × List ℕ) × (create allocate stack_size n capacity destroyed created dst ≡ some r)
      × (length r.1 ≡ length dst + n)
      × ((x : ℕ) → count x r.0 + count x dst ≡ count x created + count x r.1)
      × (IsOnce created destroyed → IsOnce r.0 destroyed)
unfolding create
create_lem allocate fresh stack_size zero capacity destroyed created dst k =
    ((created, dst), refl, omega arith, λ x. omega arith, λ h. h)
create_lem allocate fresh stack_size (suc n) capacity destroyed created dst k =
    let f = allocate stack_size created destroyed in
    let (r, e, a, b, c) =
      create_lem allocate fresh stack_size n capacity destroyed (f ∷ created) (f ∷ dst)
        (omega arith) in
    (
      r,
      ground (arith, e),
      omega arith,
      λ x. omega (arith, b x),
      λ h. c (create-IsOnce allocate fresh stack_size created destroyed h),
    )

pub destroy_lem :
    (n : ℕ) (destroyed src : List ℕ)
    → n ≤ length src
    → (r : List ℕ × List ℕ) × (destroy n destroyed src ≡ some r)
      × (length r.1 + n ≡ length src)
      × ((x : ℕ) → count x r.0 + count x r.1 ≡ count x destroyed + count x src)
      × ((x : ℕ) → count x destroyed ≤ count x r.0)
unfolding destroy
destroy_lem zero destroyed src h =
    ((destroyed, src), refl, omega arith, λ x. omega arith, λ x. omega arith)
destroy_lem (suc n) destroyed [] h = absurd (omega arith)
destroy_lem (suc n) destroyed (f ∷ src) h =
    let (r, e, a, b, c) = destroy_lem n (f ∷ destroyed) src (omega arith) in
    (r, e, omega arith, λ x. omega (arith, b x), λ x. omega (arith, c x))
