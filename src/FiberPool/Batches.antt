-- ===== src/FiberPool/Batches.antt =====
-- Batches of fibers between a worker's pool, the global pool and the system.
use cheetah.Base.{
  ℕ, ◌+◌, ◌-◌, ◌≤◌, ◌<◌, ◌≡◌, refl, arith, some, List, [], length, if◌then◌else◌, ◌^◌, leb, ◌%◌,
  ◌==◌, ◌∙◌, false,
}
use cheetah.Base.Int.{pos, ◌-ℤ◌}
use cheetah.FiberPool.{
  FiberPool, Pools, size, sub_u32, move, destroy, fiber_pool_lock, fiber_pool_unlock,
  fiber_pool_increase_capacity, count_free, fiber_pool_free_batch, count_in_use,
  fiber_pool_allocate_batch, Allocator, create,
}
use cheetah.FiberPool.Moves.{count, IsOnce, move_lem, destroy_lem, IsFresh, create_lem}

-- No pool has more fibers than it has places.
pub record IsSized (s : Pools) : Type 0 where
  pub local : size s.local ≤ s.local.capacity
  pub global : size s.global ≤ s.global.capacity
  pub local_fits : s.local.capacity < 2 ^ 32
  pub global_fits : s.global.capacity < 2 ^ 32

-- How often a fiber was destroyed or lies in a pool.
abbrev pub idle : ℕ → Pools → ℕ
idle x s = count x s.destroyed + count x s.global.fibers + count x s.local.fibers

-- From `s` to `s'` fibers only move: each that was created is destroyed, lies in a pool, or is in
-- use as before, when `given` were handed back and `taken` were handed out.
pub record Conserves (s : Pools) (given : List ℕ) (taken : List ℕ) (s' : Pools) : Type 0 where
  pub moved :
      (x : ℕ)
      → count x s'.created + idle x s + count x given
        ≡ count x s.created + idle x s' + count x taken
  pub once : IsOnce s.created s.destroyed → IsOnce s'.created s'.destroyed
  pub local : s'.local.capacity ≡ s.local.capacity
  pub global : s'.global.capacity ≡ s.global.capacity

fiber_pool_increase_capacity_same :
    (pool : FiberPool) (n : ℕ) → n ≤ pool.capacity → fiber_pool_increase_capacity pool n ≡ pool
unfolding fiber_pool_increase_capacity
fiber_pool_increase_capacity_same pool n h = ground arith

fiber_pool_lock-fibers :
    (self : ℕ) (pool : FiberPool)
    → ((fiber_pool_lock self pool).fibers ≡ pool.fibers)
      × ((fiber_pool_lock self pool).capacity ≡ pool.capacity)
unfolding fiber_pool_lock
fiber_pool_lock-fibers self pool = (ground arith, ground arith)

fiber_pool_unlock-fibers :
    (pool : FiberPool)
    → ((fiber_pool_unlock pool).fibers ≡ pool.fibers)
      × ((fiber_pool_unlock pool).capacity ≡ pool.capacity)
unfolding fiber_pool_unlock
fiber_pool_unlock-fibers pool = (ground arith, ground arith)

sub_u32-eq : (a b : ℕ) → b ≤ a → a < 2 ^ 32 → sub_u32 a b ≡ a - b
unfolding sub_u32
sub_u32-eq a b h k = omega arith

-- The global pool that a batch leaves, and the pools together.
abbrev counted : ℕ → ℕ → Pools → List ℕ × List ℕ → FiberPool
counted self to_parent s m =
    let parent = fiber_pool_lock self s.global in
    count_free (record parent { fibers = m.1; in_use = parent.in_use -ℤ pos to_parent })

abbrev freed : ℕ → ℕ → Pools → List ℕ × List ℕ → List ℕ × List ℕ → Pools
freed self to_parent s m n = record {
  created = s.created;
  destroyed = n.0;
  global = fiber_pool_unlock (counted self to_parent s m);
  local = record s.local { fibers = n.1 };
}

module _ (self batch_size to_parent : ℕ) (s : Pools) (z : IsSized s)
    (some_room : to_parent + size s.global ≤ s.global.capacity) (m n : List ℕ × List ℕ)
    (src : length m.0 + to_parent ≡ size s.local) (dst : length m.1 ≡ size s.global + to_parent)
    (moves : (x : ℕ) → count x m.0 + count x m.1 ≡ count x s.local.fibers + count x s.global.fibers)
    (rest : length n.1 + batch_size ≡ size s.local)
    (destroys : (x : ℕ) → count x n.0 + count x n.1 ≡ count x s.destroyed + count x m.0)
    (more : (x : ℕ) → count x s.destroyed ≤ count x n.0) where
  freed-IsSized : IsSized (freed self to_parent s m n)
  unfolding count_free
  freed-IsSized =
      let unlocked = fiber_pool_unlock-fibers (counted self to_parent s m) in
      let lock = fiber_pool_lock-fibers self s.global in
      record {
        local = omega (arith, z.local);
        global = rw (unlocked.0, unlocked.1, lock.1) (omega arith);
        local_fits = z.local_fits;
        global_fits = rw (unlocked.1, lock.1) z.global_fits;
      }

  freed-Conserves : Conserves s [] [] (freed self to_parent s m n)
  unfolding count_free
  freed-Conserves =
      let unlocked = fiber_pool_unlock-fibers (counted self to_parent s m) in
      let lock = fiber_pool_lock-fibers self s.global in
      record {
        moved = λ x. rw (unlocked.0) (omega (arith, moves x, destroys x));
        once = λ o x. omega (arith, o x, more x);
        local = refl;
        global = rw (unlocked.1, lock.1) refl;
      }

fiber_pool_free_batch-eq :
    (self batch_size to_parent : ℕ) (s : Pools) (m n : List ℕ × List ℕ)
    → (if leb batch_size (sub_u32 s.global.capacity (size s.global))
        then batch_size
        else sub_u32 s.global.capacity (size s.global))
      ≡ to_parent
    → move to_parent s.global.capacity s.local.fibers s.global.fibers ≡ some m
    → destroy (batch_size - to_parent) s.destroyed m.0 ≡ some n
    → fiber_pool_free_batch self batch_size s ≡ some (freed self to_parent s m n)
unfolding fiber_pool_free_batch
fiber_pool_free_batch-eq self batch_size to_parent s m n e m_eq n_eq =
    let lock = fiber_pool_lock-fibers self s.global in rw (lock.0, lock.1, e, m_eq, n_eq) refl

-- A batch that the pool has leaves it by the size of the batch.
pub fiber_pool_free_batch_lem :
    (self batch_size : ℕ) (s : Pools)
    → IsSized s
    → batch_size ≤ size s.local
    → (s' : Pools) × (fiber_pool_free_batch self batch_size s ≡ some s')
      × IsSized s'
      × Conserves s [] [] s'
      × (size s'.local + batch_size ≡ size s.local)
fiber_pool_free_batch_lem self batch_size s z h =
    let room : sub_u32 s.global.capacity (size s.global) ≡ s.global.capacity - size s.global =
      sub_u32-eq s.global.capacity (size s.global) z.global z.global_fits in
    let to_parent =
      if leb batch_size (s.global.capacity - size s.global)
      then batch_size
      else s.global.capacity - size s.global in
    let bounds : (to_parent ≤ batch_size) × (to_parent + size s.global ≤ s.global.capacity) =
      (ground arith, ground (arith, z.global)) in
    let (m, m_eq, m_src, m_dst, m_count) =
      move_lem to_parent s.global.capacity s.local.fibers s.global.fibers (omega (arith, bounds))
        (omega (arith, bounds)) in
    let (n, n_eq, n_src, n_count, n_more) =
      destroy_lem (batch_size - to_parent) s.destroyed m.0 (omega (arith, bounds)) in
    let rest : length n.1 + batch_size ≡ size s.local = omega (arith, bounds) in
    (
      freed self to_parent s m n,
      fiber_pool_free_batch-eq self batch_size to_parent s m n (rw room refl) m_eq n_eq,
      freed-IsSized self batch_size to_parent s z (bounds.1) m n m_src m_dst m_count rest n_count
          n_more,
      freed-Conserves self batch_size to_parent s z (bounds.1) m n m_src m_dst m_count rest n_count
          n_more,
      rest,
    )

-- The global pool that a batch is taken from, and the pools together.
abbrev lent : ℕ → ℕ → Pools → List ℕ × List ℕ → FiberPool
lent self from_parent s m =
    count_in_use (record (fiber_pool_lock self s.global) { fibers = m.0 }) from_parent

abbrev filled : ℕ → ℕ → Pools → List ℕ × List ℕ → List ℕ × List ℕ → Pools
filled self from_parent s m n = record {
  created = n.0;
  destroyed = s.destroyed;
  global = fiber_pool_unlock (lent self from_parent s m);
  local = count_free (record s.local { fibers = n.1 });
}

filled-size :
    (self from_parent : ℕ) (s : Pools) (m n : List ℕ × List ℕ)
    → size (filled self from_parent s m n).local ≡ length n.1
unfolding count_free
filled-size self from_parent s m n = refl

module _ (self batch_size from_parent : ℕ) (s : Pools) (z : IsSized s)
    (h : batch_size + size s.local ≤ s.local.capacity) (m n : List ℕ × List ℕ)
    (src : length m.0 + from_parent ≡ size s.global)
    (moves : (x : ℕ) → count x m.0 + count x m.1 ≡ count x s.global.fibers + count x s.local.fibers)
    (rest : length n.1 ≡ size s.local + batch_size)
    (creates : (x : ℕ) → count x n.0 + count x m.1 ≡ count x s.created + count x n.1)
    (once : IsOnce s.created s.destroyed → IsOnce n.0 s.destroyed) where
  filled-IsSized : IsSized (filled self from_parent s m n)
  unfolding count_free count_in_use
  filled-IsSized =
      let unlocked = fiber_pool_unlock-fibers (lent self from_parent s m) in
      let lock = fiber_pool_lock-fibers self s.global in
      record {
        local = omega arith;
        global = rw (unlocked.0, unlocked.1, lock.1) (omega (arith, z.global));
        local_fits = z.local_fits;
        global_fits = rw (unlocked.1, lock.1) z.global_fits;
      }

  filled-Conserves : Conserves s [] [] (filled self from_parent s m n)
  unfolding count_free count_in_use
  filled-Conserves =
      let unlocked = fiber_pool_unlock-fibers (lent self from_parent s m) in
      let lock = fiber_pool_lock-fibers self s.global in
      record {
        moved = λ x. rw (unlocked.0) (omega (arith, moves x, creates x));
        once = once;
        local = refl;
        global = rw (unlocked.1, lock.1) refl;
      }

  fiber_pool_allocate_batch-eq :
      (allocate : Allocator)
      → 0 < batch_size
      → (if leb (size s.global) batch_size then size s.global else batch_size) ≡ from_parent
      → move from_parent s.local.capacity s.global.fibers s.local.fibers ≡ some m
      → create allocate s.local.stack_size
          (batch_size - from_parent)
          s.local.capacity
          s.destroyed
          s.created
          m.1
        ≡ some n
      → fiber_pool_allocate_batch allocate self batch_size s ≡ some (filled self from_parent s m n)
  unfolding fiber_pool_allocate_batch
  fiber_pool_allocate_batch-eq allocate positive e m_eq n_eq =
      let lock = fiber_pool_lock-fibers self s.global in
      let enough : fiber_pool_increase_capacity s.local ((batch_size + size s.local) % 2 ^ 32)
          ≡ s.local =
        fiber_pool_increase_capacity_same s.local ((batch_size + size s.local) % 2 ^ 32)
          (omega (arith, z.local_fits)) in
      let some_batch : (batch_size == 0) ≡ false = ground arith in
      rw (some_batch, enough, lock.0, e, m_eq, n_eq) refl

-- With room in the pool, a batch adds as many fibers as it has.
pub fiber_pool_allocate_batch_lem :
    (allocate : Allocator)
    → IsFresh allocate
    → (self batch_size : ℕ) (s : Pools) → 0 < batch_size
    → IsSized s
    → batch_size + size s.local ≤ s.local.capacity
    → (s' : Pools) × (fiber_pool_allocate_batch allocate self batch_size s ≡ some s')
      × IsSized s'
      × Conserves s [] [] s'
      × (size s'.local ≡ size s.local + batch_size)
fiber_pool_allocate_batch_lem allocate fresh self batch_size s positive z h =
    let from_parent = if leb (size s.global) batch_size then size s.global else batch_size in
    let bounds : (from_parent ≤ batch_size) × (from_parent ≤ size s.global) =
      (ground arith, ground arith) in
    let (m, m_eq, m_src, m_dst, m_count) =
      move_lem from_parent s.local.capacity s.global.fibers s.local.fibers (omega (arith, bounds))
        (omega (arith, bounds)) in
    let (n, n_eq, n_dst, n_count, n_once) =
      create_lem allocate fresh s.local.stack_size (batch_size - from_parent) s.local.capacity
        s.destroyed s.created m.1 (omega (arith, bounds)) in
    let rest : length n.1 ≡ size s.local + batch_size = omega (arith, bounds) in
    (
      filled self from_parent s m n,
      fiber_pool_allocate_batch-eq self batch_size from_parent s z h m n m_src m_count rest n_count
          n_once allocate positive refl m_eq n_eq,
      filled-IsSized self batch_size from_parent s z h m n m_src m_count rest n_count n_once,
      filled-Conserves self batch_size from_parent s z h m n m_src m_count rest n_count n_once,
      filled-size self from_parent s m n ∙ rest,
    )
