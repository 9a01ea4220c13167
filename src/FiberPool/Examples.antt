-- ===== src/FiberPool/Examples.antt =====
-- The theorems about the fiber pools at concrete pools.
use cheetah.Base.{
  ℕ, suc, ◌+◌, ◌<◌, ◌≡◌, refl, arith, some, List, [], ◌∷◌, update, true, false, ◌^◌, ◌-◌,
}
use cheetah.Base.Int.{pos, ◌+ℤ◌}
use cheetah.FiberPool.{
  FiberPool, Pools, Allocator, fiber_pool_init, cilk_fiber_allocate_from_pool, size,
  cilk_fiber_deallocate_to_pool, cilk_fiber_pool_per_worker_init, cilk_fiber_pool_terminate,
  fiber_pool_allocate_batch, move, fiber_pool_lock, cilk_fiber_pool_global_init, create,
  fiber_pool_increase_capacity, fiber_pool_unlock, count_free, count_in_use,
}
use cheetah.FiberPool.Moves.{count, IsFresh}
use cheetah.FiberPool.Batches.{IsSized}
use cheetah.FiberPool.Requests.{
  Answers, cilk_fiber_allocate_from_pool-Answers, cilk_fiber_deallocate_to_pool-Answers,
  cilk_fiber_pool_terminate_lem,
}
use cheetah.FiberPool.Workers.{
  seen, pooled, start, left, set_up, Reaches, here, next, IsBalanced, reached-IsBalanced,
  cilk_fiber_allocate_from_pool-unheld,
}

-- Memory beyond all that was ever given.
sum : List ℕ → ℕ
sum [] = 0
sum (f ∷ fs) = f + sum fs

abbrev memory : Allocator
memory = λ stack_size created destroyed. suc (sum created)

count-above : (x : ℕ) (fs : List ℕ) → sum fs < x → count x fs ≡ 0
unfolding sum
count-above x [] h = refl
count-above x (f ∷ fs) h = ground (arith, count-above x fs)

memory-IsFresh : IsFresh memory
memory-IsFresh stack_size created destroyed =
    omega (arith, count-above (suc (sum created)) created (omega arith))

abbrev pool_of : List ℕ → ℕ → FiberPool
pool_of fibers capacity = record {
  mutex_owner = 2 ^ 32 - 1;
  shared = false;
  stack_size = 65536;
  fibers = fibers;
  capacity = capacity;
  in_use = pos 0;
  max_in_use = pos 0;
  max_free = 0;
}

-- A worker's pool that is full, and a global one with room for one fiber more.
abbrev full_pools : Pools
full_pools = record {
  created = 1 ∷ 2 ∷ 3 ∷ 4 ∷ 5 ∷ [];
  destroyed = [];
  global = record (pool_of (5 ∷ []) 2) { shared = true };
  local = pool_of (4 ∷ 3 ∷ 2 ∷ 1 ∷ []) 4;
}

full_pools-IsSized : IsSized full_pools
full_pools-IsSized = record {
  local = omega arith;
  global = omega arith;
  local_fits = omega arith;
  global_fits = omega arith;
}

abbrev bare_pools : Pools
bare_pools = record {
  created = [];
  destroyed = [];
  global = record (pool_of [] 8) { shared = true };
  local = fiber_pool_init 65536 4 false;
}

bare_pools-IsSized : IsSized bare_pools
unfolding fiber_pool_init
bare_pools-IsSized = record {
  local = omega arith;
  global = omega arith;
  local_fits = omega arith;
  global_fits = omega arith;
}

-- Handing a sixth fiber to the full pool sends one to the global pool and destroys one.
cilk_fiber_deallocate_to_pool-Answers_example :
    (s' : Pools) × (cilk_fiber_deallocate_to_pool 0 full_pools (some 6) ≡ some s')
    × Answers full_pools (6 ∷ []) [] s'
cilk_fiber_deallocate_to_pool-Answers_example =
    cilk_fiber_deallocate_to_pool-Answers 0 full_pools (some 6) full_pools-IsSized (omega arith)

cilk_fiber_allocate_from_pool-Answers_example :
    (f : ℕ) × (s' : Pools) × (cilk_fiber_allocate_from_pool memory 0 full_pools ≡ some (f, s'))
    × Answers full_pools [] (f ∷ []) s'
cilk_fiber_allocate_from_pool-Answers_example =
    cilk_fiber_allocate_from_pool-Answers memory memory-IsFresh 0 full_pools full_pools-IsSized
      (omega arith)

cilk_fiber_pool_terminate_lem_example :
    (r : List ℕ × FiberPool) × (cilk_fiber_pool_terminate (9 ∷ []) (pool_of (4 ∷ 3 ∷ []) 4)
      ≡ some r)
    × (size r.1 ≡ 0)
    × ((x : ℕ) → count x r.0 ≡ count x (9 ∷ []) + count x (4 ∷ 3 ∷ []))
cilk_fiber_pool_terminate_lem_example =
    cilk_fiber_pool_terminate_lem (9 ∷ []) (pool_of (4 ∷ 3 ∷ []) 4)

-- Two workers, of which the first has set up its pool.
abbrev prepared : Pools
prepared = record {
  created = 2 ∷ 1 ∷ [];
  destroyed = [];
  global = record (pool_of [] 8) { shared = true };
  local = record (pool_of (2 ∷ 1 ∷ []) 4) { max_free = 2 };
}

one_set_up : Reaches memory 2 4 65536 (start 2 4 65536) (left (start 2 4 65536) 0 prepared [])
unfolding start sum cilk_fiber_pool_per_worker_init fiber_pool_allocate_batch move fiber_pool_lock
    cilk_fiber_pool_global_init fiber_pool_init create fiber_pool_increase_capacity
    fiber_pool_unlock count_free count_in_use ◌+ℤ◌
one_set_up =
    next (start 2 4 65536) _ _ (here _)
      (set_up (start 2 4 65536) 0 prepared (omega arith) refl refl)

reached-IsBalanced_example : IsBalanced memory 2 4 65536 (left (start 2 4 65536) 0 prepared [])
reached-IsBalanced_example =
    reached-IsBalanced memory 2 4 65536 (omega arith) (omega arith) memory-IsFresh
      (left (start 2 4 65536) 0 prepared []) one_set_up

-- The second worker has an empty pool, and allocates.
cilk_fiber_allocate_from_pool-unheld_example :
    (f : ℕ) × (p : Pools) × (cilk_fiber_allocate_from_pool memory 1
        (seen (left (start 2 4 65536) 0 prepared []) 1)
      ≡ some (f, p))
    × (count f [] ≡ 0)
    × (count f p.global.fibers ≡ 0)
    × (pooled f 2 (update (left (start 2 4 65536) 0 prepared []).pools 1 p.local) ≡ 0)
cilk_fiber_allocate_from_pool-unheld_example =
    cilk_fiber_allocate_from_pool-unheld memory 2 4 65536 (omega arith) (omega arith) memory-IsFresh
      (left (start 2 4 65536) 0 prepared []) one_set_up 1 (omega arith)
