-- ===== src/FiberPool.antt =====
-- The pools of fibers of runtime/fiber-pool.cpp: one for each worker and a global one behind
-- them. A fiber is its address. What `calloc` gives a pool is the list of its fibers, the one at
-- `size - 1` first, and `none` stands for an access outside of the array. The global pool's lock
-- makes a batch one step.
mod Moves
mod Batches
mod Requests
mod Workers
mod Examples
use cheetah.Base.{
  ℕ, zero, suc, ◌+◌, ◌-◌, ◌*◌, ◌/◌, ◌%◌, ◌^◌, Bool, true, false, Option, none, some, ltb, leb, ◌==◌,
  if◌then◌else◌, ◌>>=◌, List, [], ◌∷◌, length,
}
use cheetah.Base.Int.{ℤ, pos, ltb_ℤ, ◌+ℤ◌, ◌-ℤ◌}

abbrev pub no_worker : ℕ
no_worker = 2 ^ 32 - 1

abbrev pub batch_fraction : ℕ
batch_fraction = 2

pub record FiberPool : Type 0 where
  pub mutex_owner : ℕ
  pub shared : Bool
  pub stack_size : ℕ
  pub fibers : List ℕ
  pub capacity : ℕ
  pub in_use : ℤ
  pub max_in_use : ℤ
  pub max_free : ℕ

-- A worker's pool, the global pool, and the fibers that were ever created and destroyed.
pub record Pools : Type 0 where
  pub created : List ℕ
  pub destroyed : List ℕ
  pub global : FiberPool
  pub local : FiberPool

-- `cilk_fiber_allocate`, which gives a fiber with a stack of the size that comes first, in memory
-- that the operating system chooses by what was created and destroyed before.
abbrev pub Allocator : Type 0
Allocator = ℕ → List ℕ → List ℕ → ℕ

abbrev pub size : FiberPool → ℕ
size pool = length pool.fibers

-- `a - b` on 32-bit words
unfoldable pub sub_u32 : ℕ → ℕ → ℕ
sub_u32 a b = (a + 2 ^ 32 - b) % 2 ^ 32

unfoldable pub fiber_pool_init : ℕ → ℕ → Bool → FiberPool
fiber_pool_init stacksize bufsize is_shared = record {
  mutex_owner = no_worker;
  shared = is_shared;
  stack_size = stacksize;
  fibers = [];
  capacity = bufsize;
  in_use = pos 0;
  max_in_use = pos 0;
  max_free = 0;
}

unfoldable pub fiber_pool_lock : ℕ → FiberPool → FiberPool
fiber_pool_lock self pool = if pool.shared then record pool { mutex_owner = self } else pool

unfoldable pub fiber_pool_unlock : FiberPool → FiberPool
fiber_pool_unlock pool = if pool.shared then record pool { mutex_owner = no_worker } else pool

unfoldable pub fiber_pool_increase_capacity : FiberPool → ℕ → FiberPool
fiber_pool_increase_capacity pool new_size =
    if ltb pool.capacity new_size then record pool { capacity = new_size } else pool

-- `in_use += n`, with its high watermark
unfoldable pub count_in_use : FiberPool → ℕ → FiberPool
count_in_use pool n =
    let used = pool.in_use +ℤ pos n in
    record pool {
      in_use = used;
      max_in_use = if ltb_ℤ pool.max_in_use used then used else pool.max_in_use;
    }

unfoldable pub count_free : FiberPool → FiberPool
count_free pool = record pool {
  max_free = if ltb pool.max_free (size pool) then size pool else pool.max_free;
}

-- The loops that move `n` fibers from a pool to one of the capacity given.
unfoldable pub move : ℕ → ℕ → List ℕ → List ℕ → Option (List ℕ × List ℕ)
move zero capacity src dst = some (src, dst)
move (suc n) capacity [] dst = none
move (suc n) capacity (f ∷ src) dst =
    let rest = move n capacity src (f ∷ dst) in if ltb (length dst) capacity then rest else none

-- The loop that creates `n` fibers into a pool: what is created then, and the pool.
unfoldable pub create : Allocator → ℕ → ℕ → ℕ → List ℕ → List ℕ → List ℕ → Option (List ℕ × List ℕ)
create allocate stack_size zero capacity destroyed created dst = some (created, dst)
create allocate stack_size (suc n) capacity destroyed created dst =
    let f = allocate stack_size created destroyed in
    let rest = create allocate stack_size n capacity destroyed (f ∷ created) (f ∷ dst) in
    if ltb (length dst) capacity then rest else none

-- The loops that destroy `n` fibers of a pool: what is destroyed then, and the pool.
unfoldable pub destroy : ℕ → List ℕ → List ℕ → Option (List ℕ × List ℕ)
destroy zero destroyed src = some (destroyed, src)
destroy (suc n) destroyed [] = none
destroy (suc n) destroyed (f ∷ src) = destroy n (f ∷ destroyed) src

unfoldable pub fiber_pool_allocate_batch : Allocator → ℕ → ℕ → Pools → Option Pools
fiber_pool_allocate_batch allocate self batch_size s =
    let pool = fiber_pool_increase_capacity s.local ((batch_size + size s.local) % 2 ^ 32) in
    let parent = fiber_pool_lock self s.global in
    let from_parent = if leb (size parent) batch_size then size parent else batch_size in
    if batch_size == 0
    then some s
    else move from_parent pool.capacity parent.fibers pool.fibers >>= (λ m.
      create allocate pool.stack_size (batch_size - from_parent) pool.capacity s.destroyed s.created
        m.1
      >>= (λ n. some (record {
        created = n.0;
        destroyed = s.destroyed;
        global = fiber_pool_unlock (count_in_use (record parent { fibers = m.0 }) from_parent);
        local = count_free (record pool { fibers = n.1 });
      })))

unfoldable pub fiber_pool_free_batch : ℕ → ℕ → Pools → Option Pools
fiber_pool_free_batch self batch_size s =
    let parent = fiber_pool_lock self s.global in
    let room = sub_u32 parent.capacity (size parent) in
    let to_parent = if leb batch_size room then batch_size else room in
    move to_parent parent.capacity s.local.fibers parent.fibers >>= (λ m.
      destroy (batch_size - to_parent) s.destroyed m.0 >>= (λ n. some (record {
        created = s.created;
        destroyed = n.0;
        global =
            fiber_pool_unlock (
              count_free (record parent { fibers = m.1; in_use = parent.in_use -ℤ pos to_parent }));
        local = record s.local { fibers = n.1 };
      })))

unfoldable pub cilk_fiber_pool_global_init : ℕ → ℕ → ℕ → FiberPool
cilk_fiber_pool_global_init nproc fiber_pool_cap stacksize =
    fiber_pool_init stacksize (nproc * fiber_pool_cap % 2 ^ 32) true

unfoldable pub cilk_fiber_pool_per_worker_init :
    Allocator → ℕ → ℕ → ℕ → FiberPool → List ℕ → List ℕ → Option Pools
cilk_fiber_pool_per_worker_init allocate self fiber_pool_cap stacksize global created destroyed =
    fiber_pool_allocate_batch allocate self (fiber_pool_cap / batch_fraction) (record {
      created = created;
      destroyed = destroyed;
      global = global;
      local = fiber_pool_init stacksize fiber_pool_cap false;
    })

-- The last fiber of the pool is taken, cleared and counted.
unfoldable pub hand_out : Pools → List ℕ → Option (ℕ × Pools)
hand_out s [] = none
hand_out s (f ∷ rest) =
    some (f, record s { local = count_in_use (record s.local { fibers = rest }) 1 })

unfoldable pub cilk_fiber_allocate_from_pool : Allocator → ℕ → Pools → Option (ℕ × Pools)
cilk_fiber_allocate_from_pool allocate self s =
    let f = allocate s.local.stack_size s.created s.destroyed in
    if s.local.capacity == 0
    then some (f, record s { created = f ∷ s.created })
    else (if size s.local == 0
        then fiber_pool_allocate_batch allocate self (s.local.capacity / batch_fraction) s
        else some s)
      >>= (λ s'. hand_out s' s'.local.fibers)

-- A fiber is put into the pool, and counted.
abbrev pub put : Pools → ℕ → Pools
put s f = record s {
  local =
      count_free (record s.local { fibers = f ∷ s.local.fibers; in_use = s.local.in_use -ℤ pos 1 });
}

-- It is, if there is one.
unfoldable pub take_back : Pools → Option ℕ → Option Pools
take_back s none = some s
take_back s (some f) = if ltb (size s.local) s.local.capacity then some (put s f) else none

-- A fiber is destroyed, if there is one.
unfoldable pub cilk_fiber_deallocate : Pools → Option ℕ → Pools
cilk_fiber_deallocate s none = s
cilk_fiber_deallocate s (some f) = record s { destroyed = f ∷ s.destroyed }

unfoldable pub cilk_fiber_deallocate_to_pool : ℕ → Pools → Option ℕ → Option Pools
cilk_fiber_deallocate_to_pool self s fiber_to_return =
    if s.local.capacity == 0
    then some (cilk_fiber_deallocate s fiber_to_return)
    else (if size s.local == s.local.capacity
        then fiber_pool_free_batch self (s.local.capacity / batch_fraction) s
        else some s)
      >>= (λ s'. take_back s' fiber_to_return)

-- The loops of the two `terminate` functions, which empty a pool.
unfoldable pub cilk_fiber_pool_terminate : List ℕ → FiberPool → Option (List ℕ × FiberPool)
cilk_fiber_pool_terminate destroyed pool =
    destroy (size pool) destroyed pool.fibers >>= (λ n. some (n.0, record pool { fibers = n.1 }))
