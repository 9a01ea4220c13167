-- ===== src/FiberPool/Requests.antt =====
-- A worker's requests to its pool: to allocate a fiber, to hand one back, and to be set up and
-- emptied.
use cheetah.Base.{
  ℕ, suc, ◌+◌, ◌/◌, ◌≤◌, ◌<◌, ◌≡◌, ◌≢◌, refl, arith, Option, some, none, List, [], ◌∷◌, length,
  ◌==◌, ℕ_discrete, true, false, ltb,
}
use cheetah.FiberPool.{
  FiberPool, Pools, Allocator, size, count_in_use, count_free, hand_out, put, take_back,
  cilk_fiber_deallocate, cilk_fiber_allocate_from_pool, cilk_fiber_deallocate_to_pool,
  cilk_fiber_pool_terminate, fiber_pool_init, fiber_pool_allocate_batch,
  cilk_fiber_pool_per_worker_init,
}
use cheetah.FiberPool.Moves.{count, IsFresh, create-IsOnce, destroy_lem}
use cheetah.FiberPool.Batches.{
  IsSized, Conserves, idle, fiber_pool_allocate_batch_lem, fiber_pool_free_batch_lem,
}

-- The fiber that a request is about, if there is one.
abbrev pub fibers_of : Option ℕ → List ℕ
fibers_of none = []
fibers_of (some f) = f ∷ []

-- The pools after a request that leads from `s`.
abbrev pub Answers : Pools → List ℕ → List ℕ → Pools → Type 0
Answers s given taken s' = IsSized s' × Conserves s given taken s'

hand_out_lem :
    (s s' : Pools) (fibers : List ℕ)
    → s'.local.fibers ≡ fibers
    → 0 < length fibers
    → IsSized s'
    → Conserves s [] [] s'
    → (f : ℕ) × (r : Pools) × (hand_out s' fibers ≡ some (f, r)) × Answers s [] (f ∷ []) r
unfolding hand_out count_in_use
hand_out_lem s s' [] e h z c = absurd (omega arith)
hand_out_lem s s' (f ∷ rest) e h z c =
    let sized : suc (length rest) ≤ s'.local.capacity = rw e at z.local in
    let moved : (x : ℕ)
        → count x s'.created + idle x s + 0
          ≡ count x s.created
            + (count x s'.destroyed + count x s'.global.fibers + count x (f ∷ rest))
            + 0 =
      λ x. rw e at c.moved x in
    (
      f,
      _,
      refl,
      (
        record {
          local = omega arith;
          global = z.global;
          local_fits = z.local_fits;
          global_fits = z.global_fits;
        },
        record {
          moved = λ x. omega (arith, moved x);
          once = c.once;
          local = c.local;
          global = c.global;
        },
      ),
    )

-- With an allocator that gives no memory in use, pools no fuller than their capacities, which are
-- below 2 ^ 32, and a worker's pool of a capacity other than one, a request for a fiber is answered
-- without an access outside of an array. The pools stay so, with their capacities, and each fiber
-- was destroyed, lies in a pool or is in use as often as it was created, as before, but for the one
-- handed out; none is created twice before it is destroyed, if none was.
pub cilk_fiber_allocate_from_pool-Answers :
    (allocate : Allocator)
    → IsFresh allocate
    → (self : ℕ) (s : Pools) → IsSized s
    → s.local.capacity ≢ 1
    → (f : ℕ) × (s' : Pools) × (cilk_fiber_allocate_from_pool allocate self s ≡ some (f, s'))
      × Answers s [] (f ∷ []) s'
unfolding cilk_fiber_allocate_from_pool
cilk_fiber_allocate_from_pool-Answers allocate fresh self s z h =
    elim (ℕ_discrete s.local.capacity 0) [
      | yes e ↦
          let no_pool : (s.local.capacity == 0) ≡ true = ground arith in
          let f = allocate s.local.stack_size s.created s.destroyed in
          (
            f,
            record s { created = f ∷ s.created },
            rw no_pool refl,
            (
              record {
                local = z.local;
                global = z.global;
                local_fits = z.local_fits;
                global_fits = z.global_fits;
              },
              record {
                moved = λ x. omega arith;
                once = create-IsOnce allocate fresh s.local.stack_size s.created s.destroyed;
                local = refl;
                global = refl;
              },
            ),
          )
      | no e ↦
          let a_pool : (s.local.capacity == 0) ≡ false = ground arith in
          elim (ℕ_discrete (size s.local) 0) [
            | yes empty ↦
                let drained : (size s.local == 0) ≡ true = ground arith in
                let (s', s'_eq, z', c', l') =
                  fiber_pool_allocate_batch_lem allocate fresh self (s.local.capacity / 2) s
                    (omega arith) z (omega arith) in
                let (f, r, r_eq, r_ok) =
                  hand_out_lem s s' s'.local.fibers refl (omega arith) z' c' in
                (f, r, rw (a_pool, drained, s'_eq) r_eq, r_ok)
            | no left ↦
                let stocked : (size s.local == 0) ≡ false = ground arith in
                let (f, r, r_eq, r_ok) =
                  hand_out_lem s s s.local.fibers refl (omega arith) z
                    (record { moved = λ x. refl; once = λ o. o; local = refl; global = refl }) in
                (f, r, rw (a_pool, stocked) r_eq, r_ok)
          ]
    ]

take_back_lem :
    (s s' : Pools) (fiber : Option ℕ)
    → size s'.local < s'.local.capacity
    → IsSized s'
    → Conserves s [] [] s'
    → (r : Pools) × (take_back s' fiber ≡ some r) × Answers s (fibers_of fiber) [] r
unfolding take_back count_free
take_back_lem s s' none h z c = (s', refl, (z, c))
take_back_lem s s' (some f) h z c =
    let room : ltb (size s'.local) s'.local.capacity ≡ true = ground arith in
    (
      put s' f,
      rw room refl,
      (
        record {
          local = omega arith;
          global = z.global;
          local_fits = z.local_fits;
          global_fits = z.global_fits;
        },
        record {
          moved = λ x. omega (arith, c.moved x);
          once = c.once;
          local = c.local;
          global = c.global;
        },
      ),
    )

cilk_fiber_deallocate-Answers :
    (s : Pools) (fiber : Option ℕ)
    → IsSized s
    → Answers s (fibers_of fiber) [] (cilk_fiber_deallocate s fiber)
unfolding cilk_fiber_deallocate
cilk_fiber_deallocate-Answers s none z =
    (z, record { moved = λ x. refl; once = λ o. o; local = refl; global = refl })
cilk_fiber_deallocate-Answers s (some f) z = (
  record {
    local = z.local;
    global = z.global;
    local_fits = z.local_fits;
    global_fits = z.global_fits;
  },
  record {
    moved = λ x. omega arith;
    once = λ o x. omega (arith, o x);
    local = refl;
    global = refl;
  },
)

-- With pools no fuller than their capacities, which are below 2 ^ 32, and a worker's pool of a
-- capacity other than one, a fiber that is handed back, or none, is taken without an access outside
-- of an array, also by a pool that is full. The pools stay so, with their capacities, and but for
-- that fiber, what was created and is neither destroyed nor in a pool stays the same; none is created
-- twice before it is destroyed, if none was.
pub cilk_fiber_deallocate_to_pool-Answers :
    (self : ℕ) (s : Pools) (fiber : Option ℕ)
    → IsSized s
    → s.local.capacity ≢ 1
    → (s' : Pools) × (cilk_fiber_deallocate_to_pool self s fiber ≡ some s')
      × Answers s (fibers_of fiber) [] s'
unfolding cilk_fiber_deallocate_to_pool
cilk_fiber_deallocate_to_pool-Answers self s fiber z h = elim (ℕ_discrete s.local.capacity 0) [
  | yes e ↦
      let no_pool : (s.local.capacity == 0) ≡ true = ground arith in
      (cilk_fiber_deallocate s fiber, rw no_pool refl, cilk_fiber_deallocate-Answers s fiber z)
  | no e ↦
      let a_pool : (s.local.capacity == 0) ≡ false = ground arith in
      elim (ℕ_discrete (size s.local) s.local.capacity) [
        | yes full ↦
            let filled : (size s.local == s.local.capacity) ≡ true = ground arith in
            let (s', s'_eq, z', c', l') =
              fiber_pool_free_batch_lem self (s.local.capacity / 2) s z (omega arith) in
            let (r, r_eq, r_ok) = take_back_lem s s' fiber (omega (arith, c'.local)) z' c' in
            (r, rw (a_pool, filled, s'_eq) r_eq, r_ok)
        | no left ↦
            let roomy : (size s.local == s.local.capacity) ≡ false = ground arith in
            let (r, r_eq, r_ok) =
              take_back_lem s s fiber (omega (arith, z.local)) z
                (record { moved = λ x. refl; once = λ o. o; local = refl; global = refl }) in
            (r, rw (a_pool, roomy) r_eq, r_ok)
      ]
]

emptied : (x : ℕ) {a b : ℕ} (fibers : List ℕ) → length fibers ≡ 0 → a + count x fibers ≡ b → a ≡ b
emptied x [] h e = omega arith
emptied x (f ∷ fs) h e = absurd (omega arith)

-- A pool is emptied without an access outside of its array, and each of its fibers is destroyed.
pub cilk_fiber_pool_terminate_lem :
    (destroyed : List ℕ) (pool : FiberPool)
    → (r : List ℕ × FiberPool) × (cilk_fiber_pool_terminate destroyed pool ≡ some r)
      × (size r.1 ≡ 0)
      × ((x : ℕ) → count x r.0 ≡ count x destroyed + count x pool.fibers)
unfolding cilk_fiber_pool_terminate
cilk_fiber_pool_terminate_lem destroyed pool =
    let (n, e, l, c, more) = destroy_lem (size pool) destroyed pool.fibers (omega arith) in
    let none_left : length n.1 ≡ 0 = omega arith in
    ((n.0, record pool { fibers = n.1 }), rw e refl, none_left, λ x. emptied x n.1 none_left (c x))

bare_init :
    (stacksize fiber_pool_cap : ℕ)
    → (size (fiber_pool_init stacksize fiber_pool_cap false) ≡ 0)
      × ((fiber_pool_init stacksize fiber_pool_cap false).capacity ≡ fiber_pool_cap)
unfolding fiber_pool_init
bare_init stacksize fiber_pool_cap = (refl, refl)

fiber_pool_allocate_batch_none :
    (allocate : Allocator) (self : ℕ) (s : Pools)
    → fiber_pool_allocate_batch allocate self 0 s ≡ some s
unfolding fiber_pool_allocate_batch
fiber_pool_allocate_batch_none allocate self s = refl

-- With an allocator that gives no memory in use and pools no fuller than their capacities, which
-- are below 2 ^ 32, the set-up of a worker whose pool is still as `fiber_pool_init` leaves it puts
-- half as many fibers into the pool as its capacity, rounded down, without an access outside of an
-- array. The pools stay so, with their capacities, what was created and is neither destroyed nor in
-- a pool stays the same, and none is created twice before it is destroyed, if none was.
pub cilk_fiber_pool_per_worker_init-Answers :
    (allocate : Allocator)
    → IsFresh allocate
    → (self fiber_pool_cap stacksize : ℕ) (s : Pools) → IsSized s
    → s.local ≡ fiber_pool_init stacksize fiber_pool_cap false
    → (s' : Pools) × (cilk_fiber_pool_per_worker_init allocate self fiber_pool_cap stacksize
          s.global s.created s.destroyed
        ≡ some s')
      × (size s'.local ≡ fiber_pool_cap / 2)
      × Answers s [] [] s'
unfolding cilk_fiber_pool_per_worker_init
cilk_fiber_pool_per_worker_init-Answers allocate fresh self fiber_pool_cap stacksize s z e =
    let bare : (size s.local ≡ 0) × (s.local.capacity ≡ fiber_pool_cap) =
      rw e (bare_init stacksize fiber_pool_cap) in
    elim (ℕ_discrete (fiber_pool_cap / 2) 0) [
      | yes none_yet ↦ (
        s,
        rw (none_yet, ← e) (fiber_pool_allocate_batch_none allocate self s),
        omega (arith, bare),
        (z, record { moved = λ x. refl; once = λ o. o; local = refl; global = refl }),
      )
      | no some_batch ↦
          let (s', s'_eq, z', c', l') =
            fiber_pool_allocate_batch_lem allocate fresh self (fiber_pool_cap / 2) s (omega arith) z
              (omega (arith, bare)) in
          (s', rw (← e) s'_eq, omega (arith, bare), (z', c'))
    ]
