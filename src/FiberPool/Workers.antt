-- ===== src/FiberPool/Workers.antt =====
-- All workers with their pools and the global pool: each step is one request of one worker.
use cheetah.Base.{
  ℕ, zero, suc, ◌+◌, ◌≤◌, ◌<◌, ◌≡◌, ◌≢◌, refl, arith, some, List, [], ◌∷◌, ◌^◌, update, ℕ_discrete,
  update_self, update_ne, false, sym, ap, ◌∙◌, some_eq,
}
use cheetah.FiberPool.{
  FiberPool, Pools, Allocator, fiber_pool_init, cilk_fiber_pool_per_worker_init,
  cilk_fiber_allocate_from_pool, cilk_fiber_deallocate_to_pool, cilk_fiber_pool_global_init,
}
use cheetah.FiberPool.Moves.{count, IsFresh, IsOnce}
use cheetah.FiberPool.Batches.{IsSized}
use cheetah.FiberPool.Requests.{
  Answers, cilk_fiber_allocate_from_pool-Answers, cilk_fiber_deallocate_to_pool-Answers,
  cilk_fiber_pool_per_worker_init-Answers,
}

-- `held` are the fibers that were handed out and not handed back.
pub record Workers : Type 0 where
  pub created : List ℕ
  pub destroyed : List ℕ
  pub global : FiberPool
  pub pools : ℕ → FiberPool
  pub held : List ℕ

-- What worker `w` sees, and what its request leaves.
abbrev pub seen : Workers → ℕ → Pools
seen s w = record {
  created = s.created;
  destroyed = s.destroyed;
  global = s.global;
  local = s.pools w;
}

abbrev pub left : Workers → ℕ → Pools → List ℕ → Workers
left s w p held = record {
  created = p.created;
  destroyed = p.destroyed;
  global = p.global;
  pools = update s.pools w p.local;
  held = held;
}

-- How often `x` lies in the pools of the first `n` workers.
unfoldable pub pooled : ℕ → ℕ → (ℕ → FiberPool) → ℕ
pooled x zero pools = 0
pooled x (suc n) pools = pooled x n pools + count x (pools n).fibers

pooled-update_of_le :
    (x n w : ℕ) (pools : ℕ → FiberPool) (p : FiberPool)
    → n ≤ w
    → pooled x n (update pools w p) ≡ pooled x n pools
unfolding pooled
pooled-update_of_le x zero w pools p h = refl
pooled-update_of_le x (suc n) w pools p h =
    let rest = pooled-update_of_le x n w pools p (omega arith) in
    rw (update_ne pools w n p (omega arith), rest) refl

pooled-update :
    (x n w : ℕ) (pools : ℕ → FiberPool) (p : FiberPool)
    → w < n
    → pooled x n (update pools w p) + count x (pools w).fibers ≡ pooled x n pools + count x p.fibers
unfolding pooled
pooled-update x zero w pools p h = absurd (omega arith)
pooled-update x (suc n) w pools p h = elim (ℕ_discrete w n) [
  | yes e ↦
      let rest = pooled-update_of_le x n w pools p (omega arith) in
      let here : update pools w p n ≡ p = rw e (update_self pools n p) in
      rw (rest, here, e) (omega arith)
  | no e ↦
      let rest = pooled-update x n w pools p (omega arith) in
      rw (update_ne pools w n p e) (omega (arith, rest))
]

pooled-bare :
    (x n stacksize fiber_pool_cap : ℕ)
    → pooled x n (λ w. fiber_pool_init stacksize fiber_pool_cap false) ≡ 0
unfolding pooled fiber_pool_init
pooled-bare x zero stacksize fiber_pool_cap = refl
pooled-bare x (suc n) stacksize fiber_pool_cap =
    omega (arith, pooled-bare x n stacksize fiber_pool_cap)

count_own : (x : ℕ) (fs : List ℕ) → count x (x ∷ fs) ≡ count x fs + 1
count_own x fs = ground arith

-- Before a worker does anything: `n` workers, and pools without fibers.
unfoldable pub start : ℕ → ℕ → ℕ → Workers
start n fiber_pool_cap stacksize = record {
  created = [];
  destroyed = [];
  global = cilk_fiber_pool_global_init n fiber_pool_cap stacksize;
  pools = λ w. fiber_pool_init stacksize fiber_pool_cap false;
  held = [];
}

module _ (allocate : Allocator) (n fiber_pool_cap stacksize : ℕ) where
  -- A worker sets up its pool, allocates a fiber, or hands one back that was handed out.
  pub data Step : Workers → Workers → Type 0 where
    set_up :
        (s : Workers) (w : ℕ) (p : Pools)
        → w < n
        → s.pools w ≡ fiber_pool_init stacksize fiber_pool_cap false
        → cilk_fiber_pool_per_worker_init allocate w fiber_pool_cap stacksize s.global s.created
            s.destroyed
          ≡ some p
        → Step s (left s w p s.held)
    allocated :
        (s : Workers) (w f : ℕ) (p : Pools)
        → w < n
        → cilk_fiber_allocate_from_pool allocate w (seen s w) ≡ some (f, p)
        → Step s (left s w p (f ∷ s.held))
    handed_back :
        (s : Workers) (w f : ℕ) (p : Pools) (held : List ℕ)
        → w < n
        → ((x : ℕ) → count x s.held ≡ count x (f ∷ held))
        → cilk_fiber_deallocate_to_pool w (seen s w) (some f) ≡ some p
        → Step s (left s w p held)

  pub data Reaches : Workers → Workers → Type 0 where
    here : (s : Workers) → Reaches s s
    next : (s t r : Workers) → Reaches s t → Step t r → Reaches s r

  -- Every fiber that exists is handed out or lies in a pool, and no pool is too full.
  pub record IsBalanced (s : Workers) : Type 0 where
    pub sized : (w : ℕ) → w < n → IsSized (seen s w)
    pub capacity : (w : ℕ) → w < n → (s.pools w).capacity ≢ 1
    pub balance :
        (x : ℕ)
        → count x s.created
          ≡ count x s.destroyed + count x s.held + count x s.global.fibers + pooled x n s.pools
    pub once : IsOnce s.created s.destroyed

  left-IsBalanced :
      (s : Workers) (w : ℕ) (p : Pools) (given taken held : List ℕ)
      → w < n
      → IsBalanced s
      → Answers (seen s w) given taken p
      → ((x : ℕ) → count x s.held + count x taken ≡ count x held + count x given)
      → IsBalanced (left s w p held)
  left-IsBalanced s w p given taken held l b (z, c) h = record {
    sized = λ v k. elim (ℕ_discrete w v) [
      | yes e ↦
          let here : update s.pools w p.local v ≡ p.local = rw e (update_self s.pools v p.local) in
          rw here (record {
            local = z.local;
            global = z.global;
            local_fits = z.local_fits;
            global_fits = z.global_fits;
          })
      | no e ↦
          let o = b.sized v k in
          rw (update_ne s.pools w v p.local e) (record {
            local = o.local;
            global = z.global;
            local_fits = o.local_fits;
            global_fits = z.global_fits;
          })
    ];
    capacity = λ v k. elim (ℕ_discrete w v) [
      | yes e ↦
          let here : update s.pools w p.local v ≡ p.local = rw e (update_self s.pools v p.local) in
          let kept = b.capacity w l in rw here (omega (arith, c.local, kept))
      | no e ↦ rw (update_ne s.pools w v p.local e) (b.capacity v k)
    ];
    balance =
        λ x. omega (arith, b.balance x, c.moved x, h x, pooled-update x n w s.pools p.local l);
    once = c.once b.once;
  }

  module _ (fresh : IsFresh allocate) where
    -- Each step keeps the balance.
    pub Step-IsBalanced : {s r : Workers} → Step s r → IsBalanced s → IsBalanced r
    Step-IsBalanced (allocated s w f p l e) b =
        let kept : (x : ℕ) → count x s.held + count x (f ∷ []) ≡ count x (f ∷ s.held) + count x [] =
          λ x. omega arith in
        let (g, q, q_eq, ok) =
          cilk_fiber_allocate_from_pool-Answers allocate fresh w (seen s w) (b.sized w l)
            (b.capacity w l) in
        let same : (f, p) ≡ (g, q) = some_eq (sym e ∙ q_eq) in
        let same_f : f ≡ g = ap (λ (r : ℕ × Pools). r.0) same in
        let same_p : p ≡ q = ap (λ (r : ℕ × Pools). r.1) same in
        left-IsBalanced s w p [] (f ∷ []) (f ∷ s.held) l b (rw (same_p, same_f) ok) kept
    Step-IsBalanced (set_up s w p l e h) b =
        let (q, q_eq, k, ok) =
          cilk_fiber_pool_per_worker_init-Answers allocate fresh w fiber_pool_cap stacksize
            (seen s w) (b.sized w l) e in
        let same : p ≡ q = some_eq (sym h ∙ q_eq) in
        left-IsBalanced s w p [] [] s.held l b (rw same ok) (λ x. omega arith)
    Step-IsBalanced (handed_back s w f p held l h e) b =
        let (q, q_eq, ok) =
          cilk_fiber_deallocate_to_pool-Answers w (seen s w) (some f) (b.sized w l)
            (b.capacity w l) in
        let same : p ≡ q = some_eq (sym e ∙ q_eq) in
        left-IsBalanced s w p (f ∷ []) [] held l b (rw same ok) (λ x. omega (arith, h x))

    Reaches-IsBalanced : {s r : Workers} → Reaches s r → IsBalanced s → IsBalanced r
    Reaches-IsBalanced (here s) b = b
    Reaches-IsBalanced (next s t r h k) b = Step-IsBalanced k (Reaches-IsBalanced h b)

  module _ (fits : fiber_pool_cap < 2 ^ 32) (no_one : fiber_pool_cap ≢ 1) where
    start-IsBalanced : IsBalanced (start n fiber_pool_cap stacksize)
    unfolding start fiber_pool_init cilk_fiber_pool_global_init
    start-IsBalanced = record {
      sized = λ w k. record {
        local = omega arith;
        global = omega arith;
        local_fits = fits;
        global_fits = omega arith;
      };
      capacity = λ w k. no_one;
      balance = λ x.
          let bare : pooled x n (start n fiber_pool_cap stacksize).pools ≡ 0 =
            pooled-bare x n stacksize fiber_pool_cap in
          omega (arith, bare);
      once = λ x. omega arith;
    }

    module _ (fresh : IsFresh allocate) (s : Workers)
        (reaches : Reaches (start n fiber_pool_cap stacksize) s) where
      -- With a capacity of less than 2 ^ 32 other than one, and an allocator that gives no memory in
      -- use, in every state that the workers' requests lead to from the start, each fiber was
      -- destroyed, is handed out or lies in a pool just as often as it was created, none is created
      -- twice before it is destroyed, and no pool is fuller than its capacity.
      pub reached-IsBalanced : IsBalanced s
      reached-IsBalanced = Reaches-IsBalanced fresh reaches start-IsBalanced

      -- With a capacity of less than 2 ^ 32 other than one, and an allocator that gives no memory in
      -- use, in every state that the workers' requests lead to from the start, a worker's request for
      -- a fiber is answered, by one that is not handed out already and that lies in no pool
      -- afterwards.
      pub cilk_fiber_allocate_from_pool-unheld :
          (w : ℕ)
          → w < n
          → (f : ℕ) × (p : Pools) × (cilk_fiber_allocate_from_pool allocate w (seen s w)
              ≡ some (f, p))
            × (count f s.held ≡ 0)
            × (count f p.global.fibers ≡ 0)
            × (pooled f n (update s.pools w p.local) ≡ 0)
      cilk_fiber_allocate_from_pool-unheld w l =
          let b = reached-IsBalanced in
          let (f, p, e, ok) =
            cilk_fiber_allocate_from_pool-Answers allocate fresh w (seen s w) (b.sized w l)
              (b.capacity w l) in
          let b' = Step-IsBalanced fresh (allocated s w f p l e) b in
          let all : count f p.created
              ≡ count f p.destroyed
                + count f (f ∷ s.held)
                + count f p.global.fibers
                + pooled f n (update s.pools w p.local) =
            b'.balance f in
          let one : count f p.created ≤ count f p.destroyed + 1 = b'.once f in
          let own = count_own f s.held in (f, p, e, omega arith, omega arith, omega arith)
