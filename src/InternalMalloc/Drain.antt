-- ===== src/InternalMalloc/Drain.antt =====
-- `cilk_internal_malloc_per_worker_terminate`: a worker that ends returns all its blocks.
use cheetah.Base.{
  ℕ, zero, suc, ◌+◌, ◌/◌, ◌≤◌, ◌<◌, ◌≡◌, ◌≢◌, refl, arith, update_ne, length, List, [], ◌∷◌, ap,
  ◌∙◌, some, ℕ_discrete, true,
}
use cheetah.InternalMalloc.{
  ImBucket, ImDesc, ImGlobal, num_buckets, im_num_tags, bucket_sizes, bucket_capacity,
}
use cheetah.InternalMalloc.Blocks.{IsListed}
use cheetah.InternalMalloc.Requests.{
  Conserves, nothing, Conserves-refl, Conserves-trans, im_free_batch-Conserves,
  bucket_capacity_bounds,
}
use cheetah.InternalMalloc.Release.{some_freed}
use cheetah.InternalMalloc.Space.{IsPool}
use cheetah.InternalMalloc.Workers.{
  im_free_batch, drain, drain_all, assert_global_pool, assert_bucket, hand_over,
  cilk_internal_malloc_per_worker_terminate,
}

-- A batch touches no other bucket.
im_free_batch-other :
    (g : ImGlobal) (l : ImDesc) (size k j : ℕ)
    → k ≢ j
    → (im_free_batch g l size k).1.buckets j ≡ l.buckets j
unfolding im_free_batch
im_free_batch-other g l size k j h = update_ne l.buckets k j _ h

im_free_batch-counts :
    (g : ImGlobal) (l : ImDesc) (size k : ℕ)
    → (im_free_batch g l size k).1.num_malloc ≡ l.num_malloc
unfolding im_free_batch
im_free_batch-counts g l size k = refl

-- A free list of at most `fuel` blocks is emptied, the others stay.
pub drain-Conserves :
    (k : ℕ)
    → k < num_buckets
    → (fuel : ℕ) (blocks : List ℕ) (g : ImGlobal) (l : ImDesc) → IsPool g.im_pool
    → IsListed g.im_desc
    → IsListed l
    → (l.buckets k).free_list ≡ blocks
    → length blocks ≤ fuel
    → (g' : ImGlobal) × (l' : ImDesc) × (drain (bucket_sizes k) k fuel blocks g l ≡ some (g', l'))
      × Conserves g l nothing nothing g' l'
      × (g'.im_pool ≡ g.im_pool)
      × ((l'.buckets k).free_list ≡ [])
      × ((j : ℕ) → k ≢ j → l'.buckets j ≡ l.buckets j)
unfolding drain
drain-Conserves k h fuel [] g l pool right local_right e enough =
    (g, l, refl, Conserves-refl g l pool right local_right, refl, e, λ j n. refl)
drain-Conserves k h zero (p ∷ rest) g l pool right local_right e enough = absurd (omega arith)
drain-Conserves k h (suc fuel) (p ∷ rest) g l pool right local_right e enough =
    let (c, (m, shorter, full, all), limit, same) =
      im_free_batch-Conserves g l k h pool right local_right in
    let bounds = bucket_capacity_bounds k in
    let len : length (l.buckets k).free_list ≡ suc (length rest) = ap length e in
    let fewer =
      some_freed (bucket_capacity k / 2) (length (l.buckets k).free_list) m (omega (arith, bounds))
        (omega arith) full all in
    let r = im_free_batch g l (bucket_sizes k) k in
    let (g', l', run, d, same', empty, others) =
      drain-Conserves k h fuel (r.1.buckets k).free_list r.0 r.1 c.pool c.global_listed
        c.local_listed refl (omega (arith, shorter)) in
    (
      g',
      l',
      run,
      Conserves-trans same c d,
      same' ∙ same,
      empty,
      λ j n. others j n ∙ im_free_batch-other g l (bucket_sizes k) k j n,
    )

-- So are `n` of them, from `i` on.
drain_all-Conserves :
    (fuel n i : ℕ) (g : ImGlobal) (l : ImDesc)
    → i + n ≤ num_buckets
    → IsPool g.im_pool
    → IsListed g.im_desc
    → IsListed l
    → ((k : ℕ) → k < num_buckets → length (l.buckets k).free_list ≤ fuel)
    → ((k : ℕ) → i ≤ k → k < num_buckets → assert_bucket (l.buckets k) ≡ true)
    → (g' : ImGlobal) × (l' : ImDesc) × (drain_all fuel n i g l ≡ some (g', l'))
      × Conserves g l nothing nothing g' l'
      × (g'.im_pool ≡ g.im_pool)
      × ((k : ℕ) → i ≤ k → k < i + n → (l'.buckets k).free_list ≡ [])
      × ((k : ℕ) → k < i → l'.buckets k ≡ l.buckets k)
unfolding drain_all
drain_all-Conserves fuel zero i g l h pool right local_right enough good = (
  g,
  l,
  refl,
  Conserves-refl g l pool right local_right,
  refl,
  λ k a b. absurd (omega arith),
  λ k a. refl,
)
drain_all-Conserves fuel (suc n) i g l h pool right local_right enough good =
    let (g1, l1, run, c, same, empty, others) =
      drain-Conserves i (omega arith) fuel (l.buckets i).free_list g l pool right local_right refl
        (enough i (omega arith)) in
    let short : (k : ℕ) → k < num_buckets → length (l1.buckets k).free_list ≤ fuel = λ k q.
      elim (ℕ_discrete i k) [
        | yes e ↦ rw (← e, empty) (omega arith)
        | no e ↦ rw (others k e) (enough k q)
      ] in
    let (g2, l2, run2, d, same2, empty2, kept) =
      drain_all-Conserves fuel n (i + 1) g1 l1 (omega arith) c.pool c.global_listed c.local_listed
        short (λ k a b. rw (others k (omega arith)) (good k (omega arith) b)) in
    (
      g2,
      l2,
      rw (good i (omega arith) (omega arith), run) run2,
      Conserves-trans same c d,
      same2 ∙ same,
      λ k a b. elim (ℕ_discrete i k) [
        | yes e ↦ rw (← e, kept i (omega arith)) empty
        | no e ↦ empty2 k (omega arith) (omega arith)
      ],
      λ k a. kept k (omega arith) ∙ others k (omega arith),
    )

-- The counts of requests are on no account of bytes.
hand_over-Conserves :
    (g g' : ImGlobal) (l l' : ImDesc)
    → Conserves g l nothing nothing g' l'
    → Conserves g l nothing nothing (hand_over g' l').0 (hand_over g' l').1
unfolding hand_over cheetah.InternalMalloc.Check.worker_bytes
hand_over-Conserves g g' l l' c = record {
  pool = c.pool;
  fewer = c.fewer;
  few = c.few;
  space = c.space;
  apart = c.apart;
  global_listed = c.global_listed;
  local_listed = c.local_listed;
  balance = c.balance;
  account = c.account;
}

hand_over-buckets : (g : ImGlobal) (l : ImDesc) → (hand_over g l).1.buckets ≡ l.buckets
unfolding hand_over
hand_over-buckets g l = refl

-- With pools in good order for which what the code asserts of the global pool and of the worker's
-- free lists holds, and at least as much fuel as any of these lists has blocks, a worker that ends
-- leaves all its free lists empty, no byte comes to lie in two places, and the accounts of bytes
-- balance.
pub cilk_internal_malloc_per_worker_terminate_lem :
    (fuel : ℕ) (g : ImGlobal) (l : ImDesc)
    → IsPool g.im_pool
    → IsListed g.im_desc
    → IsListed l
    → ((k : ℕ) → k < num_buckets → length (l.buckets k).free_list ≤ fuel)
    → assert_global_pool g.im_pool ≡ true
    → ((k : ℕ) → k < num_buckets → assert_bucket (l.buckets k) ≡ true)
    → (g' : ImGlobal) × (l' : ImDesc) × (cilk_internal_malloc_per_worker_terminate fuel g l
        ≡ some (g', l'))
      × Conserves g l nothing nothing g' l'
      × ((k : ℕ) → k < num_buckets → (l'.buckets k).free_list ≡ [])
unfolding cilk_internal_malloc_per_worker_terminate
cilk_internal_malloc_per_worker_terminate_lem fuel g l pool right local_right enough sane good =
    let (g1, l1, run, c, same, empty, others) =
      drain_all-Conserves fuel num_buckets 0 g l (omega arith) pool right local_right enough
        (λ k a b. good k b) in
    let r = hand_over g1 l1 in
    (
      r.0,
      r.1,
      rw (sane, run) refl,
      hand_over-Conserves g g1 l l1 c,
      λ k h. rw (hand_over-buckets g1 l1) (empty k (omega arith) h),
    )
