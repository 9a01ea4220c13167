-- ===== src/InternalMalloc/Safety.antt =====
-- What holds in every state of the allocator: blocks in use never overlap, and when the leak test
-- of runtime/internal-malloc.cpp passes.
use cheetah.InternalMalloc.Accounts.{workers_total-ge}
use cheetah.InternalMalloc.Served.{not_negative, Reaches-IsServed, start-IsServed}
use cheetah.InternalMalloc.Serve.{cilk_internal_malloc-Conserves, size_to_bucket_lem}
use cheetah.InternalMalloc.Workers.{cilk_internal_malloc, block}
use cheetah.Base.Int.{pos_part, neg_part, +ℤ_parts, pos}
use cheetah.InternalMalloc.Check.{
  internal_malloc_global_check, workers_used_and_free, free_bytes, is_negative,
}
use cheetah.Base.{ap, some, false, ◌<◌, ◌≤◌, ◌≡◌, ◌==◌, ◌+◌, ◌^◌, ◌-◌, arith}
use cheetah.InternalMalloc.Space.{IsFresh, chunks, covers}
use cheetah.InternalMalloc.{System, ℕ, ImGlobal, ImDesc, bucket_sizes, size_to_bucket}
use cheetah.InternalMalloc.Steps.{
  Arena, Reaches, IsSound, allocated, start, held_space, Step-IsSound, Reaches-IsSound,
  start-IsSound,
}

-- A hypothesis on the state: it comes about by requests of `n` workers.
module _ (system : System) (fresh : IsFresh system) (n : ℕ) (s : Arena)
    (reaches : Reaches system n start s) where
  reached : IsSound system n s
  reached = Reaches-IsSound system n fresh reaches (start-IsSound system n)

  -- With a system that gives no memory twice, in every state that requests of the workers lead to,
  -- with fewer than 2 ^ 22 - 128 chunks, a request of at most 2048 bytes is served with a block
  -- that is large enough and has no byte in common with any block in use, nor one twice.
  pub cilk_internal_malloc-apart :
      (w size tag : ℕ)
      → w < n
      → size ≤ 2048
      → chunks s.global.im_pool + 128 < 2 ^ 22
      → (p : ℕ) × (g : ImGlobal) × (l : ImDesc) × (cilk_internal_malloc system s.global
            (s.descs w)
            size
            tag
          ≡ (block p, g, l))
        × (size ≤ bucket_sizes (size_to_bucket size))
        × ((x : ℕ) → covers x (bucket_sizes (size_to_bucket size)) p + held_space x s.held ≤ 1)
  cilk_internal_malloc-apart w size tag h fits small =
      let b = reached in
      let (p, g, l, run, c) =
        cilk_internal_malloc-Conserves system fresh s.global (s.descs w) size tag fits b.pool
          b.global_listed (b.local_listed w h) (omega (arith, small)) in
      let b' = Step-IsSound system n fresh (allocated s w size tag p g l h fits small run) b in
      (
        p,
        g,
        l,
        run,
        ((size_to_bucket_lem size).0 fits).1,
        λ x. omega (arith, b'.space x, b'.apart x),
      )

  -- With a system that gives no memory twice, in every state that requests of the workers lead to
  -- (with fewer than 2 ^ 22 chunks), none of the sums of bytes that the test for leaks asserts not
  -- to be negative is so, and the test passes exactly when no end of a chunk has gone to waste,
  -- although no byte is ever lost.
  pub internal_malloc_global_check-eq-no_waste :
      (internal_malloc_global_check s.global n s.descs ≡ some (s.global.im_pool.wasted == 0))
      × (pos_part s.global.im_desc.used
            + free_bytes s.global.im_desc
            + (s.global.im_pool.mem_end - s.global.im_pool.mem_begin)
            + s.global.im_pool.wasted
          ≡ s.global.im_pool.allocated + neg_part s.global.im_desc.used)
  unfolding internal_malloc_global_check workers_used_and_free
  internal_malloc_global_check-eq-no_waste =
      let b = reached in
      let (worker_used, worker_wasted) =
        not_negative n (Reaches-IsServed n system reaches (start-IsServed n)) in
      let used : is_negative s.global.im_desc.used ≡ false =
        ground (arith, b.account, workers_total-ge n s.descs, worker_used, worker_wasted) in
      let parts = +ℤ_parts s.global.im_desc.used (
        pos (
          free_bytes s.global.im_desc + (s.global.im_pool.mem_end - s.global.im_pool.mem_begin))) in
      (
        rw (used, worker_used, worker_wasted)
            (ap some (ground (arith, b.balance, b.account, parts))),
        b.balance,
      )
