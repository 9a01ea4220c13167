-- ===== src/InternalMalloc/Serve.antt =====
-- `cilk_internal_malloc`: which block it hands out.
use cheetah.Base.{
  ℕ, ◌+◌, ◌-◌, ◌*◌, ◌≤◌, ◌<◌, ◌≡◌, refl, arith, update, length, ◌^◌, ap, inl, inr, leb, false,
}
use cheetah.Base.Int.{int_laws, pos, ◌+ℤ◌, ◌-ℤ◌, pos_part, neg_part}
use cheetah.InternalMalloc.{
  ImBucket, ImDesc, ImGlobal, System, num_buckets, bucket_sizes, size_to_bucket,
  size_to_bucket_from,
}
use cheetah.InternalMalloc.Accounts.{worker_bytes-update}
use cheetah.InternalMalloc.Blocks.{
  IsListed, Pops, listed-update, update-IsListed, remove_from_free_list-cases,
}
use cheetah.InternalMalloc.Check.{worker_bytes}
use cheetah.InternalMalloc.Requests.{
  Conserves, nothing, im_allocate_batch-Conserves, bucket_capacity_bounds,
}
use cheetah.InternalMalloc.Space.{covers, listed, chunks, IsFresh, IsPool}
use cheetah.InternalMalloc.Workers.{
  block, count_malloc, block_or_batch, im_allocate_batch, cilk_internal_malloc,
}

-- The bucket for a size of at most 2048 bytes is the smallest that holds it; beyond, there is none.
pub size_to_bucket_lem :
    (size : ℕ)
    → (size ≤ 2048
        → (size_to_bucket size < num_buckets)
          × (size ≤ bucket_sizes (size_to_bucket size))
          × ((j : ℕ) → j < size_to_bucket size → bucket_sizes j < size))
      × (2048 < size → size_to_bucket size ≡ 2 ^ 32 - 1)
unfolding size_to_bucket_from bucket_sizes
size_to_bucket_lem size =
    (λ h. (ground arith, ground arith, λ j k. ground arith), λ h. ground arith)

-- A worker's descriptor with one bucket less a block.
pop_lem :
    (l : ImDesc) (k p : ℕ) (b : ImBucket)
    → k < num_buckets
    → IsListed l
    → Pops (l.buckets k) p b
    → let l' = record l { buckets = update l.buckets k b } in
      ((x : ℕ) → covers x (bucket_sizes k) p + listed x l' ≡ listed x l)
      × IsListed l'
      × (pos_part (worker_bytes l') + neg_part (worker_bytes l) + bucket_sizes k
          ≡ neg_part (worker_bytes l') + pos_part (worker_bytes l))
pop_lem l k p b h right o =
    let l' : ImDesc = record l { buckets = update l.buckets k b } in
    let counts = o.listed (right k h) in
    let bytes : (l.buckets k).free_list_size * bucket_sizes k
        ≡ b.free_list_size * bucket_sizes k + bucket_sizes k =
      rw counts.1 (grind arith) in
    let waste_pos = ap pos_part o.wasted in
    let waste_neg = ap neg_part o.wasted in
    (
      λ x. omega (arith, listed-update x k l b h, o.space x (bucket_sizes k)),
      update-IsListed k l b right counts.0,
      omega (arith, worker_bytes-update k l l' b h refl, bytes, waste_pos, waste_neg),
    )

count_malloc_lem :
    (l : ImDesc) (size tag k : ℕ)
    → k < num_buckets
    → size ≤ bucket_sizes k
    → IsListed l
    → let l' = count_malloc l size tag k in
      ((x : ℕ) → listed x l' ≡ listed x l)
      × IsListed l'
      × (pos_part (worker_bytes l') + neg_part (worker_bytes l)
          ≡ neg_part (worker_bytes l') + pos_part (worker_bytes l) + bucket_sizes k)
unfolding count_malloc
count_malloc_lem l size tag k h fits right =
    let l' : ImDesc = count_malloc l size tag k in
    let b : ImBucket = record (l.buckets k) {
      wasted = (l.buckets k).wasted +ℤ (pos (bucket_sizes k) -ℤ pos size);
    } in
    (
      λ x. omega (arith, listed-update x k l b h),
      update-IsListed k l b right (right k h),
      omega (int_laws, worker_bytes-update k l l' b h refl),
    )

-- With pools in good order, fewer than 2 ^ 31 - 128 chunks and a system that gives no memory
-- twice, a request of at most 2048 bytes is served with a block, the pools stay in good order, a
-- byte of the block or of the free lists and chunks afterwards was free before or is one of a
-- fresh chunk, none in more places than before, and the accounts of global and worker bytes
-- balance.
pub cilk_internal_malloc-Conserves :
    (system : System)
    → IsFresh system
    → (g : ImGlobal) (l : ImDesc) (size tag : ℕ) → size ≤ 2048
    → IsPool g.im_pool
    → IsListed g.im_desc
    → IsListed l
    → chunks g.im_pool + 128 < 2 ^ 31
    → (p : ℕ) × (g' : ImGlobal) × (l' : ImDesc) × (cilk_internal_malloc system g l size tag
        ≡ (block p, g', l'))
      × Conserves g l nothing (λ x. covers x (bucket_sizes (size_to_bucket size)) p) g' l'
unfolding cilk_internal_malloc block_or_batch
cilk_internal_malloc-Conserves system fresh g l size tag fits pool right local_right small =
    let k = size_to_bucket size in
    let (h, holds, least) = (size_to_bucket_lem size).0 fits in
    let l1 = count_malloc l size tag k in
    let (space1, right1, account1) = count_malloc_lem l size tag k h holds local_right in
    let in_range : leb num_buckets k ≡ false = ground (arith, h) in
    elim (remove_from_free_list-cases (l1.buckets k)) [
      | inr (p, b, e, o) ↦
          let (space2, right2, account2) = pop_lem l1 k p b h right1 o in
          (
            p,
            g,
            record l1 { buckets = update l1.buckets k b },
            rw (in_range, e) refl,
            record {
              pool = pool;
              fewer = omega arith;
              few = omega arith;
              space = λ x. omega (arith, space1 x, space2 x);
              apart = λ a. a;
              global_listed = right;
              local_listed = right2;
              balance = λ q. q;
              account = omega (arith, account1, account2);
            },
          )
      | inl (e, empty) ↦
          let (c, longer) =
            im_allocate_batch-Conserves system fresh g l1 k h pool right right1 small in
          let r = im_allocate_batch system g l1 (bucket_sizes k) k in
          let bounds = bucket_capacity_bounds k in
          elim (remove_from_free_list-cases (r.1.buckets k)) [
            | inl (q, empty') ↦ absurd (omega (arith, longer, ap length empty', bounds))
            | inr (p, b, q, o) ↦
                let (space2, right2, account2) = pop_lem r.1 k p b h c.local_listed o in
                (
                  p,
                  r.0,
                  record r.1 { buckets = update r.1.buckets k b },
                  rw (in_range, e, q) refl,
                  record {
                    pool = c.pool;
                    fewer = c.fewer;
                    few = c.few;
                    space = λ x. omega (arith, c.space x, space1 x, space2 x);
                    apart = c.apart;
                    global_listed = c.global_listed;
                    local_listed = right2;
                    balance = c.balance;
                    account = omega (arith, c.account, account1, account2);
                  },
                )
          ]
    ]
