-- ===== src/InternalMalloc/Release.antt =====
-- `cilk_internal_free` and the end of a worker: how blocks come back.
use cheetah.Base.{
  ℕ, zero, suc, ◌+◌, ◌-◌, ◌*◌, ◌/◌, ◌≤◌, ◌<◌, ◌≡◌, refl, arith, update_self, length, ◌∷◌, ◌∙◌, inl,
  inr, ltb, Bool-cases, false, some, dec_le,
}
use cheetah.Base.Int.{int_laws, pos, ◌-ℤ◌, pos_part, neg_part}
use cheetah.InternalMalloc.{
  ImBucket, ImDesc, ImGlobal, num_buckets, bucket_sizes, bucket_capacity, size_to_bucket,
  add_to_free_list,
}
use cheetah.InternalMalloc.Accounts.{worker_bytes-update}
use cheetah.InternalMalloc.Blocks.{IsListed, listed-update, update-IsListed}
use cheetah.InternalMalloc.Check.{worker_bytes}
use cheetah.InternalMalloc.Requests.{
  Conserves, nothing, im_free_batch-Conserves, bucket_capacity_bounds, Conserves-trans,
  Conserves-refl,
}
use cheetah.InternalMalloc.Serve.{size_to_bucket_lem}
use cheetah.InternalMalloc.Space.{covers, listed, IsPool}
use cheetah.InternalMalloc.Workers.{take_back, im_free_batch, trim, cilk_internal_free}

take_back_lem :
    (l : ImDesc) (p size tag k : ℕ)
    → k < num_buckets
    → size ≤ bucket_sizes k
    → IsListed l
    → let l' = take_back l p size tag k in
      ((x : ℕ) → listed x l' ≡ covers x (bucket_sizes k) p + listed x l)
      × IsListed l'
      × (pos_part (worker_bytes l') + neg_part (worker_bytes l)
          ≡ neg_part (worker_bytes l') + pos_part (worker_bytes l))
      × (length (l'.buckets k).free_list ≡ length (l.buckets k).free_list + 1)
      × ((l'.buckets k).free_list_limit ≡ (l.buckets k).free_list_limit)
unfolding take_back add_to_free_list
take_back_lem l p size tag k h fits right =
    let l' : ImDesc = take_back l p size tag k in
    let old = l.buckets k in
    let b : ImBucket = record old {
      free_list = p ∷ old.free_list;
      free_list_size = old.free_list_size + 1;
      wasted = old.wasted -ℤ (pos (bucket_sizes k) -ℤ pos size);
    } in
    let bytes : (old.free_list_size + 1) * bucket_sizes k
        ≡ old.free_list_size * bucket_sizes k + bucket_sizes k =
      grind arith in
    (
      λ x. omega (arith, listed-update x k l b h),
      update-IsListed k l b right (omega (arith, right k h)),
      omega (int_laws, worker_bytes-update k l l' b h refl, bytes),
      rw (update_self l.buckets k b) (omega arith),
      rw (update_self l.buckets k b) refl,
    )

pub some_freed : (n len m : ℕ) → 0 < n → 0 < len → (n ≤ len → m ≡ n) → (len ≤ n → m ≡ len) → 0 < m
some_freed n len m a b f g = elim (dec_le n len) [
  | yes h ↦ omega (arith, f h)
  | no h ↦ omega (arith, g (omega arith))
]

-- With more fuel than there are blocks on the free list, batches are freed until it is no longer
-- than its limit.
trim-Conserves :
    (k : ℕ)
    → k < num_buckets
    → (fuel : ℕ) (g : ImGlobal) (l : ImDesc) → IsPool g.im_pool
    → IsListed g.im_desc
    → IsListed l
    → length (l.buckets k).free_list < fuel
    → (g' : ImGlobal) × (l' : ImDesc) × (trim (bucket_sizes k) k fuel g l ≡ some (g', l'))
      × Conserves g l nothing nothing g' l'
      × (length (l'.buckets k).free_list ≤ (l.buckets k).free_list_limit)
      × (g'.im_pool ≡ g.im_pool)
unfolding trim
trim-Conserves k h zero g l pool right local_right enough = absurd (omega arith)
trim-Conserves k h (suc fuel) g l pool right local_right enough =
    let bucket = l.buckets k in
    elim (Bool-cases (ltb bucket.free_list_limit bucket.free_list_size)) [
      | inl over ↦
          let (c, (m, shorter, full, rest), limit, same) =
            im_free_batch-Conserves g l k h pool right local_right in
          let bounds = bucket_capacity_bounds k in
          let some_left : 0 < length bucket.free_list = ground (arith, local_right k h) in
          let fewer =
            some_freed (bucket_capacity k / 2) (length bucket.free_list) m (omega (arith, bounds))
              some_left full rest in
          let r = im_free_batch g l (bucket_sizes k) k in
          let (g', l', run, d, short, same') =
            trim-Conserves k h fuel r.0 r.1 c.pool c.global_listed c.local_listed
              (omega (arith, shorter)) in
          (g', l', rw over run, Conserves-trans same c d, omega (arith, short, limit), same' ∙ same)
      | inr fine ↦ (
        g,
        l,
        rw fine refl,
        Conserves-refl g l pool right local_right,
        ground (arith, local_right k h),
        refl,
      )
    ]

-- With pools in good order and more fuel than there will be blocks on the worker's free list, a
-- block of at most 2048 bytes is taken back, and apart from that block no byte changes hands; the
-- free list is no longer than its limit afterwards.
pub cilk_internal_free-Conserves :
    (g : ImGlobal) (l : ImDesc) (p size tag fuel : ℕ)
    → size ≤ 2048
    → IsPool g.im_pool
    → IsListed g.im_desc
    → IsListed l
    → length (l.buckets (size_to_bucket size)).free_list + 1 < fuel
    → (g' : ImGlobal) × (l' : ImDesc) × (cilk_internal_free fuel g l p size tag ≡ some (g', l'))
      × Conserves g l (λ x. covers x (bucket_sizes (size_to_bucket size)) p) nothing g' l'
      × (length (l'.buckets (size_to_bucket size)).free_list
          ≤ (l.buckets (size_to_bucket size)).free_list_limit)
unfolding cilk_internal_free bucket_sizes
cilk_internal_free-Conserves g l p size tag fuel fits pool right local_right enough =
    let k = size_to_bucket size in
    let (h, holds, least) = (size_to_bucket_lem size).0 fits in
    let in_range : ltb (bucket_sizes (num_buckets - 1)) size ≡ false = ground arith in
    let (space1, right1, account1, longer, limit) =
      take_back_lem l p size tag k h holds local_right in
    let l1 = take_back l p size tag k in
    let (g', l', run, c, short, same) =
      trim-Conserves k h fuel g l1 pool right right1 (omega (arith, longer)) in
    (
      g',
      l',
      rw in_range run,
      record {
        pool = c.pool;
        fewer = c.fewer;
        few = c.few;
        space = λ x. omega (arith, c.space x, space1 x);
        apart = c.apart;
        global_listed = c.global_listed;
        local_listed = c.local_listed;
        balance = c.balance;
        account = omega (arith, c.account, account1);
      },
      omega (arith, short, limit),
    )
