-- ===== src/InternalMalloc/Accounts.antt =====
-- The bytes that the leak test counts for a worker.
use cheetah.Base.{zero, suc, ◌≤◌, total_of, total_of-update, ℕ, ◌+◌, ◌<◌, ◌≡◌, arith, update, ◌*◌}
use cheetah.Base.Int.{int_laws, pos_part, neg_part}
use cheetah.InternalMalloc.{ImBucket, ImDesc, num_buckets, bucket_sizes}
use cheetah.InternalMalloc.Blocks.{free_bytes-update}
use cheetah.InternalMalloc.Check.{
  free_bytes, bucket_waste, wasted_bytes, worker_bytes, workers_total, workers_used, workers_wasted,
}

worker_bytes_parts :
    (l : ImDesc)
    → pos_part (worker_bytes l) + neg_part l.used + neg_part (wasted_bytes l)
      ≡ neg_part (worker_bytes l) + pos_part l.used + free_bytes l + pos_part (wasted_bytes l)
unfolding worker_bytes
worker_bytes_parts l = omega int_laws

-- What a worker's account gains when one bucket is written, and the bytes in use: the blocks more
-- on the free list, and the bytes more that are used or wasted.
pub worker_bytes-update :
    (k : ℕ) (l l' : ImDesc) (b : ImBucket)
    → k < num_buckets
    → l'.buckets ≡ update l.buckets k b
    → pos_part (worker_bytes l')
        + neg_part (worker_bytes l)
        + (neg_part l'.used + pos_part l.used)
        + (neg_part b.wasted + pos_part (l.buckets k).wasted)
        + (l.buckets k).free_list_size * bucket_sizes k
      ≡ neg_part (worker_bytes l')
        + pos_part (worker_bytes l)
        + (pos_part l'.used + neg_part l.used)
        + (pos_part b.wasted + neg_part (l.buckets k).wasted)
        + b.free_list_size * bucket_sizes k
worker_bytes-update k l l' b h e =
    let w = total_of-update bucket_waste num_buckets k l.buckets b h in
    let f = free_bytes-update k l b h in
    let w' : pos_part (wasted_bytes l')
          + neg_part (wasted_bytes l)
          + pos_part (l.buckets k).wasted
          + neg_part b.wasted
        ≡ neg_part (wasted_bytes l')
          + pos_part (wasted_bytes l)
          + neg_part (l.buckets k).wasted
          + pos_part b.wasted =
      rw e w in
    let f' : free_bytes l' + (l.buckets k).free_list_size * bucket_sizes k
        ≡ free_bytes l + b.free_list_size * bucket_sizes k =
      rw e f in
    omega (arith, w', f', worker_bytes_parts l, worker_bytes_parts l')

-- The workers have no less on their accounts than what they use and have wasted.
pub workers_total-ge :
    (n : ℕ) (descs : ℕ → ImDesc)
    → neg_part (workers_total n descs)
        + pos_part (workers_used n descs)
        + pos_part (workers_wasted n descs)
      ≤ pos_part (workers_total n descs)
        + neg_part (workers_used n descs)
        + neg_part (workers_wasted n descs)
unfolding total_of
workers_total-ge zero descs = omega int_laws
workers_total-ge (suc n) descs =
    omega (int_laws, workers_total-ge n descs, worker_bytes_parts (descs n))
