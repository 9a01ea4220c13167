-- ===== src/InternalMalloc/Check.antt =====
-- The test for leaks of runtime/internal-malloc.cpp.
use cheetah.Base.{
  Option, none, some, ◌>>=◌, ◌||◌, if◌then◌else◌, ℕ, ◌+◌, ◌-◌, ◌*◌, Bool, ◌&&◌, ◌==◌, sum_of,
  total_of,
}
use cheetah.Base.Int.{ℤ, pos, ◌+ℤ◌, pos_part, neg_part, ltb_ℤ}
use cheetah.InternalMalloc.{ImBucket, ImDesc, ImGlobal, num_buckets, bucket_sizes}

abbrev pub bucket_bytes : ℕ → ImBucket → ℕ
bucket_bytes i bucket = bucket.free_list_size * bucket_sizes i

abbrev pub free_bytes : ImDesc → ℕ
free_bytes desc = sum_of bucket_bytes num_buckets desc.buckets

abbrev pub bucket_waste : ImBucket → ℤ
bucket_waste bucket = bucket.wasted

abbrev pub wasted_bytes : ImDesc → ℤ
wasted_bytes desc = total_of bucket_waste num_buckets desc.buckets

-- The worker's part of the sum below.
unfoldable pub worker_bytes : ImDesc → ℤ
worker_bytes l = l.used +ℤ pos (free_bytes l) +ℤ wasted_bytes l

-- What the workers use, have wasted and have free, for `nworkers` of them.
abbrev pub desc_used : ImDesc → ℤ
desc_used l = l.used

abbrev pub workers_used : ℕ → (ℕ → ImDesc) → ℤ
workers_used nworkers descs = total_of desc_used nworkers descs

abbrev pub workers_wasted : ℕ → (ℕ → ImDesc) → ℤ
workers_wasted nworkers descs = total_of wasted_bytes nworkers descs

abbrev pub workers_total : ℕ → (ℕ → ImDesc) → ℤ
workers_total nworkers descs = total_of worker_bytes nworkers descs

abbrev pub is_negative : ℤ → Bool
is_negative a = ltb_ℤ a (pos 0)

-- `none` where its assertion fails.
unfoldable pub workers_used_and_free : ℕ → (ℕ → ImDesc) → Option ℤ
workers_used_and_free nworkers descs =
    if is_negative (workers_used nworkers descs) || is_negative (workers_wasted nworkers descs)
    then none
    else some (workers_total nworkers descs)

abbrev pub eqb_ℤ : ℤ → ℤ → Bool
eqb_ℤ a b = pos_part a + neg_part b == pos_part b + neg_part a

-- `none` where an assertion fails, otherwise whether the test is passed.
unfoldable pub internal_malloc_global_check : ImGlobal → ℕ → (ℕ → ImDesc) → Option Bool
internal_malloc_global_check g nworkers descs =
    let global_available = g.im_pool.mem_end - g.im_pool.mem_begin in
    let checked = workers_used_and_free nworkers descs >>= (λ worker_total. some (
      eqb_ℤ (g.im_desc.used +ℤ pos (free_bytes g.im_desc + global_available))
        (pos g.im_pool.allocated)
      && eqb_ℤ g.im_desc.used worker_total)) in
    if is_negative g.im_desc.used then none else checked
