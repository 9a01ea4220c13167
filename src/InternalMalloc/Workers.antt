-- ===== src/InternalMalloc/Workers.antt =====
-- What a worker does in runtime/internal-malloc.cpp: batches between its free lists and the global
-- ones, and the requests of the runtime.
use cheetah.Base.{
  ℕ, zero, suc, ◌+◌, ◌-◌, ◌/◌, Option, none, some, ltb, leb, if◌then◌else◌, update, List, [], ◌∷◌,
  ◌>>=◌, Bool, true, false, not, ◌&&◌, ◌||◌, ◌==◌,
}
use cheetah.Base.Int.{pos, ltb_ℤ, ◌+ℤ◌, ◌-ℤ◌}
use cheetah.InternalMalloc.{
  ImPool, ImBucket, ImDesc, ImGlobal, System, num_buckets, im_num_tags, bucket_sizes,
  bucket_capacity, size_to_bucket, add_to_free_list, remove_from_free_list, global_im_alloc,
}

-- The loop of `im_allocate_batch`.
unfoldable pub allocate_loop : System → ℕ → ℕ → ℕ → ImGlobal → ImBucket → ImGlobal × ImBucket
allocate_loop system size which_bucket zero g bucket = (g, bucket)
allocate_loop system size which_bucket (suc n) g bucket =
    let r = global_im_alloc system g size which_bucket in
    allocate_loop system size which_bucket n r.1 (add_to_free_list bucket r.0)

unfoldable pub im_allocate_batch : System → ImGlobal → ImDesc → ℕ → ℕ → ImGlobal × ImDesc
im_allocate_batch system g l size bucket_index =
    let batch_size = bucket_capacity bucket_index / 2 in
    let r = allocate_loop system size bucket_index batch_size g (l.buckets bucket_index) in
    let allocated = r.1.allocated +ℤ pos batch_size in
    let bucket = record r.1 {
      allocated = allocated;
      max_allocated = if ltb_ℤ r.1.max_allocated allocated then allocated else r.1.max_allocated;
    } in
    (r.0, record l { buckets = update l.buckets bucket_index bucket })

-- A block goes to the global free list, off the worker's account.
unfoldable pub give_back : ℕ → ℕ → ImGlobal → ℕ → ImGlobal
give_back size which_bucket g p = record g {
  im_desc = record g.im_desc {
    buckets =
        update g.im_desc.buckets which_bucket (add_to_free_list (g.im_desc.buckets which_bucket) p);
    used = g.im_desc.used -ℤ pos size;
  };
}

-- The loop of `im_free_batch`, over the blocks of the free list.
unfoldable pub free_loop : ℕ → ℕ → ℕ → List ℕ → ImGlobal → ImBucket → ImGlobal × ImBucket
free_loop size which_bucket zero blocks g bucket = (g, bucket)
free_loop size which_bucket (suc n) [] g bucket = (g, bucket)
free_loop size which_bucket (suc n) (p ∷ rest) g bucket =
    free_loop size which_bucket n rest (give_back size which_bucket g p) (record bucket {
      free_list = rest;
      free_list_size = bucket.free_list_size - 1;
      allocated = bucket.allocated -ℤ pos 1;
    })

unfoldable pub im_free_batch : ImGlobal → ImDesc → ℕ → ℕ → ImGlobal × ImDesc
im_free_batch g l size which_bucket =
    let bucket = l.buckets which_bucket in
    let r =
      free_loop size which_bucket (bucket_capacity which_bucket / 2) bucket.free_list g bucket in
    (r.0, record l { buckets = update l.buckets which_bucket r.1 })

-- What `cilk_internal_malloc` returns: memory of `malloc_from_system`, a block, or null.
pub data Memory : Type 0 where
  from_system : Memory
  block : ℕ → Memory
  null : Memory

abbrev pub to_memory : Option ℕ → Memory
to_memory none = null
to_memory (some p) = block p

-- The request is counted.
unfoldable pub count_malloc : ImDesc → ℕ → ℕ → ℕ → ImDesc
count_malloc l size tag which_bucket =
    let bucket = l.buckets which_bucket in
    record {
      buckets = update l.buckets which_bucket (record bucket {
        wasted = bucket.wasted +ℤ (pos (bucket_sizes which_bucket) -ℤ pos size);
      });
      used = l.used +ℤ pos size;
      num_malloc = update l.num_malloc tag (l.num_malloc tag +ℤ pos 1);
    }

-- A block that came off the worker's free list, or one after a batch from the global pool.
unfoldable pub block_or_batch :
    System → ImGlobal → ImDesc → ℕ → Option ℕ × ImBucket → Memory × ImGlobal × ImDesc
block_or_batch system g l which_bucket (some p, bucket) =
    (block p, g, record l { buckets = update l.buckets which_bucket bucket })
block_or_batch system g l which_bucket (none, bucket) =
    let b = im_allocate_batch system g l (bucket_sizes which_bucket) which_bucket in
    let r = remove_from_free_list (b.1.buckets which_bucket) in
    (to_memory r.0, b.0, record b.1 { buckets = update b.1.buckets which_bucket r.1 })

unfoldable pub cilk_internal_malloc :
    System → ImGlobal → ImDesc → ℕ → ℕ → Memory × ImGlobal × ImDesc
cilk_internal_malloc system g l size tag =
    let which_bucket = size_to_bucket size in
    let l' = count_malloc l size tag which_bucket in
    if leb num_buckets which_bucket
    then (from_system, g, l)
    else block_or_batch system g l' which_bucket (remove_from_free_list (l'.buckets which_bucket))

-- The loop that frees batches while the free list is longer than its limit.
unfoldable pub trim : ℕ → ℕ → ℕ → ImGlobal → ImDesc → Option (ImGlobal × ImDesc)
trim size which_bucket zero g l = none
trim size which_bucket (suc fuel) g l =
    let bucket = l.buckets which_bucket in
    let r = im_free_batch g l size which_bucket in
    let rest = trim size which_bucket fuel r.0 r.1 in
    if ltb bucket.free_list_limit bucket.free_list_size then rest else some (g, l)

-- The worker takes a block back, off the account of the request.
unfoldable pub take_back : ImDesc → ℕ → ℕ → ℕ → ℕ → ImDesc
take_back l p size tag which_bucket =
    let bucket = l.buckets which_bucket in
    record {
      buckets = update l.buckets which_bucket (
          add_to_free_list
            (record bucket {
              wasted = bucket.wasted -ℤ (pos (bucket_sizes which_bucket) -ℤ pos size);
            })
            p);
      used = l.used -ℤ pos size;
      num_malloc = update l.num_malloc tag (l.num_malloc tag -ℤ pos 1);
    }

unfoldable pub cilk_internal_free : ℕ → ImGlobal → ImDesc → ℕ → ℕ → ℕ → Option (ImGlobal × ImDesc)
cilk_internal_free fuel g l p size tag =
    let which_bucket = size_to_bucket size in
    if ltb (bucket_sizes (num_buckets - 1)) size
    then some (g, l)
    else trim (bucket_sizes which_bucket) which_bucket fuel g (take_back l p size tag which_bucket)

-- The loop that empties a free list.
unfoldable pub drain : ℕ → ℕ → ℕ → List ℕ → ImGlobal → ImDesc → Option (ImGlobal × ImDesc)
drain size which_bucket fuel [] g l = some (g, l)
drain size which_bucket zero (p ∷ rest) g l = none
drain size which_bucket (suc fuel) (p ∷ rest) g l =
    let r = im_free_batch g l size which_bucket in
    drain size which_bucket fuel (r.1.buckets which_bucket).free_list r.0 r.1

-- The assertions of `assert_global_pool` and `assert_bucket`.
unfoldable pub assert_global_pool : ImPool → Bool
assert_global_pool pool =
    ltb pool.mem_list_index pool.mem_list_size
    && (not (ltb 0 pool.wasted) || ltb pool.wasted pool.allocated)

abbrev lists_nothing : List ℕ → Bool
lists_nothing [] = true
lists_nothing (p ∷ ps) = false

unfoldable pub assert_bucket : ImBucket → Bool
assert_bucket bucket =
    (if bucket.free_list_size == 0
      then lists_nothing bucket.free_list
      else not (lists_nothing bucket.free_list))
    && leb bucket.free_list_size bucket.free_list_limit
    && not (ltb_ℤ bucket.max_allocated bucket.allocated)

-- The `n` free lists from index `i` on are emptied, each in at most `fuel` batches; `none` where an
-- assertion fails.
unfoldable pub drain_all : ℕ → ℕ → ℕ → ImGlobal → ImDesc → Option (ImGlobal × ImDesc)
drain_all fuel zero i g l = some (g, l)
drain_all fuel (suc n) i g l =
    let rest =
      drain (bucket_sizes i) i fuel (l.buckets i).free_list g l
      >>= (λ r. drain_all fuel n (i + 1) r.0 r.1) in
    if assert_bucket (l.buckets i) then rest else none

-- The worker's counts of requests move to the global ones.
unfoldable pub hand_over : ImGlobal → ImDesc → ImGlobal × ImDesc
hand_over g l = (
  record g {
    im_desc = record g.im_desc {
      num_malloc = λ i.
          if ltb i im_num_tags
          then g.im_desc.num_malloc i +ℤ l.num_malloc i
          else g.im_desc.num_malloc i;
    };
  },
  record l { num_malloc = λ i. if ltb i im_num_tags then pos 0 else l.num_malloc i },
)

unfoldable pub cilk_internal_malloc_per_worker_terminate :
    ℕ → ImGlobal → ImDesc → Option (ImGlobal × ImDesc)
cilk_internal_malloc_per_worker_terminate fuel g l =
    let rest = drain_all fuel num_buckets 0 g l >>= (λ r. some (hand_over r.0 r.1)) in
    if assert_global_pool g.im_pool then rest else none
