-- ===== src/InternalMalloc.antt =====
-- The allocator of runtime/internal-malloc.h, runtime/internal-malloc-impl.h and
-- runtime/internal-malloc.cpp. A block is its address, a free list is the list of its blocks, the
-- head first. The counts of a free list are plain numbers: 2 ^ 22 chunks have no more than 2 ^ 32 blocks of 32
-- bytes, so below that many chunks no `unsigned` count wraps. The index into the list of chunks, which
-- starts at -1, and the size of that list are 32-bit words.
pub mod Workers
pub mod Check
mod Space
mod Global
mod Blocks
mod Batches
mod Accounts
mod Uses
mod Requests
mod Serve
mod Release
mod Drain
mod Steps
mod Served
mod Safety
mod Examples
use cheetah.Base.{
  ℕ, zero, suc, ◌+◌, ◌-◌, ◌*◌, ◌/◌, ◌%◌, ◌^◌, Bool, Option, none, some, ltb, leb, ◌==◌,
  if◌then◌else◌, update, List, [], ◌∷◌, ◌&&◌,
}
use cheetah.Base.Int.{ℤ, pos, ltb_ℤ, ◌+ℤ◌, ◌-ℤ◌}

abbrev pub num_buckets : ℕ
num_buckets = 7

abbrev pub im_num_tags : ℕ
im_num_tags = 4

abbrev pub initial_mem_list_size : ℕ
initial_mem_list_size = 8

abbrev pub chunk_size : ℕ
chunk_size = 32 * 1024

unfoldable pub bucket_sizes : ℕ → ℕ
bucket_sizes i =
    if i == 0
    then 32
    else if i == 1
    then 64
    else if i == 2
    then 128
    else if i == 3
    then 256
    else if i == 4
    then 512
    else if i == 5
    then 1024
    else 2048

unfoldable pub bucket_capacity : ℕ → ℕ
bucket_capacity i =
    if i == 0
    then 256
    else if i == 1
    then 128
    else if i == 2
    then 64
    else if i == 3
    then 64
    else if i == 4
    then 32
    else if i == 5
    then 16
    else 8

pub record ImBucket : Type 0 where
  pub free_list : List ℕ
  pub free_list_size : ℕ
  pub free_list_limit : ℕ
  pub allocated : ℤ
  pub max_allocated : ℤ
  pub wasted : ℤ

pub record ImDesc : Type 0 where
  pub buckets : ℕ → ImBucket
  pub used : ℤ
  pub num_malloc : ℕ → ℤ

pub record ImPool : Type 0 where
  pub mem_begin : ℕ
  pub mem_end : ℕ
  pub mem_list : ℕ → ℕ
  pub mem_list_index : ℕ
  pub mem_list_size : ℕ
  pub allocated : ℕ
  pub wasted : ℕ

-- What of `global_state` the allocator uses: `im_pool` and `im_desc`.
pub record ImGlobal : Type 0 where
  pub im_pool : ImPool
  pub im_desc : ImDesc

-- Where the system places the chunk that `malloc_from_system` asks for, by what it gave before. It
-- fails with an abort only.
abbrev pub System : Type 0
System = ImPool → ℕ

-- The first bucket from index `i` on that is large enough, of `n` buckets; -1 if there is none.
unfoldable pub size_to_bucket_from : ℕ → ℕ → ℕ → ℕ
size_to_bucket_from size zero i = 2 ^ 32 - 1
size_to_bucket_from size (suc n) i =
    let rest = size_to_bucket_from size n (i + 1) in if leb size (bucket_sizes i) then i else rest

abbrev pub size_to_bucket : ℕ → ℕ
size_to_bucket size = size_to_bucket_from size num_buckets 0

unfoldable pub add_to_free_list : ImBucket → ℕ → ImBucket
add_to_free_list bucket p = record bucket {
  free_list = p ∷ bucket.free_list;
  free_list_size = bucket.free_list_size + 1;
}

unfoldable pub remove_from : ImBucket → List ℕ → Option ℕ × ImBucket
remove_from bucket [] = (none, bucket)
remove_from bucket (p ∷ rest) =
    (some p, record bucket { free_list = rest; free_list_size = bucket.free_list_size - 1 })

abbrev pub remove_from_free_list : ImBucket → Option ℕ × ImBucket
remove_from_free_list bucket = remove_from bucket bucket.free_list

unfoldable pub init_im_buckets : ImDesc
init_im_buckets = record {
  buckets = λ i. record {
    free_list = [];
    free_list_size = 0;
    free_list_limit = bucket_capacity i;
    allocated = pos 0;
    max_allocated = pos 0;
    wasted = pos 0;
  };
  used = pos 0;
  num_malloc = λ j. pos 0;
}

unfoldable pub extend_global_pool : System → ImPool → ImPool
extend_global_pool system pool =
    let begin = system pool in
    let index = (pool.mem_list_index + 1) % 2 ^ 32 in
    let full = leb pool.mem_list_size index in
    let new_list_size = 2 * pool.mem_list_size % 2 ^ 32 in
    record {
      mem_begin = begin;
      mem_end = begin + chunk_size;
      mem_list =
          update
            (λ i.
              if full && leb pool.mem_list_size i && ltb i new_list_size
              then 0
              else pool.mem_list i)
            index begin;
      mem_list_index = index;
      mem_list_size = if full then new_list_size else pool.mem_list_size;
      allocated = pool.allocated + chunk_size;
      wasted = pool.wasted;
    }

-- A block from the chunk in use, or from a new one if that is too short.
unfoldable pub carve : System → ImPool → ℕ → ℕ × ImPool
carve system pool size =
    let pool' =
      if ltb pool.mem_end (pool.mem_begin + size)
      then extend_global_pool system
          (record pool { wasted = pool.wasted + (pool.mem_end - pool.mem_begin) })
      else pool in
    (pool'.mem_begin, record pool' { mem_begin = pool'.mem_begin + size })

-- A block that came off the free list, or one from a chunk.
unfoldable pub block_or_carve : System → ImGlobal → ℕ → ℕ → Option ℕ × ImBucket → ℕ × ImGlobal
block_or_carve system g size which_bucket (some p, bucket) = (
  p,
  record g {
    im_desc = record g.im_desc { buckets = update g.im_desc.buckets which_bucket bucket };
  },
)
block_or_carve system g size which_bucket (none, bucket) =
    let c = carve system g.im_pool size in (c.0, record g { im_pool = c.1 })

unfoldable pub global_im_alloc : System → ImGlobal → ℕ → ℕ → ℕ × ImGlobal
global_im_alloc system g size which_bucket =
    let g' = record g { im_desc = record g.im_desc { used = g.im_desc.used +ℤ pos size } } in
    block_or_carve system g' size which_bucket
      (remove_from_free_list (g'.im_desc.buckets which_bucket))

unfoldable pub cilk_internal_malloc_global_init : ImGlobal
cilk_internal_malloc_global_init = record {
  im_pool = record {
    mem_begin = 0;
    mem_end = 0;
    mem_list = λ i. 0;
    mem_list_index = 2 ^ 32 - 1;
    mem_list_size = initial_mem_list_size;
    allocated = 0;
    wasted = 0;
  };
  im_desc = init_im_buckets;
}

-- After the workers have stopped.
unfoldable pub cilk_internal_free_global : ImGlobal → ℕ → ℕ → ℕ → ImGlobal
cilk_internal_free_global g p size tag =
    let which_bucket = size_to_bucket size in
    record g {
      im_desc = record {
        buckets =
            update g.im_desc.buckets which_bucket
              (add_to_free_list (g.im_desc.buckets which_bucket) p);
        used = g.im_desc.used -ℤ pos (bucket_sizes which_bucket);
        num_malloc = update g.im_desc.num_malloc tag (g.im_desc.num_malloc tag -ℤ pos 1);
      };
    }
