-- ===== src/InternalMalloc/Examples.antt =====
-- The theorems about the allocator at concrete states.
use cheetah.InternalMalloc.Drain.{cilk_internal_malloc_per_worker_terminate_lem}
use cheetah.InternalMalloc.Release.{cilk_internal_free-Conserves}
use cheetah.InternalMalloc.Blocks.{IsListed}
use cheetah.InternalMalloc.Check.{internal_malloc_global_check, free_bytes}
use cheetah.InternalMalloc.Requests.{Conserves, nothing}
use cheetah.InternalMalloc.Safety.{
  cilk_internal_malloc-apart, internal_malloc_global_check-eq-no_waste,
}
use cheetah.InternalMalloc.Workers.{
  cilk_internal_malloc, block, cilk_internal_free, cilk_internal_malloc_per_worker_terminate,
  assert_global_pool, assert_bucket,
}
use cheetah.InternalMalloc.Serve.{cilk_internal_malloc-Conserves}
use cheetah.InternalMalloc.Space.{covers, chunks, chunk_space, IsFresh, IsPool}
use cheetah.InternalMalloc.{
  chunk_size, System, size_to_bucket, cilk_internal_malloc_global_init, bucket_sizes, ImGlobal,
  ImDesc, init_im_buckets, bucket_capacity, size_to_bucket_from, num_buckets,
}
use cheetah.Base.{
  true, false, ℕ_discrete, ℕ, zero, suc, ◌+◌, ◌-◌, ◌≤◌, ◌<◌, ◌≡◌, refl, arith, sum_of, [], ◌∷◌,
  ◌==◌, some, length, ◌^◌, if◌then◌else◌,
}
use cheetah.Base.Int.{pos_part, neg_part}
use cheetah.InternalMalloc.Steps.{
  Arena, Piece, Reaches, here, next, allocated, start, served, held_space, IsSound, start-IsSound,
}

-- Chunks beyond all that were ever given.
far_weight : ℕ → ℕ → ℕ
far_weight i p = p + chunk_size

unfoldable far : System
far pool = 4096 + sum_of far_weight (chunks pool) pool.mem_list

far-apart : (x n : ℕ) (f : ℕ → ℕ) → sum_of far_weight n f ≤ x → sum_of (chunk_space x) n f ≡ 0
unfolding sum_of covers far_weight
far-apart x zero f h = refl
far-apart x (suc n) f h = let rest = far-apart x n f (omega arith) in ground (arith, rest)

far-IsFresh : IsFresh far
unfolding far covers
far-IsFresh pool x h = far-apart x (chunks pool) pool.mem_list (ground arith)

arena-IsSound : IsSound far 2 start
arena-IsSound = start-IsSound far 2

start_few : chunks start.global.im_pool ≡ 0
unfolding start cilk_internal_malloc_global_init
start_few = omega arith

start_small : chunks start.global.im_pool + 128 < 2 ^ 22
unfolding start cilk_internal_malloc_global_init
start_small = omega arith

-- The first worker gets a block of 2048 bytes.
first_block :
    (p : ℕ) × (g : ImGlobal) × (l : ImDesc) × (cilk_internal_malloc far start.global
        (start.descs 0)
        2000
        1
      ≡ (block p, g, l))
    × Conserves start.global
        (start.descs 0)
        nothing
        (λ x. covers x (bucket_sizes (size_to_bucket 2000)) p)
        g
        l
first_block =
    cilk_internal_malloc-Conserves far far-IsFresh start.global (start.descs 0) 2000 1 (omega arith)
      arena-IsSound.pool arena-IsSound.global_listed (arena-IsSound.local_listed 0 (omega arith))
      (omega (arith, start_small))

abbrev piece : Piece
piece = record { size = 2000; at = first_block.0 }

abbrev one_served : Arena
one_served = served start 0 first_block.1 first_block.2 (piece ∷ [])

one_step : Reaches far 2 start one_served
unfolding start
one_step = next start start one_served (here start) (
    allocated start 0 2000 1 first_block.0 first_block.1 first_block.2 (omega arith) (omega arith)
      start_small first_block.3)

-- A hundred bytes after that share none with the 2048.
cilk_internal_malloc-apart_example :
    (p : ℕ) × (g : ImGlobal) × (l : ImDesc) × (cilk_internal_malloc far one_served.global
        (one_served.descs 1)
        100
        2
      ≡ (block p, g, l))
    × (100 ≤ bucket_sizes (size_to_bucket 100))
    × ((x : ℕ) → covers x (bucket_sizes (size_to_bucket 100)) p + held_space x (piece ∷ []) ≤ 1)
cilk_internal_malloc-apart_example =
    cilk_internal_malloc-apart far far-IsFresh 2 one_served one_step 1 100 2 (omega arith)
      (omega arith) (omega (arith, start_few, first_block.4.few))

internal_malloc_global_check-eq-no_waste_example :
    (internal_malloc_global_check one_served.global 2 one_served.descs
      ≡ some (one_served.global.im_pool.wasted == 0))
    × (pos_part one_served.global.im_desc.used
          + free_bytes one_served.global.im_desc
          + (one_served.global.im_pool.mem_end - one_served.global.im_pool.mem_begin)
          + one_served.global.im_pool.wasted
        ≡ one_served.global.im_pool.allocated + neg_part one_served.global.im_desc.used)
internal_malloc_global_check-eq-no_waste_example =
    internal_malloc_global_check-eq-no_waste far far-IsFresh 2 one_served one_step

cilk_internal_malloc-Conserves_example :
    (p : ℕ) × (g : ImGlobal) × (l : ImDesc) × (cilk_internal_malloc far start.global
        (start.descs 1)
        33
        1
      ≡ (block p, g, l))
    × Conserves start.global
        (start.descs 1)
        nothing
        (λ x. covers x (bucket_sizes (size_to_bucket 33)) p)
        g
        l
cilk_internal_malloc-Conserves_example =
    cilk_internal_malloc-Conserves far far-IsFresh start.global (start.descs 1) 33 1 (omega arith)
      arena-IsSound.pool arena-IsSound.global_listed (arena-IsSound.local_listed 1 (omega arith))
      (omega (arith, start_small))

-- Eight free blocks of 2048 bytes are all that a worker keeps.
abbrev full_desc : ImDesc
full_desc = record init_im_buckets {
  buckets = λ i.
      if i == 6
      then record (init_im_buckets.buckets 6) {
        free_list = 0x1000 ∷ 0x2000 ∷ 0x3000 ∷ 0x4000 ∷ 0x5000 ∷ 0x6000 ∷ 0x7000 ∷ 0x8000 ∷ [];
        free_list_size = 8;
      }
      else init_im_buckets.buckets i;
}

full_desc-IsListed : IsListed full_desc
unfolding init_im_buckets
full_desc-IsListed k h = ground arith

full_desc-length : length (full_desc.buckets (size_to_bucket 2000)).free_list + 1 < 20
unfolding init_im_buckets size_to_bucket_from bucket_sizes
full_desc-length = omega arith

cilk_internal_free-Conserves_example :
    (g' : ImGlobal) × (l' : ImDesc) × (cilk_internal_free 20 start.global full_desc 0x9000 2000 1
      ≡ some (g', l'))
    × Conserves start.global full_desc
        (λ x. covers x (bucket_sizes (size_to_bucket 2000)) 0x9000)
        nothing
        g'
        l'
    × (length (l'.buckets (size_to_bucket 2000)).free_list
        ≤ (full_desc.buckets (size_to_bucket 2000)).free_list_limit)
cilk_internal_free-Conserves_example =
    cilk_internal_free-Conserves start.global full_desc 0x9000 2000 1 20 (omega arith)
      arena-IsSound.pool arena-IsSound.global_listed full_desc-IsListed full_desc-length

-- A worker with eight free blocks of 2048 bytes ends, when there is one chunk.
abbrev one_chunk : ImGlobal
one_chunk = record start.global {
  im_pool = record start.global.im_pool {
    mem_begin = 4096;
    mem_end = 4096 + chunk_size;
    mem_list = λ i. 4096;
    mem_list_index = 0;
    allocated = chunk_size;
  };
}

one_chunk-IsPool : IsPool one_chunk.im_pool
unfolding start cilk_internal_malloc_global_init
one_chunk-IsPool = record {
  bounds = omega arith;
  index = omega arith;
  listed = omega arith;
  some_place = omega arith;
}

one_chunk-good : assert_global_pool one_chunk.im_pool ≡ true
unfolding start cilk_internal_malloc_global_init assert_global_pool
one_chunk-good = refl

init-good : (k : ℕ) → assert_bucket (init_im_buckets.buckets k) ≡ true
unfolding init_im_buckets assert_bucket
init-good k = ground arith

full_desc-good : (k : ℕ) → k < num_buckets → assert_bucket (full_desc.buckets k) ≡ true
unfolding init_im_buckets assert_bucket bucket_capacity
full_desc-good k h = elim (ℕ_discrete k 6) [
  | yes e ↦ rw e refl
  | no e ↦ let other : (k == 6) ≡ false = ground (arith, e) in rw other (init-good k)
]

full_desc-short : (k : ℕ) → k < num_buckets → length (full_desc.buckets k).free_list ≤ 20
unfolding init_im_buckets
full_desc-short k h = ground arith

cilk_internal_malloc_per_worker_terminate_lem_example :
    (g' : ImGlobal) × (l' : ImDesc) × (cilk_internal_malloc_per_worker_terminate 20 one_chunk
        full_desc
      ≡ some (g', l'))
    × Conserves one_chunk full_desc nothing nothing g' l'
    × ((k : ℕ) → k < num_buckets → (l'.buckets k).free_list ≡ [])
cilk_internal_malloc_per_worker_terminate_lem_example =
    cilk_internal_malloc_per_worker_terminate_lem 20 one_chunk full_desc one_chunk-IsPool
      arena-IsSound.global_listed full_desc-IsListed full_desc-short one_chunk-good full_desc-good
