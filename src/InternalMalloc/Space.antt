-- ===== src/InternalMalloc/Space.antt =====
-- Which bytes the blocks, the free lists and the chunks of the allocator take up.
use cheetah.Base.{
  ℕ, ◌+◌, ◌-◌, ◌%◌, ◌^◌, ◌≤◌, ◌<◌, ◌≡◌, arith, ltb, leb, ◌&&◌, if◌then◌else◌, List, [], ◌∷◌, sum_of,
}
use cheetah.InternalMalloc.{
  ImBucket, ImDesc, ImPool, ImGlobal, System, num_buckets, bucket_sizes, chunk_size,
}

-- How often the block of `size` bytes at `p` has the byte `x`.
unfoldable pub covers : ℕ → ℕ → ℕ → ℕ
covers x size p = if leb p x && ltb x (p + size) then 1 else 0

pub covers-le : (x size p : ℕ) → covers x size p ≤ 1
unfolding covers
covers-le x size p = ground arith

-- A block is cut off.
pub covers_cut :
    (x begin end size : ℕ)
    → begin + size ≤ end
    → covers x (end - begin) begin
      ≡ covers x size begin + covers x (end - (begin + size)) (begin + size)
unfolding covers
covers_cut x begin end size h = ground arith

-- How often the blocks of a list, each of `size` bytes, have the byte.
abbrev pub spaces : ℕ → ℕ → List ℕ → ℕ
spaces x size [] = 0
spaces x size (p ∷ ps) = covers x size p + spaces x size ps

abbrev pub bucket_space : ℕ → ℕ → ImBucket → ℕ
bucket_space x i bucket = spaces x (bucket_sizes i) bucket.free_list

-- How often the free lists have it.
abbrev pub listed : ℕ → ImDesc → ℕ
listed x desc = sum_of (bucket_space x) num_buckets desc.buckets

-- How many chunks there are, and how often they have it.
abbrev pub chunks : ImPool → ℕ
chunks pool = (pool.mem_list_index + 1) % 2 ^ 32

abbrev pub chunk_space : ℕ → ℕ → ℕ → ℕ
chunk_space x i p = covers x chunk_size p

abbrev pub owned : ℕ → ImPool → ℕ
owned x pool = sum_of (chunk_space x) (chunks pool) pool.mem_list

-- How often the rest of the chunk in use has it.
abbrev pub available : ℕ → ImPool → ℕ
available x pool = covers x (pool.mem_end - pool.mem_begin) pool.mem_begin

-- What the global part of the allocator has to give.
abbrev pub free_space : ℕ → ImGlobal → ℕ
free_space x g = available x g.im_pool + listed x g.im_desc

-- No two chunks overlap.
abbrev pub IsApart : ImPool → Type 0
IsApart pool = (x : ℕ) → owned x pool ≤ 1

-- The system gives no memory that it gave before.
abbrev pub IsFresh : System → Type 0
IsFresh system = (pool : ImPool) (x : ℕ) → 0 < covers x chunk_size (system pool) → owned x pool ≡ 0

-- The chunk in use lies in bounds, and the list of chunks has room for their number.
pub record IsPool (pool : ImPool) : Type 0 where
  pub bounds : pool.mem_begin ≤ pool.mem_end
  pub index : pool.mem_list_index < 2 ^ 32
  pub listed : chunks pool ≤ pool.mem_list_size
  pub some_place : 0 < pool.mem_list_size
