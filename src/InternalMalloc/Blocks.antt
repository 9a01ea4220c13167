-- ===== src/InternalMalloc/Blocks.antt =====
-- A block from the global free list or from a chunk.
use cheetah.Base.{
  ℕ, suc, ◌+◌, ◌-◌, ◌*◌, ◌≤◌, ◌<◌, ◌≡◌, refl, arith, sum_of-update, update, update_self, update_ne,
  length, List, [], ◌∷◌, some, none, ℕ_discrete, inl, inr, ◌⊎◌, ◌^◌, ap,
}
use cheetah.Base.Int.{int_laws, pos_part, neg_part}
use cheetah.InternalMalloc.{
  ImBucket, ImDesc, ImGlobal, System, num_buckets, bucket_sizes, chunk_size, remove_from,
  remove_from_free_list, global_im_alloc, block_or_carve,
}
use cheetah.InternalMalloc.Check.{free_bytes, bucket_bytes}
use cheetah.InternalMalloc.Global.{carve-Carves}
use cheetah.InternalMalloc.Space.{
  covers, spaces, bucket_space, listed, chunks, owned, free_space, IsApart, IsFresh, IsPool,
}

-- The counts of the free lists are right.
abbrev pub IsListed : ImDesc → Type 0
IsListed desc =
    (k : ℕ) → k < num_buckets → (desc.buckets k).free_list_size ≡ length (desc.buckets k).free_list

-- Every byte that the system gave is used, on a free list, in the chunk in use or wasted.
abbrev pub IsBalanced : ImGlobal → Type 0
IsBalanced g =
    pos_part g.im_desc.used
      + free_bytes g.im_desc
      + (g.im_pool.mem_end - g.im_pool.mem_begin)
      + g.im_pool.wasted
    ≡ g.im_pool.allocated + neg_part g.im_desc.used

-- One bucket of a descriptor is written.
pub listed-update :
    (x k : ℕ) (desc : ImDesc) (b : ImBucket)
    → k < num_buckets
    → listed x (record desc { buckets = update desc.buckets k b })
        + spaces x (bucket_sizes k) (desc.buckets k).free_list
      ≡ listed x desc + spaces x (bucket_sizes k) b.free_list
listed-update x k desc b h = sum_of-update (bucket_space x) num_buckets k desc.buckets b h

pub free_bytes-update :
    (k : ℕ) (desc : ImDesc) (b : ImBucket)
    → k < num_buckets
    → free_bytes (record desc { buckets = update desc.buckets k b })
        + (desc.buckets k).free_list_size * bucket_sizes k
      ≡ free_bytes desc + b.free_list_size * bucket_sizes k
free_bytes-update k desc b h = sum_of-update bucket_bytes num_buckets k desc.buckets b h

pub update-IsListed :
    (k : ℕ) (desc : ImDesc) (b : ImBucket)
    → IsListed desc
    → b.free_list_size ≡ length b.free_list
    → IsListed (record desc { buckets = update desc.buckets k b })
update-IsListed k desc b h e j l = elim (ℕ_discrete k j) [
  | yes same ↦
      let here : update desc.buckets k b j ≡ b = rw same (update_self desc.buckets j b) in rw here e
  | no other ↦ rw (update_ne desc.buckets k j b other) (h j l)
]

-- A block of `size` bytes at `p` comes out of the global part.
pub record Gives (before : ImGlobal) (size p : ℕ) (after : ImGlobal) : Type 0 where
  pub pool : IsPool after.im_pool
  pub fewer : chunks before.im_pool ≤ chunks after.im_pool
  pub one_more : chunks after.im_pool ≤ chunks before.im_pool + 1
  pub space :
      (x : ℕ)
      → covers x size p + free_space x after + owned x before.im_pool
        ≤ free_space x before + owned x after.im_pool
  pub apart : IsApart before.im_pool → IsApart after.im_pool
  pub listed : IsListed after.im_desc
  pub balance : IsBalanced before → IsBalanced after
  pub used :
      pos_part after.im_desc.used + neg_part before.im_desc.used
      ≡ pos_part before.im_desc.used + size + neg_part after.im_desc.used

-- A bucket that lost the head of its free list, with the size of its blocks.
pub record Pops (before : ImBucket) (p : ℕ) (after : ImBucket) : Type 0 where
  pub space :
      (x size : ℕ)
      → spaces x size before.free_list ≡ covers x size p + spaces x size after.free_list
  pub listed :
      before.free_list_size ≡ length before.free_list
      → (after.free_list_size ≡ length after.free_list)
        × (before.free_list_size ≡ after.free_list_size + 1)
  pub wasted : after.wasted ≡ before.wasted

remove_from-cases :
    (b : ImBucket) (blocks : List ℕ)
    → b.free_list ≡ blocks
    → (remove_from b blocks ≡ (none, b)) × (b.free_list ≡ [])
      ⊎ (p : ℕ) × (b' : ImBucket) × (remove_from b blocks ≡ (some p, b')) × Pops b p b'
unfolding remove_from
remove_from-cases b [] e = inl (refl, e)
remove_from-cases b (p ∷ rest) e = inr (
  p,
  record b { free_list = rest; free_list_size = b.free_list_size - 1 },
  refl,
  record {
    space = λ x size. ap (spaces x size) e;
    listed = λ h.
        let n : length b.free_list ≡ suc (length rest) = ap length e in (omega arith, omega arith);
    wasted = refl;
  },
)

pub remove_from_free_list-cases :
    (b : ImBucket)
    → (remove_from_free_list b ≡ (none, b)) × (b.free_list ≡ [])
      ⊎ (p : ℕ) × (b' : ImBucket) × (remove_from_free_list b ≡ (some p, b')) × Pops b p b'
remove_from_free_list-cases b = remove_from-cases b b.free_list refl

pub global_im_alloc-Gives :
    (system : System)
    → IsFresh system
    → (g : ImGlobal) (k : ℕ) → k < num_buckets
    → IsPool g.im_pool
    → IsListed g.im_desc
    → chunks g.im_pool + 1 < 2 ^ 31
    → bucket_sizes k ≤ chunk_size
    → Gives g
        (bucket_sizes k)
        (global_im_alloc system g (bucket_sizes k) k).0
        (global_im_alloc system g (bucket_sizes k) k).1
unfolding global_im_alloc block_or_carve
global_im_alloc-Gives system fresh g k l h right small fits =
    elim (remove_from_free_list-cases (g.im_desc.buckets k)) [
      | inl (e, q) ↦
          let c = carve-Carves system fresh g.im_pool (bucket_sizes k) h small fits in
          rw e (record {
            pool = c.pool;
            fewer = c.fewer;
            one_more = c.one_more;
            space = λ x. omega (arith, c.space x);
            apart = c.apart;
            listed = right;
            balance = λ b. omega (int_laws, c.bytes, b);
            used = omega int_laws;
          })
      | inr (p, b', e, o) ↦
          let counts = o.listed (right k l) in
          let bytes : bucket_sizes k + b'.free_list_size * bucket_sizes k
              ≡ (g.im_desc.buckets k).free_list_size * bucket_sizes k =
            rw counts.1 (grind arith) in
          rw e (record {
            pool = h;
            fewer = omega arith;
            one_more = omega arith;
            space =
                λ x. omega (arith, listed-update x k g.im_desc b' l, o.space x (bucket_sizes k));
            apart = λ a. a;
            listed = update-IsListed k g.im_desc b' right counts.0;
            balance = λ b. omega (int_laws, b, free_bytes-update k g.im_desc b' l, bytes);
            used = omega int_laws;
          })
    ]
