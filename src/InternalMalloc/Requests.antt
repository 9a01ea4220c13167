-- ===== src/InternalMalloc/Requests.antt =====
-- Batches and requests of a worker: what they move between the worker and the global part.
use cheetah.Base.{
  ℕ, ◌+◌, ◌*◌, ◌/◌, ◌≤◌, ◌<◌, ◌≡◌, refl, arith, update, update_self, length, ◌^◌, ap, ◌∙◌,
}
use cheetah.Base.Int.{pos_part, neg_part}
use cheetah.InternalMalloc.{
  ImBucket, ImDesc, ImGlobal, System, num_buckets, bucket_sizes, bucket_capacity, chunk_size,
}
use cheetah.InternalMalloc.Accounts.{worker_bytes-update}
use cheetah.InternalMalloc.Batches.{Fills, Spills, allocate_loop-Fills, free_loop-Spills}
use cheetah.InternalMalloc.Blocks.{IsListed, IsBalanced, listed-update, update-IsListed}
use cheetah.InternalMalloc.Check.{worker_bytes}
use cheetah.InternalMalloc.Space.{
  listed, chunks, owned, free_space, IsApart, IsFresh, IsPool, spaces,
}
use cheetah.InternalMalloc.Workers.{allocate_loop, im_allocate_batch, free_loop, im_free_batch}

abbrev pub nothing : ℕ → ℕ
nothing x = 0

-- From `g` and `l` to `g'` and `l'` bytes only move between the global part and the worker, but for
-- those given to the worker and those taken from it, and both accounts follow.
pub record Conserves (g : ImGlobal) (l : ImDesc) (given taken : ℕ → ℕ) (g' : ImGlobal) (l' : ImDesc)
    : Type 0 where
  pub pool : IsPool g'.im_pool
  pub fewer : chunks g.im_pool ≤ chunks g'.im_pool
  pub few : chunks g'.im_pool ≤ chunks g.im_pool + 128
  pub space :
      (x : ℕ)
      → taken x + listed x l' + free_space x g' + owned x g.im_pool
        ≤ given x + listed x l + free_space x g + owned x g'.im_pool
  pub apart : IsApart g.im_pool → IsApart g'.im_pool
  pub global_listed : IsListed g'.im_desc
  pub local_listed : IsListed l'
  pub balance : IsBalanced g → IsBalanced g'
  pub account :
      pos_part g'.im_desc.used
        + neg_part g.im_desc.used
        + pos_part (worker_bytes l)
        + neg_part (worker_bytes l')
      ≡ neg_part g'.im_desc.used
        + pos_part g.im_desc.used
        + neg_part (worker_bytes l)
        + pos_part (worker_bytes l')

pub Conserves-refl :
    (g : ImGlobal) (l : ImDesc)
    → IsPool g.im_pool
    → IsListed g.im_desc
    → IsListed l
    → Conserves g l nothing nothing g l
Conserves-refl g l pool right local_right = record {
  pool = pool;
  fewer = omega arith;
  few = omega arith;
  space = λ x. omega arith;
  apart = λ a. a;
  global_listed = right;
  local_listed = local_right;
  balance = λ e. e;
  account = omega arith;
}

-- The pool stays the same in the first step.
pub Conserves-trans :
    {g₁ g₂ g₃ : ImGlobal} {l₁ l₂ l₃ : ImDesc} {given taken : ℕ → ℕ}
    → g₂.im_pool ≡ g₁.im_pool
    → Conserves g₁ l₁ given nothing g₂ l₂
    → Conserves g₂ l₂ nothing taken g₃ l₃
    → Conserves g₁ l₁ given taken g₃ l₃
Conserves-trans e c d =
    let n = ap chunks e in
    record {
      pool = d.pool;
      fewer = omega (arith, d.fewer);
      few = omega (arith, d.few);
      space = λ x. let o = ap (owned x) e in omega (arith, c.space x, d.space x);
      apart = λ a. d.apart (c.apart a);
      global_listed = d.global_listed;
      local_listed = d.local_listed;
      balance = λ b. d.balance (c.balance b);
      account = omega (arith, c.account, d.account);
    }

pub bucket_sizes-le : (k : ℕ) → bucket_sizes k ≤ chunk_size
unfolding bucket_sizes
bucket_sizes-le k = ground arith

pub bucket_capacity_bounds : (k : ℕ) → (8 ≤ bucket_capacity k) × (bucket_capacity k ≤ 256)
unfolding bucket_capacity
bucket_capacity_bounds k = (ground arith, ground arith)

Fills-Conserves :
    (g g' : ImGlobal) (l : ImDesc) (k n : ℕ) (b b' : ImBucket)
    → k < num_buckets
    → n ≤ 128
    → IsListed l
    → Fills g (l.buckets k) (bucket_sizes k) n g' b
    → b'.free_list ≡ b.free_list
    → b'.free_list_size ≡ b.free_list_size
    → b'.wasted ≡ b.wasted
    → Conserves g l nothing nothing g' (record l { buckets = update l.buckets k b' })
Fills-Conserves g g' l k n b b' h small local_right f e c w =
    let l' : ImDesc = record l { buckets = update l.buckets k b' } in
    let len : length b'.free_list ≡ length b.free_list = ap length e in
    let right : b'.free_list_size ≡ length b'.free_list =
      omega (arith, f.longer, f.counted, local_right k h) in
    let bytes : b'.free_list_size * bucket_sizes k
        ≡ (l.buckets k).free_list_size * bucket_sizes k + n * bucket_sizes k =
      rw (c, f.counted) (grind arith) in
    let waste : b'.wasted ≡ (l.buckets k).wasted = w ∙ f.wasted in
    let waste_pos = ap pos_part waste in
    let waste_neg = ap neg_part waste in
    record {
      pool = f.pool;
      fewer = f.fewer;
      few = omega (arith, f.few);
      space = λ x.
          let s : spaces x (bucket_sizes k) b'.free_list ≡ spaces x (bucket_sizes k) b.free_list =
            ap (spaces x (bucket_sizes k)) e in
          omega (arith, f.space x, listed-update x k l b' h, s);
      apart = f.apart;
      global_listed = f.listed;
      local_listed = update-IsListed k l b' local_right right;
      balance = f.balance;
      account =
          omega (arith, f.used, worker_bytes-update k l l' b' h refl, bytes, waste_pos, waste_neg);
    }

Spills-Conserves :
    (g g' : ImGlobal) (l : ImDesc) (k m : ℕ) (b : ImBucket)
    → k < num_buckets
    → IsPool g.im_pool
    → IsListed l
    → Spills g (l.buckets k) (bucket_sizes k) m g' b
    → Conserves g l nothing nothing g' (record l { buckets = update l.buckets k b })
Spills-Conserves g g' l k m b h pool local_right f =
    let l' : ImDesc = record l { buckets = update l.buckets k b } in
    let right : b.free_list_size ≡ length b.free_list =
      omega (arith, f.shorter, f.counted, local_right k h) in
    let bytes : b.free_list_size * bucket_sizes k + m * bucket_sizes k
        ≡ (l.buckets k).free_list_size * bucket_sizes k =
      rw (← f.counted) (grind arith) in
    let waste_pos = ap pos_part f.wasted in
    let waste_neg = ap neg_part f.wasted in
    record {
      pool = rw f.pool pool;
      fewer = rw f.pool (omega arith);
      few = rw f.pool (omega arith);
      space = λ x.
          let o : owned x g'.im_pool ≡ owned x g.im_pool = ap (owned x) f.pool in
          omega (arith, f.space x, listed-update x k l b h, o);
      apart = λ a. rw f.pool a;
      global_listed = f.listed;
      local_listed = update-IsListed k l b local_right right;
      balance = f.balance;
      account =
          omega (arith, f.used, worker_bytes-update k l l' b h refl, bytes, waste_pos, waste_neg);
    }

pub im_allocate_batch-Conserves :
    (system : System)
    → IsFresh system
    → (g : ImGlobal) (l : ImDesc) (k : ℕ) → k < num_buckets
    → IsPool g.im_pool
    → IsListed g.im_desc
    → IsListed l
    → chunks g.im_pool + 128 < 2 ^ 31
    → Conserves g l nothing nothing
        (im_allocate_batch system g l (bucket_sizes k) k).0
        (im_allocate_batch system g l (bucket_sizes k) k).1
      × (length ((im_allocate_batch system g l (bucket_sizes k) k).1.buckets k).free_list
          ≡ length (l.buckets k).free_list + bucket_capacity k / 2)
unfolding im_allocate_batch
im_allocate_batch-Conserves system fresh g l k h pool right local_right small =
    let n = bucket_capacity k / 2 in
    let bounds = bucket_capacity_bounds k in
    let r = allocate_loop system (bucket_sizes k) k n g (l.buckets k) in
    let f =
      allocate_loop-Fills system fresh k h (bucket_sizes-le k) n g (l.buckets k) pool right
        (omega arith) in
    (
      Fills-Conserves g r.0 l k n r.1 _ h (omega arith) local_right f refl refl refl,
      rw (update_self l.buckets k _) f.longer,
    )

-- A batch leaves the worker, or all that it has, if that is less.
pub im_free_batch-Conserves :
    (g : ImGlobal) (l : ImDesc) (k : ℕ)
    → k < num_buckets
    → IsPool g.im_pool
    → IsListed g.im_desc
    → IsListed l
    → Conserves g l nothing nothing
        (im_free_batch g l (bucket_sizes k) k).0
        (im_free_batch g l (bucket_sizes k) k).1
      × ((m : ℕ) × (length ((im_free_batch g l (bucket_sizes k) k).1.buckets k).free_list + m
            ≡ length (l.buckets k).free_list)
          × (bucket_capacity k / 2 ≤ length (l.buckets k).free_list → m ≡ bucket_capacity k / 2)
          × (length (l.buckets k).free_list ≤ bucket_capacity k / 2
              → m ≡ length (l.buckets k).free_list))
      × (((im_free_batch g l (bucket_sizes k) k).1.buckets k).free_list_limit
          ≡ (l.buckets k).free_list_limit)
      × ((im_free_batch g l (bucket_sizes k) k).0.im_pool ≡ g.im_pool)
unfolding im_free_batch
im_free_batch-Conserves g l k h pool right local_right =
    let n = bucket_capacity k / 2 in
    let bucket = l.buckets k in
    let (m, s, a, b, c) =
      free_loop-Spills k h n bucket.free_list g bucket refl (local_right k h) right in
    let r = free_loop (bucket_sizes k) k n bucket.free_list g bucket in
    (
      Spills-Conserves g r.0 l k m r.1 h pool local_right s,
      (m, rw (update_self l.buckets k r.1) s.shorter, b, c),
      rw (update_self l.buckets k r.1) s.limit,
      s.pool,
    )
