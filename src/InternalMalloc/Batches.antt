-- ===== src/InternalMalloc/Batches.antt =====
-- Batches of blocks between the free lists of a worker and the global ones.
use cheetah.Base.{
  [], ◌∷◌, ℕ, zero, suc, ◌+◌, ◌*◌, ◌≤◌, ◌<◌, ◌≡◌, refl, arith, length, ◌^◌, ◌∙◌, List, ◌-◌, ap,
}
use cheetah.Base.Int.{pos_part, neg_part, int_laws, ◌-ℤ◌, pos}
use cheetah.InternalMalloc.{
  ImBucket, ImGlobal, System, num_buckets, bucket_sizes, chunk_size, add_to_free_list,
  global_im_alloc,
}
use cheetah.InternalMalloc.Blocks.{
  IsListed, IsBalanced, global_im_alloc-Gives, listed-update, update-IsListed, free_bytes-update,
}
use cheetah.InternalMalloc.Space.{
  spaces, chunks, owned, free_space, IsApart, IsFresh, IsPool, covers,
}
use cheetah.InternalMalloc.Workers.{allocate_loop, give_back, free_loop}

-- `n` blocks of `size` bytes moved from the global part to the bucket.
pub record Fills (g : ImGlobal) (b : ImBucket) (size n : ℕ) (g' : ImGlobal) (b' : ImBucket)
    : Type 0 where
  pub pool : IsPool g'.im_pool
  pub fewer : chunks g.im_pool ≤ chunks g'.im_pool
  pub few : chunks g'.im_pool ≤ chunks g.im_pool + n
  pub space :
      (x : ℕ)
      → spaces x size b'.free_list + free_space x g' + owned x g.im_pool
        ≤ spaces x size b.free_list + free_space x g + owned x g'.im_pool
  pub apart : IsApart g.im_pool → IsApart g'.im_pool
  pub listed : IsListed g'.im_desc
  pub balance : IsBalanced g → IsBalanced g'
  pub used :
      pos_part g'.im_desc.used + neg_part g.im_desc.used
      ≡ pos_part g.im_desc.used + n * size + neg_part g'.im_desc.used
  pub longer : length b'.free_list ≡ length b.free_list + n
  pub counted : b'.free_list_size ≡ b.free_list_size + n
  pub wasted : b'.wasted ≡ b.wasted

pub allocate_loop-Fills :
    (system : System)
    → IsFresh system
    → (k : ℕ) → k < num_buckets
    → bucket_sizes k ≤ chunk_size
    → (n : ℕ) (g : ImGlobal) (b : ImBucket) → IsPool g.im_pool
    → IsListed g.im_desc
    → chunks g.im_pool + n < 2 ^ 31
    → Fills g b
        (bucket_sizes k)
        n
        (allocate_loop system (bucket_sizes k) k n g b).0
        (allocate_loop system (bucket_sizes k) k n g b).1
unfolding allocate_loop add_to_free_list
allocate_loop-Fills system fresh k l fits zero g b h right small = record {
  pool = h;
  fewer = omega arith;
  few = omega arith;
  space = λ x. omega arith;
  apart = λ a. a;
  listed = right;
  balance = λ e. e;
  used = omega arith;
  longer = omega arith;
  counted = omega arith;
  wasted = refl;
}
allocate_loop-Fills system fresh k l fits (suc n) g b h right small =
    let r = global_im_alloc system g (bucket_sizes k) k in
    let o = global_im_alloc-Gives system fresh g k l h right (omega arith) fits in
    let rest =
      allocate_loop-Fills system fresh k l fits n r.1 (add_to_free_list b r.0) o.pool o.listed
        (omega (arith, o.one_more)) in
    let more : suc n * bucket_sizes k ≡ n * bucket_sizes k + bucket_sizes k = grind arith in
    record {
      pool = rest.pool;
      fewer = omega (arith, o.fewer, rest.fewer);
      few = omega (arith, o.one_more, rest.few);
      space = λ x. omega (arith, o.space x, rest.space x);
      apart = λ a. rest.apart (o.apart a);
      listed = rest.listed;
      balance = λ e. rest.balance (o.balance e);
      used = omega (arith, o.used, rest.used, more);
      longer = omega (arith, rest.longer);
      counted = omega (arith, rest.counted);
      wasted = rest.wasted;
    }

-- `m` blocks of `size` bytes moved from the bucket to the global part.
pub record Spills (g : ImGlobal) (b : ImBucket) (size m : ℕ) (g' : ImGlobal) (b' : ImBucket)
    : Type 0 where
  pub pool : g'.im_pool ≡ g.im_pool
  pub space :
      (x : ℕ)
      → spaces x size b'.free_list + free_space x g' ≡ spaces x size b.free_list + free_space x g
  pub listed : IsListed g'.im_desc
  pub balance : IsBalanced g → IsBalanced g'
  pub used :
      pos_part g'.im_desc.used + m * size + neg_part g.im_desc.used
      ≡ pos_part g.im_desc.used + neg_part g'.im_desc.used
  pub shorter : length b'.free_list + m ≡ length b.free_list
  pub counted : b'.free_list_size + m ≡ b.free_list_size
  pub wasted : b'.wasted ≡ b.wasted
  pub limit : b'.free_list_limit ≡ b.free_list_limit

Spills-refl : (g : ImGlobal) (b : ImBucket) (size : ℕ) → IsListed g.im_desc → Spills g b size 0 g b
Spills-refl g b size right = record {
  pool = refl;
  space = λ x. refl;
  listed = right;
  balance = λ e. e;
  used = omega arith;
  shorter = omega arith;
  counted = omega arith;
  wasted = refl;
  limit = refl;
}

Spills-trans :
    {g₁ g₂ g₃ : ImGlobal} {b₁ b₂ b₃ : ImBucket} (size m n : ℕ)
    → Spills g₁ b₁ size m g₂ b₂
    → Spills g₂ b₂ size n g₃ b₃
    → Spills g₁ b₁ size (m + n) g₃ b₃
Spills-trans size m n s t =
    let sum : (m + n) * size ≡ m * size + n * size = grind arith in
    record {
      pool = t.pool ∙ s.pool;
      space = λ x. t.space x ∙ s.space x;
      listed = t.listed;
      balance = λ e. t.balance (s.balance e);
      used = omega (arith, s.used, t.used, sum);
      shorter = omega (arith, s.shorter, t.shorter);
      counted = omega (arith, s.counted, t.counted);
      wasted = t.wasted ∙ s.wasted;
      limit = t.limit ∙ s.limit;
    }

-- One block goes back.
give_back-Spills :
    (g : ImGlobal) (b : ImBucket) (k : ℕ)
    → k < num_buckets
    → (p : ℕ) (rest : List ℕ) → b.free_list ≡ p ∷ rest
    → b.free_list_size ≡ length b.free_list
    → (b' : ImBucket) → b'.free_list ≡ rest
    → b'.free_list_size ≡ b.free_list_size - 1
    → b'.wasted ≡ b.wasted
    → b'.free_list_limit ≡ b.free_list_limit
    → IsListed g.im_desc
    → Spills g b (bucket_sizes k) 1 (give_back (bucket_sizes k) k g p) b'
unfolding give_back add_to_free_list
give_back-Spills g b k l p rest e c b' e' c' w m right =
    let desc = g.im_desc in
    let bucket : ImBucket = add_to_free_list (desc.buckets k) p in
    let n : length b.free_list ≡ suc (length rest) = ap length e in
    let n' : length b'.free_list ≡ length rest = ap length e' in
    let more : (desc.buckets k).free_list_size * bucket_sizes k + bucket_sizes k
        ≡ bucket.free_list_size * bucket_sizes k =
      grind arith in
    record {
      pool = refl;
      space = λ x.
          let s : spaces x (bucket_sizes k) b.free_list
              ≡ covers x (bucket_sizes k) p + spaces x (bucket_sizes k) rest =
            ap (spaces x (bucket_sizes k)) e in
          let s' : spaces x (bucket_sizes k) b'.free_list ≡ spaces x (bucket_sizes k) rest =
            ap (spaces x (bucket_sizes k)) e' in
          omega (arith, listed-update x k desc bucket l, s, s');
      listed = update-IsListed k desc bucket right (omega (arith, right k l));
      balance = λ q. omega (int_laws, q, free_bytes-update k desc bucket l, more);
      used = omega int_laws;
      shorter = omega arith;
      counted = omega arith;
      wasted = w;
      limit = m;
    }

pub free_loop-Spills :
    (k : ℕ)
    → k < num_buckets
    → (n : ℕ) (blocks : List ℕ) (g : ImGlobal) (b : ImBucket) → b.free_list ≡ blocks
    → b.free_list_size ≡ length b.free_list
    → IsListed g.im_desc
    → (m : ℕ) × Spills g b
        (bucket_sizes k)
        m
        (free_loop (bucket_sizes k) k n blocks g b).0
        (free_loop (bucket_sizes k) k n blocks g b).1
      × (m ≤ n)
      × (n ≤ length blocks → m ≡ n)
      × (length blocks ≤ n → m ≡ length blocks)
unfolding free_loop
free_loop-Spills k l zero blocks g b e c right =
    (0, Spills-refl g b (bucket_sizes k) right, omega arith, λ h. refl, λ h. omega arith)
free_loop-Spills k l (suc n) [] g b e c right =
    (0, Spills-refl g b (bucket_sizes k) right, omega arith, λ h. absurd (omega arith), λ h. refl)
free_loop-Spills k l (suc n) (p ∷ rest) g b e c right =
    let b1 : ImBucket = record b {
      free_list = rest;
      free_list_size = b.free_list_size - 1;
      allocated = b.allocated -ℤ pos 1;
    } in
    let one = give_back-Spills g b k l p rest e c b1 refl refl refl refl right in
    let (m, s, h, f, f') =
      free_loop-Spills k l n rest (give_back (bucket_sizes k) k g p) b1 refl
        (omega (arith, one.counted, one.shorter)) one.listed in
    (
      1 + m,
      Spills-trans (bucket_sizes k) 1 m one s,
      omega arith,
      λ q. omega (arith, f (omega arith)),
      λ q. omega (arith, f' (omega arith)),
    )
