-- ===== src/InternalMalloc/Global.antt =====
-- The global part of the allocator: chunks from the system, and blocks from chunks.
use cheetah.Base.{
  ℕ, suc, ◌+◌, ◌-◌, ◌%◌, ◌^◌, ◌≤◌, ◌<◌, ◌≡◌, refl, arith, ltb, sum_of, sum_of-update_of_le,
  sum_of_congr, update, update_self, ap, inl, Bool-cases, inr,
}
use cheetah.InternalMalloc.{ImPool, System, chunk_size, extend_global_pool, carve}
use cheetah.InternalMalloc.Space.{
  covers, covers-le, chunks, chunk_space, owned, available, IsApart, IsFresh, IsPool, covers_cut,
}

-- What a chunk more does to the pool.
pub record Extends (before after : ImPool) : Type 0 where
  pub pool : IsPool after
  pub chunk : chunks after ≡ chunks before + 1
  pub more : (x : ℕ) → owned x after ≡ owned x before + available x after
  pub apart : IsApart before → IsApart after
  pub room : after.mem_end ≡ after.mem_begin + chunk_size
  pub allocated : after.allocated ≡ before.allocated + chunk_size
  pub wasted : after.wasted ≡ before.wasted

owned_one_more :
    (x n begin : ℕ) (f g : ℕ → ℕ)
    → ((i : ℕ) → i < n → g i ≡ f i)
    → sum_of (chunk_space x) (suc n) (update g n begin)
      ≡ sum_of (chunk_space x) n f + covers x chunk_size begin
unfolding sum_of
owned_one_more x n begin f g h =
    let same = sum_of_congr (chunk_space x) n g f (λ i k. ap (chunk_space x i) (h i k)) in
    let kept = sum_of-update_of_le (chunk_space x) n n g begin (omega arith) in
    rw (update_self g n begin, kept, same) refl

extend_global_pool-owned :
    (system : System) (pool : ImPool) (x : ℕ)
    → IsPool pool
    → chunks pool + 1 < 2 ^ 31
    → owned x (extend_global_pool system pool) ≡ owned x pool + covers x chunk_size (system pool)
unfolding extend_global_pool
extend_global_pool-owned system pool x h small =
    let n : (chunks pool + 1) % 2 ^ 32 ≡ suc (chunks pool) = omega arith in
    let kept = owned_one_more x (chunks pool) (system pool) pool.mem_list in
    rw n (kept _ (λ i k. ground (arith, h.listed)))

pub extend_global_pool-Extends :
    (system : System)
    → IsFresh system
    → (pool : ImPool) → IsPool pool
    → chunks pool + 1 < 2 ^ 31
    → Extends pool (extend_global_pool system pool)
unfolding extend_global_pool
extend_global_pool-Extends system fresh pool h small =
    let more = λ (x : ℕ). extend_global_pool-owned system pool x h small in
    let begin = system pool in
    let chunk : begin + chunk_size - begin ≡ chunk_size = omega arith in
    record {
      pool = record {
        bounds = omega arith;
        index = omega arith;
        listed = ground (arith, h.listed, h.some_place);
        some_place = ground (arith, h.some_place);
      };
      chunk = omega arith;
      more = λ x. rw chunk (more x);
      apart = λ a x. ground (arith, more x, a x, fresh pool x, covers-le x chunk_size begin);
      room = refl;
      allocated = refl;
      wasted = refl;
    }

-- A block of `size` bytes at `p` comes out of the pool, from the chunk in use or from a new one,
-- what was left of the old one going to waste.
pub record Carves (before : ImPool) (size p : ℕ) (after : ImPool) : Type 0 where
  pub pool : IsPool after
  pub fewer : chunks before ≤ chunks after
  pub one_more : chunks after ≤ chunks before + 1
  pub space :
      (x : ℕ)
      → covers x size p + available x after + owned x before ≤ available x before + owned x after
  pub apart : IsApart before → IsApart after
  pub bytes :
      size + (after.mem_end - after.mem_begin) + after.wasted + before.allocated
      ≡ before.mem_end - before.mem_begin + before.wasted + after.allocated

pub carve-Carves :
    (system : System)
    → IsFresh system
    → (pool : ImPool) (size : ℕ) → IsPool pool
    → chunks pool + 1 < 2 ^ 31
    → size ≤ chunk_size
    → Carves pool size (carve system pool size).0 (carve system pool size).1
unfolding carve
carve-Carves system fresh pool size h small l =
    elim (Bool-cases (ltb pool.mem_end (pool.mem_begin + size))) [
      | inl short ↦
          let left : ImPool = record pool {
            wasted = pool.wasted + (pool.mem_end - pool.mem_begin);
          } in
          let h' : IsPool left = record {
            bounds = h.bounds;
            index = h.index;
            listed = h.listed;
            some_place = h.some_place;
          } in
          let e = extend_global_pool-Extends system fresh left h' small in
          let new = extend_global_pool system left in
          rw short (record {
            pool = record {
              bounds = omega (arith, e.room);
              index = e.pool.index;
              listed = e.pool.listed;
              some_place = e.pool.some_place;
            };
            fewer = omega (arith, e.chunk);
            one_more = omega (arith, e.chunk);
            space = λ x. omega (
              arith,
              e.more x,
              covers_cut x new.mem_begin new.mem_end size (omega (arith, e.room)),
            );
            apart = e.apart;
            bytes = omega (arith, e.room, e.allocated, e.wasted, h.bounds);
          })
      | inr enough ↦
          let fits : pool.mem_begin + size ≤ pool.mem_end = ground arith in
          rw enough (record {
            pool = record {
              bounds = fits;
              index = h.index;
              listed = h.listed;
              some_place = h.some_place;
            };
            fewer = omega arith;
            one_more = omega arith;
            space = λ x. omega (arith, covers_cut x pool.mem_begin pool.mem_end size fits);
            apart = λ a. a;
            bytes = omega arith;
          })
    ]
