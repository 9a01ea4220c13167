-- ===== src/InternalMalloc/Steps.antt =====
-- All workers with their free lists and the global part: each step is one request of one worker.
-- The lock on the global part makes a batch one step, and the rest of a request touches only the
-- worker's own lists.
use cheetah.Base.{
  sum_of-zero, total_of, total_of-zero, ℕ, ◌+◌, ◌≤◌, ◌<◌, ◌≡◌, refl, arith, update, update_self,
  update_ne, ℕ_discrete, length, List, [], ◌∷◌, ◌++◌, ◌^◌, ap, sym, ◌∙◌, some, sum_of,
  sum_of-update, total_of-update, some_eq,
}
use cheetah.Base.Int.{pos, pos_part, neg_part, ◌+ℤ◌}
use cheetah.InternalMalloc.{
  ImDesc, ImGlobal, System, bucket_sizes, size_to_bucket, init_im_buckets,
  cilk_internal_malloc_global_init,
}
use cheetah.InternalMalloc.Blocks.{IsListed, IsBalanced}
use cheetah.InternalMalloc.Check.{worker_bytes, workers_total, free_bytes}
use cheetah.InternalMalloc.Release.{cilk_internal_free-Conserves}
use cheetah.InternalMalloc.Requests.{Conserves, nothing}
use cheetah.InternalMalloc.Serve.{cilk_internal_malloc-Conserves}
use cheetah.InternalMalloc.Space.{
  covers, listed, chunks, owned, free_space, IsApart, IsFresh, IsPool, chunk_space,
}
use cheetah.InternalMalloc.Workers.{
  Memory, block, from_system, null, cilk_internal_malloc, cilk_internal_free,
}

-- A block in use: the size that was asked for, and where it is.
pub record Piece : Type 0 where
  pub size : ℕ
  pub at : ℕ

abbrev pub piece_space : ℕ → Piece → ℕ
piece_space x b = covers x (bucket_sizes (size_to_bucket b.size)) b.at

-- How often the blocks in use have the byte.
abbrev pub held_space : ℕ → List Piece → ℕ
held_space x [] = 0
held_space x (b ∷ bs) = piece_space x b + held_space x bs

pub record Arena : Type 0 where
  pub global : ImGlobal
  pub descs : ℕ → ImDesc
  pub held : List Piece

abbrev pub desc_space : ℕ → ℕ → ImDesc → ℕ
desc_space x i desc = listed x desc

-- After a request of worker `w`.
abbrev pub served : Arena → ℕ → ImGlobal → ImDesc → List Piece → Arena
served s w g l held = record { global = g; descs = update s.descs w l; held = held }

unfoldable pub start : Arena
start = record {
  global = cilk_internal_malloc_global_init;
  descs = λ w. init_im_buckets;
  held = [];
}

held_space-append :
    (x : ℕ) (bs cs : List Piece) → held_space x (bs ++ cs) ≡ held_space x bs + held_space x cs
held_space-append x [] cs = omega arith
held_space-append x (b ∷ bs) cs = omega (arith, held_space-append x bs cs)

address : Memory → ℕ
address (block p) = p
address from_system = 0
address null = 0

address_eq : (p q : ℕ) → block p ≡ block q → p ≡ q
unfolding address
address_eq p q e = ap address e

init-IsListed : IsListed init_im_buckets
unfolding init_im_buckets
init-IsListed k h = refl

init-listed : (x : ℕ) → listed x init_im_buckets ≡ 0
unfolding init_im_buckets sum_of
init-listed x = refl

init-worker_bytes : worker_bytes init_im_buckets ≡ pos 0
unfolding init_im_buckets worker_bytes sum_of total_of ◌+ℤ◌ bucket_sizes
init-worker_bytes = refl

init-bytes :
    (free_bytes init_im_buckets ≡ 0)
    × (pos_part init_im_buckets.used ≡ 0)
    × (neg_part init_im_buckets.used ≡ 0)
unfolding init_im_buckets sum_of bucket_sizes
init-bytes = (refl, refl, refl)

covers_none : (x p : ℕ) → covers x 0 p ≡ 0
unfolding covers
covers_none x p = ground arith

owned_none : (x : ℕ) → sum_of (chunk_space x) 0 (λ i. 0) ≡ 0
unfolding sum_of
owned_none x = refl

more : (x a b : ℕ) → a + b + 0 ≡ b + a
more x a b = omega arith

less :
    (x : ℕ) (before after : List Piece) (all : ℕ) (b : Piece)
    → all ≡ held_space x (before ++ (b ∷ after))
    → held_space x (before ++ after) + piece_space x b ≡ all + 0
less x before after all b e =
    omega (arith, held_space-append x before after, held_space-append x before (b ∷ after))

module _ (system : System) (n : ℕ) where
  -- A worker allocates, while fewer than 2 ^ 22 - 128 chunks are in use, or frees with the size that
  -- it asked for.
  pub data Step : Arena → Arena → Type 0 where
    allocated :
        (s : Arena) (w size tag p : ℕ) (g : ImGlobal) (l : ImDesc)
        → w < n
        → size ≤ 2048
        → chunks s.global.im_pool + 128 < 2 ^ 22
        → cilk_internal_malloc system s.global (s.descs w) size tag ≡ (block p, g, l)
        → Step s (served s w g l (record { size = size; at = p } ∷ s.held))
    freed :
        (s : Arena) (w tag fuel : ℕ) (before after : List Piece) (b : Piece) (g : ImGlobal)
        (l : ImDesc)
        → w < n
        → b.size ≤ 2048
        → s.held ≡ before ++ (b ∷ after)
        → length ((s.descs w).buckets (size_to_bucket b.size)).free_list + 1 < fuel
        → cilk_internal_free fuel s.global (s.descs w) b.at b.size tag ≡ some (g, l)
        → Step s (served s w g l (before ++ after))

  pub data Reaches : Arena → Arena → Type 0 where
    here : (s : Arena) → Reaches s s
    next : (s t r : Arena) → Reaches s t → Step t r → Reaches s r

  -- No byte is in two places, and the accounts are right.
  pub record IsSound (s : Arena) : Type 0 where
    pub pool : IsPool s.global.im_pool
    pub apart : IsApart s.global.im_pool
    pub global_listed : IsListed s.global.im_desc
    pub local_listed : (w : ℕ) → w < n → IsListed (s.descs w)
    pub space :
        (x : ℕ)
        → held_space x s.held + sum_of (desc_space x) n s.descs + free_space x s.global
          ≤ owned x s.global.im_pool
    pub balance : IsBalanced s.global
    pub account :
        pos_part s.global.im_desc.used + neg_part (workers_total n s.descs)
        ≡ neg_part s.global.im_desc.used + pos_part (workers_total n s.descs)

  served-IsSound :
      (s : Arena) (w : ℕ) (g : ImGlobal) (l : ImDesc) (given taken : ℕ → ℕ) (held : List Piece)
      → w < n
      → IsSound s
      → Conserves s.global (s.descs w) given taken g l
      → ((x : ℕ) → held_space x held + given x ≡ held_space x s.held + taken x)
      → IsSound (served s w g l held)
  served-IsSound s w g l given taken held h b c e = record {
    pool = c.pool;
    apart = c.apart b.apart;
    global_listed = c.global_listed;
    local_listed = λ v k. elim (ℕ_discrete w v) [
      | yes same ↦
          let here : update s.descs w l v ≡ l = rw same (update_self s.descs v l) in
          rw here c.local_listed
      | no other ↦ rw (update_ne s.descs w v l other) (b.local_listed v k)
    ];
    space =
        λ x. omega (arith, b.space x, c.space x, e x, sum_of-update (desc_space x) n w s.descs l h);
    balance = c.balance b.balance;
    account = omega (arith, b.account, c.account, total_of-update worker_bytes n w s.descs l h);
  }

  module _ (fresh : IsFresh system) where
    pub Step-IsSound : {s r : Arena} → Step s r → IsSound s → IsSound r
    Step-IsSound (allocated s w size tag p g l h fits small e) b =
        let (p', g', l', run, c) =
          cilk_internal_malloc-Conserves system fresh s.global (s.descs w) size tag fits b.pool
            b.global_listed (b.local_listed w h) (omega (arith, small)) in
        let same : (block p, g, l) ≡ (block p', g', l') = sym e ∙ run in
        let same_p : p ≡ p' = address_eq p p' (ap (λ (r : Memory × ImGlobal × ImDesc). r.0) same) in
        let same_g : g ≡ g' = ap (λ (r : Memory × ImGlobal × ImDesc). r.1) same in
        let same_l : l ≡ l' = ap (λ (r : Memory × ImGlobal × ImDesc). r.2) same in
        served-IsSound s w g l nothing (λ x. covers x (bucket_sizes (size_to_bucket size)) p)
          (record { size = size; at = p } ∷ s.held) h b (rw (same_p, same_g, same_l) c)
          (λ x. more x (covers x (bucket_sizes (size_to_bucket size)) p) (held_space x s.held))
    Step-IsSound (freed s w tag fuel before after b0 g l h fits at enough e) b =
        let (g', l', run, c, short) =
          cilk_internal_free-Conserves s.global (s.descs w) b0.at b0.size tag fuel fits b.pool
            b.global_listed (b.local_listed w h) enough in
        let same : (g, l) ≡ (g', l') = some_eq (sym e ∙ run) in
        let same_g : g ≡ g' = ap (λ (r : ImGlobal × ImDesc). r.0) same in
        let same_l : l ≡ l' = ap (λ (r : ImGlobal × ImDesc). r.1) same in
        served-IsSound s w g l (λ x. piece_space x b0) nothing (before ++ after) h b
          (rw (same_g, same_l) c)
          (λ x. less x before after (held_space x s.held) b0 (ap (held_space x) at))

    pub Reaches-IsSound : {s r : Arena} → Reaches s r → IsSound s → IsSound r
    Reaches-IsSound (here s) b = b
    Reaches-IsSound (next s t r h k) b = Step-IsSound k (Reaches-IsSound h b)

  pub start-IsSound : IsSound start
  unfolding start cilk_internal_malloc_global_init
  start-IsSound =
      let zero_bytes = total_of-zero worker_bytes n start.descs (λ w. init-worker_bytes) in
      record {
        pool = record {
          bounds = omega arith;
          index = omega arith;
          listed = omega arith;
          some_place = omega arith;
        };
        apart = λ x. rw (owned_none x) (omega arith);
        global_listed = init-IsListed;
        local_listed = λ w h. init-IsListed;
        space = λ x.
            let lists = sum_of-zero (desc_space x) n start.descs (λ w h. init-listed x) in
            omega (arith, lists, init-listed x, covers_none x 0);
        balance = omega (arith, init-bytes);
        account = omega (arith, ap pos_part zero_bytes, ap neg_part zero_bytes, init-bytes);
      }
