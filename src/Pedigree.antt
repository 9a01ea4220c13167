-- ===== src/Pedigree.antt =====
-- Pedigrees and the deterministic random numbers drawn from them: runtime/pedigree-internal.h and
-- runtime/pedigree_lib.cpp. Every value is a uint64_t, with its wrap-around written out.
mod Arithmetic
mod Frames
mod Examples
use cheetah.Base.{
  ℕ, zero, suc, ◌+◌, ◌-◌, ◌*◌, ◌/◌, ◌%◌, ◌^◌, ◌||◌, List, [], ◌∷◌, ltb, leb, if◌then◌else◌, Option,
  none, some, ◌>>=◌,
}

abbrev pub u64_mod : ℕ
u64_mod = 2 ^ 64

-- `(uint64_t)(-59)`
abbrev pub dprng_prime : ℕ
dprng_prime = 2 ^ 64 - 59

-- The shift left drops the upper half; the two halves share no bit, so `|` is `+`.
unfoldable pub dprng_swap_halves : ℕ → ℕ
dprng_swap_halves x = x / 2 ^ 32 + x * 2 ^ 32 % u64_mod

-- `n` rounds of the loop.
unfoldable pub dprng_mix_rounds : ℕ → ℕ → ℕ
dprng_mix_rounds zero x = x
dprng_mix_rounds (suc n) x = dprng_mix_rounds n (dprng_swap_halves (x * (2 * x + 1) % u64_mod))

unfoldable pub dprng_mix : ℕ → ℕ
dprng_mix x = dprng_mix_rounds 4 x

-- `DPRNG_PRIME & -(x >= DPRNG_PRIME)` is the prime or 0.
unfoldable pub dprng_mix_mod_p : ℕ → ℕ
dprng_mix_mod_p x = let y = dprng_mix x in y - (if leb dprng_prime y then dprng_prime else 0)

unfoldable pub dprng_sum_mod_p : ℕ → ℕ → ℕ
dprng_sum_mod_p a b =
    let z = (a + b) % u64_mod in
    if ltb z a || leb dprng_prime z then (z + u64_mod - dprng_prime) % u64_mod else z

-- The table of 4096 entries that a seed determines.
pub record Dprng : Type 0 where
  pub m_array : ℕ → ℕ
  pub m_x : ℕ

abbrev pub m_array_size : ℕ
m_array_size = 4096

-- An entry that is read; `none` is an access outside of the table.
abbrev pub entry : Dprng → ℕ → Option ℕ
entry d i = if ltb i m_array_size then some (d.m_array i) else none

unfoldable pub init_dprng : ℕ → Dprng
init_dprng seed = record {
  m_array = λ i. if ltb i m_array_size then dprng_mix_mod_p ((seed + i) % u64_mod) else 0;
  m_x = dprng_mix_mod_p ((seed + 4096) % u64_mod);
}

-- `pedigree` is the list that starts at the frame's own node and follows the parent pointers: a
-- node's rank does not change while a descendant can reach it. A rank stays far below 2 ^ 63.
pub record PedigreeFrame : Type 0 where
  pub pedigree : List ℕ
  pub rank : ℕ
  pub dprng_dotproduct : ℕ
  pub dprng_depth : ℕ

-- `root_frame` after `__pedigree_init`
unfoldable pub pedigree_init : Dprng → PedigreeFrame
pedigree_init d = record { pedigree = 0 ∷ []; rank = 0; dprng_dotproduct = d.m_x; dprng_depth = 0 }

-- The frame with its rank advanced, and the frame of a spawned child, with the entries that they read.
abbrev pub advanced : PedigreeFrame → ℕ → PedigreeFrame
advanced f m = record f {
  rank = f.rank + 1;
  dprng_dotproduct = dprng_sum_mod_p f.dprng_dotproduct m;
}

abbrev pub spawned : PedigreeFrame → ℕ → PedigreeFrame
spawned f m = record {
  pedigree = f.rank ∷ f.pedigree;
  rank = 0;
  dprng_dotproduct = dprng_sum_mod_p f.dprng_dotproduct m;
  dprng_depth = f.dprng_depth + 1;
}

-- Also the body of `__cilkrts_extend_sync`.
unfoldable pub bump_worker_rank : Dprng → PedigreeFrame → Option PedigreeFrame
bump_worker_rank d f = entry d f.dprng_depth >>= (λ m. some (advanced f m))

-- `__cilkrts_extend_spawn`: the parent's frame and the child's, afterwards
unfoldable pub extend_spawn : Dprng → PedigreeFrame → Option (PedigreeFrame × PedigreeFrame)
extend_spawn d parent =
    entry d (parent.dprng_depth + 1)
    >>= (λ m. entry d parent.dprng_depth >>= (λ m'. some (advanced parent m', spawned parent m)))

-- `__cilkrts_get_dprand`: the frame afterwards and the number
unfoldable pub get_dprand : Dprng → PedigreeFrame → Option (PedigreeFrame × ℕ)
get_dprand d f = bump_worker_rank d f >>= (λ g. some (g, dprng_mix_mod_p g.dprng_dotproduct))

-- `__cilkrts_get_pedigree`: the leaf's rank before the ranks of its ancestors
unfoldable pub get_pedigree : PedigreeFrame → List ℕ
get_pedigree f = f.rank ∷ f.pedigree
