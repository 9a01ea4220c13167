-- ===== src/Pedigree/Arithmetic.antt =====
-- The arithmetic of the random numbers of runtime/pedigree-internal.h.
use cheetah.Base.{ℕ, zero, suc, ◌+◌, ◌*◌, ◌%◌, ◌<◌, ◌≡◌, arith}
use cheetah.Pedigree.{
  u64_mod, dprng_prime, dprng_swap_halves, dprng_mix_rounds, dprng_mix, dprng_mix_mod_p,
  dprng_sum_mod_p,
}

-- For `a` and `b` below the prime, the sum is `(a + b) % p`, although `a + b` may wrap.
pub dprng_sum_mod_p-eq-mod :
    (a b : ℕ) → a < dprng_prime → b < dprng_prime → dprng_sum_mod_p a b ≡ (a + b) % dprng_prime
unfolding dprng_sum_mod_p
dprng_sum_mod_p-eq-mod a b h k = ground arith

dprng_swap_halves-lt : (x : ℕ) → x < u64_mod → dprng_swap_halves x < u64_mod
unfolding dprng_swap_halves
dprng_swap_halves-lt x h = omega arith

dprng_mix_rounds-lt : (n x : ℕ) → x < u64_mod → dprng_mix_rounds n x < u64_mod
unfolding dprng_mix_rounds
dprng_mix_rounds-lt zero x h = h
dprng_mix_rounds-lt (suc n) x h =
    dprng_mix_rounds-lt n _ (dprng_swap_halves-lt (x * (2 * x + 1) % u64_mod) (omega arith))

-- For a 64-bit seed the mixed value is a residue modulo the prime.
pub dprng_mix_mod_p-lt : (x : ℕ) → x < u64_mod → dprng_mix_mod_p x < dprng_prime
unfolding dprng_mix_mod_p dprng_mix
dprng_mix_mod_p-lt x h = ground (arith, dprng_mix_rounds-lt 4 x h)
