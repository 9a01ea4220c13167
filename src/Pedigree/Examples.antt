-- ===== src/Pedigree/Examples.antt =====
-- The theorems about pedigrees and their random numbers at concrete values.
use cheetah.Base.{ℕ, ◌+◌, ◌%◌, ◌≡◌, ◌<◌, ◌∷◌, arith, some}
use cheetah.Pedigree.{
  dprng_prime, dprng_mix_mod_p, Dprng, init_dprng, PedigreeFrame, pedigree_init, get_dprand,
  extend_spawn, get_pedigree,
}
use cheetah.Pedigree.Arithmetic.{dprng_mix_mod_p-lt}
use cheetah.Pedigree.Frames.{
  dot, IsDotted, init_dprng-IsResidues, pedigree_init-IsDotted, get_dprand-eq-dot,
  extend_spawn-IsDotted,
}

abbrev seed : ℕ
seed = 0x8c679c168e6bf733

abbrev table : Dprng
table = init_dprng seed

abbrev root : PedigreeFrame
root = pedigree_init table

dprng_mix_mod_p-lt_example : dprng_mix_mod_p seed < dprng_prime
dprng_mix_mod_p-lt_example = dprng_mix_mod_p-lt seed (omega arith)

root-IsDotted : IsDotted table root
root-IsDotted = pedigree_init-IsDotted table (init_dprng-IsResidues seed)

get_dprand-eq-dot_example :
    (g : PedigreeFrame) × (get_dprand table root
      ≡ some (g, dprng_mix_mod_p (dot table ((root.rank + 1) ∷ root.pedigree) % dprng_prime)))
    × (g.rank ≡ root.rank + 1)
    × (g.pedigree ≡ root.pedigree)
    × IsDotted table g
unfolding pedigree_init
get_dprand-eq-dot_example =
    get_dprand-eq-dot table root (init_dprng-IsResidues seed) root-IsDotted (omega arith)

extend_spawn-IsDotted_example :
    (parent : PedigreeFrame) × (child : PedigreeFrame) × (extend_spawn table root
      ≡ some (parent, child))
    × IsDotted table parent
    × IsDotted table child
    × (get_pedigree child ≡ 0 ∷ get_pedigree root)
unfolding pedigree_init
extend_spawn-IsDotted_example =
    extend_spawn-IsDotted table root (init_dprng-IsResidues seed) root-IsDotted (omega arith)
