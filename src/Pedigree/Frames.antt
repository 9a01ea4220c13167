-- ===== src/Pedigree/Frames.antt =====
-- What the frames of runtime/pedigree_ext.cpp and runtime/pedigree_lib.cpp keep.
use cheetah.Base.{
  ℕ, ◌+◌, ◌*◌, ◌%◌, ◌<◌, ◌≡◌, refl, List, [], ◌∷◌, arith, length, ap, some, lt→ltb, ◌∙◌,
}
use cheetah.Pedigree.{
  u64_mod, m_array_size, entry, advanced, spawned, dprng_prime, dprng_mix_mod_p, dprng_sum_mod_p,
  Dprng, init_dprng, PedigreeFrame, pedigree_init, bump_worker_rank, extend_spawn, get_dprand,
  get_pedigree,
}
use cheetah.Pedigree.Arithmetic.{dprng_sum_mod_p-eq-mod, dprng_mix_mod_p-lt}

-- The dot product of a pedigree with the table, the leaf's rank first: the root's rank counts
-- from 0, the rank of each spawned level from 1.
unfoldable pub dot : Dprng → List ℕ → ℕ
dot d [] = d.m_x
dot d (r ∷ []) = d.m_x
dot d (r ∷ s ∷ []) = d.m_x + r * d.m_array 0
dot d (r ∷ s ∷ t ∷ l) = dot d (s ∷ t ∷ l) + (r + 1) * d.m_array (length l + 1)

abbrev pub IsResidues : Dprng → Type 0
IsResidues d = (d.m_x < dprng_prime) × ((i : ℕ) → i < m_array_size → d.m_array i < dprng_prime)

-- The frame's dot product is that of its pedigree, and its depth the number of its ancestors.
pub record IsDotted (d : Dprng) (f : PedigreeFrame) : Type 0 where
  pub depth : length f.pedigree ≡ f.dprng_depth + 1
  pub dotted : f.dprng_dotproduct ≡ dot d (get_pedigree f) % dprng_prime

-- Every entry of the table made from a 64-bit seed is a residue.
pub init_dprng-IsResidues : (seed : ℕ) → IsResidues (init_dprng seed)
unfolding init_dprng
init_dprng-IsResidues seed = (
  dprng_mix_mod_p-lt _ (omega arith),
  λ i a. ground (arith, dprng_mix_mod_p-lt ((seed + i) % u64_mod)),
)

-- The root frame.
pub pedigree_init-IsDotted : (d : Dprng) → IsResidues d → IsDotted d (pedigree_init d)
unfolding pedigree_init get_pedigree dot
pedigree_init-IsDotted d h = omega arith

-- One more at the leaf adds the table's entry at the leaf's depth.
dot-bump :
    (d : Dprng) (r n : ℕ) (p : List ℕ)
    → length p ≡ n + 1
    → dot d ((r + 1) ∷ p) ≡ dot d (r ∷ p) + d.m_array n
unfolding dot
dot-bump d r n [] e = absurd (omega arith)
dot-bump d r n (s ∷ []) e = let z : n ≡ 0 = omega arith in rw z (omega arith)
dot-bump d r n (s ∷ t ∷ l) e = let z : n ≡ length l + 1 = omega arith in rw z (omega arith)

-- A spawned leaf starts one entry beyond its parent.
dot-spawn :
    (d : Dprng) (r n : ℕ) (p : List ℕ)
    → length p ≡ n + 1
    → dot d (0 ∷ r ∷ p) ≡ dot d (r ∷ p) + d.m_array (n + 1)
unfolding dot
dot-spawn d r n [] e = absurd (omega arith)
dot-spawn d r n (s ∷ l) e = let z : n ≡ length l = omega arith in rw z (omega arith)

-- A sum of a reduced dot product and an entry is the reduced sum.
sum-dot :
    (d : Dprng) (x n : ℕ)
    → IsResidues d
    → n < m_array_size
    → dprng_sum_mod_p (x % dprng_prime) (d.m_array n) ≡ (x + d.m_array n) % dprng_prime
sum-dot d x n h small =
    omega
      (arith, dprng_sum_mod_p-eq-mod (x % dprng_prime) (d.m_array n) (omega arith) (h.1 n small))

entry-some : (d : Dprng) (i : ℕ) → i < m_array_size → entry d i ≡ some (d.m_array i)
entry-some d i h = rw (lt→ltb i m_array_size h) refl

-- When the table holds residues, the depth of the frame lies in the table, and the dot product of the
-- frame is that of its pedigree and its depth the number of its ancestors, the rank is advanced and
-- both are so again.
pub bump_worker_rank-IsDotted :
    (d : Dprng) (f : PedigreeFrame)
    → IsResidues d
    → IsDotted d f
    → f.dprng_depth < m_array_size
    → (g : PedigreeFrame) × (bump_worker_rank d f ≡ some g)
      × (g.rank ≡ f.rank + 1)
      × (g.pedigree ≡ f.pedigree)
      × IsDotted d g
unfolding bump_worker_rank get_pedigree
bump_worker_rank-IsDotted d f h v small = (
  advanced f (d.m_array f.dprng_depth),
  rw (entry-some d f.dprng_depth small) refl,
  refl,
  refl,
  record {
    depth = v.depth;
    dotted =
        rw (v.dotted, sum-dot d _ f.dprng_depth h small, dot-bump d f.rank _ f.pedigree v.depth)
          refl;
  },
)

-- A spawn reads no entry outside of the table and leaves the parent frame and the child frame with
-- the dot product and the depth of their pedigrees, and the child's pedigree is a rank 0 below the
-- parent's before (a table of residues, a child's depth below 4096 and a frame that has both
-- before).
pub extend_spawn-IsDotted :
    (d : Dprng) (f : PedigreeFrame)
    → IsResidues d
    → IsDotted d f
    → f.dprng_depth + 1 < m_array_size
    → (parent : PedigreeFrame) × (child : PedigreeFrame) × (extend_spawn d f ≡ some (parent, child))
      × IsDotted d parent
      × IsDotted d child
      × (get_pedigree child ≡ 0 ∷ get_pedigree f)
unfolding extend_spawn get_pedigree
extend_spawn-IsDotted d f h v small =
    let small' : f.dprng_depth < m_array_size = omega arith in
    (
      advanced f (d.m_array f.dprng_depth),
      spawned f (d.m_array (f.dprng_depth + 1)),
      rw (entry-some d (f.dprng_depth + 1) small, entry-some d f.dprng_depth small') refl,
      record {
        depth = v.depth;
        dotted =
            rw
              (v.dotted, sum-dot d _ f.dprng_depth h small', dot-bump d f.rank _ f.pedigree v.depth)
              refl;
      },
      record {
        depth = omega (arith, v.depth);
        dotted =
            rw
              (
                v.dotted,
                sum-dot d _ (f.dprng_depth + 1) h small,
                dot-spawn d f.rank _ f.pedigree v.depth,
              )
              refl;
      },
      refl,
    )

-- The number that __cilkrts_get_dprand returns is the mixed dot product of the pedigree after the
-- draw, no entry outside of the table is read, and the frame, with its rank advanced, still has
-- the dot product and the depth of its pedigree (a table of residues, a depth below 4096 and a
-- frame that has both before).
pub get_dprand-eq-dot :
    (d : Dprng) (f : PedigreeFrame)
    → IsResidues d
    → IsDotted d f
    → f.dprng_depth < m_array_size
    → (g : PedigreeFrame) × (get_dprand d f
        ≡ some (g, dprng_mix_mod_p (dot d ((f.rank + 1) ∷ f.pedigree) % dprng_prime)))
      × (g.rank ≡ f.rank + 1)
      × (g.pedigree ≡ f.pedigree)
      × IsDotted d g
unfolding get_dprand get_pedigree
get_dprand-eq-dot d f h v small =
    let (g, run, rank, pedigree, w) = bump_worker_rank-IsDotted d f h v small in
    (
      g,
      rw run (
          ap (λ x. some (g, dprng_mix_mod_p x))
            (w.dotted ∙ ap (λ l. dot d l % dprng_prime) (rw (rank, pedigree) refl))),
      rank,
      pedigree,
      w,
    )
