-- ===== src/Sleep/Swap.antt =====
-- `swap_worker_with_target`: the two maps of the index stay inverse to each other.
use cheetah.Base.{◌<◌, ◌≡◌, arith, ◌⊎◌, ◌≢◌, ℕ_discrete, inl, inr, ap, sym, ◌∙◌}
use cheetah.Sleep.{GlobalState, swap_worker_with_target, ℕ}

-- The maps are inverse to each other on the workers.
pub record IsInverse (g : GlobalState) : Type 0 where
  pub index_bound : (w : ℕ) → w < g.nworkers → g.worker_to_index w < g.nworkers
  pub worker_bound : (i : ℕ) → i < g.nworkers → g.index_to_worker i < g.nworkers
  pub worker : (w : ℕ) → w < g.nworkers → g.index_to_worker (g.worker_to_index w) ≡ w
  pub index : (i : ℕ) → i < g.nworkers → g.worker_to_index (g.index_to_worker i) ≡ i

-- Where a worker stands after a swap.
pub swapped_index :
    (g : GlobalState) (self target w : ℕ)
    → IsInverse g
    → self < g.nworkers
    → target < g.nworkers
    → w < g.nworkers
    → ((w ≡ self) × ((swap_worker_with_target g self target).worker_to_index w ≡ target))
      ⊎ ((w ≢ self)
          × (g.worker_to_index w ≡ target)
          × ((swap_worker_with_target g self target).worker_to_index w ≡ g.worker_to_index self))
      ⊎ ((w ≢ self)
          × (g.worker_to_index w ≢ target)
          × ((swap_worker_with_target g self target).worker_to_index w ≡ g.worker_to_index w))
unfolding swap_worker_with_target
swapped_index g self target w v a b c = elim (ℕ_discrete w self) [
  | yes e ↦ inl (e, ground arith)
  | no e ↦ elim (ℕ_discrete (g.worker_to_index w) target) [
    | yes f ↦
        let there : g.index_to_worker target ≡ w = rw (← f) (v.worker w c) in
        inr (inl (e, f, ground (arith, there)))
    | no f ↦
        let there : g.index_to_worker target ≢ w =
          λ h. f (ap g.worker_to_index (sym h) ∙ v.index target b) in
        inr (inr (e, f, ground (arith, there)))
  ]
]

pub swap-IsInverse :
    (g : GlobalState) (self target : ℕ)
    → IsInverse g
    → self < g.nworkers
    → target < g.nworkers
    → IsInverse (swap_worker_with_target g self target)
unfolding swap_worker_with_target
swap-IsInverse g self target v a b = record {
  index_bound = λ w h. ground (arith, v.index_bound w h, v.index_bound self a);
  worker_bound = λ i h. ground (arith, v.worker_bound i h, v.worker_bound target b);
  worker = λ w h. ground (arith, v.worker w h, v.worker self a, v.index target b);
  index = λ i h. ground (arith, v.index i h, v.worker self a, v.index target b);
}
