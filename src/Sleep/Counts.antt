-- ===== src/Sleep/Counts.antt =====
-- Workers that leave the index and come back: the disengaged ones have its last places.
use cheetah.Base.{◌<◌, ◌≡◌, ◌≤◌, ◌-◌, ◌+◌, update, Bool-cases, ltb, inl, arith, inr}
use cheetah.Sleep.{GlobalState, swap_worker_with_target, swap_if_before, swap_if_after, ℕ}
use cheetah.Sleep.Swap.{IsInverse, swapped_index, swap-IsInverse}

-- What a worker in the work-stealing loop counts as.
pub data Status : Type 0 where
  active : Status
  sentinel : Status
  disengaged : Status

unfoldable pub is_disengaged : Status → ℕ
is_disengaged active = 0
is_disengaged sentinel = 0
is_disengaged disengaged = 1

unfoldable pub is_sentinel : Status → ℕ
is_sentinel active = 0
is_sentinel sentinel = 1
is_sentinel disengaged = 0

-- The `gone` disengaged workers have the last places of the index.
pub record IsIndexed (g : GlobalState) (gone : ℕ) (status : ℕ → Status) : Type 0 where
  pub inverse : IsInverse g
  pub last :
      (w : ℕ)
      → w < g.nworkers
      → is_disengaged (status w) ≡ 1
      → g.nworkers ≤ g.worker_to_index w + gone
  pub first :
      (w : ℕ)
      → w < g.nworkers
      → is_disengaged (status w) ≡ 0
      → g.worker_to_index w + gone < g.nworkers

module _ (g : GlobalState) (gone self : ℕ) (status : ℕ → Status) (st : Status)
    (h : self < g.nworkers) where
  pub leave-IsIndexed :
      IsIndexed g gone status
      → is_disengaged (status self) ≡ 0
      → is_disengaged st ≡ 1
      → IsIndexed
          (swap_if_before g self (g.nworkers - (gone + 1)))
          (gone + 1)
          (update status self st)
  unfolding swap_if_before swap_worker_with_target
  leave-IsIndexed v out in' =
      let target = g.nworkers - (gone + 1) in
      let place = v.first self h out in
      elim (Bool-cases (ltb (g.worker_to_index self) target)) [
        | inl before ↦ rw before (record {
          inverse = swap-IsInverse g self target v.inverse h (omega arith);
          last = λ w a b.
              let c = swapped_index g self target w v.inverse h (omega arith) a in
              ground (arith, c, v.last w a, v.first w a);
          first = λ w a b.
              let c = swapped_index g self target w v.inverse h (omega arith) a in
              ground (arith, c, v.last w a, v.first w a);
        })
        | inr after ↦ rw after (record {
          inverse = v.inverse;
          last = λ w a b. ground (arith, v.last w a, v.first w a);
          first = λ w a b.
              ground
                (arith, v.last w a, v.first w a, v.inverse.worker w a, v.inverse.worker self h);
        })
      ]

  pub return-IsIndexed :
      IsIndexed g gone status
      → is_disengaged (status self) ≡ 1
      → is_disengaged st ≡ 0
      → gone ≤ g.nworkers
      → IsIndexed (swap_if_after g self (g.nworkers - gone)) (gone - 1) (update status self st)
  unfolding swap_if_after swap_worker_with_target
  return-IsIndexed v out in' most =
      let target = g.nworkers - gone in
      let place = v.last self h out in
      let bound = v.inverse.index_bound self h in
      elim (Bool-cases (ltb target (g.worker_to_index self))) [
        | inl behind ↦ rw behind (record {
          inverse = swap-IsInverse g self target v.inverse h (omega arith);
          last = λ w a b.
              let c = swapped_index g self target w v.inverse h (omega arith) a in
              ground (arith, c, v.last w a, v.first w a);
          first = λ w a b.
              let c = swapped_index g self target w v.inverse h (omega arith) a in
              ground (arith, c, v.last w a, v.first w a);
        })
        | inr there ↦ rw there (record {
          inverse = v.inverse;
          last = λ w a b.
              ground
                (arith, v.last w a, v.first w a, v.inverse.worker w a, v.inverse.worker self h);
          first = λ w a b. ground (arith, v.last w a, v.first w a);
        })
      ]
