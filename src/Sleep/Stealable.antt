-- ===== src/Sleep/Stealable.antt =====
-- What thieves read in the counts and in the index, in every state of the workers.
use cheetah.Base.{refl, zero, suc, ℕ, sum_of, ◌≡◌, ◌+◌, ◌<◌, arith, ◌^◌}
use cheetah.Base.Int.{int_laws, pos}
use cheetah.Sleep.Counts.{Status, active, sentinel, disengaged, is_disengaged, is_sentinel}
use cheetah.Sleep.Steps.{
  Crew, Reaches, start, one_disengaged, one_sentinel, count_disengaged, count_sentinels, IsCounted,
  Reaches-IsCounted, start-IsCounted,
}
use cheetah.Sleep.Thief.{get_worker_counts}

unfoldable pub is_active : Status → ℕ
is_active active = 1
is_active sentinel = 0
is_active disengaged = 0

abbrev pub one_active : ℕ → Status → ℕ
one_active i st = is_active st

abbrev pub count_active : Crew → ℕ
count_active s = sum_of one_active s.global.nworkers s.status

statuses_sum :
    (n : ℕ) (f : ℕ → Status)
    → sum_of one_active n f + sum_of one_sentinel n f + sum_of one_disengaged n f ≡ n
unfolding sum_of is_disengaged is_sentinel is_active
statuses_sum zero f = refl
statuses_sum (suc n) f = let rest = statuses_sum n f in let st = f n in ground arith

-- A hypothesis on the state: fewer than 2 ^ 31 workers have come to it from the start.
module _ (n : ℕ) (small : n < 2 ^ 31) (s : Crew) (reaches : Reaches (start n) s) where
  counts : IsCounted s
  counts = Reaches-IsCounted reaches (start-IsCounted n small)

  -- In every state that the workers come to, with fewer than 2 ^ 31 of them, the three numbers that
  -- get_worker_counts takes from the packed word are those of the workers that are active, sentinels and disengaged, and
  -- they sum to the number of workers.
  pub get_worker_counts-eq :
      let c = get_worker_counts s.global.disengaged_sentinel s.global.nworkers in
      (c.active ≡ pos (count_active s))
      × (c.sentinels ≡ count_sentinels s)
      × (c.disengaged ≡ count_disengaged s)
      × (count_active s + count_sentinels s + count_disengaged s ≡ s.global.nworkers)
  unfolding get_worker_counts
  get_worker_counts-eq =
      let all = statuses_sum s.global.nworkers s.status in
      let v = counts in
      (
        omega (int_laws, all, v.counts, v.few),
        omega (arith, all, v.counts, v.few),
        omega (arith, all, v.counts, v.few),
        all,
      )
