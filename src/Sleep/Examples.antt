-- ===== src/Sleep/Examples.antt =====
-- The theorems about sleeping thieves at concrete states.
use cheetah.Base.{refl, none, some, arith, ◌≡◌, ℕ, ◌%◌, ◌/◌, List, ◌++◌, ◌+◌, ◌<◌, ◌≤◌, ◌^◌, ◌*◌}
use cheetah.Base.Int.{pos}
use cheetah.Sleep.{
  GlobalState, init_workers, disengage_worker, add_to_sentinels, request_more_thieves,
  swap_worker_with_target,
}
use cheetah.Sleep.Counts.{sentinel, disengaged}
use cheetah.Sleep.Elapsed.{get_scaled_elapsed_lem}
use cheetah.Sleep.Requests.{take_requests, minimum, take_requests-request_more_thieves}
use cheetah.Sleep.Runs.{Turns, woken, turned, found, worked, fails-eq-sentinel}
use cheetah.Sleep.Stealable.{get_worker_counts-eq, count_active}
use cheetah.Sleep.Steps.{
  Crew, Step, Reaches, here, next, moved, start, grew_idle, waited, count_disengaged,
  count_sentinels,
}
use cheetah.Sleep.Thief.{
  get_worker_counts, get_scaled_elapsed, History, Effect, max_fails, new_history, init_fails,
  maybe_reengage_workers, after_work,
}
use cheetah.Sleep.Turns.{stealing, working, counted, added, removed}

-- Of three workers the first waits for work, and the second becomes a sentinel.
abbrev one_waits : Crew
one_waits = moved (start 3) (disengage_worker (start 3).global 0) 0 disengaged

abbrev two_left : Crew
two_left = moved one_waits (add_to_sentinels one_waits.global 1) 1 sentinel

first_step : Step (start 3) one_waits
unfolding start init_workers
first_step = waited (start 3) 0 (omega arith) refl

second_step : Step one_waits two_left
unfolding start init_workers disengage_worker cheetah.Sleep.swap_if_before
    cheetah.Sleep.add_to_disengaged cheetah.Sleep.fetch_add swap_worker_with_target
second_step = grew_idle one_waits 1 (ground arith) refl

two_left_reached : Reaches (start 3) two_left
two_left_reached = next one_waits two_left (next (start 3) one_waits here first_step) second_step

get_worker_counts-eq_example :
    let c = get_worker_counts two_left.global.disengaged_sentinel two_left.global.nworkers in
    (c.active ≡ pos (count_active two_left))
    × (c.sentinels ≡ count_sentinels two_left)
    × (c.disengaged ≡ count_disengaged two_left)
    × (count_active two_left + count_sentinels two_left + count_disengaged two_left
        ≡ two_left.global.nworkers)
get_worker_counts-eq_example = get_worker_counts-eq 3 (omega arith) two_left two_left_reached

take_requests-request_more_thieves_example :
    let woken = minimum 3 ((init_workers 4).nworkers / 2) in
    (take_requests woken (request_more_thieves (init_workers 4) 3) ≡ some (init_workers 4))
    × ((n : ℕ) → woken < n → take_requests n (request_more_thieves (init_workers 4) 3) ≡ none)
unfolding init_workers
take_requests-request_more_thieves_example =
    take_requests-request_more_thieves (init_workers 4) 3 (omega arith) refl (omega arith)
      (omega arith)

-- A thief that was woken as a sentinel finds work that takes 100,000 cycles.
abbrev woken_history : History
woken_history = new_history (init_fails 4 1).0

abbrev found_work : History × List Effect
found_work = maybe_reengage_workers 1 4 1 0 woken_history

abbrev done : History × List Effect
done = after_work found_work.0 100000

turns : Turns 1 4 8192 4 1 stealing done.0 (((init_fails 4 1).1 ++ found_work.1) ++ done.1)
turns =
    turned working stealing found_work.0 done.0 ((init_fails 4 1).1 ++ found_work.1) done.1
      (turned stealing working woken_history found_work.0 (init_fails 4 1).1 found_work.1 woken
        (found 1 0 woken_history (λ h. (omega arith, omega arith))))
      (worked 100000 found_work.0)

fails-eq-sentinel_example :
    (added (((init_fails 4 1).1 ++ found_work.1) ++ done.1)
      ≡ removed (((init_fails 4 1).1 ++ found_work.1) ++ done.1) + counted stealing done.0.fails)
    × (done.0.fails % 4 ≡ 0)
    × (done.0.fails ≤ max_fails 8192 + 124)
    × (1 ≤ done.0.recent_sentinel_count / 4)
fails-eq-sentinel_example =
    fails-eq-sentinel 1 4 8192 4 (omega arith) refl (omega arith) 1 stealing done.0
      (((init_fails 4 1).1 ++ found_work.1) ++ done.1) (omega arith) turns

get_scaled_elapsed_lem_example :
    (get_scaled_elapsed 5000000 % 4 ≡ 0)
    × (get_scaled_elapsed 5000000 < 2 ^ 16)
    × (5000000 < 2 ^ 25 → get_scaled_elapsed 5000000 ≡ 5000000 / 2048 * 4)
    × (get_scaled_elapsed (5000000 + 2 ^ 25) ≡ get_scaled_elapsed 5000000)
get_scaled_elapsed_lem_example = get_scaled_elapsed_lem 5000000
