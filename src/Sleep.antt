-- ===== src/Sleep.antt =====
-- The counts and the index of engaged and disengaged workers: runtime/global.h, runtime/global.cpp
-- and `try_to_disengage_thief` of runtime/worker_sleep.cpp. Words are native numbers with their
-- wrap-around written out; 2 ^ w - 1 stands for -1.
mod Swap
mod Counts
mod Steps
pub mod Thief
mod Popcount
mod History
mod Elapsed
mod Turns
mod Loop
mod Runs
mod Stealable
mod Requests
mod Examples
use cheetah.Base.{
  zero, suc, ℕ, ◌+◌, ◌-◌, ◌*◌, ◌/◌, ◌%◌, ◌^◌, Bool, true, false, ltb, leb, ◌==◌, if◌then◌else◌,
  update, Option, none, some, ◌&&◌,
}

-- What of `global_state` the index and the counts are.
pub record GlobalState : Type 0 where
  pub nworkers : ℕ
  pub index_to_worker : ℕ → ℕ
  pub worker_to_index : ℕ → ℕ
  pub disengaged_sentinel : ℕ
  pub disengaged_thieves : ℕ

abbrev pub get_disengaged : ℕ → ℕ
get_disengaged d = d / 2 ^ 32

abbrev pub get_sentinel : ℕ → ℕ
get_sentinel d = d % 2 ^ 32

unfoldable pub pack : ℕ → ℕ → ℕ
pack a b = a % 2 ^ 32 * 2 ^ 32 + b % 2 ^ 32

-- An atomic addition to the packed counts.
unfoldable pub fetch_add : GlobalState → ℕ → GlobalState
fetch_add g v = record g { disengaged_sentinel = (g.disengaged_sentinel + v) % 2 ^ 64 }

-- A 32-bit difference.
unfoldable pub minus_u32 : ℕ → ℕ → ℕ
minus_u32 a b = (a + 2 ^ 32 - b % 2 ^ 32) % 2 ^ 32

unfoldable pub add_to_disengaged : GlobalState → ℕ → GlobalState
add_to_disengaged g v = fetch_add g (pack v 0)

unfoldable pub add_to_sentinels : GlobalState → ℕ → GlobalState
add_to_sentinels g v = fetch_add g v

unfoldable pub init_workers : ℕ → GlobalState
init_workers n = record {
  nworkers = n;
  index_to_worker = λ i. i;
  worker_to_index = λ i. i;
  disengaged_sentinel = 0;
  disengaged_thieves = 0;
}

unfoldable pub swap_worker_with_target : GlobalState → ℕ → ℕ → GlobalState
swap_worker_with_target g self target_index =
    let self_index = g.worker_to_index self in
    let target_worker = g.index_to_worker target_index in
    record g {
      index_to_worker =
          update (update g.index_to_worker self_index target_worker) target_index self;
      worker_to_index =
          update (update g.worker_to_index target_worker self_index) self target_index;
    }

-- The last part of a critical section in which a worker leaves or comes back.
unfoldable pub swap_if_before : GlobalState → ℕ → ℕ → GlobalState
swap_if_before g self last_index =
    if ltb (g.worker_to_index self) last_index then swap_worker_with_target g self last_index else g

unfoldable pub swap_if_after : GlobalState → ℕ → ℕ → GlobalState
swap_if_after g self last_index =
    if ltb last_index (g.worker_to_index self) then swap_worker_with_target g self last_index else g

unfoldable pub disengage_worker : GlobalState → ℕ → GlobalState
disengage_worker g self =
    swap_if_before (add_to_disengaged g 1) self
      (minus_u32 g.nworkers (get_disengaged g.disengaged_sentinel + 1))

unfoldable pub reengage_worker : GlobalState → ℕ → GlobalState
reengage_worker g self =
    swap_if_after (add_to_disengaged g (2 ^ 32 - 1)) self
      (minus_u32 g.nworkers (get_disengaged g.disengaged_sentinel))

-- The first critical section of `try_to_disengage_thief`, under the lock of the index: the worker
-- leaves if the counts are still those that it has seen.
unfoldable pub try_to_leave : GlobalState → ℕ → ℕ → Option GlobalState
try_to_leave g self seen =
    let new_disengaged_sentinel =
      pack ((get_disengaged seen + 1) % 2 ^ 32) (minus_u32 (get_sentinel seen) 1) in
    if g.disengaged_sentinel == seen
    then some (
        swap_if_before (record g { disengaged_sentinel = new_disengaged_sentinel }) self
          (minus_u32 g.nworkers (get_disengaged new_disengaged_sentinel)))
    else none

-- The second one, after `thief_disengage`.
unfoldable pub come_back : GlobalState → ℕ → GlobalState
come_back g self =
    swap_if_after (fetch_add g (pack (2 ^ 32 - 1) 1)) self
      (minus_u32 g.nworkers (get_disengaged g.disengaged_sentinel))

-- A 32-bit word, read as a signed number, is positive.
abbrev pub is_positive : ℕ → Bool
is_positive x = ltb 0 x && ltb x (2 ^ 31)

-- The requests that `request_more_thieves` leaves for the thieves, in a round of its loop in which
-- no other worker interferes.
unfoldable pub request_more_thieves : GlobalState → ℕ → GlobalState
request_more_thieves g count =
    let max_to_wake = minus_u32 (g.nworkers / 2) g.disengaged_thieves in
    let to_wake = if ltb max_to_wake count && ltb count (2 ^ 31) then max_to_wake else count in
    if is_positive max_to_wake
    then record g { disengaged_thieves = (g.disengaged_thieves + to_wake) % 2 ^ 32 }
    else g

-- One look of `thief_disengage` at the requests: the value taken, or `none` while the thief waits.
unfoldable pub thief_disengage : GlobalState → Option (ℕ × GlobalState)
thief_disengage g =
    if g.disengaged_thieves == 0
    then none
    else some (g.disengaged_thieves, record g { disengaged_thieves = g.disengaged_thieves - 1 })

unfoldable pub thief_should_wait : GlobalState → Bool × GlobalState
thief_should_wait g =
    if g.disengaged_thieves == 0
    then (true, g)
    else (false, record g { disengaged_thieves = g.disengaged_thieves - 1 })

unfoldable pub wake_thieves : GlobalState → GlobalState
wake_thieves g = record g { disengaged_thieves = minus_u32 g.nworkers 1 }

unfoldable pub sleep_thieves : GlobalState → GlobalState
sleep_thieves g = record g { disengaged_thieves = 0 }

unfoldable pub wake_all_disengaged : GlobalState → GlobalState
wake_all_disengaged g = record g { disengaged_thieves = 2 ^ 31 - 1 }

-- The generator of random numbers, and the draw of a victim among the stealable workers.
unfoldable pub update_rand_state : ℕ → ℕ
update_rand_state state = (state * 1103515245 + 12345) % 2 ^ 32

unfoldable pub get_rand : ℕ → ℕ
get_rand state = state / 2 ^ 16

unfoldable pub stealable : GlobalState → ℕ
stealable g = minus_u32 g.nworkers (get_disengaged g.disengaged_sentinel)

unfoldable pub draw : GlobalState → ℕ → ℕ
draw g rand_state = g.index_to_worker (get_rand rand_state % stealable g)

-- The victim and the next state of the generator, within `fuel` draws.
unfoldable pub choose_victim : GlobalState → ℕ → ℕ → ℕ → Option (ℕ × ℕ)
choose_victim g self zero rand_state = none
choose_victim g self (suc fuel) rand_state =
    let again = choose_victim g self fuel (update_rand_state rand_state) in
    if draw g rand_state == self
    then again
    else some (draw g rand_state, update_rand_state rand_state)
