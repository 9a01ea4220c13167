-- ===== src/Sleep/Thief.antt =====
-- What one thief does between its attempts to steal: runtime/efficiency.h, runtime/worker_sleep.cpp
-- and the loop of `worker_scheduler` in runtime/scheduler.cpp. Values that the thief loads from the
-- state that it shares with others are arguments; what it does to that state is a list of effects.
use cheetah.Base.{
  zero, suc, ◌>>=◌, not, List, ◌==◌, ◌&&◌, ◌^◌, suc, none, ◌++◌, [], leb, ◌||◌, update, ◌∷◌, some,
  true, false,
}
use cheetah.Base.Int.{ℤ, pos, pos_part, ◌-ℤ◌, ltb_ℤ, ◌+ℤ◌}
use cheetah.Sleep.{
  get_disengaged, get_sentinel, minus_u32, ℕ, Bool, ◌*◌, if◌then◌else◌, ltb, ◌/◌, ◌+◌, ◌-◌, ◌%◌,
  Option,
}

abbrev pub history_length : ℕ
history_length = 32

abbrev pub sentinel_count_history_size : ℕ
sentinel_count_history_size = 4

abbrev pub sentinel_threshold : ℕ
sentinel_threshold = 128

abbrev pub attempts : ℕ
attempts = 4

abbrev pub history_threshold : ℕ
history_threshold = 3 * history_length / 4

abbrev pub disengage_threshold : ℕ
disengage_threshold = history_threshold * sentinel_threshold

-- The numbers of `history_t`.
pub record History : Type 0 where
  pub inefficient_history : ℕ
  pub efficient_history : ℕ
  pub sentinel_count_history_tail : ℕ
  pub recent_sentinel_count : ℕ
  pub fails : ℕ
  pub sample_threshold : ℕ
  pub sentinel_count_history : ℕ → ℕ

unfoldable pub new_history : ℕ → History
new_history fails = record {
  inefficient_history = 0;
  efficient_history = 0;
  sentinel_count_history_tail = 0;
  recent_sentinel_count = sentinel_count_history_size;
  fails = fails;
  sample_threshold = sentinel_threshold;
  sentinel_count_history = λ i. if i == 0 then 1 else 0;
}

pub data Effect : Type 0 where
  sentinel_added : Effect
  sentinel_removed : Effect
  thieves_requested : ℕ → Effect
  away : Effect
  nap : Effect

pub record WorkerCounts : Type 0 where
  pub active : ℤ
  pub sentinels : ℕ
  pub disengaged : ℕ

unfoldable pub get_worker_counts : ℕ → ℕ → WorkerCounts
get_worker_counts disengaged_sentinel nworkers =
    let disengaged = get_disengaged disengaged_sentinel in
    let sentinel = get_sentinel disengaged_sentinel in
    record {
      active = pos nworkers -ℤ pos disengaged -ℤ pos sentinel;
      sentinels = sentinel;
      disengaged = disengaged;
    }

-- The ratio of active workers over sentinels is 2.
unfoldable pub is_inefficient : WorkerCounts → Bool
is_inefficient counts =
    ltb 1 counts.sentinels
    && ltb_ℤ (pos 0) counts.active
    && ltb_ℤ (counts.active +ℤ counts.active) (pos counts.sentinels)

unfoldable pub is_efficient : WorkerCounts → Bool
is_efficient counts =
    not (ltb_ℤ counts.active (pos (counts.sentinels * 2))) || leb counts.sentinels 1

unfoldable pub get_scaled_elapsed : ℕ → ℕ
get_scaled_elapsed elapsed = elapsed * sentinel_threshold % 2 ^ 32 / 65536 / attempts * attempts

-- A sample enters a 32-bit history at its top bit, which the shift has left zero.
unfoldable pub push : ℕ → Bool → ℕ
push history sample = history / 2 + (if sample then 2 ^ (history_length - 1) else 0)

-- The number of ones among the lowest `n` bits.
unfoldable pub popcount : ℕ → ℕ → ℕ
popcount zero x = 0
popcount (suc n) x = x % 2 + popcount n (x / 2)

abbrev pub steps : ℕ → ℕ
steps history = popcount history_length history

unfoldable pub record_sentinels : History → ℕ → History
record_sentinels h current =
    let tail = h.sentinel_count_history_tail in
    record h {
      recent_sentinel_count =
          (minus_u32 h.recent_sentinel_count (h.sentinel_count_history tail) + current) % 2 ^ 32;
      sentinel_count_history = update h.sentinel_count_history tail current;
      sentinel_count_history_tail = (tail + 1) % sentinel_count_history_size;
    }

-- The samples of both histories and of the sentinels.
unfoldable pub sampled : History → WorkerCounts → ℕ → History
sampled h counts current = record (record_sentinels h current) {
  inefficient_history = push h.inefficient_history (is_inefficient counts);
  efficient_history = push h.efficient_history (is_efficient counts);
}

-- How many workers the history asks for. The difference of the steps is at least 24 here.
unfoldable pub request_of : ℕ → History → ℕ
request_of self h =
    let eff_diff = steps h.efficient_history - steps h.inefficient_history in
    let avg_sentinels = h.recent_sentinel_count / sentinel_count_history_size in
    let remainder = eff_diff % avg_sentinels in
    eff_diff / avg_sentinels
    + (if remainder == 0 then 0 else if self % remainder == 0 then 0 else 1)

-- At least one worker in four if the sentinels run out.
unfoldable pub one_more : ℕ → WorkerCounts → ℕ → ℕ → ℕ
one_more nworkers counts waiting request =
    let wanted = (pos_part counts.active + 3) / 4 in
    if request == 0
      && counts.sentinels == 0
      && ltb_ℤ counts.active (pos nworkers)
      && ltb waiting wanted
    then wanted - waiting
    else request

-- `seen` is the value that the subtraction from the sentinels returns, `waiting` the number of
-- requests that wait for thieves.
unfoldable pub maybe_reengage_workers : ℕ → ℕ → ℕ → ℕ → History → History × List Effect
maybe_reengage_workers self nworkers seen waiting h =
    let counts = get_worker_counts ((seen + 2 ^ 64 - 1) % 2 ^ 64) nworkers in
    let h1 =
      if leb h.sample_threshold h.fails then sampled h counts (counts.sentinels + 1) else h in
    let few = ltb (steps h1.efficient_history) (steps h1.inefficient_history + history_threshold) in
    let h2 = if few then h1 else record h1 { efficient_history = 0; inefficient_history = 0 } in
    let request = one_more nworkers counts waiting (if few then 0 else request_of self h1) in
    let fails = if ltb sentinel_threshold h.fails then sentinel_threshold else h.fails in
    if leb sentinel_threshold h.fails
    then (
      record h2 { fails = fails; sample_threshold = fails + sentinel_threshold },
      sentinel_removed ∷ (if ltb 0 request then thieves_requested request ∷ [] else []),
    )
    else (h, [])

-- The loop of `maybe_disengage_thief`: in each round the counts that it loads and whether the worker
-- then gets to leave, and comes back later; `none` while it goes on.
unfoldable pub maybe_disengage_thief : ℕ → List (ℕ × Bool) → Option Bool
maybe_disengage_thief nworkers [] = none
maybe_disengage_thief nworkers (round ∷ rest) =
    let again = maybe_disengage_thief nworkers rest in
    if is_inefficient (get_worker_counts round.0 nworkers)
    then if round.1 then some true else again
    else some false

-- After a time away. `later` are the counts after it.
unfoldable pub rested : History → ℕ → ℕ → History
rested h elapsed later =
    let scaled_elapsed = get_scaled_elapsed (elapsed % 2 ^ 32) in
    let samples = scaled_elapsed / sentinel_threshold in
    let current = get_sentinel later in
    let forgotten = record h {
      efficient_history = 0;
      inefficient_history = 0;
      sentinel_count_history =
          λ i. if ltb i sentinel_count_history_size then current else h.sentinel_count_history i;
      recent_sentinel_count = current * sentinel_count_history_size % 2 ^ 32;
    } in
    let shifted = record h {
      efficient_history = h.efficient_history / 2 ^ samples;
      inefficient_history = h.inefficient_history / 2 ^ samples;
    } in
    let h1 =
      if ltb sentinel_threshold scaled_elapsed
      then if leb history_length samples then forgotten else shifted
      else h in
    record h1 {
      fails =
          if ltb scaled_elapsed sentinel_threshold
          then minus_u32 h.fails scaled_elapsed
          else disengage_threshold - sentinel_threshold;
      sample_threshold = sentinel_threshold;
    }

abbrev pub max_fails : ℕ → ℕ
max_fails nap_threshold =
    2 * (if ltb disengage_threshold nap_threshold then nap_threshold else disengage_threshold)

abbrev pub nap_at : ℕ → ℕ → List Effect
nap_at nap_threshold fails = if fails % nap_threshold == 0 then nap ∷ [] else []

-- What the thief finds when it looks: the counts, the rounds of the loop above, the time away and
-- the counts after it.
pub record Sight : Type 0 where
  pub now : ℕ
  pub rounds : List (ℕ × Bool)
  pub elapsed : ℕ
  pub later : ℕ

-- The end of an attempt to leave.
unfoldable pub after_leave : ℕ → Sight → History → List Effect → Bool → History × List Effect
after_leave nap_threshold sight h effects true =
    (rested h sight.elapsed sight.later, effects ++ (away ∷ []))
after_leave nap_threshold sight h effects false = (h, effects ++ nap_at nap_threshold h.fails)

-- Every `sentinel_threshold` fails.
unfoldable pub look_around : ℕ → ℕ → ℕ → Sight → History → Option (History × List Effect)
look_around self nworkers nap_threshold sight h =
    let effects = if sentinel_threshold == h.fails then sentinel_added ∷ [] else [] in
    let counts = get_worker_counts sight.now nworkers in
    let h1 = sampled h counts counts.sentinels in
    let leave =
      maybe_disengage_thief nworkers sight.rounds
      >>= (λ b. some (after_leave nap_threshold sight h1 effects b)) in
    let stay = some (h1, effects ++ nap_at nap_threshold h.fails) in
    if self == 0
    then stay
    else if is_inefficient counts
        && ltb (steps h1.efficient_history + history_threshold) (steps h1.inefficient_history)
    then leave
    else stay

unfoldable pub handle_failed_steal_attempts :
    ℕ → ℕ → ℕ → Sight → History → Option (History × List Effect)
handle_failed_steal_attempts self nworkers nap_threshold sight h =
    let fails = (h.fails + attempts) % 2 ^ 32 in
    let looked = look_around self nworkers nap_threshold sight (record h { fails = fails }) in
    if fails % sentinel_threshold == 0
    then if ltb (max_fails nap_threshold) fails
      then some (record h { fails = max_fails nap_threshold }, nap ∷ [])
      else looked
    else some (record h { fails = fails }, [])

unfoldable pub decrease_fails_by_work : History → ℕ → History × List Effect
decrease_fails_by_work h elapsed =
    let scaled_elapsed = get_scaled_elapsed (elapsed % 2 ^ 32) in
    let fails = if ltb h.fails scaled_elapsed then 0 else h.fails - scaled_elapsed in
    let threshold =
      if ltb ((h.sample_threshold + 2 ^ 64 - sentinel_threshold) % 2 ^ 64) scaled_elapsed
      then sentinel_threshold
      else minus_u32 h.sample_threshold scaled_elapsed in
    (
      record h { fails = fails; sample_threshold = threshold },
      if leb sentinel_threshold fails then sentinel_added ∷ [] else [],
    )

-- After a stolen closure has run, for `elapsed` cycles if that was measured.
unfoldable pub after_work : History → ℕ → History × List Effect
after_work h elapsed =
    let r = decrease_fails_by_work h elapsed in
    let h1 = r.0 in
    if ltb (2 * attempts) h.fails
    then (
      if ltb h1.fails sentinel_threshold
          then record h1 { inefficient_history = 0; efficient_history = 0 }
          else h1,
      r.1,
    )
    else (record h { fails = 0; sample_threshold = sentinel_threshold }, [])

unfoldable pub init_fails : ℕ → ℕ → ℕ × List Effect
init_fails nworkers wake_val =
    if leb wake_val (nworkers / 2) then (sentinel_threshold, sentinel_added ∷ []) else (0, [])

unfoldable pub reset_fails : ℕ → List Effect
reset_fails fails = if leb sentinel_threshold fails then sentinel_removed ∷ [] else []
