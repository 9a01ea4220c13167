-- ===== src/Sleep/Runs.antt =====
-- Runs of the loop of `worker_scheduler`, from `init_fails` on: the count of sentinels and the fails of a
-- thief agree.
use cheetah.Base.{
  refl, ℕ, List, ◌<◌, ◌≡◌, ◌++◌, ◌^◌, some, ◌%◌, ◌≤◌, subst, some_eq, ◌+◌, sym, arith, ◌/◌, ◌∙◌,
  inr, Bool-cases, leb, inl,
}
use cheetah.Sleep.History.{recent-ge}
use cheetah.Sleep.Thief.{
  History, Effect, Sight, max_fails, new_history, init_fails, handle_failed_steal_attempts,
  maybe_reengage_workers, after_work,
}
use cheetah.Sleep.Turns.{
  Phase, stealing, working, counted, most_fails, added, removed, IsThief, IsTurned, IsSeen,
  added-append, removed-append,
}
use cheetah.Sleep.Loop.{
  IsSight, handle_failed_steal_attempts-IsTurned, maybe_reengage_workers-IsTurned,
  after_work-IsTurned,
}

-- One turn of the loop, with its effects.
pub data Turn (self nworkers n most : ℕ)
    : Phase → History → Phase → History → List Effect → Type 0 where
  failed :
      (sight : Sight) (h : History) (r : History × List Effect)
      → IsSight nworkers most sight
      → handle_failed_steal_attempts self nworkers n sight h ≡ some r
      → Turn self nworkers n most stealing h stealing r.0 r.1
  found :
      (seen waiting : ℕ) (h : History)
      → (128 ≤ h.fails → IsSeen most seen)
      → Turn self nworkers n most stealing h working
          (maybe_reengage_workers self nworkers seen waiting h).0
          (maybe_reengage_workers self nworkers seen waiting h).1
  worked :
      (elapsed : ℕ) (h : History)
      → Turn self nworkers n most working h stealing
          (after_work h elapsed).0
          (after_work h elapsed).1

-- Turns one after the other, with all the effects since the thief woke up with `wake_val`.
pub data Turns (self nworkers n most wake_val : ℕ) : Phase → History → List Effect → Type 0 where
  woken :
      Turns self nworkers n most wake_val stealing
        (new_history (init_fails nworkers wake_val).0)
        (init_fails nworkers wake_val).1
  turned :
      (p q : Phase) (h h' : History) (es fs : List Effect)
      → Turns self nworkers n most wake_val p h es
      → Turn self nworkers n most p h q h' fs
      → Turns self nworkers n most wake_val q h' (es ++ fs)

new-IsThief :
    (n most fails : ℕ)
    → fails ≤ 128
    → fails % 4 ≡ 0
    → 1 ≤ most
    → IsThief n most stealing (new_history fails)
unfolding new_history most_fails
new-IsThief n most fails h fours some_most = record {
  fours = fours;
  bounded = ground arith;
  unsampled = λ q. (refl, refl);
  threshold = (omega arith, omega arith);
  recent = record { tail = omega arith; few = ground arith; total = (inr refl, omega arith) };
}

most_fails-le : (p : Phase) (n : ℕ) → most_fails p n ≤ max_fails n + 124
unfolding most_fails
most_fails-le stealing n = omega arith
most_fails-le working n = ground arith

module _ (self nworkers n most : ℕ) (small : most < 2 ^ 28) (naps : n % 128 ≡ 0)
    (top : n < 2 ^ 30) where
  Turn-IsTurned :
      {p q : Phase} {h h' : History} {es : List Effect}
      → Turn self nworkers n most p h q h' es
      → IsThief n most p h
      → IsTurned n most p q h.fails (h', es)
  Turn-IsTurned (failed sight h r s run) v =
      let (r', run', t) =
        handle_failed_steal_attempts-IsTurned self nworkers n most small naps top sight h s v in
      subst (IsTurned n most stealing stealing h.fails) (some_eq (sym run' ∙ run)) t
  Turn-IsTurned (found seen waiting h s) v =
      maybe_reengage_workers-IsTurned self nworkers n most small naps top seen waiting h s v
  Turn-IsTurned (worked elapsed h) v =
      after_work-IsTurned self nworkers n most small naps top elapsed h v

  Turns-IsThief :
      (wake_val : ℕ) {p : Phase} {h : History} {es : List Effect}
      → 1 ≤ most
      → Turns self nworkers n most wake_val p h es
      → IsThief n most p h × (added es ≡ removed es + counted p h.fails)
  unfolding init_fails counted added removed new_history
  Turns-IsThief wake_val some_most woken = elim (Bool-cases (leb wake_val (nworkers / 2))) [
    | inl e ↦ rw e (new-IsThief n most 128 (omega arith) refl some_most, refl)
    | inr e ↦ rw e (new-IsThief n most 0 (omega arith) refl some_most, refl)
  ]
  Turns-IsThief wake_val some_most (turned p q h h' es fs r t) =
      let (v, e) = Turns-IsThief wake_val some_most r in
      let b = Turn-IsTurned t v in
      (b.thief, omega (arith, e, b.balance, added-append es fs, removed-append es fs))

  -- After any turns of the loop, with fewer than 2 ^ 28 workers, a `NAP_THRESHOLD` that is a multiple
  -- of 128 below 2 ^ 30 and counts that include the thief, it is on the count of sentinels exactly if
  -- it is looking for work and has failed 128 times or more; the fails come in fours and are bounded,
  -- and the average of recent sentinels is not zero.
  pub fails-eq-sentinel :
      (wake_val : ℕ) (p : Phase) (h : History) (es : List Effect)
      → 1 ≤ most
      → Turns self nworkers n most wake_val p h es
      → (added es ≡ removed es + counted p h.fails)
        × (h.fails % 4 ≡ 0)
        × (h.fails ≤ max_fails n + 124)
        × (1 ≤ h.recent_sentinel_count / 4)
  unfolding most_fails
  fails-eq-sentinel wake_val p h es some_most r =
      let (v, e) = Turns-IsThief wake_val some_most r in
      let four = recent-ge most h v.recent in
      (e, v.fours, omega (arith, most_fails-le p n, v.bounded), omega arith)
