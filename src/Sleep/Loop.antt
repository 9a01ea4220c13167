-- ===== src/Sleep/Loop.antt =====
-- The loop of `worker_scheduler`, as far as the counts of fails and sentinels go: a run of turns from
-- `init_fails` on.
use cheetah.Base.{
  refl, ℕ, Bool, ◌<◌, ◌≡◌, ◌^◌, some, ◌%◌, List, ◌≤◌, arith, ◌+◌, Bool-cases, ◌==◌, inl, ltb, ◌∷◌,
  [], inr, ◌-◌, leb, if◌then◌else◌,
}
use cheetah.Sleep.{get_sentinel}
use cheetah.Sleep.Elapsed.{decrease_fails_by_work-fails}
use cheetah.Sleep.History.{IsRecent-except, IsRecent, sampled-IsRecent}
use cheetah.Sleep.Thief.{
  History, Effect, thieves_requested, nap, sampled, Sight, max_fails, maybe_disengage_thief,
  handle_failed_steal_attempts, maybe_reengage_workers, decrease_fails_by_work, after_work,
  get_worker_counts, steps, one_more, request_of,
}
use cheetah.Sleep.Turns.{
  stealing, working, counted, most_fails, added, removed, IsThief, IsTurned, IsSeen,
  look_around-IsTurned,
}

-- Counts that the thief is on, and a loop that ends.
pub record IsSight (nworkers most : ℕ) (sight : Sight) : Type 0 where
  pub now : IsSeen most sight.now
  pub later : IsSeen most sight.later
  pub leaves : Bool
  pub ends : maybe_disengage_thief nworkers sight.rounds ≡ some leaves

request-free :
    (r : ℕ)
    → let es : List Effect = if ltb 0 r then thieves_requested r ∷ [] else [] in
      (added es ≡ 0) × (removed es ≡ 0)
unfolding added removed
request-free r = elim (Bool-cases (ltb 0 r)) [
  | inl e ↦ rw e (refl, refl)
  | inr e ↦ rw e (refl, refl)
]

module _ (self nworkers n most : ℕ) (small : most < 2 ^ 28) (naps : n % 128 ≡ 0)
    (top : n < 2 ^ 30) where
  pub handle_failed_steal_attempts-IsTurned :
      (sight : Sight) (h : History)
      → IsSight nworkers most sight
      → IsThief n most stealing h
      → (r : History × List Effect) × (handle_failed_steal_attempts self nworkers n sight h
          ≡ some r)
        × IsTurned n most stealing stealing h.fails r
  unfolding handle_failed_steal_attempts counted most_fails added removed
  handle_failed_steal_attempts-IsTurned sight h s v =
      let bounded = v.bounded in
      let fours = v.fours in
      let wrap : (h.fails + 4) % 2 ^ 32 ≡ h.fails + 4 = ground arith in
      let h1 = record h { fails = (h.fails + 4) % 2 ^ 32 } in
      elim (Bool-cases ((h.fails + 4) % 2 ^ 32 % 128 == 0)) [
        | inl e ↦ elim (Bool-cases (ltb (max_fails n) ((h.fails + 4) % 2 ^ 32))) [
          | inl over ↦ (
            (record h { fails = max_fails n }, nap ∷ []),
            rw (e, over) refl,
            record {
              thief = record {
                fours = ground arith;
                bounded = ground arith;
                unsampled = λ q. absurd (ground arith);
                threshold = v.threshold;
                recent = IsRecent-except most h _ _ _ _ v.recent;
              };
              balance = ground arith;
            },
          )
          | inr fine ↦
              let (r, run, t) =
                look_around-IsTurned self nworkers n most h.fails sight h1 s.leaves small
                  (ground arith) s.now s.later s.ends (ground arith) wrap (ground arith) v.unsampled
                  v.threshold (IsRecent-except most h _ _ _ _ v.recent) in
              (r, rw (e, fine) run, t)
        ]
        | inr e ↦ (
          (h1, []),
          rw e refl,
          record {
            thief = record {
              fours = ground arith;
              bounded = ground arith;
              unsampled = λ q. v.unsampled (omega (arith, wrap));
              threshold = v.threshold;
              recent = IsRecent-except most h _ _ _ _ v.recent;
            };
            balance = ground arith;
          },
        )
      ]

  pub maybe_reengage_workers-IsTurned :
      (seen waiting : ℕ) (h : History)
      → (128 ≤ h.fails → IsSeen most seen)
      → IsThief n most stealing h
      → IsTurned n most stealing working h.fails
          (maybe_reengage_workers self nworkers seen waiting h)
  unfolding maybe_reengage_workers get_worker_counts counted most_fails added removed
  maybe_reengage_workers-IsTurned seen waiting h s v =
      let counts = get_worker_counts ((seen + 2 ^ 64 - 1) % 2 ^ 64) nworkers in
      elim (Bool-cases (leb 128 h.fails)) [
        | inl e ↦
            let enough : 128 ≤ h.fails = ground arith in
            let seen' = s enough in
            let one_less : counts.sentinels + 1 ≡ get_sentinel seen = omega (arith, seen') in
            let h1 =
              if leb h.sample_threshold h.fails
              then sampled h counts (counts.sentinels + 1)
              else h in
            let v1 : IsRecent most h1 = elim (Bool-cases (leb h.sample_threshold h.fails)) [
              | inl c ↦ rw c (
                  sampled-IsRecent most h counts (counts.sentinels + 1) small (omega arith)
                    (omega (arith, one_less, seen')) v.recent)
              | inr c ↦ rw c v.recent
            ] in
            let few = ltb (steps h1.efficient_history) (steps h1.inefficient_history + 24) in
            let h2 =
              if few then h1 else record h1 { efficient_history = 0; inefficient_history = 0 } in
            let v2 : IsRecent most h2 = elim (Bool-cases few) [
              | inl c ↦ rw c v1
              | inr c ↦ rw c (IsRecent-except most h1 _ _ _ _ v1)
            ] in
            let request =
              one_more nworkers counts waiting (if few then 0 else request_of self h1) in
            let free = request-free request in
            rw e (record {
              thief = record {
                fours = ground arith;
                bounded = ground arith;
                unsampled = λ q. absurd (ground arith);
                threshold = ground arith;
                recent = IsRecent-except most h2 _ _ _ _ v2;
              };
              balance = ground (arith, free);
            })
        | inr e ↦ rw e (record {
          thief = record {
            fours = v.fours;
            bounded = ground arith;
            unsampled = v.unsampled;
            threshold = v.threshold;
            recent = v.recent;
          };
          balance = rw e refl;
        })
      ]

  pub after_work-IsTurned :
      (elapsed : ℕ) (h : History)
      → IsThief n most working h
      → IsTurned n most working stealing h.fails (after_work h elapsed)
  unfolding after_work decrease_fails_by_work counted most_fails added removed
  after_work-IsTurned elapsed h v =
      let d =
        decrease_fails_by_work-fails h elapsed v.fours v.threshold.0 (omega (arith, v.threshold)) in
      record {
        thief = record {
          fours = ground (arith, d);
          bounded = ground (arith, d);
          unsampled = λ q. ground (arith, v.unsampled, q);
          threshold = ground (arith, d, v.threshold);
          recent = record {
            tail = ground (arith, v.recent.tail);
            few = ground (arith, v.recent.few);
            total = ground (arith, v.recent.total);
          };
        };
        balance = ground (arith, d);
      }
