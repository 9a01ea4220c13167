-- ===== src/Sleep/Turns.antt =====
-- The turns of a thief: a failed round of attempts, a successful one, and work. The counts of fails
-- and of sentinels agree after each.
use cheetah.Base.{
  refl, true, false, ℕ, List, if◌then◌else◌, ◌+◌, ◌%◌, ◌≤◌, ◌++◌, ◌≡◌, Bool, leb, ◌<◌, arith,
  Bool-cases, ◌==◌, ◌^◌, inl, ◌∷◌, inr, [], some, ltb, ◌&&◌, dec_le,
}
use cheetah.Sleep.{get_sentinel}
use cheetah.Sleep.Elapsed.{rested-fails}
use cheetah.Sleep.History.{IsRecent, sampled-IsRecent, rested-IsRecent}
use cheetah.Sleep.Popcount.{steps-push_empty}
use cheetah.Sleep.Thief.{
  History, Effect, sentinel_added, sentinel_removed, thieves_requested, away, nap, sampled, Sight,
  max_fails, nap_at, after_leave, look_around, maybe_disengage_thief, is_inefficient, steps,
  get_worker_counts, record_sentinels, WorkerCounts,
}

pub data Phase : Type 0 where
  stealing : Phase
  working : Phase

-- Whether the thief is on the count of sentinels.
unfoldable pub counted : Phase → ℕ → ℕ
counted stealing fails = if leb 128 fails then 1 else 0
counted working fails = 0

unfoldable pub most_fails : Phase → ℕ → ℕ
most_fails stealing nap_threshold = max_fails nap_threshold + 124
most_fails working nap_threshold = 128

unfoldable pub added : List Effect → ℕ
added [] = 0
added (sentinel_added ∷ es) = 1 + added es
added (sentinel_removed ∷ es) = added es
added (thieves_requested n ∷ es) = added es
added (away ∷ es) = added es
added (nap ∷ es) = added es

unfoldable pub removed : List Effect → ℕ
removed [] = 0
removed (sentinel_added ∷ es) = removed es
removed (sentinel_removed ∷ es) = 1 + removed es
removed (thieves_requested n ∷ es) = removed es
removed (away ∷ es) = removed es
removed (nap ∷ es) = removed es

-- The fails are bounded and come in fours, a thief that is no sentinel has empty histories, and the
-- samples of sentinels are in order.
pub record IsThief (nap_threshold most : ℕ) (phase : Phase) (h : History) : Type 0 where
  pub fours : h.fails % 4 ≡ 0
  pub bounded : h.fails ≤ most_fails phase nap_threshold
  pub unsampled : h.fails < 128 → (h.inefficient_history ≡ 0) × (h.efficient_history ≡ 0)
  pub threshold : (128 ≤ h.sample_threshold) × (h.sample_threshold ≤ 256)
  pub recent : IsRecent most h

-- The thief after a turn that began with `fails`: its changes of the count of sentinels are those of
-- its being a sentinel.
pub record IsTurned (nap_threshold most : ℕ) (before after : Phase) (fails : ℕ)
    (r : History × List Effect) : Type 0 where
  pub thief : IsThief nap_threshold most after r.0
  pub balance : counted before fails + added r.1 ≡ counted after r.0.fails + removed r.1

-- The counts that a thief loads.
abbrev pub IsSeen : ℕ → ℕ → Type 0
IsSeen most d = (1 ≤ get_sentinel d) × (get_sentinel d ≤ most)

pub added-append : (es fs : List Effect) → added (es ++ fs) ≡ added es + added fs
unfolding added
added-append [] fs = omega arith
added-append (sentinel_added ∷ es) fs = omega (arith, added-append es fs)
added-append (sentinel_removed ∷ es) fs = added-append es fs
added-append (thieves_requested n ∷ es) fs = added-append es fs
added-append (away ∷ es) fs = added-append es fs
added-append (nap ∷ es) fs = added-append es fs

pub removed-append : (es fs : List Effect) → removed (es ++ fs) ≡ removed es + removed fs
unfolding removed
removed-append [] fs = omega arith
removed-append (sentinel_added ∷ es) fs = removed-append es fs
removed-append (sentinel_removed ∷ es) fs = omega (arith, removed-append es fs)
removed-append (thieves_requested n ∷ es) fs = removed-append es fs
removed-append (away ∷ es) fs = removed-append es fs
removed-append (nap ∷ es) fs = removed-append es fs

nap_at-free : (n fails : ℕ) → (added (nap_at n fails) ≡ 0) × (removed (nap_at n fails) ≡ 0)
unfolding added removed
nap_at-free n fails = elim (Bool-cases (fails % n == 0)) [
  | inl e ↦ rw e (refl, refl)
  | inr e ↦ rw e (refl, refl)
]

-- The time away leaves a sentinel a sentinel.
after_leave-IsTurned :
    (n most : ℕ) (sight : Sight) (h : History) (effects : List Effect) (fails : ℕ) (b : Bool)
    → most < 2 ^ 28
    → max_fails n < 2 ^ 31
    → IsSeen most sight.later
    → h.fails % 4 ≡ 0
    → 128 ≤ h.fails
    → (b ≡ true → 256 ≤ h.fails)
    → h.fails ≤ max_fails n
    → (128 ≤ h.sample_threshold) × (h.sample_threshold ≤ 256)
    → IsRecent most h
    → counted stealing fails + added effects ≡ 1 + removed effects
    → IsTurned n most stealing stealing fails (after_leave n sight h effects b)
unfolding after_leave counted most_fails added removed
after_leave-IsTurned n most sight h effects fails true small top_fails seen fours enough more top st
      v e =
    let r = rested-fails h sight.elapsed sight.later fours (more refl) (omega arith) in
    let a = added-append effects (away ∷ []) in
    let b = removed-append effects (away ∷ []) in
    record {
      thief = record {
        fours = r.0;
        bounded = ground (arith, r.2);
        unsampled = λ q. absurd (omega (arith, r.1));
        threshold = (omega (arith, r.3), omega (arith, r.3));
        recent = rested-IsRecent most h sight.elapsed sight.later small seen.0 seen.1 v;
      };
      balance = ground (arith, r.1, a, b);
    }
after_leave-IsTurned n most sight h effects fails false small top_fails seen fours enough more top
      st v e =
    let a = added-append effects (nap_at n h.fails) in
    let b = removed-append effects (nap_at n h.fails) in
    let free = nap_at-free n h.fails in
    record {
      thief = record {
        fours = fours;
        bounded = omega arith;
        unsampled = λ q. absurd (omega arith);
        threshold = st;
        recent = v;
      };
      balance = ground (arith, a, b, free);
    }

-- The first sample that enters an empty history.
steps-sampled_empty :
    (h : History) (counts : WorkerCounts) (current : ℕ)
    → h.inefficient_history ≡ 0
    → steps (sampled h counts current).inefficient_history ≤ 1
unfolding sampled
steps-sampled_empty h counts current e = rw e (steps-push_empty (is_inefficient counts))

-- A thief that has looked around is a sentinel, whether it has left and come back or not.
pub look_around-IsTurned :
    (self nworkers n most fails : ℕ) (sight : Sight) (h : History) (b : Bool)
    → most < 2 ^ 28
    → max_fails n < 2 ^ 31
    → IsSeen most sight.now
    → IsSeen most sight.later
    → maybe_disengage_thief nworkers sight.rounds ≡ some b
    → h.fails % 128 ≡ 0
    → h.fails ≡ fails + 4
    → h.fails ≤ max_fails n
    → (fails < 128 → (h.inefficient_history ≡ 0) × (h.efficient_history ≡ 0))
    → (128 ≤ h.sample_threshold) × (h.sample_threshold ≤ 256)
    → IsRecent most h
    → (r : History × List Effect) × (look_around self nworkers n sight h ≡ some r)
      × IsTurned n most stealing stealing fails r
unfolding look_around after_leave sampled record_sentinels counted added removed get_worker_counts
look_around-IsTurned self nworkers n most fails sight h b small top_fails now later run full from
      top empty st v =
    let counts = get_worker_counts sight.now nworkers in
    let h1 = sampled h counts (get_sentinel sight.now) in
    let effects : List Effect = if 128 == h.fails then sentinel_added ∷ [] else [] in
    let v1 = sampled-IsRecent most h counts (get_sentinel sight.now) small now.0 now.1 v in
    let shown : counted stealing fails + added effects ≡ 1 + removed effects = ground arith in
    let done : (c : Bool)
        → (c ≡ true → 256 ≤ h.fails)
        → IsTurned n most stealing stealing fails (after_leave n sight h1 effects c) =
      λ c more.
        after_leave-IsTurned n most sight h1 effects fails c small top_fails later (omega arith)
          (omega arith) more top st v1 shown in
    let many = ltb (steps h1.efficient_history + 24) (steps h1.inefficient_history) in
    elim (Bool-cases (self == 0)) [
      | inl e ↦ (after_leave n sight h1 effects false, rw e refl, done false (λ q. absurd (cc)))
      | inr e ↦ elim (Bool-cases (is_inefficient counts && many)) [
        | inl c ↦ (
          after_leave n sight h1 effects b,
          rw (e, c, run) refl,
          done b (λ q. elim (dec_le 256 h.fails) [
            | yes k ↦ k
            | no k ↦
                let few =
                  steps-sampled_empty h counts (get_sentinel sight.now) (empty (omega arith)).0 in
                absurd (ground (arith, c, few))
          ]),
        )
        | inr c ↦
            (after_leave n sight h1 effects false, rw (e, c) refl, done false (λ q. absurd (cc)))
      ]
    ]
