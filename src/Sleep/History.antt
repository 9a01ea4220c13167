-- ===== src/Sleep/History.antt =====
-- The sentinels that a thief saw lately: their sum never gets so small that the average is zero.
use cheetah.Base.{◌≤◌, ◌<◌, ◌≡◌, arith, ◌^◌, ◌⊎◌}
use cheetah.Sleep.{minus_u32, get_sentinel, ℕ, ◌+◌}
use cheetah.Sleep.Thief.{History, record_sentinels, sampled, rested, WorkerCounts}

abbrev pub history_sum : (ℕ → ℕ) → ℕ
history_sum f = f 0 + f 1 + f 2 + f 3

-- At most `most` sentinels in each of the four places.
abbrev pub AtMost : ℕ → (ℕ → ℕ) → Type 0
AtMost most f = (f 0 ≤ most) × (f 1 ≤ most) × (f 2 ≤ most) × (f 3 ≤ most)

-- The sum is kept up to the three places that start with zero; each place that was written since has
-- seen a sentinel.
pub record IsRecent (most : ℕ) (h : History) : Type 0 where
  pub tail : h.sentinel_count_history_tail < 4
  pub few : AtMost most h.sentinel_count_history
  pub total :
      ((h.recent_sentinel_count ≡ history_sum h.sentinel_count_history)
          × (1 ≤ h.sentinel_count_history 1)
          × (1 ≤ h.sentinel_count_history 2)
          × (1 ≤ h.sentinel_count_history 3)
        ⊎ (h.recent_sentinel_count ≡ history_sum h.sentinel_count_history + 3))
      × (1 ≤ h.sentinel_count_history 0)

pub recent-ge : (most : ℕ) (h : History) → IsRecent most h → 4 ≤ h.recent_sentinel_count
recent-ge most h v = ground (arith, v.total)

pub record_sentinels-IsRecent :
    (most : ℕ) (h : History) (current : ℕ)
    → most < 2 ^ 28
    → 1 ≤ current
    → current ≤ most
    → IsRecent most h
    → IsRecent most (record_sentinels h current)
unfolding record_sentinels minus_u32
record_sentinels-IsRecent most h current small a b v = record {
  tail = omega arith;
  few = ground (arith, v.few);
  total = ground (arith, v.few, v.total, v.tail);
}

pub sampled-IsRecent :
    (most : ℕ) (h : History) (counts : WorkerCounts) (current : ℕ)
    → most < 2 ^ 28
    → 1 ≤ current
    → current ≤ most
    → IsRecent most h
    → IsRecent most (sampled h counts current)
unfolding sampled
sampled-IsRecent most h counts current small a b v =
    let r = record_sentinels-IsRecent most h current small a b v in
    record { tail = r.tail; few = r.few; total = r.total }

pub rested-IsRecent :
    (most : ℕ) (h : History) (elapsed later : ℕ)
    → most < 2 ^ 28
    → 1 ≤ get_sentinel later
    → get_sentinel later ≤ most
    → IsRecent most h
    → IsRecent most (rested h elapsed later)
unfolding rested
rested-IsRecent most h elapsed later small a b v = record {
  tail = ground (arith, v.tail);
  few = ground (arith, v.few);
  total = ground (arith, v.few, v.total);
}

-- The other numbers do not matter.
pub IsRecent-except :
    (most : ℕ) (h : History) (a b c d : ℕ)
    → IsRecent most h
    → IsRecent most (record h {
      inefficient_history = a;
      efficient_history = b;
      fails = c;
      sample_threshold = d;
    })
IsRecent-except most h a b c d v = record { tail = v.tail; few = v.few; total = v.total }
