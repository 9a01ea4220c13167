-- ===== src/Hypertable/Circle.antt =====
-- Distances along the circular buffer, and the comparison of unsigned differences that stands for
-- them (the comment above `continue_probe` in runtime/local-hypertable.h).
use cheetah.Base.{ℕ, ◌+◌, ◌-◌, ◌≤◌, ◌<◌, ◌≡◌, arith, leb, if◌then◌else◌, ◌⊎◌, true}
use cheetah.Hypertable.{u32_mod, inc_index, continue_probe}

-- Steps from `a` forwards to `i` in a buffer of `capacity` buckets.
unfoldable pub dist : ℕ → ℕ → ℕ → ℕ
dist capacity a i = if leb a i then i - a else i + capacity - a

-- In a buffer of at most 2 ^ 32 buckets the probe for `tgt` goes on past a bucket at `idx` with
-- hash `hash` exactly when `tgt` is no further back than `hash`, on the circle.
pub continue_probe-eq-dist :
    (capacity tgt hash idx : ℕ)
    → capacity ≤ u32_mod
    → tgt < capacity
    → hash < capacity
    → idx < capacity
    → continue_probe tgt hash idx ≡ leb (dist capacity tgt idx) (dist capacity hash idx)
unfolding continue_probe dist
continue_probe-eq-dist capacity tgt hash idx c t h i = ground arith

pub inc_index-lt :
    (i capacity : ℕ) → capacity < u32_mod → i < capacity → inc_index i capacity < capacity
unfolding inc_index
inc_index-lt i capacity h k = ground arith

module _ (capacity : ℕ) where
  pub dist-lt : (a i : ℕ) → a < capacity → i < capacity → dist capacity a i < capacity
  unfolding dist
  dist-lt a i h k = ground arith

  pub dist_self : (a : ℕ) → dist capacity a a ≡ 0
  unfolding dist
  dist_self a = ground arith

  pub dist-inc_index :
      (a i : ℕ)
      → capacity < u32_mod
      → a < capacity
      → i < capacity
      → dist capacity a i + 1 < capacity
      → dist capacity a (inc_index i capacity) ≡ dist capacity a i + 1
  unfolding dist inc_index
  dist-inc_index a i c h k l = ground arith

  -- The last bucket before `a`, on the circle.
  pub inc_index-last :
      (a i : ℕ)
      → capacity < u32_mod
      → a < capacity
      → i < capacity
      → dist capacity a i + 1 ≡ capacity
      → inc_index i capacity ≡ a
  unfolding dist inc_index
  inc_index-last a i h k l e = ground arith

  pub dist_injective :
      (a i j : ℕ)
      → a < capacity
      → i < capacity
      → j < capacity
      → dist capacity a i ≡ dist capacity a j
      → i ≡ j
  unfolding dist
  dist_injective a i j k l m e = ground arith

  -- A walk from `a` to `i` passes `b` at most once.
  pub dist_trans :
      (a b i : ℕ)
      → a < capacity
      → b < capacity
      → i < capacity
      → dist capacity a b ≤ dist capacity a i
      → dist capacity a b + dist capacity b i ≡ dist capacity a i
  unfolding dist
  dist_trans a b i k l m e = ground arith

  pub dist-inc_index_cases :
      (a i : ℕ)
      → capacity < u32_mod
      → a < capacity
      → i < capacity
      → (dist capacity a (inc_index i capacity) ≡ 0)
        ⊎ (dist capacity a (inc_index i capacity) ≡ dist capacity a i + 1)
  unfolding dist inc_index
  dist-inc_index_cases a i h k l = ground arith

  -- On a walk from `a` through `i` to `p`, where `p` does not lie strictly between `i` and `n` as
  -- seen from `t`, the walk passes `n` or ends there.
  pub dist_beyond :
      (a t i n p : ℕ)
      → a < capacity
      → t < capacity
      → i < capacity
      → n < capacity
      → p < capacity
      → dist capacity t i < dist capacity t n
      → (dist capacity t p ≤ dist capacity t i) ⊎ (dist capacity t n ≤ dist capacity t p)
      → dist capacity a i < dist capacity a p
      → (dist capacity a n ≤ dist capacity a p)
        × (dist capacity a n + dist capacity t i ≡ dist capacity a i + dist capacity t n)
  unfolding dist
  dist_beyond a t i n p l m h k o e f g = ground arith

-- A probe goes on past a key of its own hash.
pub continue_probe_self : (tgt idx : ℕ) → continue_probe tgt tgt idx ≡ true
unfolding continue_probe
continue_probe_self tgt idx = ground arith
