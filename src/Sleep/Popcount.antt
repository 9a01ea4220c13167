-- ===== src/Sleep/Popcount.antt =====
-- The histories of samples: a history of `k` samples has at most `k` ones.
use cheetah.Base.{true, false, ℕ, zero, suc, ◌≤◌, Bool, arith, ◌<◌, ◌/◌, ◌^◌}
use cheetah.Sleep.Thief.{popcount, push, steps}

pub popcount-le : (n x : ℕ) → popcount n x ≤ n
unfolding popcount
popcount-le zero x = omega arith
popcount-le (suc n) x = omega (arith, popcount-le n (x / 2))

-- A history of no samples but the one that enters it.
pub steps-push_empty : (b : Bool) → steps (push 0 b) ≤ 1
unfolding push popcount
steps-push_empty true = omega arith
steps-push_empty false = omega arith

pub push-lt : (x : ℕ) (b : Bool) → x < 2 ^ 32 → push x b < 2 ^ 32
unfolding push
push-lt x b h = ground arith
