-- ===== src/Hypertable/Count.antt =====
-- How many buckets of a table are occupied, and how many are empty.
use cheetah.Base.{ℕ, zero, suc, ◌+◌, ◌≤◌, ◌<◌, ◌≡◌, refl, arith, update, if◌then◌else◌, dec_lt}
use cheetah.Hypertable.{Bucket, is_empty, is_valid}

-- Sum of a weight of the key over the buckets below an index.
unfoldable pub total {ℓ} : {D : Type ℓ} → (ℕ → ℕ) → ℕ → (ℕ → Bucket D) → ℕ
total w zero buckets = 0
total w (suc n) buckets = total w n buckets + w (buckets n).key

abbrev pub valid_weight : ℕ → ℕ
valid_weight key = if is_valid key then 1 else 0

abbrev pub empty_weight : ℕ → ℕ
empty_weight key = if is_empty key then 1 else 0

-- The number of keys, and of buckets that a probe stops at whatever it looks for.
abbrev pub occupied {ℓ} : {D : Type ℓ} → ℕ → (ℕ → Bucket D) → ℕ
occupied = total valid_weight

abbrev pub empties {ℓ} : {D : Type ℓ} → ℕ → (ℕ → Bucket D) → ℕ
empties = total empty_weight

module _ {ℓ} {D : Type ℓ} (w : ℕ → ℕ) where
  total-update_of_le :
      (n i : ℕ) (buckets : ℕ → Bucket D) (b : Bucket D)
      → n ≤ i
      → total w n (update buckets i b) ≡ total w n buckets
  unfolding total
  total-update_of_le zero i buckets b h = refl
  total-update_of_le (suc n) i buckets b h = ground (arith, total-update_of_le n i buckets b)

  pub total-update :
      (n i : ℕ) (buckets : ℕ → Bucket D) (b : Bucket D)
      → i < n
      → total w n (update buckets i b) + w (buckets i).key ≡ total w n buckets + w b.key
  unfolding total
  total-update zero i buckets b h = absurd (omega arith)
  total-update (suc n) i buckets b h = elim (dec_lt i n) [
    | yes below ↦ ground (arith, total-update n i buckets b below)
    | no last ↦ ground (arith, total-update_of_le n i buckets b)
  ]

  pub total-le : ((k : ℕ) → w k ≤ 1) → (n : ℕ) (buckets : ℕ → Bucket D) → total w n buckets ≤ n
  unfolding total
  total-le small zero buckets = omega arith
  total-le small (suc n) buckets = omega (arith, small (buckets n).key, total-le small n buckets)

  -- A positive sum has a positive term.
  pub total_pos :
      (n : ℕ) (buckets : ℕ → Bucket D)
      → 0 < total w n buckets
      → (i : ℕ) × (i < n) × (0 < w (buckets i).key)
  unfolding total
  total_pos zero buckets h = absurd (omega arith)
  total_pos (suc n) buckets h = elim (dec_lt 0 (total w n buckets)) [
    | yes p ↦ let (i, k, e) = total_pos n buckets p in (i, omega arith, e)
    | no p ↦ (n, omega arith, omega arith)
  ]

  -- A positive term makes a positive sum.
  pub total-pos_of :
      (n i : ℕ) (buckets : ℕ → Bucket D) → i < n → 0 < w (buckets i).key → 0 < total w n buckets
  unfolding total
  total-pos_of zero i buckets k h = absurd (omega arith)
  total-pos_of (suc n) i buckets k h = elim (dec_lt i n) [
    | yes p ↦ omega (arith, total-pos_of n i buckets p h)
    | no p ↦ ground arith
  ]

  pub total-next :
      (n : ℕ) (buckets : ℕ → Bucket D)
      → total w (n + 1) buckets ≡ total w n buckets + w (buckets n).key
  unfolding total
  total-next n buckets = let e : n + 1 ≡ suc n = omega arith in rw e refl

  pub total_mono :
      (n i : ℕ) (buckets : ℕ → Bucket D) → i ≤ n → total w i buckets ≤ total w n buckets
  unfolding total
  total_mono zero i buckets h = let e : i ≡ 0 = omega arith in rw e (omega arith)
  total_mono (suc n) i buckets h = elim (dec_lt i (suc n)) [
    | yes p ↦ omega (arith, total_mono n i buckets (omega arith))
    | no p ↦ let e : i ≡ suc n = omega arith in rw e (omega arith)
  ]
