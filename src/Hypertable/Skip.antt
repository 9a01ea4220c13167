-- ===== src/Hypertable/Skip.antt =====
-- Runs of tombstones in `insert_hyperobject`, up to a bucket at `z` that is no tombstone.
use cheetah.Base.{
  ℕ, zero, suc, ◌+◌, ◌≤◌, ◌<◌, ◌≡◌, ◌≢◌, inl, inr, true, false, arith, ℕ_discrete, Bool-cases,
}
use cheetah.Hypertable.{u32_mod, Bucket, is_tombstone, inc_index}
use cheetah.Hypertable.Circle.{
  dist, inc_index-lt, dist-lt, dist_self, dist-inc_index, dist_injective,
}
use cheetah.Hypertable.Order.{Reaches, Passes}
use cheetah.Hypertable.Update.{skip_tombstones}

module _ {ℓ} {D : Type ℓ} (capacity : ℕ) (buckets : ℕ → Bucket D) (tgt z : ℕ)
    (fits : capacity < u32_mod) (t : tgt < capacity) (l : z < capacity)
    (e : is_tombstone (buckets z).key ≡ false) where
  -- A step towards the bucket at `z` does not come back to `tgt`.
  pub step :
      (i : ℕ)
      → i < capacity
      → dist capacity tgt i < dist capacity tgt z
      → (dist capacity tgt (inc_index i capacity) ≡ dist capacity tgt i + 1)
        × (inc_index i capacity < capacity)
        × (inc_index i capacity ≢ tgt)
  step i k s =
      let f = dist-inc_index capacity tgt i fits t k (omega (arith, dist-lt capacity tgt z t l)) in
      (f, inc_index-lt i capacity fits k, ground (arith, f, dist_self capacity tgt))

  -- From `m` on, up to `n`, stand only tombstones; `n` is no tombstone, and no later than `z`.
  pub record Skips (m n : ℕ) : Type 0 where
    pub within : n < capacity
    pub later : dist capacity tgt m ≤ dist capacity tgt n
    pub sooner : dist capacity tgt n ≤ dist capacity tgt z
    pub ends : is_tombstone (buckets n).key ≡ false
    pub stones :
        (j : ℕ)
        → j < capacity
        → dist capacity tgt m ≤ dist capacity tgt j
        → dist capacity tgt j < dist capacity tgt n
        → is_tombstone (buckets j).key ≡ true

  pub skip_tombstones-Skips :
      (fuel m : ℕ)
      → m < capacity
      → m ≢ tgt
      → dist capacity tgt m ≤ dist capacity tgt z
      → dist capacity tgt z < dist capacity tgt m + fuel
      → Skips m (skip_tombstones buckets capacity tgt fuel m)
  unfolding skip_tombstones
  skip_tombstones-Skips zero m k o s f = absurd (omega arith)
  skip_tombstones-Skips (suc fuel) m k o s f = elim (Bool-cases (is_tombstone (buckets m).key)) [
    | inr w ↦
        let same : skip_tombstones buckets capacity tgt (suc fuel) m ≡ m = ground (arith, w) in
        rw same (record {
          within = k;
          later = omega arith;
          sooner = s;
          ends = w;
          stones = λ j q a b. absurd (omega arith);
        })
    | inl w ↦
        let strict : dist capacity tgt m < dist capacity tgt z =
          ground (arith, dist_injective capacity tgt m z t k l) in
        let g = step m k strict in
        let r =
          skip_tombstones-Skips fuel (inc_index m capacity) g.1 g.2 (omega (arith, g.0))
            (omega (arith, g.0)) in
        let same : skip_tombstones buckets capacity tgt (suc fuel) m
            ≡ skip_tombstones buckets capacity tgt fuel (inc_index m capacity) =
          ground (arith, w) in
        rw same (record {
          within = r.within;
          later = omega (arith, g.0, r.later);
          sooner = r.sooner;
          ends = r.ends;
          stones =
              λ j q a b. ground (arith, g.0, r.stones j q, dist_injective capacity tgt m j t k q);
        })
  ]

  -- One more bucket passed.
  pub Reaches-next :
      (i n : ℕ)
      → i < capacity
      → Reaches capacity buckets tgt i
      → Passes capacity buckets tgt i
      → ((j : ℕ)
          → j < capacity
          → dist capacity tgt i < dist capacity tgt j
          → dist capacity tgt j < dist capacity tgt n
          → is_tombstone (buckets j).key ≡ true)
      → Reaches capacity buckets tgt n
  Reaches-next i n k r x s j q c = elim (ℕ_discrete i j) [
    | yes same ↦ rw (← same) x
    | no other ↦ ground (arith, r j q, s j q, dist_injective capacity tgt i j t k q)
  ]
