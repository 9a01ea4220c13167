-- ===== src/Hypertable/Found.antt =====
-- The first loop of `insert_hyperobject` in a table in order that holds the key: it stops there.
use cheetah.Base.{
  ℕ, zero, suc, ◌+◌, ◌≤◌, ◌<◌, ◌≡◌, inl, inr, true, false, arith, ℕ_discrete, Bool-cases, ◌==◌,
}
use cheetah.Hypertable.{
  u32_mod, Bucket, is_empty, is_valid, is_tombstone, inc_index, continue_probe,
}
use cheetah.Hypertable.Circle.{
  dist, dist-lt, dist_self, dist_injective, continue_probe-eq-dist, continue_probe_self,
}
use cheetah.Hypertable.Order.{Ordered, Passes, hash-lt}
use cheetah.Hypertable.Update.{found, skip_tombstones, probe_loop}
use cheetah.Hypertable.Skip.{step, skip_tombstones-Skips}

module _ {ℓ} {D : Type ℓ} (capacity : ℕ) (buckets : ℕ → Bucket D) (tgt p : ℕ)
    (fits : capacity < u32_mod) (t : tgt < capacity) (l : p < capacity)
    (o : Ordered capacity buckets) (v : is_valid (buckets p).key ≡ true)
    (h : (buckets p).hash ≡ tgt) where
  alive : is_tombstone (buckets p).key ≡ false
  alive = ground arith

  passes :
      (i : ℕ)
      → i < capacity
      → dist capacity tgt i < dist capacity tgt p
      → Passes capacity buckets tgt i
  passes i k s = rw (← h) (o.reached p l v i k (rw h s))

  -- A bucket with a key on the way, or at `p` itself, lets the probe go on.
  goes_on :
      (n : ℕ)
      → n < capacity
      → dist capacity tgt n ≤ dist capacity tgt p
      → is_tombstone (buckets n).key ≡ false
      → (is_empty (buckets n).key ≡ false) × (continue_probe tgt (buckets n).hash n ≡ true)
  goes_on n k s x = elim (ℕ_discrete n p) [
    | yes same ↦ (rw same (ground arith), rw (same, h) (continue_probe_self tgt p))
    | no other ↦
        let strict : dist capacity tgt n < dist capacity tgt p =
          ground (arith, dist_injective capacity tgt n p t k l) in
        let y = passes n k strict in
        let w : is_valid (buckets n).key ≡ true = ground (arith, y) in
        ground (
          arith,
          y,
          w,
          continue_probe-eq-dist capacity tgt (buckets n).hash n (omega arith) t
              (hash-lt capacity buckets fits n k o w) k,
        )
  ]

  pub probe_loop-found :
      (fuel i : ℕ)
      → i < capacity
      → dist capacity tgt i ≤ dist capacity tgt p
      → dist capacity tgt p < dist capacity tgt i + fuel
      → probe_loop buckets capacity (buckets p).key tgt fuel i ≡ found p
  unfolding probe_loop
  probe_loop-found zero i k c f = absurd (omega arith)
  probe_loop-found (suc fuel) i k c f = elim (ℕ_discrete i p) [
    | yes same ↦ rw same (ground arith)
    | no other ↦
        let strict : dist capacity tgt i < dist capacity tgt p =
          ground (arith, dist_injective capacity tgt i p t k l) in
        let miss : ((buckets p).key == (buckets i).key) ≡ false =
          ground (arith, o.unique p i l k v) in
        let g = step capacity buckets tgt p fits t l alive i k strict in
        let full : is_empty (buckets i).key ≡ false = ground (arith, passes i k strict) in
        elim (Bool-cases (is_tombstone (buckets i).key)) [
          | inl x ↦
              let s =
                skip_tombstones-Skips capacity buckets tgt p fits t l alive capacity
                  (inc_index i capacity) g.1 g.2 (omega (arith, g.0))
                  (omega (arith, dist-lt capacity tgt p t l)) in
              let n = skip_tombstones buckets capacity tgt capacity (inc_index i capacity) in
              let far : (n == tgt) ≡ false = ground (arith, s.later, g.0, dist_self capacity tgt) in
              let y = goes_on n s.within s.sooner s.ends in
              rw (miss, full, x, y.0, far, y.1)
                (probe_loop-found fuel n s.within s.sooner (omega (arith, s.later, g.0)))
          | inr x ↦
              let y = goes_on i k c x in
              let far : (inc_index i capacity == tgt) ≡ false = ground (arith, g.2) in
              rw (miss, full, x, y.1, far)
                (probe_loop-found fuel (inc_index i capacity) g.1 (omega (arith, g.0))
                  (omega (arith, g.0)))
        ]
  ]
