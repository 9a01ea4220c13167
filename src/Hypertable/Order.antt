-- ===== src/Hypertable/Order.antt =====
-- The order of a table in ordered linear probing, and the probe of
-- `__cilkrts_find_hyperobject_hash` in a table that is in order.
use cheetah.Base.{ℕ, zero, suc, ◌+◌, ◌≤◌, ◌<◌, ◌≡◌, ◌≢◌, true, some, arith, bit_and-le, ℕ_discrete}
use cheetah.Hypertable.{u32_mod, Bucket, is_valid, get_table_entry, inc_index, find_loop}
use cheetah.Hypertable.Circle.{
  dist, continue_probe-eq-dist, inc_index-lt, dist-lt, dist_self, dist-inc_index, dist_injective,
}

pub get_table_entry-lt : (capacity key : ℕ) → 0 < capacity → get_table_entry capacity key < capacity
unfolding get_table_entry
get_table_entry-lt capacity key h = omega (arith, bit_and-le)

module _ {ℓ} {D : Type ℓ} (capacity : ℕ) (buckets : ℕ → Bucket D) where
  -- A probe for the hash `tgt` goes on past the bucket at `j`.
  abbrev pub Passes : ℕ → ℕ → Type 0
  Passes tgt j =
      ((buckets j).key ≢ 0)
      × (is_valid (buckets j).key ≡ true → dist capacity tgt j ≤ dist capacity (buckets j).hash j)

  -- It does so at every bucket from `tgt` up to `i`.
  abbrev pub Reaches : ℕ → ℕ → Type 0
  Reaches tgt i = (j : ℕ) → j < capacity → dist capacity tgt j < dist capacity tgt i → Passes tgt j

  -- Every key stands with its hash where a probe for it arrives, and stands once.
  pub record Ordered : Type 0 where
    pub hashed :
        (i : ℕ)
        → i < capacity
        → is_valid (buckets i).key ≡ true
        → (buckets i).hash ≡ get_table_entry capacity (buckets i).key
    pub reached :
        (i : ℕ) → i < capacity → is_valid (buckets i).key ≡ true → Reaches (buckets i).hash i
    pub unique :
        (i j : ℕ)
        → i < capacity
        → j < capacity
        → is_valid (buckets i).key ≡ true
        → (buckets i).key ≡ (buckets j).key
        → i ≡ j

module _ {ℓ} {D : Type ℓ} (capacity : ℕ) (buckets : ℕ → Bucket D) (fits : capacity < u32_mod) where
  pub hash-lt :
      (i : ℕ)
      → i < capacity
      → Ordered capacity buckets
      → is_valid (buckets i).key ≡ true
      → (buckets i).hash < capacity
  hash-lt i k o v =
      omega (arith, o.hashed i k v, get_table_entry-lt capacity (buckets i).key (omega arith))

  pub find_loop-hit :
      (key tgt p : ℕ)
      → tgt < capacity
      → p < capacity
      → (buckets p).key ≡ key
      → is_valid key ≡ true
      → (buckets p).hash ≡ tgt
      → Ordered capacity buckets
      → (fuel i : ℕ) → i < capacity
      → dist capacity tgt i ≤ dist capacity tgt p
      → dist capacity tgt p < dist capacity tgt i + fuel
      → find_loop buckets capacity key tgt fuel i ≡ some p
  unfolding find_loop
  find_loop-hit key tgt p t l e v h o zero i k m n = absurd (omega arith)
  find_loop-hit key tgt p t l e v h o (suc fuel) i k m n = elim (ℕ_discrete i p) [
    | yes same ↦ ground arith
    | no other ↦
        let strict : dist capacity tgt i < dist capacity tgt p =
          ground (arith, dist_injective capacity tgt i p) in
        let pass : Passes capacity buckets tgt i =
          rw (← h) (o.reached p l (ground arith) i k (rw h strict)) in
        let step : dist capacity tgt (inc_index i capacity) ≡ dist capacity tgt i + 1 =
          dist-inc_index capacity tgt i fits t k (omega (arith, dist-lt capacity tgt p t l)) in
        ground (
          arith,
          pass,
          step,
          o.unique p i l k,
          hash-lt i k o,
          dist_self capacity tgt,
          continue_probe-eq-dist capacity tgt (buckets i).hash i,
          inc_index-lt i capacity,
          find_loop-hit key tgt p t l e v h o fuel (inc_index i capacity),
        )
  ]

  -- What the loop returns is a bucket with the key.
  pub find_loop_sound :
      (key tgt fuel i q : ℕ)
      → i < capacity
      → find_loop buckets capacity key tgt fuel i ≡ some q
      → (q < capacity) × ((buckets q).key ≡ key)
  unfolding find_loop
  find_loop_sound key tgt zero i q k e = absurd (cc)
  find_loop_sound key tgt (suc fuel) i q k e =
      ground (arith, find_loop_sound key tgt fuel (inc_index i capacity) q, inc_index-lt i capacity)
