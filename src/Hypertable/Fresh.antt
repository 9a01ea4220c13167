-- ===== src/Hypertable/Fresh.antt =====
-- `bucket_array_create`: a new array holds no key, and few tombstones.
use cheetah.Base.{
  ℕ, zero, suc, ◌+◌, ◌/◌, ◌≤◌, ◌≡◌, refl, arith, update, Bool-cases, ◌==◌, false, inl, inr, ◌-◌,
  ltb,
}
use cheetah.Hypertable.{Bucket, Views, is_valid, key_deleted, plant_tombstones, bucket_array_create}
use cheetah.Hypertable.Count.{total, occupied, empties, valid_weight, empty_weight, total-update}
use cheetah.Hypertable.Order.{Ordered}

module _ {ℓ} {D : Type ℓ} where
  plant_tombstones-invalid :
      (n i tombstone_idx : ℕ) (buckets : ℕ → Bucket D)
      → ((j : ℕ) → is_valid (buckets j).key ≡ false)
      → (j : ℕ) → is_valid (plant_tombstones n i tombstone_idx buckets j).key ≡ false
  unfolding plant_tombstones
  plant_tombstones-invalid zero i x buckets h = h
  plant_tombstones-invalid (suc n) i x buckets h =
      plant_tombstones-invalid n (i + 1) _ _ (λ j. ground (arith, h j))

  -- One bucket in 33 becomes a tombstone.
  plant_tombstones-empties :
      (capacity n i tombstone_idx : ℕ) (buckets : ℕ → Bucket D)
      → i + n ≡ capacity
      → tombstone_idx ≤ 32
      → empties capacity buckets
        ≤ empties capacity (plant_tombstones n i tombstone_idx buckets) + (n + tombstone_idx) / 33
  unfolding plant_tombstones
  plant_tombstones-empties capacity zero i x buckets e h = omega arith
  plant_tombstones-empties capacity (suc n) i x buckets e h = elim (Bool-cases (x == 32)) [
    | inl due ↦ rw due (
        ground (
          arith,
          total-update empty_weight capacity i buckets (record (buckets i) { key = key_deleted }),
          plant_tombstones-empties capacity n (i + 1) (x - 32)
              (update buckets i (record (buckets i) { key = key_deleted })),
        ))
    | inr early ↦
        rw early (ground (arith, plant_tombstones-empties capacity n (i + 1) (x + 1) buckets))
  ]

  total-const : (w : ℕ → ℕ) (n : ℕ) (b : Bucket D) → w b.key ≡ 1 → total w n (λ _. b) ≡ n
  unfolding total
  total-const w zero b h = refl
  total-const w (suc n) b h = omega (arith, h, total-const w n b h)

  total-zero :
      (w : ℕ → ℕ) (n : ℕ) (buckets : ℕ → Bucket D)
      → ((j : ℕ) → w (buckets j).key ≡ 0)
      → total w n buckets ≡ 0
  unfolding total
  total-zero w zero buckets h = refl
  total-zero w (suc n) buckets h = omega (arith, h n, total-zero w n buckets h)

  module _ (u : Views D) (capacity : ℕ) where
    pub bucket_array_create-invalid :
        (j : ℕ) → is_valid (bucket_array_create u capacity j).key ≡ false
    unfolding bucket_array_create
    bucket_array_create-invalid j = elim (Bool-cases (ltb capacity 8)) [
      | inl w ↦ rw w refl
      | inr w ↦ rw w (plant_tombstones-invalid capacity 0 0 _ (λ _. refl) j)
    ]

    pub bucket_array_create-occupied : occupied capacity (bucket_array_create u capacity) ≡ 0
    bucket_array_create-occupied =
        total-zero valid_weight capacity _ (λ j. ground (arith, bucket_array_create-invalid j))

    -- Of the buckets of a new array, at most one in 33, rounded down, is not empty.
    pub bucket_array_create-empties :
        capacity ≤ empties capacity (bucket_array_create u capacity) + capacity / 33
    unfolding bucket_array_create
    bucket_array_create-empties =
        let blank : Bucket D = record { key = 0; hash = 0; data_of = u.null } in
        let all = total-const empty_weight capacity blank refl in
        elim (Bool-cases (ltb capacity 8)) [
          | inl w ↦ rw w (omega (arith, all))
          | inr w ↦ rw w (
              omega (
                arith,
                all,
                plant_tombstones-empties capacity capacity 0 0 (λ _. blank) (omega arith)
                    (omega arith),
              ))
        ]

    pub bucket_array_create-Ordered : Ordered capacity (bucket_array_create u capacity)
    bucket_array_create-Ordered = record {
      hashed = λ i k v. ground (arith, bucket_array_create-invalid i);
      reached = λ i k v. absurd (ground (arith, bucket_array_create-invalid i));
      unique = λ i j k l v e. ground (arith, bucket_array_create-invalid i);
    }
