-- ===== src/Hypertable/Valid.antt =====
-- When a table is well formed, in both of its forms, and `insert_hyperobject` on it.
use cheetah.Base.{
  Option-cases, ap, sym, ◌∙◌, update_self, update_ne, ℕ, zero, suc, ◌+◌, ◌≤◌, ◌<◌, ◌≡◌, ◌≢◌, ◌⊎◌,
  inl, inr, refl, true, arith, update, ℕ_discrete, ltb, if◌then◌else◌, some, none,
}
use cheetah.Hypertable.{u32_mod, Bucket, Table, is_valid}
use cheetah.Hypertable.Count.{total, occupied, empties, valid_weight}
use cheetah.Hypertable.Order.{Ordered}
use cheetah.Hypertable.Store.{Stores, overwrite-Stores}
use cheetah.Hypertable.Update.{scan, insert_small}

-- A small table keeps its keys in the first `occupancy` buckets, in any order.
pub record IsSmall {ℓ} {D : Type ℓ} (t : Table D) : Type 0 where
  pub least : 4 ≤ t.capacity
  pub small : t.capacity < 8
  pub fits : t.occupancy ≤ t.capacity
  pub valid : (i : ℕ) → i < t.occupancy → is_valid (t.buckets i).key ≡ true
  pub unique :
      (i j : ℕ)
      → i < t.occupancy
      → j < t.occupancy
      → is_valid (t.buckets i).key ≡ true
      → (t.buckets i).key ≡ (t.buckets j).key
      → i ≡ j

-- A hashed table is in order.
pub record IsHashed {ℓ} {D : Type ℓ} (t : Table D) : Type 0 where
  pub large : 8 ≤ t.capacity
  pub fits : t.capacity < u32_mod
  pub ordered : Ordered t.capacity t.buckets
  pub occupied_eq : occupied t.capacity t.buckets ≡ t.occupancy

-- The buckets that may hold a key are those below this index.
abbrev pub live {ℓ} : {D : Type ℓ} → Table D → ℕ
live t = if ltb t.capacity 8 then t.occupancy else t.capacity

abbrev pub IsTable {ℓ} : {D : Type ℓ} → Table D → Type 0
IsTable t = IsSmall t ⊎ IsHashed t

-- An empty bucket, where the table is hashed.
abbrev pub HasRoom {ℓ} : {D : Type ℓ} → Table D → Type 0
HasRoom t = 8 ≤ t.capacity → 0 < empties t.capacity t.buckets

module _ {ℓ} {D : Type ℓ} where
  -- The scan of a small table returns the first index with the key, or there is none.
  pub scan-some :
      (buckets : ℕ → Bucket D) (key n i p : ℕ)
      → scan buckets key n i ≡ some p
      → (i ≤ p) × (p < i + n) × ((buckets p).key ≡ key)
  unfolding scan
  scan-some buckets key zero i p h = absurd (cc)
  scan-some buckets key (suc n) i p h = ground (arith, scan-some buckets key n (i + 1) p)

  pub scan-none :
      (buckets : ℕ → Bucket D) (key n i : ℕ)
      → scan buckets key n i ≡ none
      → (p : ℕ) → i ≤ p
      → p < i + n
      → (buckets p).key ≢ key
  unfolding scan
  scan-none buckets key zero i h p a b = absurd (omega arith)
  scan-none buckets key (suc n) i h p a b =
      let here : (buckets i).key ≢ key = ground (arith, h) in
      let rest : scan buckets key n (i + 1) ≡ none = ground (arith, h) in
      elim (ℕ_discrete p i) [
        | yes e ↦ rw e here
        | no e ↦ scan-none buckets key n (i + 1) rest p (omega arith) (omega arith)
      ]

  pub total-all :
      (n : ℕ) (buckets : ℕ → Bucket D)
      → ((i : ℕ) → i < n → is_valid (buckets i).key ≡ true)
      → total valid_weight n buckets ≡ n
  unfolding total
  total-all zero buckets h = refl
  total-all (suc n) buckets h =
      ground (arith, h n (omega arith), total-all n buckets (λ i k. h i (omega arith)))

  -- Adding a bucket behind the last.
  append-Stores :
      (n : ℕ) (buckets : ℕ → Bucket D) (b : Bucket D)
      → ((p : ℕ) → p < n → (buckets p).key ≢ b.key)
      → Stores n buckets b (n + 1) (update buckets n b)
  append-Stores n buckets b absent = record {
    here = (
      n,
      omega arith,
      ap (λ (c : Bucket D). c.key) (update_self buckets n b),
      ap (λ (c : Bucket D). c.data_of) (update_self buckets n b),
    );
    kept = λ k d w e h.
        let apart : n ≢ h.0 = omega (arith, h.1) in
        let f = update_ne buckets n h.0 b apart in (h.0, omega (arith, h.1), rw f h.2, rw f h.3);
    only = λ k d w h. elim (ℕ_discrete n h.0) [
      | yes q ↦
          let f : update buckets n b h.0 ≡ b = rw (← q) (update_self buckets n b) in
          inl (sym (rw f at h.2), sym (rw f at h.3))
      | no q ↦
          let f = update_ne buckets n h.0 b q in
          let key : (buckets h.0).key ≡ k = rw f at h.2 in
          let l : h.0 < n = omega (arith, h.1) in
          inr (λ e. absent h.0 l (key ∙ e), (h.0, l, key, rw f at h.3))
    ];
  }

  -- With room left, a small table stores the bucket and stays small.
  pub insert_small-Stores :
      (t : Table D) (b : Bucket D)
      → IsSmall t
      → t.occupancy < t.capacity
      → is_valid b.key ≡ true
      → ((insert_small t b).1 ≡ true)
        × IsSmall (insert_small t b).0
        × ((insert_small t b).0.capacity ≡ t.capacity)
        × Stores t.occupancy t.buckets b (insert_small t b).0.occupancy (insert_small t b).0.buckets
  unfolding insert_small
  insert_small-Stores t b s l v = elim (Option-cases (scan t.buckets b.key t.occupancy 0)) [
    | inl e ↦
        let absent : (p : ℕ) → p < t.occupancy → (t.buckets p).key ≢ b.key =
          λ p k. scan-none t.buckets b.key t.occupancy 0 e p (omega arith) (omega arith) in
        rw (e, insert_small)
          (
            refl,
            record {
              least = s.least;
              small = s.small;
              fits = omega arith;
              valid = λ i k. ground (arith, s.valid i, v);
              unique =
                  λ i j k m w q. ground (arith, s.unique i j, s.valid i, absent i, absent j, v);
            },
            refl,
            append-Stores t.occupancy t.buckets b absent,
          )
    | inr (p, e) ↦
        let at = scan-some t.buckets b.key t.occupancy 0 p e in
        rw (e, insert_small)
          (
            refl,
            record {
              least = s.least;
              small = s.small;
              fits = s.fits;
              valid = λ i k. ground (arith, s.valid i, v);
              unique = λ i j k m w q. ground (
                arith,
                s.unique i j,
                s.unique p i,
                s.unique p j,
                s.unique i p,
                s.valid i,
                at.2,
                v,
              );
            },
            refl,
            overwrite-Stores t.occupancy t.buckets b p (omega (arith, at.1)) at.2 v s.unique b refl
                refl,
          )
  ]
