-- ===== src/Hypertable/Store.antt =====
-- `place` whether or not the table has the key, by what the table holds.
use cheetah.Base.{
  sym, ap, ◌∙◌, update_self, update_ne, ℕ, zero, suc, ◌<◌, ◌≡◌, ◌≢◌, ◌⊎◌, inl, inr, refl, true,
  arith, update, ℕ_discrete, ◌∙◌,
}
use cheetah.Hypertable.{u32_mod, Bucket, Table, is_valid}
use cheetah.Hypertable.Circle.{dist}
use cheetah.Hypertable.Count.{
  occupied, empties, valid_weight, empty_weight, total, total-update, total_pos,
}
use cheetah.Hypertable.Order.{Ordered}
use cheetah.Hypertable.Pending.{Holds}
use cheetah.Hypertable.Place.{place-Grows, place-present}
use cheetah.Hypertable.Update.{place}

module _ {ℓ} {D : Type ℓ} where
  -- Whether one of the first `n` buckets has the key.
  pub search_key :
      (n : ℕ) (buckets : ℕ → Bucket D) (key : ℕ)
      → ((p : ℕ) × (p < n) × ((buckets p).key ≡ key)) ⊎ ((p : ℕ) → p < n → (buckets p).key ≢ key)
  search_key zero buckets key = inr (λ p h. elim h [ ])
  search_key (suc n) buckets key = elim (search_key n buckets key) [
    | inl s ↦ inl (s.0, omega (arith, s.1), s.2)
    | inr none_below ↦ elim (ℕ_discrete (buckets n).key key) [
      | yes e ↦ inl (n, omega arith, e)
      | no e ↦ inr (λ p h q. elim (ℕ_discrete p n) [
        | yes same ↦ e (rw same at q)
        | no other ↦ none_below p (omega arith) q
      ])
    ]
  ]

  -- What is stored under which key matters to the order, not the data.
  pub Ordered_congr :
      (capacity : ℕ) (buckets after : ℕ → Bucket D)
      → ((j : ℕ) → (after j).key ≡ (buckets j).key)
      → ((j : ℕ) → (after j).hash ≡ (buckets j).hash)
      → Ordered capacity buckets
      → Ordered capacity after
  Ordered_congr capacity buckets after f g o = record {
    hashed = λ i k v. ground (arith, f i, g i, o.hashed i k);
    reached = λ i k v j m n.
        let v' : is_valid (buckets i).key ≡ true = rw (f i) at v in
        let n' : dist capacity (buckets i).hash j < dist capacity (buckets i).hash i =
          rw (g i) at n in
        ground (arith, f j, g i, g j, o.reached i k v' j m n');
    unique = λ i j k l v e. ground (arith, f i, f j, o.unique i j k l);
  }

  -- The table `r` holds what `t` holds, but for the key of `b`, which has the data of `b`.
  pub record Stores (live : ℕ) (buckets : ℕ → Bucket D) (b : Bucket D) (live' : ℕ)
      (after : ℕ → Bucket D) : Type ℓ where
    pub here : Holds live' after b.key b.data_of
    pub kept :
        (k : ℕ) (d : D)
        → is_valid k ≡ true
        → k ≢ b.key
        → Holds live buckets k d
        → Holds live' after k d
    pub only :
        (k : ℕ) (d : D)
        → is_valid k ≡ true
        → Holds live' after k d
        → ((k ≡ b.key) × (d ≡ b.data_of)) ⊎ ((k ≢ b.key) × Holds live buckets k d)

  -- The data of the key's bucket is overwritten.
  module _ (capacity : ℕ) (buckets : ℕ → Bucket D) (b : Bucket D) (p : ℕ) (l : p < capacity)
      (e : (buckets p).key ≡ b.key) (v : is_valid b.key ≡ true)
      (unique : (i j : ℕ)
        → i < capacity
        → j < capacity
        → is_valid (buckets i).key ≡ true
        → (buckets i).key ≡ (buckets j).key
        → i ≡ j)
      (x : Bucket D) (same_key : x.key ≡ b.key) (same_data : x.data_of ≡ b.data_of) where
    pub overwrite-Stores : Stores capacity buckets b capacity (update buckets p x)
    overwrite-Stores = record {
      here = (
        p,
        l,
        ap (λ (c : Bucket D). c.key) (update_self buckets p x) ∙ same_key,
        ap (λ (c : Bucket D). c.data_of) (update_self buckets p x) ∙ same_data,
      );
      kept = λ k d w n h.
          let apart : p ≢ h.0 = λ q. n (sym h.2 ∙ ap (λ i. (buckets i).key) (sym q) ∙ e) in
          (
            h.0,
            h.1,
            rw (update_ne buckets p h.0 x apart) h.2,
            rw (update_ne buckets p h.0 x apart) h.3,
          );
      only = λ k d w h. elim (ℕ_discrete p h.0) [
        | yes q ↦
            let f : update buckets p x h.0 ≡ x = rw (← q) (update_self buckets p x) in
            inl (sym (rw f at h.2) ∙ same_key, sym (rw f at h.3) ∙ same_data)
        | no q ↦
            let f = update_ne buckets p h.0 x q in
            let key : (buckets h.0).key ≡ k = rw f at h.2 in
            inr (
              λ n. q (unique p h.0 l h.1 (rw e v) (e ∙ sym n ∙ sym key)),
              (h.0, h.1, key, rw f at h.3),
            )
      ];
    }

    pub overwrite-total :
        (w : ℕ → ℕ) → total w capacity (update buckets p x) ≡ total w capacity buckets
    overwrite-total w =
        omega (arith, total-update w capacity p buckets x l, ap w (e ∙ sym same_key))

  pub record Placed (t : Table D) (b : Bucket D) (r : Table D) : Type ℓ where
    pub capacity : r.capacity ≡ t.capacity
    pub ordered : Ordered t.capacity r.buckets
    pub occupied_eq : occupied t.capacity r.buckets ≡ r.occupancy
    pub stores : Stores t.capacity t.buckets b t.capacity r.buckets

  -- In a table in order with an empty bucket, or that has the key already.
  pub place-Placed :
      (t : Table D) (b : Bucket D)
      → t.capacity < u32_mod
      → 0 < t.capacity
      → Ordered t.capacity t.buckets
      → occupied t.capacity t.buckets ≡ t.occupancy
      → 0 < empties t.capacity t.buckets
      → is_valid b.key ≡ true
      → ((place t b).1 ≡ true) × Placed t b (place t b).0
  place-Placed t b fits some_room o counted roomy v = elim (search_key t.capacity t.buckets b.key) [
    | inr absent ↦
        let hole = total_pos empty_weight t.capacity t.buckets roomy in
        let (run, g) =
          place-Grows t fits some_room o b v hole.0 hole.1 (ground (arith, hole.2)) absent in
        (
          run,
          record {
            capacity = g.capacity;
            ordered = g.adds.ordered;
            occupied_eq = omega (arith, g.adds.grown, g.occupancy);
            stores = record {
              here = g.adds.here;
              kept = λ k d w n h. g.adds.kept k d w h;
              only = λ k d w h. elim (g.adds.only k d w h) [
                | inl e ↦ inl e
                | inr s ↦ inr (λ e. absent s.0 s.1 (s.2 ∙ e), s)
              ];
            };
          },
        )
    | inl at ↦
        let x : Bucket D = record (t.buckets at.0) { data_of = b.data_of } in
        let same = overwrite-Stores t.capacity t.buckets b at.0 at.1 at.2 v o.unique x at.2 refl in
        let sum =
          overwrite-total t.capacity t.buckets b at.0 at.1 at.2 v o.unique x at.2 refl
            valid_weight in
        rw (place-present t fits some_room o b v at.0 at.1 at.2) (
          refl,
          record {
            capacity = refl;
            ordered =
                Ordered_congr t.capacity t.buckets (update t.buckets at.0 x) (λ j. ground arith)
                  (λ j. ground arith) o;
            occupied_eq = sum ∙ counted;
            stores = same;
          },
        )
  ]
