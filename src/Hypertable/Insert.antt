-- ===== src/Hypertable/Insert.antt =====
-- `insert_hyperobject` in every form of the table: it ends, succeeds, keeps the table well formed
-- and stores the bucket.
use cheetah.Base.{
  lt→ltb, not-lt→ltb, ℕ, suc, ◌*◌, ◌≤◌, ◌<◌, ◌≡◌, inl, inr, true, false, arith, Bool-cases, some,
  ◌>>=◌, ◌/◌, subst₂, sym, ◌∙◌, Bool, subst, dec_lt,
}
use cheetah.Hypertable.{
  max_capacity, Bucket, Table, Views, is_valid, is_overloaded, time_to_rebuild,
}
use cheetah.Hypertable.Count.{total, valid_weight, empties, total-le}
use cheetah.Hypertable.Rebuild.{Rebuilt, rebuild-Rebuilt, is_overloaded-eq-false}
use cheetah.Hypertable.Store.{Stores, Placed, place-Placed}
use cheetah.Hypertable.Update.{place, insert_small, rebuild, insert_hashed, insert_hyperobject}
use cheetah.Hypertable.Valid.{
  IsSmall, IsHashed, IsTable, HasRoom, live, insert_small-Stores, total-all,
}

is_overloaded-le :
    (occupancy capacity : ℕ)
    → capacity ≤ max_capacity
    → is_overloaded occupancy capacity ≡ false
    → occupancy ≤ 15 * capacity / 16
unfolding is_overloaded
is_overloaded-le occupancy capacity fits h = ground arith

module _ {ℓ} {D : Type ℓ} (u : Views D) where
  -- `r` is a well-formed table that holds what `t` holds, but for the key of `b`.
  pub record Inserted (t : Table D) (b : Bucket D) (r : Table D) : Type ℓ where
    pub table : IsTable r
    pub stores : Stores (live t) t.buckets b (live r) r.buckets

  live_hashed : (t : Table D) → 8 ≤ t.capacity → live t ≡ t.capacity
  live_hashed t h = ground arith

  live_small : (t : Table D) → t.capacity < 8 → live t ≡ t.occupancy
  live_small t h = ground arith

  Placed-Inserted :
      (t : Table D) (b : Bucket D) (r : Table D) → IsHashed t → Placed t b r → Inserted t b r
  Placed-Inserted t b r h p =
      let large : 8 ≤ r.capacity = rw p.capacity h.large in
      record {
        table = inr (record {
          large = large;
          fits = rw p.capacity h.fits;
          ordered = rw p.capacity p.ordered;
          occupied_eq = rw p.capacity p.occupied_eq;
        });
        stores =
            subst₂ (λ m n. Stores m t.buckets b n r.buckets) (sym (live_hashed t h.large))
              (sym (live_hashed r large ∙ p.capacity)) p.stores;
      }

  -- After a rebuild the bucket is placed.
  Rebuilt-Inserted :
      (t : Table D) (b : Bucket D) (new_capacity : ℕ) (r : Table D)
      → 8 ≤ new_capacity
      → new_capacity ≤ max_capacity
      → is_valid b.key ≡ true
      → Rebuilt t (live t) new_capacity r
      → ((place r b).1 ≡ true) × Inserted t b (place r b).0
  Rebuilt-Inserted t b new_capacity r large fits v f =
      let large' : 8 ≤ r.capacity = rw f.capacity large in
      let h : IsHashed r = record {
        large = large';
        fits = omega (arith, f.capacity, fits);
        ordered = f.ordered;
        occupied_eq = f.occupied_eq;
      } in
      let p = place-Placed r b h.fits (omega arith) h.ordered h.occupied_eq f.roomy v in
      let g = Placed-Inserted r b (place r b).0 h p.1 in
      let e = live_hashed r large' in
      (
        p.0,
        record {
          table = g.table;
          stores = record {
            here = g.stores.here;
            kept = λ k d w n s. g.stores.kept k d w n (rw e (f.forth k d w s));
            only = λ k d w s. elim (g.stores.only k d w s) [
              | inl q ↦ inl q
              | inr (n, q) ↦ inr (n, f.back k d w (rw e at q))
            ];
          };
        },
      )

  some_pair {κ} : {A : Type κ} (x : A × Bool) → x.1 ≡ true → some x ≡ some (x.0, true)
  some_pair x e = λ i. some (x.0, e i)

  valid_weight-le : (k : ℕ) → valid_weight k ≤ 1
  valid_weight-le k = ground arith

  module _ (depth : ℕ) (t : Table D) (b : Bucket D) (v : is_valid b.key ≡ true) where
    -- The rebuild gives a table in which the bucket is placed.
    after_rebuild :
        (new_capacity : ℕ)
        → IsHashed t
        → 8 ≤ new_capacity
        → new_capacity ≤ max_capacity
        → t.occupancy ≤ 15 * new_capacity / 16
        → (r : Table D) × ((rebuild u (insert_hyperobject u (suc depth)) t new_capacity
              >>= (λ t'. some (place t' b)))
            ≡ some (r, true))
          × Inserted t b r
    after_rebuild new_capacity h large fits room =
        let f =
          rebuild-Rebuilt u depth t new_capacity large fits room h.occupied_eq h.ordered.unique in
        let g =
          Rebuilt-Inserted t b new_capacity f.0 large fits v
            (subst (λ n. Rebuilt t n new_capacity f.0) (sym (live_hashed t h.large)) f.2) in
        ((place f.0 b).0, rw f.1 (some_pair (place f.0 b) g.0), g.1)

    insert_hashed-Inserted :
        IsHashed t
        → 2 * t.capacity ≤ max_capacity
        → 0 < empties t.capacity t.buckets
        → (r : Table D) × (insert_hashed u (insert_hyperobject u (suc depth)) t b ≡ some (r, true))
          × Inserted t b r
    unfolding insert_hashed
    insert_hashed-Inserted h c roomy = elim (Bool-cases (is_overloaded t.occupancy t.capacity)) [
      | inl over ↦
          let few = total-le valid_weight valid_weight-le t.capacity t.buckets in
          let f =
            after_rebuild (t.capacity * 2) h (omega (arith, h.large)) (omega arith)
              (omega (arith, few, h.occupied_eq)) in
          (f.0, rw over f.1, f.2)
      | inr fine ↦ elim (Bool-cases (time_to_rebuild t.ins_rm_count t.capacity)) [
        | inl due ↦
            let f =
              after_rebuild t.capacity h h.large (omega arith)
                (is_overloaded-le t.occupancy t.capacity (omega arith) fine) in
            (f.0, rw (fine, due) f.1, f.2)
        | inr early ↦
            let p =
              place-Placed t b h.fits (omega (arith, h.large)) h.ordered h.occupied_eq roomy v in
            (
              (place t b).0,
              rw (fine, early) (some_pair (place t b) p.0),
              Placed-Inserted t b (place t b).0 h p.1,
            )
      ]
    ]

    -- A full small table is rebuilt as a hashed one.
    insert_full-Inserted :
        (s : IsSmall t)
        → t.capacity ≡ t.occupancy
        → (r : Table D) × ((rebuild u (insert_hyperobject u (suc depth)) t (t.capacity * 2)
              >>= (λ t'. insert_hashed u (insert_hyperobject u (suc depth)) t' b))
            ≡ some (r, true))
          × Inserted t b r
    unfolding insert_hashed
    insert_full-Inserted s full =
        let all : total valid_weight t.capacity t.buckets ≡ t.occupancy =
          rw full (total-all t.occupancy t.buckets s.valid) in
        let f =
          rebuild-Rebuilt u depth t (t.capacity * 2) (omega (arith, s.least))
            (omega (arith, s.small)) (omega arith) all
            (λ i j k m w e. s.unique i j (omega (arith, full)) (omega (arith, full)) w e) in
        let g =
          Rebuilt-Inserted t b (t.capacity * 2) f.0 (omega (arith, s.least))
            (omega (arith, s.small)) v
            (subst (λ n. Rebuilt t n (t.capacity * 2) f.0) (sym (live_small t s.small ∙ sym full))
              f.2) in
        let fine : is_overloaded f.0.occupancy f.0.capacity ≡ false =
          is_overloaded-eq-false f.0.occupancy f.0.capacity (omega (arith, f.2.capacity, s.small))
            (omega (arith, f.2.capacity, f.2.occupancy)) in
        ((place f.0 b).0, rw (f.1, fine, f.2.calm) (some_pair (place f.0 b) g.0), g.1)

    -- On a well-formed table of at most half of MAX_CAPACITY buckets that has an empty bucket if
    -- it is hashed, insert_hyperobject returns a table with success at a depth of two, so that no
    -- rebuild runs into its assertion on the capacity; the table is well formed (in order, keys
    -- unique, occupancy right) and holds exactly what it held before with the key, an address,
    -- overwritten.
    pub insert_hyperobject-Inserted :
        IsTable t
        → 2 * t.capacity ≤ max_capacity
        → HasRoom t
        → (r : Table D) × (insert_hyperobject u (suc (suc depth)) t b ≡ some (r, true))
          × Inserted t b r
    unfolding insert_hyperobject
    insert_hyperobject-Inserted (inl s) c roomy = elim (dec_lt t.occupancy t.capacity) [
      | yes l ↦
          let p = insert_small-Stores t b s l v in
          let e = live_small t s.small in
          (
            (insert_small t b).0,
            rw (lt→ltb t.capacity 8 s.small, lt→ltb t.occupancy t.capacity l)
                (some_pair (insert_small t b) p.0),
            record {
              table = inl p.1;
              stores =
                  subst₂ (λ m n. Stores m t.buckets b n (insert_small t b).0.buckets) (sym e)
                    (sym (live_small (insert_small t b).0 p.1.small)) p.3;
            },
          )
      | no l ↦
          let f = insert_full-Inserted s (omega (arith, s.fits)) in
          (f.0, rw (lt→ltb t.capacity 8 s.small, not-lt→ltb t.occupancy t.capacity l) f.1, f.2)
    ]
    insert_hyperobject-Inserted (inr h) c roomy =
        let f = insert_hashed-Inserted h c (roomy h.large) in
        (f.0, rw (not-lt→ltb t.capacity 8 (omega (arith, h.large))) f.1, f.2)
