-- ===== src/Hypertable/Rebuild.antt =====
-- `hyper_table::rebuild` into a table that is large enough to be hashed: the insertions do not
-- rebuild again, none fails, and the new table holds what the old one held.
use cheetah.Base.{
  ap, le→leb, ◌∙◌, subst₂, sym, ℕ, zero, suc, ◌+◌, ◌*◌, ◌/◌, ◌≤◌, ◌<◌, ◌≡◌, ◌≢◌, refl, true, false,
  some, arith, ℕ_discrete, Bool-cases, sym, ◌∙◌, inl, inr,
}
use cheetah.Base.Int.{pos, ◌+ℤ◌, ◌-ℤ◌}
use cheetah.Hypertable.{
  u32_mod, max_capacity, Bucket, Table, Views, is_valid, is_overloaded, time_to_rebuild,
  bucket_array_create,
}
use cheetah.Hypertable.Count.{
  total, occupied, empties, valid_weight, empty_weight, total_pos, total-next, total_mono,
}
use cheetah.Hypertable.Fresh.{
  bucket_array_create-invalid, bucket_array_create-occupied, bucket_array_create-empties,
  bucket_array_create-Ordered,
}
use cheetah.Hypertable.Order.{Ordered}
use cheetah.Hypertable.Pending.{Holds}
use cheetah.Hypertable.Place.{Grows, place-Grows}
use cheetah.Hypertable.Update.{place, reinsert, insert_hashed, insert_hyperobject, rebuild}

pub is_overloaded-eq-false :
    (occupancy capacity : ℕ)
    → capacity ≤ max_capacity
    → occupancy ≤ 15 * capacity / 16
    → is_overloaded occupancy capacity ≡ false
unfolding is_overloaded
is_overloaded-eq-false occupancy capacity fits h = ground arith

pub time_to_rebuild-eq-false :
    (a b capacity : ℕ) → a ≤ b → time_to_rebuild (pos a -ℤ pos b) capacity ≡ false
unfolding time_to_rebuild ◌-ℤ◌
time_to_rebuild-eq-false a b capacity h = ground arith

count_one : (a b : ℕ) → pos a -ℤ pos b +ℤ pos 1 ≡ pos (a + 1) -ℤ pos b
unfolding ◌+ℤ◌ ◌-ℤ◌
count_one a b = ground arith

module _ {ℓ} {D : Type ℓ} where
  -- The table `r` holds what `t` holds, in an array of `new_capacity` buckets, and has room.
  pub record Rebuilt (t : Table D) (live new_capacity : ℕ) (r : Table D) : Type ℓ where
    pub capacity : r.capacity ≡ new_capacity
    pub ordered : Ordered r.capacity r.buckets
    pub occupancy : r.occupancy ≡ t.occupancy
    pub occupied_eq : occupied r.capacity r.buckets ≡ r.occupancy
    pub roomy : 0 < empties r.capacity r.buckets
    pub calm : time_to_rebuild r.ins_rm_count r.capacity ≡ false
    pub forth :
        (k : ℕ) (d : D)
        → is_valid k ≡ true
        → Holds live t.buckets k d
        → Holds r.capacity r.buckets k d
    pub back :
        (k : ℕ) (d : D)
        → is_valid k ≡ true
        → Holds r.capacity r.buckets k d
        → Holds live t.buckets k d

module _ {ℓ} {D : Type ℓ} (u : Views D) where
  -- Where no rebuild is due, the bucket is placed at once.
  pub insert_hyperobject-eq-place :
      (depth : ℕ) (t : Table D) (b : Bucket D)
      → 8 ≤ t.capacity
      → is_overloaded t.occupancy t.capacity ≡ false
      → time_to_rebuild t.ins_rm_count t.capacity ≡ false
      → insert_hyperobject u (suc depth) t b ≡ some (place t b)
  unfolding insert_hyperobject insert_hashed
  insert_hyperobject-eq-place depth t b c h k = ground (arith, h, k)

  module _ (depth : ℕ) (old : ℕ → Bucket D) (old_capacity old_occupancy new_capacity : ℕ)
      (large : 8 ≤ new_capacity) (fits : new_capacity ≤ max_capacity)
      (room : old_occupancy ≤ 15 * new_capacity / 16)
      (counted : total valid_weight old_capacity old ≡ old_occupancy)
      (unique : (i j : ℕ)
        → i < old_capacity
        → j < old_capacity
        → is_valid (old i).key ≡ true
        → (old i).key ≡ (old j).key
        → i ≡ j) where
    -- The new table after the first `i` buckets of the old one.
    pub record Filled (i : ℕ) (t : Table D) : Type ℓ where
      pub capacity : t.capacity ≡ new_capacity
      pub ordered : Ordered t.capacity t.buckets
      pub occupancy : t.occupancy ≡ total valid_weight i old
      pub occupied_eq : occupied t.capacity t.buckets ≡ t.occupancy
      pub roomy : new_capacity ≤ empties t.capacity t.buckets + new_capacity / 33 + t.occupancy
      pub count : t.ins_rm_count ≡ pos t.occupancy -ℤ pos old_occupancy
      pub forth :
          (k : ℕ) (d : D) → is_valid k ≡ true → Holds i old k d → Holds t.capacity t.buckets k d
      pub back :
          (k : ℕ) (d : D) → is_valid k ≡ true → Holds t.capacity t.buckets k d → Holds i old k d

    module _ (i : ℕ) (t : Table D) (l : i < old_capacity) (f : Filled i t) where
      skip-Filled : is_valid (old i).key ≡ false → Filled (i + 1) t
      skip-Filled v = record {
        capacity = f.capacity;
        ordered = f.ordered;
        occupancy = ground (arith, f.occupancy, total-next valid_weight i old, v);
        occupied_eq = f.occupied_eq;
        roomy = f.roomy;
        count = f.count;
        forth = λ k d w h. elim (ℕ_discrete h.0 i) [
          | yes same ↦
              let gone : is_valid (old h.0).key ≡ false = rw same v in
              absurd (ground (arith, h.2, w, gone))
          | no other ↦ f.forth k d w (h.0, omega (arith, h.1), h.2, h.3)
        ];
        back = λ k d w h. let p = f.back k d w h in (p.0, omega (arith, p.1), p.2, p.3);
      }

      module _ (v : is_valid (old i).key ≡ true) where
        absent : (p : ℕ) → p < t.capacity → (t.buckets p).key ≢ (old i).key
        absent p q e =
            let h = f.back (old i).key (t.buckets p).data_of v (p, q, e, refl) in
            omega (arith, h.1, unique i h.0 l (omega (arith, h.1)) v (sym h.2))

        below : t.occupancy < old_occupancy
        below = ground (
          arith,
          f.occupancy,
          total-next valid_weight i old,
          v,
          counted,
          total_mono valid_weight old_capacity (i + 1) old,
        )

        grown : ((place t (old i)).1 ≡ true) × Grows t (old i) (place t (old i)).0
        grown =
            let fits' : t.capacity < u32_mod = omega (arith, f.capacity, fits) in
            let hole =
              total_pos empty_weight t.capacity t.buckets (omega (arith, f.roomy, below)) in
            place-Grows t fits' (omega (arith, f.capacity)) f.ordered (old i) v hole.0 hole.1
              (ground (arith, hole.2)) absent

        placed : insert_hyperobject u (suc depth) t (old i) ≡ some (place t (old i))
        placed =
            insert_hyperobject-eq-place depth t (old i) (omega (arith, f.capacity))
              (is_overloaded-eq-false t.occupancy t.capacity (omega (arith, f.capacity))
                (omega (arith, below, f.capacity)))
              (rw f.count (
                time_to_rebuild-eq-false t.occupancy old_occupancy t.capacity
                  (omega (arith, below))))

        place-Filled : Filled (i + 1) (place t (old i)).0
        place-Filled =
            let g = grown.1 in
            record {
              capacity = g.capacity ∙ f.capacity;
              ordered = rw g.capacity g.adds.ordered;
              occupancy =
                  ground (arith, f.occupancy, total-next valid_weight i old, v, g.occupancy);
              occupied_eq = rw g.capacity (omega (arith, g.adds.grown, g.occupancy, f.occupied_eq));
              roomy = rw g.capacity (omega (arith, g.adds.filled, g.occupancy, f.roomy));
              count =
                  g.counted
                  ∙ ap (λ x. x +ℤ pos 1) f.count
                  ∙ count_one t.occupancy old_occupancy
                  ∙ ap (λ n. pos n -ℤ pos old_occupancy) (sym g.occupancy);
              forth = λ k d w h. rw g.capacity (elim (ℕ_discrete h.0 i) [
                | yes same ↦
                    subst₂ (Holds t.capacity (place t (old i)).0.buckets)
                      (ap (λ q. (old q).key) (sym same) ∙ h.2)
                      (ap (λ q. (old q).data_of) (sym same) ∙ h.3) g.adds.here
                | no other ↦ g.adds.kept k d w (f.forth k d w (h.0, omega (arith, h.1), h.2, h.3))
              ]);
              back = λ k d w h. elim (g.adds.only k d w (rw g.capacity at h)) [
                | inl e ↦ (i, omega arith, sym e.0, sym e.1)
                | inr s ↦ let p = f.back k d w s in (p.0, omega (arith, p.1), p.2, p.3)
              ];
            }

    -- The loop of `rebuild` runs to its end.
    reinsert-Filled :
        (n i : ℕ) (t : Table D)
        → i + n ≡ old_capacity
        → Filled i t
        → (r : Table D) × (reinsert (insert_hyperobject u (suc depth)) old n i t ≡ some r)
          × Filled old_capacity r
    unfolding reinsert
    reinsert-Filled zero i t e f =
        let same : i ≡ old_capacity = omega arith in (t, refl, rw same at f)
    reinsert-Filled (suc n) i t e f = elim (Bool-cases (is_valid (old i).key)) [
      | inl v ↦
          let l : i < old_capacity = omega arith in
          let r =
            reinsert-Filled n (i + 1) (place t (old i)).0 (omega arith) (place-Filled i t l f v) in
          (r.0, rw (v, placed i t l f v) r.1, r.2)
      | inr v ↦
          let l : i < old_capacity = omega arith in
          let r = reinsert-Filled n (i + 1) t (omega arith) (skip-Filled i t l f v) in
          (r.0, rw v r.1, r.2)
    ]

    start : Table D
    start = record {
      capacity = new_capacity;
      occupancy = 0;
      ins_rm_count = pos 0 -ℤ pos old_occupancy;
      buckets = bucket_array_create u new_capacity;
    }

    start-Filled : Filled 0 start
    unfolding start total
    start-Filled = record {
      capacity = refl;
      ordered = bucket_array_create-Ordered u new_capacity;
      occupancy = refl;
      occupied_eq = bucket_array_create-occupied u new_capacity;
      roomy = omega (arith, bucket_array_create-empties u new_capacity);
      count = refl;
      forth = λ k d w h. elim (h.1) [ ];
      back = λ k d w h.
          absurd (ground (arith, h.2, w, bucket_array_create-invalid u new_capacity h.0));
    }

  -- rebuild into a capacity from 8 to MAX_CAPACITY of which the keys, each there once and counted
  -- by the occupancy, fill at most 15/16 ends at one level of insertion, the new array is in
  -- order, holds exactly what the old one held, has an empty bucket and is not due for a rebuild.
  pub rebuild-Rebuilt :
      (depth : ℕ) (t : Table D) (new_capacity : ℕ)
      → 8 ≤ new_capacity
      → new_capacity ≤ max_capacity
      → t.occupancy ≤ 15 * new_capacity / 16
      → total valid_weight t.capacity t.buckets ≡ t.occupancy
      → ((i j : ℕ)
          → i < t.capacity
          → j < t.capacity
          → is_valid (t.buckets i).key ≡ true
          → (t.buckets i).key ≡ (t.buckets j).key
          → i ≡ j)
      → (r : Table D) × (rebuild u (insert_hyperobject u (suc depth)) t new_capacity ≡ some r)
        × Rebuilt t t.capacity new_capacity r
  unfolding rebuild start
  rebuild-Rebuilt depth t new_capacity large fits room counted unique =
      let (r, run, f) =
        reinsert-Filled depth t.buckets t.capacity t.occupancy new_capacity large fits room counted
          unique t.capacity 0 _ (omega arith)
          (start-Filled depth t.buckets t.capacity t.occupancy new_capacity large fits room counted
            unique) in
      (
        r,
        rw (le→leb new_capacity max_capacity fits) run,
        record {
          capacity = f.capacity;
          ordered = f.ordered;
          occupancy = f.occupancy ∙ counted;
          occupied_eq = f.occupied_eq;
          roomy = omega (arith, f.roomy, f.occupancy, counted);
          calm = rw f.count (
              time_to_rebuild-eq-false r.occupancy t.occupancy r.capacity
                (omega (arith, f.occupancy, counted)));
          forth = f.forth;
          back = f.back;
        },
      )
