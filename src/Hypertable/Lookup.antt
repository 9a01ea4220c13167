-- ===== src/Hypertable/Lookup.antt =====
-- What `find_hyperobject` returns in a well-formed table, and what it returns after an insertion.
use cheetah.Base.{
  ℕ_discrete, ℕ, zero, suc, ◌*◌, ◌<◌, ◌≡◌, ◌≢◌, ◌↔◌, inl, inr, refl, sym, ap, ◌∙◌, true, false,
  arith, Option-cases, lt→ltb, not-lt→ltb, if◌then◌else◌, Option, some, none, ◌==◌, ==_iff, some_eq,
  some_of_none, ◌≤◌,
}
use cheetah.Hypertable.{
  u32_mod, max_capacity, Bucket, Table, Views, is_valid, get_table_entry, find_hyperobject_linear,
  find_hyperobject_hash, find_hyperobject,
}
use cheetah.Hypertable.Circle.{dist-lt, dist_self}
use cheetah.Hypertable.Insert.{Inserted, insert_hyperobject-Inserted}
use cheetah.Hypertable.Order.{Ordered, find_loop-hit, find_loop_sound, get_table_entry-lt}
use cheetah.Hypertable.Pending.{Holds}
use cheetah.Hypertable.Update.{insert_hyperobject}
use cheetah.Hypertable.Valid.{IsSmall, IsTable, HasRoom, live}

module _ {ℓ} {D : Type ℓ} where
  find_hyperobject_linear-some :
      (buckets : ℕ → Bucket D) (key n p : ℕ)
      → find_hyperobject_linear buckets key n ≡ some p
      → (p < n) × ((buckets p).key ≡ key)
  unfolding find_hyperobject_linear
  find_hyperobject_linear-some buckets key zero p h = absurd (cc)
  find_hyperobject_linear-some buckets key (suc n) p h =
      ground (arith, find_hyperobject_linear-some buckets key n p)

  find_hyperobject_linear-hit :
      (buckets : ℕ → Bucket D) (key n p : ℕ)
      → p < n
      → (buckets p).key ≡ key
      → find_hyperobject_linear buckets key n ≢ none
  unfolding find_hyperobject_linear
  find_hyperobject_linear-hit buckets key zero p l h = elim l [ ]
  find_hyperobject_linear-hit buckets key (suc n) p l h =
      ground (arith, h, find_hyperobject_linear-hit buckets key n p)

  -- In a table in order of at most 2 ^ 32 buckets, for a key that is an address, the probe returns
  -- the bucket with the key and no other; so it finds every key of the table, and only those.
  pub find_hyperobject_hash_iff :
      (t : Table D) (key p : ℕ)
      → 0 < t.capacity
      → t.capacity < u32_mod
      → Ordered t.capacity t.buckets
      → is_valid key ≡ true
      → (find_hyperobject_hash t key ≡ some p) ↔ ((p < t.capacity) × ((t.buckets p).key ≡ key))
  unfolding find_hyperobject_hash
  find_hyperobject_hash_iff t key p some_room fits o v =
      let tgt = get_table_entry t.capacity key in
      let l = get_table_entry-lt t.capacity key some_room in
      (
        λ e. find_loop_sound t.capacity t.buckets fits key tgt t.capacity tgt p l e,
        λ h.
            find_loop-hit t.capacity t.buckets fits key tgt p l h.0 h.1 v
              (o.hashed p h.0 (rw h.1 v) ∙ ap (get_table_entry t.capacity) h.1) o t.capacity tgt l
              (omega (arith, dist_self t.capacity tgt))
              (omega (arith, dist-lt t.capacity tgt p l h.0)),
      )

  find_small :
      (t : Table D) (key p : ℕ)
      → IsSmall t
      → is_valid key ≡ true
      → (find_hyperobject_linear t.buckets key t.occupancy ≡ some p)
        ↔ ((p < t.occupancy) × ((t.buckets p).key ≡ key))
  find_small t key p s v = (
    find_hyperobject_linear-some t.buckets key t.occupancy p,
    λ h. elim (Option-cases (find_hyperobject_linear t.buckets key t.occupancy)) [
      | inl e ↦ absurd (find_hyperobject_linear-hit t.buckets key t.occupancy p h.0 h.1 e)
      | inr (q, e) ↦
          let g = find_hyperobject_linear-some t.buckets key t.occupancy q e in
          e ∙ ap some (s.unique q p g.0 h.0 (rw g.1 v) (g.1 ∙ sym h.1))
    ],
  )

  -- In a well-formed table and for a key that is an address, `find_hyperobject` returns a
  -- bucket exactly if that bucket is live and has the key.
  pub find_hyperobject_iff :
      (t : Table D) (key p : ℕ)
      → IsTable t
      → is_valid key ≡ true
      → (find_hyperobject t key ≡ some p) ↔ ((p < live t) × ((t.buckets p).key ≡ key))
  unfolding find_hyperobject
  find_hyperobject_iff t key p (inl s) v = rw (lt→ltb t.capacity 8 s.small) (find_small t key p s v)
  find_hyperobject_iff t key p (inr h) v =
      rw (not-lt→ltb t.capacity 8 (omega (arith, h.large)))
        (find_hyperobject_hash_iff t key p (omega (arith, h.large)) h.fits h.ordered v)

  -- The data that `find_hyperobject` leads to.
  unfoldable pub lookup : Table D → ℕ → Option D
  lookup t key = elim (find_hyperobject t key) [ none ↦ none | some i ↦ some (t.buckets i).data_of ]

  pub lookup-find :
      (t : Table D) (key p : ℕ)
      → find_hyperobject t key ≡ some p
      → lookup t key ≡ some (t.buckets p).data_of
  unfolding lookup
  lookup-find t key p e = rw (e, lookup) refl

  pub lookup-none : (t : Table D) (key : ℕ) → find_hyperobject t key ≡ none → lookup t key ≡ none
  unfolding lookup
  lookup-none t key e = rw (e, lookup) refl

  lookup-eq-some :
      (t : Table D) (key : ℕ) (d : D)
      → lookup t key ≡ some d
      → (p : ℕ) × (find_hyperobject t key ≡ some p) × ((t.buckets p).data_of ≡ d)
  unfolding lookup
  lookup-eq-some t key d h = elim (Option-cases (find_hyperobject t key)) [
    | inl e ↦ absurd (cc (rw (e, lookup) at h))
    | inr (p, e) ↦ (p, e, some_eq (sym (lookup-find t key p e) ∙ h))
  ]

  -- In a well-formed table the lookup of an address gives the data of its bucket.
  pub lookup-Holds :
      (t : Table D) (key : ℕ) (d : D)
      → IsTable t
      → is_valid key ≡ true
      → (lookup t key ≡ some d) ↔ Holds (live t) t.buckets key d
  lookup-Holds t key d s v = (
    λ h.
        let (p, e, f) = lookup-eq-some t key d h in
        let g = (find_hyperobject_iff t key p s v).0 e in (p, g.0, g.1, f),
    λ h. lookup-find t key h.0 ((find_hyperobject_iff t key h.0 s v).1 (h.1, h.2)) ∙ ap some h.3,
  )

  pub lookup_eq :
      (t r : Table D) (key : ℕ)
      → IsTable t
      → IsTable r
      → is_valid key ≡ true
      → ((d : D) → Holds (live t) t.buckets key d → Holds (live r) r.buckets key d)
      → ((d : D) → Holds (live r) r.buckets key d → Holds (live t) t.buckets key d)
      → lookup r key ≡ lookup t key
  lookup_eq t r key s q v forth back = elim (Option-cases (lookup t key)) [
    | inr (d, e) ↦ (lookup-Holds r key d q v).1 (forth d ((lookup-Holds t key d s v).0 e)) ∙ sym e
    | inl e ↦ elim (Option-cases (lookup r key)) [
      | inl f ↦ f ∙ sym e
      | inr (d, f) ↦ absurd (
          some_of_none (lookup t key) e
            ((lookup-Holds t key d s v).1 (back d ((lookup-Holds r key d q v).0 f))))
    ]
  ]

  -- A table that holds what the other does, but for the key of `b`, reads so.
  pub lookup-Inserted :
      (u : Views D) (t : Table D) (b : Bucket D) (r : Table D) (key : ℕ)
      → IsTable t
      → is_valid b.key ≡ true
      → is_valid key ≡ true
      → Inserted u t b r
      → lookup r key ≡ (if key == b.key then some b.data_of else lookup t key)
  lookup-Inserted u t b r key s v w i = elim (ℕ_discrete key b.key) [
    | yes e ↦
        rw (e, (==_iff b.key b.key).1 refl)
          ((lookup-Holds r b.key b.data_of i.table v).1 i.stores.here)
    | no e ↦
        let differs : (key == b.key) ≡ false = ground arith in
        rw differs (
          lookup_eq t r key s i.table w (λ d. i.stores.kept key d w e)
            (λ d h. elim (i.stores.only key d w h) [ inl q ↦ absurd (e q.0) | inr q ↦ q.1 ]))
  ]

  -- insert_hyperobject ends with success on a well-formed table of at most half of MAX_CAPACITY
  -- buckets that has an empty bucket if it is hashed, and find_hyperobject afterwards leads to the
  -- new data for the key inserted and to the old data for every other key (addresses as keys).
  pub lookup-insert_hyperobject :
      (u : Views D) (depth : ℕ) (t : Table D) (b : Bucket D) (key : ℕ)
      → IsTable t
      → 2 * t.capacity ≤ max_capacity
      → HasRoom t
      → is_valid b.key ≡ true
      → is_valid key ≡ true
      → (r : Table D) × (insert_hyperobject u (suc (suc depth)) t b ≡ some (r, true))
        × IsTable r
        × (lookup r key ≡ (if key == b.key then some b.data_of else lookup t key))
  lookup-insert_hyperobject u depth t b key s c room v w =
      let (r, run, i) = insert_hyperobject-Inserted u depth t b v s c room in
      (r, run, i.table, lookup-Inserted u t b r key s v w i)
