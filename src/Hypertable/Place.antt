-- ===== src/Hypertable/Place.antt =====
-- `insert_hyperobject` from the target hash on: what it does to a table in order.
use cheetah.Base.{
  ℕ_discrete, ℕ, ◌+◌, ◌<◌, ◌≡◌, ◌≢◌, refl, true, false, arith, update, Bool-cases, inl, inr, ◌∙◌,
  ap,
}
use cheetah.Base.Int.{pos, ◌+ℤ◌}
use cheetah.Hypertable.{u32_mod, Bucket, Table, is_valid, is_empty, get_table_entry}
use cheetah.Hypertable.Circle.{dist_injective, dist, dist-lt, dist_self}
use cheetah.Hypertable.Found.{probe_loop-found}
use cheetah.Hypertable.Order.{Ordered, Reaches, get_table_entry-lt}
use cheetah.Hypertable.Probe.{Stops, at_vacant, at_before, empty-Pending, probe_loop-Stops}
use cheetah.Hypertable.Shift.{Adds, update-Adds, shift_loop-Adds}
use cheetah.Hypertable.Update.{Probe, found, probe_loop, added, act, place}

module _ {ℓ} {D : Type ℓ} where
  -- The bucket as it is stored.
  abbrev pub stored : Table D → Bucket D → Bucket D
  stored t b = record b { hash = get_table_entry t.capacity b.key }

  -- The table `r` is `t` with `b` added.
  pub record Grows (t : Table D) (b : Bucket D) (r : Table D) : Type ℓ where
    pub adds : Adds t.capacity t.buckets (stored t b) r.buckets
    pub capacity : r.capacity ≡ t.capacity
    pub occupancy : r.occupancy ≡ t.occupancy + 1
    pub counted : r.ins_rm_count ≡ t.ins_rm_count +ℤ pos 1

module _ {ℓ} {D : Type ℓ} (t : Table D) (fits : t.capacity < u32_mod) (some_room : 0 < t.capacity)
    (o : Ordered t.capacity t.buckets) (b : Bucket D) (valid : is_valid b.key ≡ true) where
  abbrev tgt : ℕ
  tgt = get_table_entry t.capacity b.key

  tgt-lt : tgt < t.capacity
  tgt-lt = get_table_entry-lt t.capacity b.key some_room

  start : Reaches t.capacity t.buckets tgt tgt
  start j k s = absurd (omega (arith, dist_self t.capacity tgt))

  module _ (z : ℕ) (l : z < t.capacity) (e : (t.buckets z).key ≡ 0)
      (absent : (p : ℕ) → p < t.capacity → (t.buckets p).key ≢ b.key) where
    act-Grows :
        (r : Probe)
        → Stops t.capacity t.buckets tgt z fits tgt-lt l e o (stored t b) valid refl refl absent r
        → ((act t (stored t b) r).1 ≡ true) × Grows t b (act t (stored t b) r).0
    unfolding act added
    act-Grows r (at_vacant i k v h) = (
      refl,
      record {
        adds = update-Adds t.capacity t.buckets (stored t b) i k fits o h v;
        capacity = refl;
        occupancy = refl;
        counted = refl;
      },
    )
    act-Grows r (at_before i k h) =
        let s =
          shift_loop-Adds t.capacity i z fits k l t.capacity i t.buckets (stored t b) k e
            (omega (arith, dist_self t.capacity i)) (omega (arith, dist-lt t.capacity i z k l)) o
            h in
        rw s.0 (refl, record { adds = s.1; capacity = refl; occupancy = refl; counted = refl })

    -- In a table in order of less than 2 ^ 32 buckets, one of which is empty, an address that the
    -- table lacks is placed with success: the buckets are in order again and hold just that key
    -- more, with its data, and the occupancy and the count of operations are one higher.
    pub place-Grows : ((place t b).1 ≡ true) × Grows t b (place t b).0
    unfolding place
    place-Grows = elim (Bool-cases (is_empty (t.buckets tgt).key)) [
      | inl w ↦ rw w (
          act-Grows _ (
            at_vacant tgt tgt-lt (ground arith) (
              empty-Pending t.capacity t.buckets tgt z fits tgt-lt l e o (stored t b) valid refl
                refl absent tgt tgt-lt (ground arith) start)))
      | inr w ↦ rw w (
          act-Grows _ (
            probe_loop-Stops t.capacity t.buckets tgt z fits tgt-lt l e o (stored t b) valid refl
              refl absent t.capacity tgt tgt-lt (omega (arith, dist_self t.capacity tgt))
              (omega (arith, dist-lt t.capacity tgt z tgt-lt l)) start))
    ]

  -- In a table in order of less than 2 ^ 32 buckets, an address that the table has at `p` gets the
  -- new data there with success, and nothing else changes.
  pub place-present :
      (p : ℕ)
      → p < t.capacity
      → (t.buckets p).key ≡ b.key
      → place t b ≡ (
        record t { buckets = update t.buckets p (record (t.buckets p) { data_of = b.data_of }) },
        true,
      )
  unfolding place act
  place-present p l e =
      let v : is_valid (t.buckets p).key ≡ true = rw e valid in
      let h : (t.buckets p).hash ≡ tgt = o.hashed p l v ∙ ap (get_table_entry t.capacity) e in
      let full : is_empty (t.buckets tgt).key ≡ false = elim (ℕ_discrete tgt p) [
        | yes same ↦ rw same (ground arith)
        | no other ↦
            let strict : dist t.capacity tgt tgt < dist t.capacity tgt p = ground (
              arith,
              dist_self t.capacity tgt,
              dist_injective t.capacity tgt tgt p tgt-lt tgt-lt l,
            ) in
            ground (arith, o.reached p l v tgt tgt-lt (rw h strict))
      ] in
      let here =
        probe_loop-found t.capacity t.buckets tgt p fits tgt-lt l o v h t.capacity tgt tgt-lt
          (omega (arith, dist_self t.capacity tgt))
          (omega (arith, dist-lt t.capacity tgt p tgt-lt l)) in
      let here_b : probe_loop t.buckets t.capacity b.key tgt t.capacity tgt ≡ found p =
        rw e at here in
      rw (full, here_b) refl
