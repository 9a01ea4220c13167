-- ===== src/Hypertable/Update.antt =====
-- The operations of runtime/local-hypertable.cpp that change a table. `insert_hyperobject` and
-- `hyper_table::rebuild` call each other: `insert_hyperobject` recurs on a depth, and `none` means
-- that the depth ran out or that an assertion of `rebuild` failed. Two levels are enough, since a rebuild makes room.
use cheetah.Base.{
  ℕ, zero, suc, ◌+◌, ◌-◌, ◌*◌, ◌/◌, Bool, true, false, not, ◌&&◌, ◌||◌, Option, none, some, ltb,
  leb, ◌==◌, if◌then◌else◌, update, ◌>>=◌,
}
use cheetah.Base.Int.{pos, ◌+ℤ◌, ◌-ℤ◌}
use cheetah.Hypertable.{
  Bucket, Table, Views, key_empty, key_deleted, is_empty, is_tombstone, is_valid, min_ht_capacity,
  max_capacity, get_table_entry, inc_index, continue_probe, is_overloaded, is_underloaded,
  time_to_rebuild, bucket_array_create, find_hyperobject,
}

-- How the first loop of `insert_hyperobject` ends: at the key, at a bucket to fill, or at a bucket
-- to insert before.
pub data Probe : Type 0 where
  found : ℕ → Probe
  vacant : ℕ → Probe
  before : ℕ → Probe
  out_of_fuel : Probe

module _ {ℓ} {D : Type ℓ} where
  -- `while (next_i != probe_end && is_tombstone(tomb_end))`
  unfoldable pub skip_tombstones : (ℕ → Bucket D) → ℕ → ℕ → ℕ → ℕ → ℕ
  skip_tombstones buckets capacity probe_end zero next_i = next_i
  skip_tombstones buckets capacity probe_end (suc fuel) next_i =
      let rest = skip_tombstones buckets capacity probe_end fuel (inc_index next_i capacity) in
      if not (next_i == probe_end) && is_tombstone (buckets next_i).key then rest else next_i

  -- The first `do … while (i != probe_end)` loop.
  unfoldable pub probe_loop : (ℕ → Bucket D) → ℕ → ℕ → ℕ → ℕ → ℕ → Probe
  probe_loop buckets capacity key tgt zero i = out_of_fuel
  probe_loop buckets capacity key tgt (suc fuel) i =
      let next = inc_index i capacity in
      let stepped = probe_loop buckets capacity key tgt fuel next in
      let next_i = skip_tombstones buckets capacity tgt capacity next in
      let jumped = probe_loop buckets capacity key tgt fuel next_i in
      if key == (buckets i).key
      then found i
      else if is_empty (buckets i).key
      then vacant i
      else if is_tombstone (buckets i).key
      then (if is_empty (buckets next_i).key
          then vacant i
          else if next_i == tgt || not (continue_probe tgt (buckets next_i).hash next_i)
          then vacant i
          else if next_i == tgt
          then before next_i
          else jumped)
      else if continue_probe tgt (buckets i).hash i
      then (if next == tgt then before next else stepped)
      else before i

  -- The second loop: each bucket in the way is swapped with `b` and moves on.
  unfoldable pub shift_loop : ℕ → ℕ → ℕ → ℕ → (ℕ → Bucket D) → Bucket D → (ℕ → Bucket D) × Bool
  shift_loop capacity insert_tgt zero i buckets b = (buckets, false)
  shift_loop capacity insert_tgt (suc fuel) i buckets b =
      let next = inc_index i capacity in
      let rest = shift_loop capacity insert_tgt fuel next (update buckets i b) (buckets i) in
      if not (is_valid (buckets i).key)
      then (update buckets i b, true)
      else if next == insert_tgt
      then (update buckets i b, false)
      else rest

  -- `++table->occupancy; ++table->ins_rm_count;` after a write to the buckets
  unfoldable pub added : Table D → (ℕ → Bucket D) → Table D
  added t buckets = record t {
    occupancy = t.occupancy + 1;
    ins_rm_count = t.ins_rm_count +ℤ pos 1;
    buckets = buckets;
  }

  unfoldable pub act : Table D → Bucket D → Probe → Table D × Bool
  act t b (found i) = (
    record t { buckets = update t.buckets i (record (t.buckets i) { data_of = b.data_of }) },
    true,
  )
  act t b (vacant i) = (added t (update t.buckets i b), true)
  act t b (before i) =
      let r = shift_loop t.capacity i t.capacity i t.buckets b in
      if r.1 then (added t r.0, true) else (record t { buckets = r.0 }, false)
  act t b out_of_fuel = (t, false)

  -- From `const index_t tgt = …` to the end of `insert_hyperobject`.
  unfoldable pub place : Table D → Bucket D → Table D × Bool
  place t b =
      let tgt = get_table_entry t.capacity b.key in
      let b' = record b { hash = tgt } in
      if is_empty (t.buckets tgt).key
      then act t b' (vacant tgt)
      else act t b' (probe_loop t.buckets t.capacity b.key tgt t.capacity tgt)

  -- The first of `n` buckets from index `i` on that has the key.
  unfoldable pub scan : (ℕ → Bucket D) → ℕ → ℕ → ℕ → Option ℕ
  scan buckets key zero i = none
  scan buckets key (suc n) i = if (buckets i).key == key then some i else scan buckets key n (i + 1)

  unfoldable pub insert_small : Table D → Bucket D → Table D × Bool
  insert_small t b = elim (scan t.buckets b.key t.occupancy 0) [
    | some i ↦ (record t { buckets = update t.buckets i b }, true)
    | none ↦
        (record t { occupancy = t.occupancy + 1; buckets = update t.buckets t.occupancy b }, true)
  ]

  -- The loop of `rebuild`: `n` buckets from index `i` on go through `insert`.
  unfoldable pub reinsert :
      (Table D → Bucket D → Option (Table D × Bool))
      → (ℕ → Bucket D)
      → ℕ
      → ℕ
      → Table D
      → Option (Table D)
  reinsert insert old zero i t = some t
  reinsert insert old (suc n) i t =
      let skipped = reinsert insert old n (i + 1) t in
      if is_valid (old i).key
      then insert t (old i) >>= (λ r. reinsert insert old n (i + 1) r.0)
      else skipped

  -- `none` where the assertion on the new capacity fails, which every doubling does that has no
  -- place in an `int32_t`.
  unfoldable pub rebuild :
      Views D → (Table D → Bucket D → Option (Table D × Bool)) → Table D → ℕ → Option (Table D)
  rebuild u insert t new_capacity =
      let rest = reinsert insert t.buckets t.capacity 0 (record {
        capacity = new_capacity;
        occupancy = 0;
        ins_rm_count = pos 0 -ℤ pos t.occupancy;
        buckets = bucket_array_create u new_capacity;
      }) in
      if leb new_capacity max_capacity then rest else none

  -- From the test of the load factor on, for a table that is large enough to be hashed.
  unfoldable pub insert_hashed :
      Views D
      → (Table D → Bucket D → Option (Table D × Bool))
      → Table D
      → Bucket D
      → Option (Table D × Bool)
  insert_hashed u insert t b =
      if is_overloaded t.occupancy t.capacity
      then rebuild u insert t (t.capacity * 2) >>= (λ t'. some (place t' b))
      else if time_to_rebuild t.ins_rm_count t.capacity
      then rebuild u insert t t.capacity >>= (λ t'. some (place t' b))
      else some (place t b)

  unfoldable pub insert_hyperobject : Views D → ℕ → Table D → Bucket D → Option (Table D × Bool)
  insert_hyperobject u zero t b = none
  insert_hyperobject u (suc depth) t b =
      let insert = insert_hyperobject u depth in
      if ltb t.capacity min_ht_capacity
      then (if ltb t.occupancy t.capacity
          then some (insert_small t b)
          else rebuild u insert t (t.capacity * 2) >>= (λ t'. insert_hashed u insert t' b))
      else insert_hashed u insert t b

  unfoldable pub remove_small : Table D → ℕ → Table D × Bool
  remove_small t key = elim (scan t.buckets key t.occupancy 0) [
    | none ↦ (t, false)
    | some i ↦ (
      record t {
        occupancy = t.occupancy - 1;
        buckets =
            if i == t.occupancy - 1
            then update t.buckets i (record (t.buckets i) { key = key_empty })
            else update t.buckets i (t.buckets (t.occupancy - 1));
      },
      true,
    )
  ]

  -- The bucket at `i` becomes a tombstone.
  unfoldable pub entomb : Table D → ℕ → Table D
  entomb t i = record t {
    occupancy = t.occupancy - 1;
    ins_rm_count = t.ins_rm_count +ℤ pos 1;
    buckets = update t.buckets i (record (t.buckets i) { key = key_deleted });
  }

  unfoldable pub remove_hyperobject : Views D → ℕ → Table D → ℕ → Option (Table D × Bool)
  remove_hyperobject u depth t key =
      if ltb t.capacity min_ht_capacity
      then some (remove_small t key)
      else elim (find_hyperobject t key) [
        | none ↦ some (t, false)
        | some i ↦
            let t' = entomb t i in
            let insert = insert_hyperobject u depth in
            if is_underloaded t'.occupancy t'.capacity
            then rebuild u insert t' (t'.capacity / 2) >>= (λ r. some (r, true))
            else if time_to_rebuild t'.ins_rm_count t'.capacity
            then rebuild u insert t' t'.capacity >>= (λ r. some (r, true))
            else some (t', true)
      ]
