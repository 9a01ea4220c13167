-- ===== src/Hypertable/Tests.antt =====
-- Runs of the table on concrete keys.
use cheetah.Base.{ℕ, ◌+◌, ◌≡◌, refl, Option, none, some, List, [], ◌∷◌, ◌>>=◌}
use cheetah.Base.Int.{◌+ℤ◌, ◌-ℤ◌}
use cheetah.Hypertable.{
  Table, Views, hash, get_table_entry, inc_index, continue_probe, is_overloaded, is_underloaded,
  time_to_rebuild, bucket_array_create, local_hyper_table_alloc, find_hyperobject_linear, find_loop,
  find_hyperobject_hash, find_hyperobject, plant_tombstones, new_table,
}
use cheetah.Hypertable.Update.{
  skip_tombstones, probe_loop, shift_loop, added, act, place, scan, insert_small, reinsert, rebuild,
  insert_hashed, insert_hyperobject, remove_small, entomb, remove_hyperobject,
}

abbrev pub views : Views ℕ
views = record { null = 0; reduce = ◌+◌ }

program : Unit {0}
unfolding plant_tombstones new_table ◌+ℤ◌ ◌-ℤ◌ hash get_table_entry inc_index continue_probe
    is_overloaded is_underloaded time_to_rebuild bucket_array_create local_hyper_table_alloc
    find_hyperobject_linear find_loop find_hyperobject_hash find_hyperobject skip_tombstones
    probe_loop shift_loop added act place scan insert_small reinsert rebuild insert_hashed
    insert_hyperobject remove_small entomb remove_hyperobject
program = tt

data Request : Type 0 where
  put : ℕ → Request
  drop : ℕ → Request

-- Each key is stored with itself as data.
serve : List Request → Table ℕ → Option (Table ℕ)
serve [] t = some t
serve (put k ∷ rs) t =
    insert_hyperobject views 2 t (record { key = k; hash = 0; data_of = k }) >>= (λ r. serve rs r.0)
serve (drop k ∷ rs) t = remove_hyperobject views 2 t k >>= (λ r. serve rs r.0)

abbrev look : List Request → ℕ → Option (Option ℕ)
look rs k = serve rs (local_hyper_table_alloc views) >>= (λ t. some (find_hyperobject t k))

abbrev eight : List Request
eight = put 4120 ∷ put 4216 ∷ put 4184 ∷ put 4192 ∷ put 4304 ∷ put 4344 ∷ put 4400 ∷ put 4544 ∷ []

-- Eight keys, two of which hash to 3 and six to 4, fill the eight buckets in order.
find-eight : look eight 4216 ≡ some (some 4)
unfolding program serve
find-eight = refl

full_circle : List Request
full_circle =
    put 4120
    ∷ put 4216
    ∷ put 4184
    ∷ put 4192
    ∷ put 4304
    ∷ put 4344
    ∷ put 4400
    ∷ put 4544
    ∷ drop 4120
    ∷ put 4584
    ∷ drop 4192
    ∷ put 4664
    ∷ []

-- A table with no empty bucket: the probe goes full circle, the insertion of 4664 moves 4216 past
-- a key of a later hash, and the table no longer finds 4216, which nothing has removed.
find-full_circle : look full_circle 4216 ≡ some none
unfolding program serve full_circle
find-full_circle = refl
