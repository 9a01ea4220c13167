-- ===== src/Hypertable/Examples.antt =====
-- The theorems about the hash table at concrete tables.
use cheetah.Base.{
  Bool, inr, ℕ_discrete, subst, ℕ, ◌+◌, ◌<◌, ◌≡◌, ◌↔◌, inl, refl, true, some, arith, leb, ◌==◌,
  if◌then◌else◌, none,
}
use cheetah.Base.Int.{pos}
use cheetah.Hypertable.{
  Bucket, Table, find_hyperobject, continue_probe, bucket_array_create, plant_tombstones,
  get_table_entry, hash,
}
use cheetah.Hypertable.Circle.{dist, dist_self, continue_probe-eq-dist}
use cheetah.Hypertable.Count.{occupied, empties, total, valid_weight}
use cheetah.Hypertable.Fresh.{
  bucket_array_create-invalid, bucket_array_create-empties, bucket_array_create-Ordered,
}
use cheetah.Hypertable.Insert.{Inserted, insert_hyperobject-Inserted}
use cheetah.Hypertable.Lookup.{lookup, find_hyperobject_iff, lookup-insert_hyperobject}
use cheetah.Hypertable.Order.{Ordered}
use cheetah.Hypertable.Place.{Grows, place-Grows}
use cheetah.Hypertable.Rebuild.{Rebuilt, rebuild-Rebuilt}
use cheetah.Hypertable.Tests.{views}
use cheetah.Hypertable.Update.{remove_hyperobject, place, rebuild, insert_hyperobject}
use cheetah.Hypertable.Removal.{remove_hyperobject-Deleted, lookup-remove_hyperobject}
use cheetah.Hypertable.Delete.{Deleted}
use cheetah.Hypertable.Valid.{IsSmall, IsTable, live}

-- Four keys, from 8 on, fill a small table.
abbrev full_small : Table ℕ
full_small = record {
  capacity = 4;
  occupancy = 4;
  ins_rm_count = pos 0;
  buckets = λ i. record { key = 8 + i; hash = 0; data_of = i };
}

full_small-IsSmall : IsSmall full_small
full_small-IsSmall = record {
  least = omega arith;
  small = omega arith;
  fits = omega arith;
  valid = λ i k. ground arith;
  unique = λ i j k m v e. omega arith;
}

abbrev bucket : Bucket ℕ
bucket = record { key = 4096; hash = 0; data_of = 5 }

-- An empty hashed table.
abbrev fresh : Table ℕ
fresh = record {
  capacity = 8;
  occupancy = 0;
  ins_rm_count = pos 0;
  buckets = bucket_array_create views 8;
}

fresh-roomy : 0 < empties 8 fresh.buckets
fresh-roomy = omega (arith, bucket_array_create-empties views 8)

full_small-total : total valid_weight 4 full_small.buckets ≡ 4
unfolding total
full_small-total = refl

fresh-empty : (fresh.buckets 3).key ≡ 0
unfolding bucket_array_create plant_tombstones
fresh-empty = refl

-- A fifth key makes the small table a hashed one, which still has the first key.
lookup-insert_hyperobject_example :
    (r : Table ℕ) × (insert_hyperobject views 2 full_small bucket ≡ some (r, true))
    × IsTable r
    × (lookup r 8 ≡ (if 8 == bucket.key then some 5 else lookup full_small 8))
lookup-insert_hyperobject_example =
    lookup-insert_hyperobject views 0 full_small bucket 8 (inl full_small-IsSmall) (omega arith)
      (λ h. absurd (omega arith)) refl refl

insert_hyperobject-Inserted_example :
    (r : Table ℕ) × (insert_hyperobject views 2 full_small bucket ≡ some (r, true))
    × Inserted views full_small bucket r
insert_hyperobject-Inserted_example =
    insert_hyperobject-Inserted views 0 full_small bucket refl (inl full_small-IsSmall)
      (omega arith) (λ h. absurd (omega arith))

find_hyperobject_iff_example :
    (find_hyperobject full_small 10 ≡ some 2)
    ↔ ((2 < live full_small) × ((full_small.buckets 2).key ≡ 10))
find_hyperobject_iff_example = find_hyperobject_iff full_small 10 2 (inl full_small-IsSmall) refl

rebuild-Rebuilt_example :
    (r : Table ℕ) × (rebuild views (insert_hyperobject views 1) full_small 8 ≡ some r)
    × Rebuilt full_small 4 8 r
rebuild-Rebuilt_example =
    rebuild-Rebuilt views 0 full_small 8 (omega arith) (omega arith) (omega arith) full_small-total
      full_small-IsSmall.unique

continue_probe-eq-dist_example : continue_probe 7 6 1 ≡ leb (dist 8 7 1) (dist 8 6 1)
continue_probe-eq-dist_example =
    continue_probe-eq-dist 8 7 6 1 (omega arith) (omega arith) (omega arith) (omega arith)

place-Grows_example : ((place fresh bucket).1 ≡ true) × Grows fresh bucket (place fresh bucket).0
place-Grows_example =
    place-Grows fresh (omega arith) (omega arith) (bucket_array_create-Ordered views 8) bucket refl
      3 (omega arith) fresh-empty
      (λ p l e. ground (arith, e, bucket_array_create-invalid views 8 p))

-- One key, in the bucket that its hash names.
abbrev single : Table ℕ
single = record {
  capacity = 8;
  occupancy = 1;
  ins_rm_count = pos 1;
  buckets = λ i.
      if i == 7
      then record { key = 4096; hash = 7; data_of = 1 }
      else record { key = 0; hash = 0; data_of = 0 };
}

home_4096 : 7 ≡ get_table_entry 8 4096
unfolding get_table_entry hash
home_4096 = refl

single-Ordered : Ordered 8 single.buckets
single-Ordered = record {
  hashed = λ i k v. ground (arith, home_4096);
  reached = λ i k v j l m. elim (ℕ_discrete i 7) [
    | yes same ↦ absurd (
        let m7 : dist 8 7 j < dist 8 7 7 =
          subst (λ n. dist 8 (single.buckets n).hash j < dist 8 (single.buckets n).hash n) same m in
        omega (arith, m7, dist_self 8 7))
    | no other ↦ absurd (ground arith)
  ];
  unique = λ i j k l v e. ground arith;
}

-- The same in 16 buckets, which a removal halves.
abbrev wide : Table ℕ
wide = record {
  capacity = 16;
  occupancy = 1;
  ins_rm_count = pos 1;
  buckets = λ i.
      if i == 15
      then record { key = 4096; hash = 15; data_of = 1 }
      else record { key = 0; hash = 0; data_of = 0 };
}

home_4096_wide : 15 ≡ get_table_entry 16 4096
unfolding get_table_entry hash
home_4096_wide = refl

wide-Ordered : Ordered 16 wide.buckets
wide-Ordered = record {
  hashed = λ i k v. ground (arith, home_4096_wide);
  reached = λ i k v j l m. elim (ℕ_discrete i 15) [
    | yes same ↦ absurd (
        let m15 : dist 16 15 j < dist 16 15 15 =
          subst (λ n. dist 16 (wide.buckets n).hash j < dist 16 (wide.buckets n).hash n) same m in
        omega (arith, m15, dist_self 16 15))
    | no other ↦ absurd (ground arith)
  ];
  unique = λ i j k l v e. ground arith;
}

wide-occupied : occupied 16 wide.buckets ≡ 1
unfolding total
wide-occupied = refl

remove_hyperobject-Deleted_example :
    (r : Table ℕ) × (found : Bool) × (remove_hyperobject views 1 wide 4096 ≡ some (r, found))
    × Deleted wide 4096 r found
remove_hyperobject-Deleted_example =
    remove_hyperobject-Deleted views 0 wide 4096
      (inr (record {
        large = omega arith;
        fits = omega arith;
        ordered = wide-Ordered;
        occupied_eq = wide-occupied;
      }))
      refl (omega arith) (λ h. omega arith) (λ h e. omega arith)

-- The full small table loses its second key and keeps the last.
lookup-remove_hyperobject_example :
    (r : Table ℕ) × (found : Bool) × (remove_hyperobject views 1 full_small 9 ≡ some (r, found))
    × IsTable r
    × (lookup r 11 ≡ (if 11 == 9 then none else lookup full_small 11))
lookup-remove_hyperobject_example =
    lookup-remove_hyperobject views 0 full_small 9 11 (inl full_small-IsSmall) refl refl
      (omega arith) (λ h. absurd (omega arith)) (λ h e. absurd (omega arith))

-- A source on the left whose key the destination has.
abbrev source : Bucket ℕ
source = record { key = 10; hash = 0; data_of = 7 }
