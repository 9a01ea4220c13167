-- ===== src/Hypertable/Combine.antt =====
-- One round of the loop of `merge_two_hts`: the order in which views are reduced.
use cheetah.Base.{ℕ, ◌≡◌, Bool, true, Option, none, some}
use cheetah.Hypertable.{Bucket, Table, Views, is_valid}
use cheetah.Hypertable.Merge.{reduce}

module _ {ℓ} {D : Type ℓ} (u : Views D) where
  -- The view that a key has after a merge: its own, or that of the source, or both in order.
  abbrev pub combined : Bool → Option D → D → D
  combined left_dst none src = src
  combined left_dst (some dst) src = reduce u left_dst dst src

  module _ (t : Table D) (p : ℕ) (d : D) (v : is_valid (t.buckets p).key ≡ true) where
    -- The data of the key's bucket is overwritten.
    abbrev b : Bucket D
    b = record (t.buckets p) { data_of = d }
