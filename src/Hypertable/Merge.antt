-- ===== src/Hypertable/Merge.antt =====
-- `merge_two_hts` and `bucket::reduce` of runtime/local-hypertable.cpp. A null pointer is `none`,
-- the table that is freed is forgotten, and `none` outside means that the depth of an insertion ran
-- out.
use cheetah.Base.{
  ℕ, zero, suc, ◌+◌, Bool, true, false, Option, none, some, ltb, leb, ◌==◌, if◌then◌else◌, update,
  ◌>>=◌,
}
use cheetah.Hypertable.{Bucket, Table, Views, is_valid, min_ht_capacity, find_hyperobject}
use cheetah.Hypertable.Update.{insert_hyperobject}

module _ {ℓ} {D : Type ℓ} (u : Views D) where
  -- The views of two buckets of a key, reduced in order: `left` first if the destination is left.
  abbrev pub reduce : Bool → D → D → D
  reduce left_dst dst src = if left_dst then u.reduce dst src else u.reduce src dst

  -- The body of the loop, for one bucket of the source.
  unfoldable pub merge_bucket : ℕ → Bool → Bucket D → Table D → Option (Table D)
  merge_bucket depth left_dst b dst =
      if is_valid b.key
      then elim (find_hyperobject dst b.key) [
        | none ↦ insert_hyperobject u depth dst b >>= (λ r. some r.0)
        | some i ↦ some (record dst {
          buckets = update dst.buckets i (record (dst.buckets i) {
            data_of = reduce left_dst (dst.buckets i).data_of b.data_of;
          });
        })
      ]
      else some dst

  -- The loop, for `n` buckets of the source from index `i` on.
  unfoldable pub merge_buckets : ℕ → Bool → (ℕ → Bucket D) → ℕ → ℕ → Table D → Option (Table D)
  merge_buckets depth left_dst src zero i dst = some dst
  merge_buckets depth left_dst src (suc n) i dst =
      merge_bucket depth left_dst (src i) dst
      >>= (λ dst'. merge_buckets depth left_dst src n (i + 1) dst')

  abbrev pub src_capacity : Table D → ℕ
  src_capacity src = if ltb src.capacity min_ht_capacity then src.occupancy else src.capacity

  unfoldable pub merge_two_hts : ℕ → Option (Table D) → Option (Table D) → Option (Option (Table D))
  merge_two_hts depth none right = some right
  merge_two_hts depth (some left) none = some (some left)
  merge_two_hts depth (some left) (some right) =
      if left.occupancy == 0
      then some (some right)
      else if right.occupancy == 0
      then some (some left)
      else if leb right.occupancy left.occupancy
      then merge_buckets depth true right.buckets (src_capacity right) 0 left
        >>= (λ r. some (some r))
      else merge_buckets depth false left.buckets (src_capacity left) 0 right
        >>= (λ r. some (some r))
