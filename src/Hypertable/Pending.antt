-- ===== src/Hypertable/Pending.antt =====
-- A bucket that is to be inserted before an index, and one step of the loop that shifts buckets.
use cheetah.Base.{
  ℕ, ◌≤◌, ◌<◌, ◌≡◌, ◌≢◌, true, arith, update, ℕ_discrete, update_self, update_ne, ◌+◌,
}
use cheetah.Hypertable.{u32_mod, Bucket, is_valid, get_table_entry, inc_index}
use cheetah.Hypertable.Circle.{dist, dist_injective, dist-lt, dist-inc_index, dist-inc_index_cases}
use cheetah.Hypertable.Order.{Reaches, Ordered, hash-lt, get_table_entry-lt}

module _ {ℓ} {D : Type ℓ} (capacity : ℕ) where
  -- The key and the data of a bucket of the table.
  abbrev pub Holds : (ℕ → Bucket D) → ℕ → D → Type ℓ
  Holds buckets k d = (p : ℕ) × (p < capacity) × ((buckets p).key ≡ k) × ((buckets p).data_of ≡ d)

  -- `b` may stand at `i`, where the bucket that is there now has to go on.
  pub record Pending (buckets : ℕ → Bucket D) (b : Bucket D) (i : ℕ) : Type 0 where
    pub valid : is_valid b.key ≡ true
    pub hashed : b.hash ≡ get_table_entry capacity b.key
    pub path : Reaches capacity buckets b.hash i
    pub admits :
        (p : ℕ)
        → p < capacity
        → is_valid (buckets p).key ≡ true
        → dist capacity (buckets p).hash i ≤ dist capacity (buckets p).hash p
        → dist capacity (buckets p).hash i ≤ dist capacity b.hash i
    pub fresh : (p : ℕ) → p < capacity → (buckets p).key ≢ b.key

  module _ (buckets : ℕ → Bucket D) (b : Bucket D) (i : ℕ) (fits : capacity < u32_mod)
      (k : i < capacity) (o : Ordered capacity buckets) (h : Pending buckets b i) where
    update-reached :
        (p : ℕ)
        → p < capacity
        → is_valid (update buckets i b p).key ≡ true
        → Reaches capacity (update buckets i b) (update buckets i b p).hash p
    update-reached p l v j m n = elim (ℕ_discrete i p) [
      | yes e ↦
          let q : update buckets i b p ≡ b = rw (← e) (update_self buckets i b) in
          let n' : dist capacity b.hash j < dist capacity b.hash i = rw (e, ← q) n in
          ground (arith, q, h.path j m n')
      | no e ↦
          let q : update buckets i b p ≡ buckets p = update_ne buckets i p b e in
          let v' : is_valid (buckets p).key ≡ true = rw q at v in
          let n' : dist capacity (buckets p).hash j < dist capacity (buckets p).hash p =
            rw q at n in
          ground (arith, q, o.reached p l v' j m n', h.admits p l v', h.valid)
    ]

    pub update-Ordered : Ordered capacity (update buckets i b)
    update-Ordered = record {
      hashed = λ j l v. ground (arith, h.hashed, o.hashed j l);
      reached = update-reached;
      unique = λ p q l m v e. ground (arith, o.unique p q l m, h.fresh p l, h.fresh q m);
    }

    module _ (v : is_valid (buckets i).key ≡ true) (z : ℕ) (l : z < capacity)
        (e : (buckets z).key ≡ 0) where
      -- An empty bucket ends every walk, so that no key stands a full circle behind its hash.
      dist-lt_last : dist capacity (buckets i).hash i + 1 < capacity
      dist-lt_last =
          let t = hash-lt capacity buckets fits i k o v in
          ground (
            arith,
            dist-lt capacity (buckets i).hash i t k,
            dist-lt capacity (buckets i).hash z t l,
            dist_injective capacity (buckets i).hash i z t k l,
            o.reached i k v z l,
          )

      dist-next :
          dist capacity (buckets i).hash (inc_index i capacity)
          ≡ dist capacity (buckets i).hash i + 1
      dist-next =
          dist-inc_index capacity (buckets i).hash i fits (hash-lt capacity buckets fits i k o v) k
            dist-lt_last

      carried-path : Reaches capacity (update buckets i b) (buckets i).hash (inc_index i capacity)
      carried-path j m n =
          let t = hash-lt capacity buckets fits i k o v in
          ground (
            arith,
            dist-next,
            dist_injective capacity (buckets i).hash i j t k m,
            o.reached i k v j m,
            h.admits i k v (omega arith),
            h.valid,
          )

      carried-admits :
          (p : ℕ)
          → p < capacity
          → is_valid (update buckets i b p).key ≡ true
          → dist capacity (update buckets i b p).hash (inc_index i capacity)
            ≤ dist capacity (update buckets i b p).hash p
          → dist capacity (update buckets i b p).hash (inc_index i capacity)
            ≤ dist capacity (buckets i).hash (inc_index i capacity)
      carried-admits p m w n = elim (ℕ_discrete i p) [
        | yes same ↦
            let q : update buckets i b p ≡ b = rw (← same) (update_self buckets i b) in
            let n' : dist capacity b.hash (inc_index i capacity) ≤ dist capacity b.hash i =
              rw (q, ← same) at n in
            let t = get_table_entry-lt capacity b.key (omega arith) in
            rw q (
              omega
                (arith, dist-next, dist-inc_index_cases capacity b.hash i fits (rw h.hashed t) k))
        | no other ↦
            let q : update buckets i b p ≡ buckets p = update_ne buckets i p b other in
            let w' : is_valid (buckets p).key ≡ true = rw q at w in
            let t = hash-lt capacity buckets fits p m o w' in
            let n' : dist capacity (buckets p).hash (inc_index i capacity)
                ≤ dist capacity (buckets p).hash p =
              rw q at n in
            rw q (
              ground (
                arith,
                dist-next,
                v,
                dist-inc_index_cases capacity (buckets p).hash i fits t k,
                o.reached p m w' i k,
              ))
      ]

      -- The bucket that `b` displaces is pending at the next index.
      pub carried-Pending : Pending (update buckets i b) (buckets i) (inc_index i capacity)
      carried-Pending = record {
        valid = v;
        hashed = o.hashed i k v;
        path = carried-path;
        admits = carried-admits;
        fresh = λ p m. ground (arith, h.fresh i k, o.unique i p k m);
      }
