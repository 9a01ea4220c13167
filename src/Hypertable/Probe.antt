-- ===== src/Hypertable/Probe.antt =====
-- The first loop of `insert_hyperobject` in a table in order that lacks the key and has an empty
-- bucket: it ends at a place where the new bucket may stand.
use cheetah.Base.{
  ℕ, zero, suc, ◌+◌, ◌≤◌, ◌<◌, ◌≡◌, ◌≢◌, ◌⊎◌, inl, inr, true, false, arith, ℕ_discrete, Bool-cases,
  ◌==◌,
}
use cheetah.Hypertable.{
  u32_mod, Bucket, is_valid, is_tombstone, get_table_entry, inc_index, continue_probe, is_empty,
}
use cheetah.Hypertable.Circle.{
  dist, dist-lt, dist_self, dist_injective, dist_beyond, continue_probe-eq-dist,
}
use cheetah.Hypertable.Order.{Ordered, Reaches, hash-lt}
use cheetah.Hypertable.Pending.{Pending}
use cheetah.Hypertable.Update.{Probe, vacant, before, skip_tombstones, probe_loop}
use cheetah.Hypertable.Skip.{Skips, step, skip_tombstones-Skips, Reaches-next}

module _ {ℓ} {D : Type ℓ} (capacity : ℕ) (buckets : ℕ → Bucket D) (tgt z : ℕ)
    (fits : capacity < u32_mod) (t : tgt < capacity) (l : z < capacity)
    (e : (buckets z).key ≡ 0) where
  -- An empty bucket is no tombstone.
  alive : is_tombstone (buckets z).key ≡ false
  alive = ground arith

  module _ (o : Ordered capacity buckets) (b : Bucket D) (valid : is_valid b.key ≡ true)
      (hashed : b.hash ≡ get_table_entry capacity b.key) (home : b.hash ≡ tgt)
      (absent : (p : ℕ) → p < capacity → (buckets p).key ≢ b.key) where
    -- Where the loop may stop: every bucket that a later walk crosses agrees.
    pending :
        (i : ℕ)
        → Reaches capacity buckets tgt i
        → ((p : ℕ)
            → p < capacity
            → is_valid (buckets p).key ≡ true
            → dist capacity (buckets p).hash i ≤ dist capacity (buckets p).hash p
            → dist capacity (buckets p).hash i ≤ dist capacity tgt i)
        → Pending capacity buckets b i
    pending i r a = record {
      valid = valid;
      hashed = hashed;
      path = rw home r;
      admits = rw home a;
      fresh = absent;
    }

    -- The place where the loop stops.
    pub data Stops : Probe → Type 0 where
      at_vacant :
          (i : ℕ)
          → i < capacity
          → is_valid (buckets i).key ≡ false
          → Pending capacity buckets b i
          → Stops (vacant i)
      at_before : (i : ℕ) → i < capacity → Pending capacity buckets b i → Stops (before i)

    -- An empty bucket crosses no walk.
    pub empty-Pending :
        (i : ℕ)
        → i < capacity
        → (buckets i).key ≡ 0
        → Reaches capacity buckets tgt i
        → Pending capacity buckets b i
    empty-Pending i k w r = pending i r λ p q v a.
        let h = hash-lt capacity buckets fits p q o v in
        ground (arith, o.reached p q v i k, dist_injective capacity (buckets p).hash i p h k q)

    -- Nor does one whose key has a later hash.
    occupied-Pending :
        (i : ℕ)
        → i < capacity
        → is_valid (buckets i).key ≡ true
        → dist capacity (buckets i).hash i < dist capacity tgt i
        → Reaches capacity buckets tgt i
        → Pending capacity buckets b i
    occupied-Pending i k w s r = pending i r λ p q v a. elim (ℕ_discrete i p) [
      | yes same ↦ rw (← same) (omega arith)
      | no other ↦
          let h = hash-lt capacity buckets fits p q o v in
          ground
            (arith, o.reached p q v i k, w, s, dist_injective capacity (buckets p).hash i p h k q)
    ]

    -- Tombstones up to a bucket whose key has a later hash, or up to an empty one.
    stones-Pending :
        (i n : ℕ)
        → i < capacity
        → Skips capacity buckets tgt z fits t l alive (inc_index i capacity) n
        → dist capacity tgt i < dist capacity tgt z
        → is_tombstone (buckets i).key ≡ true
        → ((buckets n).key ≡ 0) ⊎ (dist capacity (buckets n).hash n < dist capacity tgt n)
        → Reaches capacity buckets tgt i
        → Pending capacity buckets b i
    stones-Pending i n k s c w x r = pending i r λ p q v a.
        let h = hash-lt capacity buckets fits p q o v in
        let g = step capacity buckets tgt z fits t l alive i k c in
        let other : dist capacity (buckets p).hash i < dist capacity (buckets p).hash p =
          ground (arith, dist_injective capacity (buckets p).hash i p h k q, w) in
        let apart : (dist capacity tgt p ≤ dist capacity tgt i)
            ⊎ (dist capacity tgt n ≤ dist capacity tgt p) =
          ground (arith, s.stones p q, g.0) in
        let beyond =
          dist_beyond capacity (buckets p).hash tgt i n p h t k s.within q
            (omega (arith, g.0, s.later)) apart other in
        elim (ℕ_discrete n p) [
          | yes same ↦ ground (arith, beyond, x)
          | no differs ↦ ground (
            arith,
            beyond,
            x,
            s.ends,
            o.reached p q v n s.within,
            dist_injective capacity (buckets p).hash n p h s.within q,
          )
        ]

    -- The loop stops, at a place where `b` may stand.
    pub probe_loop-Stops :
        (fuel i : ℕ)
        → i < capacity
        → dist capacity tgt i ≤ dist capacity tgt z
        → dist capacity tgt z < dist capacity tgt i + fuel
        → Reaches capacity buckets tgt i
        → Stops (probe_loop buckets capacity b.key tgt fuel i)
    unfolding probe_loop
    probe_loop-Stops zero i k c f r = absurd (omega arith)
    probe_loop-Stops (suc fuel) i k c f r =
        let miss : (b.key == (buckets i).key) ≡ false = ground (arith, absent i k) in
        elim (Bool-cases (is_empty (buckets i).key)) [
          | inl w ↦ rw (miss, w) (at_vacant i k (ground arith) (empty-Pending i k (ground arith) r))
          | inr w ↦
              let strict : dist capacity tgt i < dist capacity tgt z =
                ground (arith, dist_injective capacity tgt i z t k l) in
              elim (Bool-cases (is_tombstone (buckets i).key)) [
                | inl x ↦
                    let g = step capacity buckets tgt z fits t l alive i k strict in
                    let n = skip_tombstones buckets capacity tgt capacity (inc_index i capacity) in
                    let s : Skips capacity buckets tgt z fits t l alive (inc_index i capacity) n =
                      skip_tombstones-Skips capacity buckets tgt z fits t l alive capacity
                        (inc_index i capacity) g.1 g.2 (omega (arith, g.0))
                        (omega (arith, dist-lt capacity tgt z t l)) in
                    let far : (n == tgt) ≡ false =
                      ground (arith, s.later, g.0, dist_self capacity tgt) in
                    elim (Bool-cases (is_empty (buckets n).key)) [
                      | inl y ↦
                          rw (miss, w, x, y)
                            (at_vacant i k (ground arith)
                              (stones-Pending i n k s strict x (inl (ground arith)) r))
                      | inr y ↦
                          let same =
                            continue_probe-eq-dist capacity tgt (buckets n).hash n (omega arith) t
                              (hash-lt capacity buckets fits n s.within o (ground (arith, s.ends)))
                              s.within in
                          elim (Bool-cases (continue_probe tgt (buckets n).hash n)) [
                            | inl go ↦
                                rw (miss, w, x, y, far, go)
                                  (probe_loop-Stops fuel n s.within s.sooner
                                    (omega (arith, s.later, g.0))
                                    (Reaches-next capacity buckets tgt z fits t l alive i n k r
                                      (ground arith)
                                      (λ j q a c. s.stones j q (omega (arith, g.0)) c)))
                            | inr stop ↦
                                rw (miss, w, x, y, far, stop)
                                  (at_vacant i k (ground arith) (
                                    stones-Pending i n k s strict x (inr (ground (arith, same))) r))
                          ]
                    ]
                | inr x ↦
                    let v : is_valid (buckets i).key ≡ true = ground arith in
                    let same =
                      continue_probe-eq-dist capacity tgt (buckets i).hash i (omega arith) t
                        (hash-lt capacity buckets fits i k o v) k in
                    let g = step capacity buckets tgt z fits t l alive i k strict in
                    let far : (inc_index i capacity == tgt) ≡ false = ground (arith, g.2) in
                    elim (Bool-cases (continue_probe tgt (buckets i).hash i)) [
                      | inl go ↦
                          rw (miss, w, x, go, far)
                            (probe_loop-Stops fuel (inc_index i capacity) g.1 (omega (arith, g.0))
                              (omega (arith, g.0))
                              (Reaches-next capacity buckets tgt z fits t l alive i
                                (inc_index i capacity) k r (ground (arith, same))
                                (λ j q a c. absurd (omega (arith, g.0)))))
                      | inr stop ↦
                          rw (miss, w, x, stop)
                            (at_before i k (occupied-Pending i k v (ground (arith, same)) r))
                    ]
              ]
        ]
