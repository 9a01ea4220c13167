-- ===== src/Hypertable/Remove.antt =====
-- `remove_hyperobject`: what it does to a well-formed table.
use cheetah.Base.{
  ℕ, ◌+◌, ◌-◌, ◌<◌, ◌≡◌, ◌≢◌, sym, true, arith, update, update_ne, ℕ_discrete, ap, ◌∙◌,
}
use cheetah.Hypertable.{Bucket, Table, is_valid, key_deleted}
use cheetah.Hypertable.Circle.{dist}
use cheetah.Hypertable.Count.{occupied, valid_weight, total-update}
use cheetah.Hypertable.Order.{Ordered}
use cheetah.Hypertable.Pending.{Holds}
use cheetah.Hypertable.Valid.{IsSmall, IsTable, live}

module _ {ℓ} {D : Type ℓ} where
  -- The live part of `after` holds what that of `buckets` holds, but for the key.
  pub record Removes (live : ℕ) (buckets : ℕ → Bucket D) (key : ℕ) (live' : ℕ)
      (after : ℕ → Bucket D) : Type ℓ where
    pub kept :
        (k : ℕ) (d : D)
        → is_valid k ≡ true
        → k ≢ key
        → Holds live buckets k d
        → Holds live' after k d
    pub only :
        (k : ℕ) (d : D)
        → is_valid k ≡ true
        → Holds live' after k d
        → (k ≢ key) × Holds live buckets k d

  module _ (capacity : ℕ) (buckets : ℕ → Bucket D) (i : ℕ) (l : i < capacity)
      (v : is_valid (buckets i).key ≡ true) (o : Ordered capacity buckets) where
    abbrev tomb : Bucket D
    tomb = record (buckets i) { key = key_deleted }

    abbrev after : ℕ → Bucket D
    after = update buckets i tomb

    tombed : (j : ℕ) → is_valid (after j).key ≡ true → (i ≢ j) × (after j ≡ buckets j)
    tombed j h = elim (ℕ_discrete i j) [
      | yes e ↦ absurd (ground arith)
      | no e ↦ (e, update_ne buckets i j tomb e)
    ]

    pub tomb-Ordered : Ordered capacity after
    tomb-Ordered = record {
      hashed = λ j k w. let (e, f) = tombed j w in rw f (o.hashed j k (rw f at w));
      reached = λ j k w m n q.
          let (e, f) = tombed j w in
          let w' : is_valid (buckets j).key ≡ true = rw f at w in
          let q' : dist capacity (buckets j).hash m < dist capacity (buckets j).hash j =
            rw f at q in
          let r = o.reached j k w' m n q' in
          elim (ℕ_discrete i m) [
            | yes same ↦
                let dead : (after m).key ≡ key_deleted = ground arith in
                rw f (ground (arith, dead), λ h. absurd (ground (arith, dead, h)))
            | no other ↦ rw (f, update_ne buckets i m tomb other) r
          ];
      unique = λ j k m n w e.
          let (a, f) = tombed j w in
          let w' : is_valid (after k).key ≡ true = rw e at w in
          let (b, g) = tombed k w' in
          o.unique j k m n (rw f at w)
            (sym (ap (λ (c : Bucket D). c.key) f) ∙ e ∙ ap (λ (c : Bucket D). c.key) g);
    }

    pub tomb-occupied : occupied capacity after + 1 ≡ occupied capacity buckets
    tomb-occupied = ground (arith, total-update valid_weight capacity i buckets tomb l)

    pub tomb-Removes : Removes capacity buckets (buckets i).key capacity after
    tomb-Removes = record {
      kept = λ k d w n h.
          let other : i ≢ h.0 = λ e. n (sym h.2 ∙ ap (λ p. (buckets p).key) (sym e)) in
          let f = update_ne buckets i h.0 tomb other in (h.0, h.1, rw f h.2, rw f h.3);
      only = λ k d w h.
          let (e, f) = tombed h.0 (rw h.2 w) in
          let key : (buckets h.0).key ≡ k = rw f at h.2 in
          (λ q. e (o.unique i h.0 l h.1 v (sym q ∙ sym key)), (h.0, h.1, key, rw f at h.3));
    }

  -- The record of a removal that the two forms of the table share.
  pub record Removed (t : Table D) (key : ℕ) (r : Table D) : Type ℓ where
    pub table : IsTable r
    pub removes : Removes (live t) t.buckets key (live r) r.buckets

  pub small_Removes :
      (t : Table D) (i : ℕ)
      → IsSmall t
      → i < t.occupancy
      → (buckets' : ℕ → Bucket D)
      → ((j : ℕ) → j < t.occupancy - 1 → j ≢ i → buckets' j ≡ t.buckets j)
      → (i ≢ t.occupancy - 1 → buckets' i ≡ t.buckets (t.occupancy - 1))
      → Removes t.occupancy t.buckets (t.buckets i).key (t.occupancy - 1) buckets'
  small_Removes t i s l buckets' same moved = record {
    kept = λ k d w n h.
        let other : i ≢ h.0 = λ e. n (sym h.2 ∙ ap (λ p. (t.buckets p).key) (sym e)) in
        elim (ℕ_discrete h.0 (t.occupancy - 1)) [
          | yes last ↦
              let f : buckets' i ≡ t.buckets h.0 = rw last (moved (omega (arith, h.1))) in
              (i, omega (arith, h.1), rw f h.2, rw f h.3)
          | no before ↦
              let f = same h.0 (omega (arith, h.1)) (omega arith) in
              (h.0, omega (arith, h.1), rw f h.2, rw f h.3)
        ];
    only = λ k d w h. elim (ℕ_discrete h.0 i) [
      | yes e ↦
          let last = t.occupancy - 1 in
          let f : buckets' h.0 ≡ t.buckets last = rw e (moved (omega (arith, h.1))) in
          let key : (t.buckets last).key ≡ k = rw f at h.2 in
          (
            λ q. absurd (
                omega (
                  arith,
                  h.1,
                  s.unique i last l (omega (arith, h.1)) (s.valid i l) (sym q ∙ sym key),
                )),
            (last, omega (arith, h.1), key, rw f at h.3),
          )
      | no e ↦
          let f = same h.0 h.1 e in
          let key : (t.buckets h.0).key ≡ k = rw f at h.2 in
          (
            λ q. e (sym (s.unique i h.0 l (omega (arith, h.1)) (s.valid i l) (sym q ∙ sym key))),
            (h.0, omega (arith, h.1), key, rw f at h.3),
          )
    ];
  }
