-- ===== src/Hypertable/Shift.antt =====
-- The second loop of `insert_hyperobject`: it ends, and adds one key to a table in order.
use cheetah.Base.{
  subst₂, ◌==◌, ℕ, zero, suc, ◌+◌, ◌≤◌, ◌<◌, ◌≡◌, ◌⊎◌, inl, inr, refl, true, false, arith, update,
  ℕ_discrete, Bool-cases, update_ne, update_self, sym,
}
use cheetah.Hypertable.{u32_mod, Bucket, is_valid, inc_index}
use cheetah.Hypertable.Circle.{
  dist, inc_index-lt, dist-lt, dist_self, dist-inc_index, dist_injective,
}
use cheetah.Hypertable.Count.{occupied, empties, valid_weight, empty_weight, total-update}
use cheetah.Hypertable.Order.{Ordered}
use cheetah.Hypertable.Pending.{Holds, Pending, update-Ordered, carried-Pending}
use cheetah.Hypertable.Update.{shift_loop}

module _ {ℓ} {D : Type ℓ} (capacity : ℕ) where
  -- `after` is `buckets` with `b` added, in order.
  pub record Adds (buckets : ℕ → Bucket D) (b : Bucket D) (after : ℕ → Bucket D) : Type ℓ where
    pub ordered : Ordered capacity after
    pub here : Holds capacity after b.key b.data_of
    pub kept :
        (k : ℕ) (d : D) → is_valid k ≡ true → Holds capacity buckets k d → Holds capacity after k d
    pub only :
        (k : ℕ) (d : D)
        → is_valid k ≡ true
        → Holds capacity after k d
        → ((k ≡ b.key) × (d ≡ b.data_of)) ⊎ Holds capacity buckets k d
    pub grown : occupied capacity after ≡ occupied capacity buckets + 1
    pub filled : empties capacity buckets ≤ empties capacity after + 1

  module _ (buckets : ℕ → Bucket D) (b : Bucket D) (i : ℕ) (k : i < capacity) where
    Holds-update_self : Holds capacity (update buckets i b) b.key b.data_of
    Holds-update_self = (i, k, ground arith, ground arith)

    Holds-update :
        (key : ℕ) (d : D)
        → Holds capacity buckets key d
        → (((buckets i).key ≡ key) × ((buckets i).data_of ≡ d))
          ⊎ Holds capacity (update buckets i b) key d
    Holds-update key d (p, l, e, f) = elim (ℕ_discrete i p) [
      | yes same ↦ inl (rw same (e, f))
      | no other ↦ inr (p, l, ground arith, rw (update_ne buckets i p b other) f)
    ]

    Holds-of_update :
        (key : ℕ) (d : D)
        → Holds capacity (update buckets i b) key d
        → ((key ≡ b.key) × (d ≡ b.data_of)) ⊎ Holds capacity buckets key d
    Holds-of_update key d (p, l, e, f) = elim (ℕ_discrete i p) [
      | yes same ↦
          let q : update buckets i b p ≡ b = rw (← same) (update_self buckets i b) in
          inl (sym (rw q at e), sym (rw q at f))
      | no other ↦ inr (p, l, ground arith, rw (update_ne buckets i p b other) at f)
    ]

    module _ (fits : capacity < u32_mod) (o : Ordered capacity buckets)
        (h : Pending capacity buckets b i) where
      -- A pending bucket may overwrite one that holds no key.
      pub update-Adds : is_valid (buckets i).key ≡ false → Adds buckets b (update buckets i b)
      update-Adds v = record {
        ordered = update-Ordered capacity buckets b i fits k o h;
        here = Holds-update_self;
        kept =
            λ key d w s. elim (Holds-update key d s) [ inl e ↦ absurd (ground arith) | inr t ↦ t ];
        only = λ key d w s. Holds-of_update key d s;
        grown = ground (arith, total-update valid_weight capacity i buckets b k, h.valid);
        filled = ground (arith, total-update empty_weight capacity i buckets b k, h.valid);
      }

      -- Where it overwrites a key, what that key's bucket adds next is what the two add together.
      shifted-Adds :
          (after : ℕ → Bucket D)
          → is_valid (buckets i).key ≡ true
          → Adds (update buckets i b) (buckets i) after
          → Adds buckets b after
      shifted-Adds after v a = record {
        ordered = a.ordered;
        here = a.kept b.key b.data_of h.valid Holds-update_self;
        kept = λ key d w s. elim (Holds-update key d s) [
          | inl e ↦ subst₂ (Holds capacity after) e.0 e.1 a.here
          | inr t ↦ a.kept key d w t
        ];
        only = λ key d w s. elim (a.only key d w s) [
          | inl e ↦ inr (i, k, sym e.0, sym e.1)
          | inr t ↦ Holds-of_update key d t
        ];
        grown = ground (arith, total-update valid_weight capacity i buckets b k, h.valid, a.grown);
        filled =
            ground (arith, total-update empty_weight capacity i buckets b k, h.valid, a.filled);
      }

  -- With an empty bucket at `z` on the way round from `tgt`, the loop succeeds and adds the bucket.
  pub shift_loop-Adds :
      (tgt z : ℕ)
      → capacity < u32_mod
      → tgt < capacity
      → z < capacity
      → (fuel i : ℕ) (buckets : ℕ → Bucket D) (b : Bucket D) → i < capacity
      → (buckets z).key ≡ 0
      → dist capacity tgt i ≤ dist capacity tgt z
      → dist capacity tgt z < dist capacity tgt i + fuel
      → Ordered capacity buckets
      → Pending capacity buckets b i
      → ((shift_loop capacity tgt fuel i buckets b).1 ≡ true)
        × Adds buckets b (shift_loop capacity tgt fuel i buckets b).0
  unfolding shift_loop
  shift_loop-Adds tgt z fits t l zero i buckets b k e m n o h = absurd (omega arith)
  shift_loop-Adds tgt z fits t l (suc fuel) i buckets b k e m n o h =
      elim (Bool-cases (is_valid (buckets i).key)) [
        | inr w ↦ rw w (refl, update-Adds buckets b i k fits o h w)
        | inl w ↦
            let strict : dist capacity tgt i < dist capacity tgt z =
              ground (arith, dist_injective capacity tgt i z t k l) in
            let step : dist capacity tgt (inc_index i capacity) ≡ dist capacity tgt i + 1 =
              dist-inc_index capacity tgt i fits t k (omega (arith, dist-lt capacity tgt z t l)) in
            let differs : (inc_index i capacity == tgt) ≡ false =
              ground (arith, step, dist_self capacity tgt) in
            let next = inc_index i capacity in
            let rest =
              shift_loop-Adds tgt z fits t l fuel next (update buckets i b) (buckets i)
                (inc_index-lt i capacity fits k) (ground arith) (omega arith) (omega arith)
                (update-Ordered capacity buckets b i fits k o h)
                (carried-Pending capacity buckets b i fits k o h w z l e) in
            rw (w, differs) (rest.0, shifted-Adds buckets b i k fits o h _ w rest.1)
      ]
