-- ===== src/Hypertable/Delete.antt =====
-- `remove_hyperobject` in both forms of the table, and what is found after it.
use cheetah.Base.{
  ℕ, ◌-◌, ◌≤◌, ◌<◌, ◌≡◌, ◌≢◌, ◌↔◌, ◌⊎◌, inl, inr, refl, sym, true, false, Bool, arith, ℕ_discrete,
  Option-cases, ap, ◌∙◌, subst₂,
}
use cheetah.Hypertable.{Bucket, Table, is_valid}
use cheetah.Hypertable.Remove.{
  Removes, Removed, small_Removes, tomb-Ordered, tomb-occupied, tomb-Removes,
}
use cheetah.Hypertable.Update.{scan, remove_small, entomb}
use cheetah.Hypertable.Valid.{IsSmall, IsHashed, IsTable, live, scan-some, scan-none}

module _ {ℓ} {D : Type ℓ} where
  -- The key was removed and `found` says whether it was there.
  pub record Deleted (t : Table D) (key : ℕ) (r : Table D) (found : Bool) : Type ℓ where
    pub removed : Removed t key r
    pub told : (found ≡ true) ↔ ((p : ℕ) × (p < live t) × ((t.buckets p).key ≡ key))

  pub absent-Deleted :
      (t : Table D) (key : ℕ)
      → IsTable t
      → ((p : ℕ) → p < live t → (t.buckets p).key ≢ key)
      → Deleted t key t false
  absent-Deleted t key s h = record {
    removed = record {
      table = s;
      removes = record { kept = λ k d w n q. q; only = λ k d w q. (λ e. h q.0 q.1 (q.2 ∙ e), q) };
    };
    told = (λ e. absurd (cc), λ q. absurd (h q.0 q.1 q.2));
  }

  pub live_small : (t : Table D) → t.capacity < 8 → live t ≡ t.occupancy
  live_small t h = ground arith

  pub live_hashed : (t : Table D) → 8 ≤ t.capacity → live t ≡ t.capacity
  live_hashed t h = ground arith

  module _ (t : Table D) (i : ℕ) (buckets' : ℕ → Bucket D) (s : IsSmall t) (l : i < t.occupancy)
      (same : (j : ℕ) → j < t.occupancy - 1 → j ≢ i → buckets' j ≡ t.buckets j)
      (moved : i ≢ t.occupancy - 1 → buckets' i ≡ t.buckets (t.occupancy - 1)) where
    -- Where the bucket at `j` comes from.
    source :
        (j : ℕ)
        → j < t.occupancy - 1
        → (n : ℕ) × (n < t.occupancy)
          × (buckets' j ≡ t.buckets n)
          × (((j ≡ i) × (n ≡ t.occupancy - 1)) ⊎ (n ≡ j))
    source j k = elim (ℕ_discrete j i) [
      | yes e ↦ (t.occupancy - 1, omega arith, rw e (moved (omega arith)), inl (e, refl))
      | no e ↦ (j, omega arith, same j k e, inr refl)
    ]

    source_injective :
        (j k n m : ℕ)
        → j < t.occupancy - 1
        → k < t.occupancy - 1
        → ((j ≡ i) × (n ≡ t.occupancy - 1)) ⊎ (n ≡ j)
        → ((k ≡ i) × (m ≡ t.occupancy - 1)) ⊎ (m ≡ k)
        → n ≡ m
        → j ≡ k
    source_injective j k n m a b (inl p) (inl q) e = omega (arith, p, q)
    source_injective j k n m a b (inl p) (inr q) e = omega (arith, p, q)
    source_injective j k n m a b (inr p) (inl q) e = omega (arith, p, q)
    source_injective j k n m a b (inr p) (inr q) e = omega (arith, p, q)

    shrunk-IsSmall : IsSmall (record t { occupancy = t.occupancy - 1; buckets = buckets' })
    shrunk-IsSmall = record {
      least = s.least;
      small = s.small;
      fits = omega (arith, s.fits);
      valid = λ j k. let (n, a, f, c) = source j k in rw f (s.valid n a);
      unique = λ j k m n w e.
          let (x, a, f, c) = source j m in
          let (y, b, g, d) = source k n in
          let keys : (t.buckets x).key ≡ (t.buckets y).key =
            sym (ap (λ (r : Bucket D). r.key) f) ∙ e ∙ ap (λ (r : Bucket D). r.key) g in
          source_injective j k x y m n c d (s.unique x y a b (s.valid x a) keys);
    }

    small-Deleted :
        Deleted t
          (t.buckets i).key
          (record t { occupancy = t.occupancy - 1; buckets = buckets' })
          true
    small-Deleted = record {
      removed = record {
        table = inl shrunk-IsSmall;
        removes =
            subst₂ (λ m n. Removes m t.buckets (t.buckets i).key n buckets')
              (sym (live_small t s.small))
              (sym
                (live_small (record t { occupancy = t.occupancy - 1; buckets = buckets' }) s.small))
              (small_Removes t i s l buckets' same moved);
      };
      told = (λ e. (i, rw (live_small t s.small) l, refl), λ q. refl);
    }

  pub remove_small-Deleted :
      (t : Table D) (key : ℕ)
      → IsSmall t
      → Deleted t key (remove_small t key).0 (remove_small t key).1
  unfolding remove_small
  remove_small-Deleted t key s = elim (Option-cases (scan t.buckets key t.occupancy 0)) [
    | inl e ↦
        rw (e, remove_small)
          (absent-Deleted t key (inl s) (
            rw (live_small t s.small)
              (λ p l. scan-none t.buckets key t.occupancy 0 e p (omega arith) (omega arith))))
    | inr (i, e) ↦
        let at = scan-some t.buckets key t.occupancy 0 i e in
        rw (e, remove_small, ← at.2)
          (small-Deleted t i _ s (omega (arith, at.1)) (λ j k n. ground arith) (λ n. ground arith))
  ]

  -- The bucket of the key becomes a tombstone.
  pub entomb-IsHashed :
      (t : Table D) (i : ℕ)
      → IsHashed t
      → i < t.capacity
      → is_valid (t.buckets i).key ≡ true
      → IsHashed (entomb t i)
        × Removes t.capacity t.buckets (t.buckets i).key t.capacity (entomb t i).buckets
  unfolding entomb
  entomb-IsHashed t i h l v = (
    record {
      large = h.large;
      fits = h.fits;
      ordered = tomb-Ordered t.capacity t.buckets i l v h.ordered;
      occupied_eq =
          omega (arith, tomb-occupied t.capacity t.buckets i l v h.ordered, h.occupied_eq);
    },
    tomb-Removes t.capacity t.buckets i l v h.ordered,
  )
