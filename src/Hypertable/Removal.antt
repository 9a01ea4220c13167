-- ===== src/Hypertable/Removal.antt =====
-- `remove_hyperobject` in every form of the table: it ends, keeps the table well formed, and takes
-- out the key and nothing else.
use cheetah.Base.{
  some_of_none, ==_iff, ◌==◌, ℕ_discrete, if◌then◌else◌, ℕ, suc, ◌+◌, ◌-◌, ◌*◌, ◌/◌, ◌≤◌, ◌<◌, ◌≡◌,
  inl, inr, refl, sym, true, false, Bool, arith, Bool-cases, some, not-lt→ltb, subst₂, lt→ltb,
  Option-cases, none,
}
use cheetah.Hypertable.{
  max_capacity, Table, Views, is_valid, is_underloaded, time_to_rebuild, find_hyperobject,
}
use cheetah.Hypertable.Delete.{
  entomb-IsHashed, live_hashed, Deleted, remove_small-Deleted, absent-Deleted,
}
use cheetah.Hypertable.Lookup.{find_hyperobject_iff, lookup, lookup_eq, lookup-Holds}
use cheetah.Hypertable.Rebuild.{rebuild-Rebuilt}
use cheetah.Hypertable.Remove.{Removes, Removed}
use cheetah.Hypertable.Update.{
  entomb, remove_hyperobject, rebuild, insert_hyperobject, remove_small,
}
use cheetah.Hypertable.Valid.{IsHashed, IsTable}

is_underloaded-le :
    (occupancy capacity : ℕ)
    → is_underloaded occupancy capacity ≡ true
    → occupancy ≤ 7 * capacity / 16
unfolding is_underloaded
is_underloaded-le occupancy capacity h = ground arith

module _ {ℓ} {D : Type ℓ} where
  hashed-Removed :
      (t r : Table D) (key : ℕ)
      → 8 ≤ t.capacity
      → IsHashed r
      → Removes t.capacity t.buckets key r.capacity r.buckets
      → Removed t key r
  hashed-Removed t r key l h m = record {
    table = inr h;
    removes =
        subst₂ (λ i j. Removes i t.buckets key j r.buckets) (sym (live_hashed t l))
          (sym (live_hashed r h.large)) m;
  }

  module _ (u : Views D) (depth : ℕ) (t : Table D) (i : ℕ) (h : IsHashed t) (l : i < t.capacity)
      (v : is_valid (t.buckets i).key ≡ true) where
    -- A rebuild after the removal.
    rebuilt-Removed :
        (t' : Table D)
        → t'.capacity ≡ t.capacity
        → IsHashed t'
        → Removes t.capacity t.buckets (t.buckets i).key t.capacity t'.buckets
        → (new_capacity : ℕ) → 8 ≤ new_capacity
        → new_capacity ≤ max_capacity
        → t'.occupancy ≤ 15 * new_capacity / 16
        → (r : Table D) × (rebuild u (insert_hyperobject u (suc depth)) t' new_capacity ≡ some r)
          × Removed t (t.buckets i).key r
    rebuilt-Removed t' same h' m new_capacity large fits room =
        let (r, run, f) =
          rebuild-Rebuilt u depth t' new_capacity large fits room h'.occupied_eq
            h'.ordered.unique in
        let r_hashed : IsHashed r = record {
          large = rw f.capacity large;
          fits = omega (arith, f.capacity, fits);
          ordered = f.ordered;
          occupied_eq = f.occupied_eq;
        } in
        (
          r,
          run,
          hashed-Removed t r (t.buckets i).key h.large r_hashed (record {
            kept = λ k d w n q. f.forth k d w (rw same (m.kept k d w n q));
            only = λ k d w q. m.only k d w (rw same at f.back k d w q);
          }),
        )

    found-Removed :
        t.capacity ≤ max_capacity
        → t.occupancy ≤ 15 * t.capacity / 16 + 1
        → (is_underloaded (t.occupancy - 1) t.capacity ≡ true → 16 ≤ t.capacity)
        → find_hyperobject t (t.buckets i).key ≡ some i
        → (r : Table D) × (remove_hyperobject u (suc depth) t (t.buckets i).key ≡ some (r, true))
          × Removed t (t.buckets i).key r
    unfolding remove_hyperobject entomb
    found-Removed below few stays e =
        let (h', m) = entomb-IsHashed t i h l v in
        let hashed = not-lt→ltb t.capacity 8 (omega (arith, h.large)) in
        elim (Bool-cases (is_underloaded (t.occupancy - 1) t.capacity)) [
          | inl under ↦
              let (r, run, ok) =
                rebuilt-Removed (entomb t i) refl h' m (t.capacity / 2) (omega (arith, stays under))
                  (omega arith)
                  (omega
                    (arith, is_underloaded-le (t.occupancy - 1) t.capacity under, stays under)) in
              (r, rw (hashed, e, remove_hyperobject, under, run) refl, ok)
          | inr fine ↦ elim (Bool-cases (time_to_rebuild (entomb t i).ins_rm_count t.capacity)) [
            | inl due ↦
                let (r, run, ok) =
                  rebuilt-Removed (entomb t i) refl h' m t.capacity h.large below (omega arith) in
                (r, rw (hashed, e, remove_hyperobject, fine, due, run) refl, ok)
            | inr early ↦ (
              entomb t i,
              rw (hashed, e, remove_hyperobject, fine, early) refl,
              hashed-Removed t (entomb t i) (t.buckets i).key h.large h' m,
            )
          ]
        ]

  -- remove_hyperobject returns a well-formed table, which holds what the table held before but for
  -- the key, and tells whether the key was there (well-formed table of at most MAX_CAPACITY
  -- buckets, an address as the key; a hashed table at most one insertion past the bound of
  -- is_overloaded and not due to shrink below 16 buckets).
  pub remove_hyperobject-Deleted :
      (u : Views D) (depth : ℕ) (t : Table D) (key : ℕ)
      → IsTable t
      → is_valid key ≡ true
      → t.capacity ≤ max_capacity
      → (8 ≤ t.capacity → t.occupancy ≤ 15 * t.capacity / 16 + 1)
      → (8 ≤ t.capacity → is_underloaded (t.occupancy - 1) t.capacity ≡ true → 16 ≤ t.capacity)
      → (r : Table D) × (found : Bool) × (remove_hyperobject u (suc depth) t key ≡ some (r, found))
        × Deleted t key r found
  unfolding remove_hyperobject
  remove_hyperobject-Deleted u depth t key (inl s) v below few stays = (
    (remove_small t key).0,
    (remove_small t key).1,
    rw (lt→ltb t.capacity 8 s.small) refl,
    remove_small-Deleted t key s,
  )
  remove_hyperobject-Deleted u depth t key (inr h) v below few stays =
      let hashed = not-lt→ltb t.capacity 8 (omega (arith, h.large)) in
      let n = live_hashed t h.large in
      elim (Option-cases (find_hyperobject t key)) [
        | inl e ↦ (
          t,
          false,
          rw (hashed, e, remove_hyperobject) refl,
          absent-Deleted t key (inr h) (λ p l q.
              some_of_none (find_hyperobject t key) e
                ((find_hyperobject_iff t key p (inr h) v).1 (l, q))),
        )
        | inr (i, e) ↦
            let at = (find_hyperobject_iff t key i (inr h) v).0 e in
            let l : i < t.capacity = rw n at at.0 in
            let (r, run, ok) =
              found-Removed u depth t i h l (rw at.1 v) below (few h.large) (stays h.large)
                (rw at.1 e) in
            (
              r,
              true,
              rw at.1 at run,
              record { removed = rw at.1 at ok; told = (λ q. (i, at.0, at.1), λ q. refl) },
            )
      ]

  -- remove_hyperobject returns a well-formed table in which find_hyperobject leads to nothing for
  -- the key removed and to the old data for every other key (well-formed table of at most
  -- MAX_CAPACITY buckets, addresses as keys; a hashed table at most one insertion past the bound
  -- of is_overloaded and not due to shrink below 16 buckets).
  pub lookup-remove_hyperobject :
      (u : Views D) (depth : ℕ) (t : Table D) (key k : ℕ)
      → IsTable t
      → is_valid key ≡ true
      → is_valid k ≡ true
      → t.capacity ≤ max_capacity
      → (8 ≤ t.capacity → t.occupancy ≤ 15 * t.capacity / 16 + 1)
      → (8 ≤ t.capacity → is_underloaded (t.occupancy - 1) t.capacity ≡ true → 16 ≤ t.capacity)
      → (r : Table D) × (found : Bool) × (remove_hyperobject u (suc depth) t key ≡ some (r, found))
        × IsTable r
        × (lookup r k ≡ (if k == key then none else lookup t k))
  lookup-remove_hyperobject u depth t key k s v w below few stays =
      let (r, found, run, d) = remove_hyperobject-Deleted u depth t key s v below few stays in
      let m = d.removed.removes in
      (
        r,
        found,
        run,
        d.removed.table,
        elim (ℕ_discrete k key) [
          | yes e ↦
              rw (e, (==_iff key key).1 refl)
                (elim (Option-cases (lookup r key)) [
                  | inl q ↦ q
                  | inr (x, q) ↦
                      absurd
                        ((m.only key x v ((lookup-Holds r key x d.removed.table v).0 q)).0 refl)
                ])
          | no e ↦
              let differs : (k == key) ≡ false = ground arith in
              rw differs (
                lookup_eq t r k s d.removed.table w (λ x. m.kept k x w e)
                  (λ x q. (m.only k x w q).1))
        ],
      )
