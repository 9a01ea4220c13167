-- ===== src/Join/Unlink.antt =====
-- A child that goes is taken out of the sibling links: `remove_child` of runtime/scheduler.cpp.
use cheetah.Base.{
  refl, zero, suc, none, some, inl, inr, ℕ, if◌then◌else◌, ◌≡◌, ◌<◌, ltb, ◌+◌, ◌⊎◌, arith,
  ℕ_discrete,
}
use cheetah.Join.Links.{Links, IsLinked, remove_child, unlink_child, store}

-- The children after the one with index `k` has gone.
unfoldable pub without : ℕ → (ℕ → ℕ) → ℕ → ℕ
without k xs i = if ltb i k then xs i else xs (i + 1)

suc_plus : (k : ℕ) → suc k ≡ k + 1
suc_plus k = omega arith

-- The left and the right neighbour of the child with index `k`.
sibs :
    (l : Links) (n k : ℕ) (xs : ℕ → ℕ)
    → IsLinked l (suc n) xs
    → k < suc n
    → ((k ≡ 0) × (l.left_sib (xs k) ≡ none)
        ⊎ ((j : ℕ) × (k ≡ j + 1) × (l.left_sib (xs k) ≡ some (xs j))))
      × ((k ≡ n) × (l.right_sib (xs k) ≡ none)
          ⊎ ((k < n) × (l.right_sib (xs k) ≡ some (xs (k + 1)))))
sibs l n zero xs v h = (
  inl (refl, v.first (omega arith)),
  elim (ℕ_discrete 0 n) [
    | yes e ↦ inl (e, v.last 0 (omega arith))
    | no e ↦ inr (omega arith, v.right 0 (omega arith))
  ],
)
sibs l n (suc k) xs v h = (
  inr (k, omega arith, rw (suc_plus k) (v.left k (omega arith))),
  elim (ℕ_discrete (suc k) n) [
    | yes e ↦ inl (e, v.last (suc k) (omega arith))
    | no e ↦ inr (omega arith, v.right (suc k) (omega arith))
  ],
)

module _ (l : Links) (n k : ℕ) (xs : ℕ → ℕ) (v : IsLinked l (suc n) xs) (h : k < suc n) where
  near : (j : ℕ) → j < suc n → (i : ℕ) → i < suc n → xs j ≡ xs i → j ≡ i
  near j a i b e = v.distinct j i a b e

  without-distinct : (i j : ℕ) → i < n → j < n → without k xs i ≡ without k xs j → i ≡ j
  unfolding without
  without-distinct i j a b e = ground (
    arith,
    v.distinct i j,
    v.distinct (i + 1) j,
    v.distinct i (j + 1),
    v.distinct (i + 1) (j + 1),
  )

  -- The only child goes.
  remove_only-IsLinked :
      k ≡ 0
      → k ≡ n
      → l.left_sib (xs k) ≡ none
      → l.right_sib (xs k) ≡ none
      → IsLinked (remove_child l (xs k)) n (without k xs)
  unfolding remove_child unlink_child store without
  remove_only-IsLinked a b x y =
      let end = v.most n (omega arith) in
      rw (x, y, end)
        (record {
          distinct = without-distinct;
          first = λ c. ground (arith, v.first (omega arith), v.left 0, near k h (0), near k h (1));
          left = λ i c.
              ground
                (arith, v.left i, v.left (i + 1), near k h (i), near k h (i + 1), near k h (i + 2));
          right = λ i c.
              ground (
                arith,
                v.right i,
                v.right (i + 1),
                near k h (i),
                near k h (i + 1),
                near k h (i + 2),
              );
          last = λ i c.
              ground (arith, v.last i, v.last (i + 1), v.right i, near k h (i), near k h (i + 1));
          empty = λ c. ground (arith, v.most n, v.distinct k n);
          most = λ i c. ground (arith, v.most n, v.distinct k n);
        })

  -- The first of several goes.
  remove_first-IsLinked :
      k ≡ 0
      → k < n
      → l.left_sib (xs k) ≡ none
      → l.right_sib (xs k) ≡ some (xs (k + 1))
      → IsLinked (remove_child l (xs k)) n (without k xs)
  unfolding remove_child unlink_child store without
  remove_first-IsLinked a b x y =
      let end = v.most n (omega arith) in
      rw (x, y, end)
        (record {
          distinct = without-distinct;
          first = λ c. ground (
            arith,
            v.first (omega arith),
            v.left 0,
            near k h (0),
            near (k + 1) (omega arith) (0),
            near k h (1),
            near (k + 1) (omega arith) (1),
          );
          left = λ i c. ground (
            arith,
            v.left i,
            v.left (i + 1),
            near k h (i),
            near (k + 1) (omega arith) (i),
            near k h (i + 1),
            near (k + 1) (omega arith) (i + 1),
            near k h (i + 2),
            near (k + 1) (omega arith) (i + 2),
          );
          right = λ i c. ground (
            arith,
            v.right i,
            v.right (i + 1),
            near k h (i),
            near (k + 1) (omega arith) (i),
            near k h (i + 1),
            near (k + 1) (omega arith) (i + 1),
            near k h (i + 2),
            near (k + 1) (omega arith) (i + 2),
          );
          last = λ i c. ground (
            arith,
            v.last i,
            v.last (i + 1),
            v.right i,
            near k h (i),
            near (k + 1) (omega arith) (i),
            near k h (i + 1),
            near (k + 1) (omega arith) (i + 1),
          );
          empty = λ c. ground (arith, v.most n, v.distinct k n);
          most = λ i c. ground (arith, v.most n, v.distinct k n);
        })

  -- The last of several goes.
  remove_last-IsLinked :
      (j : ℕ)
      → k ≡ j + 1
      → k ≡ n
      → l.left_sib (xs k) ≡ some (xs j)
      → l.right_sib (xs k) ≡ none
      → IsLinked (remove_child l (xs k)) n (without k xs)
  unfolding remove_child unlink_child store without
  remove_last-IsLinked j a b x y =
      let end = v.most n (omega arith) in
      rw (x, y, end)
        (record {
          distinct = without-distinct;
          first = λ c. ground (
            arith,
            v.first (omega arith),
            v.left 0,
            near k h (0),
            near j (omega arith) (0),
            near k h (1),
            near j (omega arith) (1),
          );
          left = λ i c. ground (
            arith,
            v.left i,
            v.left (i + 1),
            near k h (i),
            near j (omega arith) (i),
            near k h (i + 1),
            near j (omega arith) (i + 1),
            near k h (i + 2),
            near j (omega arith) (i + 2),
          );
          right = λ i c. ground (
            arith,
            v.right i,
            v.right (i + 1),
            near k h (i),
            near j (omega arith) (i),
            near k h (i + 1),
            near j (omega arith) (i + 1),
            near k h (i + 2),
            near j (omega arith) (i + 2),
          );
          last = λ i c. ground (
            arith,
            v.last i,
            v.last (i + 1),
            v.right i,
            near k h (i),
            near j (omega arith) (i),
            near k h (i + 1),
            near j (omega arith) (i + 1),
          );
          empty = λ c. ground (arith, v.most n, v.distinct k n);
          most = λ i c. ground (arith, v.most n, v.distinct k n);
        })

  -- One between two others goes.
  remove_inner-IsLinked :
      (j : ℕ)
      → k ≡ j + 1
      → k < n
      → l.left_sib (xs k) ≡ some (xs j)
      → l.right_sib (xs k) ≡ some (xs (k + 1))
      → IsLinked (remove_child l (xs k)) n (without k xs)
  unfolding remove_child unlink_child store without
  remove_inner-IsLinked j a b x y =
      let end = v.most n (omega arith) in
      rw (x, y, end)
        (record {
          distinct = without-distinct;
          first = λ c. ground (
            arith,
            v.first (omega arith),
            v.left 0,
            near k h (0),
            near j (omega arith) (0),
            near (k + 1) (omega arith) (0),
            near k h (1),
            near j (omega arith) (1),
            near (k + 1) (omega arith) (1),
          );
          left = λ i c. ground (
            arith,
            v.left i,
            v.left (i + 1),
            near k h (i),
            near j (omega arith) (i),
            near (k + 1) (omega arith) (i),
            near k h (i + 1),
            near j (omega arith) (i + 1),
            near (k + 1) (omega arith) (i + 1),
            near k h (i + 2),
            near j (omega arith) (i + 2),
            near (k + 1) (omega arith) (i + 2),
          );
          right = λ i c. ground (
            arith,
            v.right i,
            v.right (i + 1),
            near k h (i),
            near j (omega arith) (i),
            near (k + 1) (omega arith) (i),
            near k h (i + 1),
            near j (omega arith) (i + 1),
            near (k + 1) (omega arith) (i + 1),
            near k h (i + 2),
            near j (omega arith) (i + 2),
            near (k + 1) (omega arith) (i + 2),
          );
          last = λ i c. ground (
            arith,
            v.last i,
            v.last (i + 1),
            v.right i,
            near k h (i),
            near j (omega arith) (i),
            near (k + 1) (omega arith) (i),
            near k h (i + 1),
            near j (omega arith) (i + 1),
            near (k + 1) (omega arith) (i + 1),
          );
          empty = λ c. ground (arith, v.most n, v.distinct k n);
          most = λ i c. ground (arith, v.most n, v.distinct k n);
        })

  -- With `n + 1` distinct children linked in order, of which `k` is the index of one, remove_child leaves
  -- the others linked in their order, wherever the child stands.
  pub remove_child-IsLinked : IsLinked (remove_child l (xs k)) n (without k xs)
  remove_child-IsLinked =
      let (a, b) = sibs l n k xs v h in
      elim a [
        | inl (at_first, x) ↦ elim b [
          | inl (at_last, y) ↦ remove_only-IsLinked at_first at_last x y
          | inr (before, y) ↦ remove_first-IsLinked at_first before x y
        ]
        | inr (j, after, x) ↦ elim b [
          | inl (at_last, y) ↦ remove_last-IsLinked j after at_last x y
          | inr (before, y) ↦ remove_inner-IsLinked j after before x y
        ]
      ]
