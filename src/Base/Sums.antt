-- ===== src/Base/Sums.antt =====
-- Sums over the first places of a block of memory.
use Prim.Native.Nat.{ℕ, zero, suc, ◌+◌, ◌≤◌, ◌<◌}
use mathlib.Core.Path.{◌≡◌, refl}
use native.Mathlib.Omega.{arith}
use native.Mathlib.Decide.{ℕ_discrete}
use cheetah.Base.Arrays.{update, update_self, update_ne}

module _ {ℓ} {A : Type ℓ} (w : ℕ → A → ℕ) where
  unfoldable pub sum_of : ℕ → (ℕ → A) → ℕ
  sum_of zero f = 0
  sum_of (suc n) f = sum_of n f + w n (f n)

  pub sum_of-update_of_le :
      (n i : ℕ) (f : ℕ → A) (a : A) → n ≤ i → sum_of n (update f i a) ≡ sum_of n f
  unfolding sum_of
  sum_of-update_of_le zero i f a h = refl
  sum_of-update_of_le (suc n) i f a h =
      rw (update_ne f i n a (omega arith), sum_of-update_of_le n i f a (omega arith)) refl

  -- What changes at one place changes in the sum.
  pub sum_of-update :
      (n i : ℕ) (f : ℕ → A) (a : A)
      → i < n
      → sum_of n (update f i a) + w i (f i) ≡ sum_of n f + w i a
  unfolding sum_of
  sum_of-update zero i f a h = absurd (omega arith)
  sum_of-update (suc n) i f a h = elim (ℕ_discrete i n) [
    | yes e ↦
        let here : update f i a n ≡ a = rw e (update_self f n a) in
        rw (sum_of-update_of_le n i f a (omega arith), here, e) (omega arith)
    | no e ↦ rw (update_ne f i n a e) (omega (arith, sum_of-update n i f a (omega arith)))
  ]

  -- If every term is zero, so is the sum.
  pub sum_of-zero : (n : ℕ) (f : ℕ → A) → ((i : ℕ) → i < n → w i (f i) ≡ 0) → sum_of n f ≡ 0
  unfolding sum_of
  sum_of-zero zero f h = refl
  sum_of-zero (suc n) f h =
      omega (arith, h n (omega arith), sum_of-zero n f (λ i k. h i (omega arith)))

  pub sum_of_congr :
      (n : ℕ) (f g : ℕ → A) → ((i : ℕ) → i < n → w i (f i) ≡ w i (g i)) → sum_of n f ≡ sum_of n g
  unfolding sum_of
  sum_of_congr zero f g h = refl
  sum_of_congr (suc n) f g h =
      omega (arith, h n (omega arith), sum_of_congr n f g (λ i k. h i (omega arith)))
