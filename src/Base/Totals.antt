-- ===== src/Base/Totals.antt =====
-- Sums of integers over the first places of a block of memory.
use Prim.Native.Nat.{ℕ, zero, suc, ◌+◌, ◌≤◌, ◌<◌}
use mathlib.Core.Path.{◌≡◌, refl}
use native.Mathlib.Omega.{arith}
use native.Mathlib.Decide.{ℕ_discrete}
use cheetah.Base.Arrays.{update, update_self, update_ne}
use cheetah.Base.Int.{ℤ, pos, ◌+ℤ◌, pos_part, neg_part, int_laws}

module _ {ℓ} {A : Type ℓ} (w : A → ℤ) where
  unfoldable pub total_of : ℕ → (ℕ → A) → ℤ
  total_of zero f = pos 0
  total_of (suc n) f = total_of n f +ℤ w (f n)

  total_of-update_of_le :
      (n i : ℕ) (f : ℕ → A) (a : A) → n ≤ i → total_of n (update f i a) ≡ total_of n f
  unfolding total_of
  total_of-update_of_le zero i f a h = refl
  total_of-update_of_le (suc n) i f a h =
      rw (update_ne f i n a (omega arith), total_of-update_of_le n i f a (omega arith)) refl

  -- What changes at one place changes in the sum.
  pub total_of-update :
      (n i : ℕ) (f : ℕ → A) (a : A)
      → i < n
      → pos_part (total_of n (update f i a))
          + neg_part (total_of n f)
          + pos_part (w (f i))
          + neg_part (w a)
        ≡ neg_part (total_of n (update f i a))
          + pos_part (total_of n f)
          + neg_part (w (f i))
          + pos_part (w a)
  unfolding total_of
  total_of-update zero i f a h = absurd (omega arith)
  total_of-update (suc n) i f a h = elim (ℕ_discrete i n) [
    | yes e ↦
        let rest = total_of-update_of_le n i f a (omega arith) in
        let here : update f i a n ≡ a = rw e (update_self f n a) in
        rw (rest, here, e) (omega int_laws)
    | no e ↦
        let rest = total_of-update n i f a (omega arith) in
        rw (update_ne f i n a e) (omega (int_laws, rest))
  ]

  pub total_of-zero : (n : ℕ) (f : ℕ → A) → ((i : ℕ) → w (f i) ≡ pos 0) → total_of n f ≡ pos 0
  unfolding total_of ◌+ℤ◌
  total_of-zero zero f h = refl
  total_of-zero (suc n) f h = rw (total_of-zero n f h, h n) refl

  pub total_of_congr :
      (n : ℕ) (f g : ℕ → A) → ((i : ℕ) → w (f i) ≡ w (g i)) → total_of n f ≡ total_of n g
  unfolding total_of
  total_of_congr zero f g h = refl
  total_of_congr (suc n) f g h = rw (total_of_congr n f g h, h n) refl
