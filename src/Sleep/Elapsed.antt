-- ===== src/Sleep/Elapsed.antt =====
-- Time spent working, turned into a count of fails.
use cheetah.Base.{refl, ◌<◌, ◌^◌, ◌≡◌, ◌/◌, ◌≤◌, ◌*◌, ◌⊎◌, arith, ◌+◌, ◌-◌}
use cheetah.Sleep.{minus_u32, ℕ, ◌%◌}
use cheetah.Sleep.Thief.{
  get_scaled_elapsed, rested, History, decrease_fails_by_work, disengage_threshold,
  sentinel_threshold,
}

-- A measured time that is below 2 ^ 25 cycles is scaled without wrapping around.
pub get_scaled_elapsed_small :
    (elapsed : ℕ) → elapsed < 2 ^ 25 → get_scaled_elapsed elapsed ≡ elapsed / 2048 * 4
unfolding get_scaled_elapsed
get_scaled_elapsed_small elapsed h = omega arith

-- The scaled time is a multiple of four fails below 2 ^ 16, below 2 ^ 25 cycles it is one fail for 512
-- cycles, rounded down to such a multiple, and 2 ^ 25 cycles more do not change it.
pub get_scaled_elapsed_lem :
    (elapsed : ℕ)
    → (get_scaled_elapsed elapsed % 4 ≡ 0)
      × (get_scaled_elapsed elapsed < 2 ^ 16)
      × (elapsed < 2 ^ 25 → get_scaled_elapsed elapsed ≡ elapsed / 2048 * 4)
      × (get_scaled_elapsed (elapsed + 2 ^ 25) ≡ get_scaled_elapsed elapsed)
unfolding get_scaled_elapsed
get_scaled_elapsed_lem elapsed = (omega arith, omega arith, λ h. omega arith, omega arith)

pub rested-fails :
    (h : History) (elapsed later : ℕ)
    → h.fails % 4 ≡ 0
    → 256 ≤ h.fails
    → h.fails < 2 ^ 32
    → let r = rested h elapsed later in
      (r.fails % 4 ≡ 0)
      × (128 ≤ r.fails)
      × ((r.fails ≤ h.fails) ⊎ (r.fails ≡ disengage_threshold - sentinel_threshold))
      × (r.sample_threshold ≡ 128)
unfolding rested minus_u32
rested-fails h elapsed later a b c =
    let s = get_scaled_elapsed_lem (elapsed % 2 ^ 32) in
    (ground (arith, s), ground (arith, s), ground (arith, s), refl)

pub decrease_fails_by_work-fails :
    (h : History) (elapsed : ℕ)
    → h.fails % 4 ≡ 0
    → 128 ≤ h.sample_threshold
    → h.sample_threshold < 2 ^ 32
    → let r = (decrease_fails_by_work h elapsed).0 in
      (r.fails % 4 ≡ 0)
      × (r.fails ≤ h.fails)
      × (128 ≤ r.sample_threshold)
      × (r.sample_threshold ≤ h.sample_threshold)
unfolding decrease_fails_by_work minus_u32
decrease_fails_by_work-fails h elapsed a b c =
    let s = get_scaled_elapsed_lem (elapsed % 2 ^ 32) in
    (ground (arith, s), ground arith, ground (arith, s), ground (arith, s))
