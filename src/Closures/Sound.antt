-- ===== src/Closures/Sound.antt =====
-- What holds of the closures between two steps of the scheduler.
use cheetah.Closures.Children.{is_under, children}
use cheetah.Base.{none, some, true, false, ℕ, ◌≡◌, Bool, ◌<◌, ◌||◌, ◌≢◌, ◌==◌, not}
use cheetah.Closures.{
  ready, Scheduler, is_live, is_running, points_to, is_returning, frame_stolen, is_null,
  frame_unsynched, is_suspended,
}

-- The tree of closures, where the memory has `n` of them.
pub record IsTree (s : Scheduler) (n : ℕ) : Type 0 where
  pub bounded : (c : ℕ) → is_live (s.closure c).status ≡ true → c < n
  pub counted :
      (c : ℕ)
      → is_live (s.closure c).status ≡ true
      → (s.closure c).join_counter ≡ children n s.closure c
  pub spawned :
      (x p : ℕ)
      → is_live (s.closure x).status ≡ true
      → (s.closure x).spawn_parent ≡ some p
      → (is_live (s.closure p).status ≡ true)
        × (is_returning (s.closure p).status ≡ false)
        × ((s.closure x).call_parent ≡ none)
        × (frame_stolen s (s.closure p).frame ≡ true)
        × (frame_unsynched s (s.closure p).frame ≡ true)
  pub called :
      (x p : ℕ)
      → is_live (s.closure x).status ≡ true
      → (s.closure x).call_parent ≡ some p
      → (is_suspended (s.closure p).status ≡ true) × ((s.closure x).spawn_parent ≡ none)
  pub callee :
      (x y p : ℕ)
      → is_live (s.closure x).status ≡ true
      → is_live (s.closure y).status ≡ true
      → (s.closure x).call_parent ≡ some p
      → (s.closure y).call_parent ≡ some p
      → x ≡ y
  pub frames :
      (x y f : ℕ)
      → is_live (s.closure x).status ≡ true
      → is_live (s.closure y).status ≡ true
      → (s.closure x).frame ≡ some f
      → (s.closure y).frame ≡ some f
      → x ≡ y
  pub waits : (c : ℕ) → is_suspended (s.closure c).status ≡ true → 0 < (s.closure c).join_counter
  pub settled : (c : ℕ) → (s.closure c).status ≢ ready
  pub rooted :
      (c : ℕ)
      → is_live (s.closure c).status ≡ true
      → (c == s.root_closure
          || not (is_null (s.closure c).spawn_parent)
          || not (is_null (s.closure c).call_parent))
        ≡ true
  pub top :
      (is_live (s.closure s.root_closure).status ≡ true)
      × ((s.closure s.root_closure).spawn_parent ≡ none)
      × ((s.closure s.root_closure).call_parent ≡ none)

-- Which worker has which closure.
pub record IsHeld (s : Scheduler) : Type 0 where
  pub busy :
      (w c : ℕ)
      → s.busy w ≡ some c
      → ((s.closure c).owner ≡ some w) × (is_running (s.closure c).status ≡ true)
  pub owner :
      (w c : ℕ)
      → is_live (s.closure c).status ≡ true
      → (s.closure c).owner ≡ some w
      → s.busy w ≡ some c
  pub current :
      (w c : ℕ)
      → s.current w ≡ some c
      → ((is_running (s.closure c).status || is_returning (s.closure c).status) ≡ true)
        × ((s.closure c).owner ≡ none)
        × (is_null (s.closure c).frame ≡ false)
        × (s.busy w ≡ none)
  pub one : (v w c : ℕ) → s.current v ≡ some c → s.current w ≡ some c → v ≡ w
  pub returns :
      (c : ℕ)
      → is_returning (s.closure c).status ≡ true
      → ((s.closure c).join_counter ≡ 0)
        × ((s.closure c).call_parent ≡ none)
        × (is_null (s.closure c).spawn_parent ≡ false)
        × ((s.closure c).owner ≡ none)

-- Closures are deeper than their parents, by some measure.
abbrev pub IsRanked : Scheduler → Type 0
IsRanked s = (rank : ℕ → ℕ) × ((x p : ℕ) → is_under p (s.closure x) ≡ true → rank p < rank x)

abbrev pub is_at : Scheduler → ℕ → ℕ → Bool
is_at s w c = points_to (s.busy w) c || points_to (s.current w) c

-- A closure that does not wait is at a worker.
abbrev pub IsFound : Scheduler → Type 0
IsFound s =
    (c : ℕ)
    → (is_running (s.closure c).status || is_returning (s.closure c).status) ≡ true
    → (w : ℕ) × (is_at s w c ≡ true)

pub record IsSound (n : ℕ) (s : Scheduler) : Type 0 where
  pub tree : IsTree s n
  pub held : IsHeld s
  pub ranked : IsRanked s
  pub found : IsFound s
