-- ===== src/Closures/Moves.antt =====
-- What the parts of a step make of a state in which their assertions hold.

use cheetah.Closures.Passes.{check_lem}
use cheetah.Base.{refl, none, some, true, false, ℕ, update, ◌≡◌, arith, ◌∙◌, ap}
use cheetah.Closures.{
  ready, running, suspended, Scheduler, set, xtract, change_status, suspend, finish_promote,
  setup_for_execution, is_running, set_frame_flags, frame_stolen, is_null,
}

module _ (s : Scheduler) (cl pn : ℕ) where
  abbrev pub placed : Scheduler
  placed = record s {
    busy = update s.busy pn (some cl);
    closure = update s.closure cl (record (s.closure cl) { owner = some pn });
  }

  pub set_lem : (s.closure cl).owner ≡ none → s.busy pn ≡ none → set s cl pn ≡ some placed
  unfolding set
  set_lem a b = check_lem _ _ (ground (arith, a, b))

  abbrev pub unplaced : Scheduler
  unplaced = record s {
    busy = update s.busy pn none;
    closure = update s.closure cl (record (s.closure cl) { owner = none });
  }

  pub xtract_lem : s.busy pn ≡ some cl → xtract s pn ≡ unplaced
  unfolding xtract
  xtract_lem a = rw (a, xtract) refl

  abbrev pub put_off : Scheduler
  put_off = record (change_status s cl suspended) {
    busy = update s.busy pn none;
    closure =
        update (change_status s cl suspended).closure cl
          (record ((change_status s cl suspended).closure cl) { owner = none });
  }

  pub suspend_lem :
      is_running (s.closure cl).status ≡ true → s.busy pn ≡ some cl → suspend s cl pn ≡ some put_off
  unfolding suspend xtract change_status
  suspend_lem a b =
      check_lem _ (some (xtract (change_status s cl suspended) pn)) (ground (arith, a, b))
      ∙ ap some (rw (b, xtract) refl)

  abbrev pub promoted : Scheduler
  promoted =
      change_status (set_frame_flags s (s.closure cl).frame (λ fl. record fl { unsynched = true }))
        cl ready

  pub finish_promote_lem :
      frame_stolen s (s.closure cl).frame ≡ true → finish_promote s cl ≡ some promoted
  unfolding finish_promote
  finish_promote_lem a = check_lem _ _ a

  abbrev pub executed : Scheduler
  executed = change_status (record s { current = update s.current pn (some cl) }) cl running

  pub setup_for_execution_lem :
      is_null (s.closure cl).frame ≡ false → setup_for_execution s pn cl ≡ some executed
  unfolding setup_for_execution
  setup_for_execution_lem a = check_lem _ _ (rw a refl)
