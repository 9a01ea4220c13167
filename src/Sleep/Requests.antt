-- ===== src/Sleep/Requests.antt =====
-- The requests for thieves, `disengaged_thieves`.
use cheetah.Base.{
  refl, zero, suc, some, none, ℕ, Option, if◌then◌else◌, ◌<◌, ◌>>=◌, leb, ◌^◌, ◌≡◌, ◌+◌, ◌/◌, arith,
  ◌≤◌, ◌-◌, Bool-cases, ◌==◌, inl, inr, ◌∙◌, ap,
}
use cheetah.Sleep.{GlobalState, minus_u32, request_more_thieves, thief_disengage}

-- The requests that `n` thieves take, one after the other.
unfoldable pub take_requests : ℕ → GlobalState → Option GlobalState
take_requests zero g = some g
take_requests (suc n) g = thief_disengage g >>= (λ r. take_requests n r.1)

unfoldable pub maximum : ℕ → ℕ → ℕ
maximum a b = if leb a b then b else a

unfoldable pub minimum : ℕ → ℕ → ℕ
minimum a b = if leb a b then a else b

-- With fewer than 2 ^ 31 workers, as few requests and a positive count below 2 ^ 31, a request raises
-- the number of requests by the count, but not beyond half of the workers, and never lowers it; the
-- counts and the index stay.
pub request_more_thieves_lem :
    (g : GlobalState) (count : ℕ)
    → g.nworkers < 2 ^ 31
    → g.disengaged_thieves < 2 ^ 31
    → 0 < count
    → count < 2 ^ 31
    → request_more_thieves g count ≡ record g {
      disengaged_thieves =
          maximum g.disengaged_thieves (minimum (g.disengaged_thieves + count) (g.nworkers / 2));
    }
unfolding request_more_thieves minus_u32 maximum minimum
request_more_thieves_lem g count a b c d = ground arith

take_requests_lem :
    (n : ℕ) (g : GlobalState)
    → (n ≤ g.disengaged_thieves
        → take_requests n g ≡ some (record g { disengaged_thieves = g.disengaged_thieves - n }))
      × (g.disengaged_thieves < n → take_requests n g ≡ none)
unfolding take_requests thief_disengage
take_requests_lem zero g = (λ h. ground arith, λ h. absurd (omega arith))
take_requests_lem (suc n) g =
    let g' = record g { disengaged_thieves = g.disengaged_thieves - 1 } in
    let rest = take_requests_lem n g' in
    elim (Bool-cases (g.disengaged_thieves == 0)) [
      | inl e ↦ (λ h. absurd (ground arith), λ h. rw e refl)
      | inr e ↦ (
        λ h. rw e (rest.0 (ground arith) ∙ ap some (ground arith)),
        λ h. rw e (rest.1 (ground arith)),
      )
    ]

-- With no request left, fewer than 2 ^ 31 workers and a positive count below 2 ^ 31, after a request
-- exactly as many waiting thieves as the count says, but at most half of the workers, get through
-- thief_disengage, and leave none behind.
pub take_requests-request_more_thieves :
    (g : GlobalState) (count : ℕ)
    → g.nworkers < 2 ^ 31
    → g.disengaged_thieves ≡ 0
    → 0 < count
    → count < 2 ^ 31
    → let woken = minimum count (g.nworkers / 2) in
      (take_requests woken (request_more_thieves g count) ≡ some g)
      × ((n : ℕ) → woken < n → take_requests n (request_more_thieves g count) ≡ none)
unfolding minimum maximum
take_requests-request_more_thieves g count a b c d =
    let woken = minimum count (g.nworkers / 2) in
    let made = request_more_thieves_lem g count a (omega arith) c d in
    let g' = request_more_thieves g count in
    let taken : GlobalState → Option GlobalState =
      λ x. some (record x { disengaged_thieves = x.disengaged_thieves - woken }) in
    let posted : g'.disengaged_thieves ≡ woken =
      ground (arith, ap (λ x. x.disengaged_thieves) made) in
    (
      (take_requests_lem woken g').0 (omega (arith, posted))
          ∙ ap taken made
          ∙ ap some (ground arith),
      λ n h. (take_requests_lem n g').1 (omega (arith, posted)),
    )
