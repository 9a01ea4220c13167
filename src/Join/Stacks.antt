-- ===== src/Join/Stacks.antt =====
-- A closure always resumes on the fiber of its frame, and no fiber is lost.
use cheetah.Join.Links.{is_child}
use cheetah.Join.{is_some, is_nil}
use cheetah.Join.Fibers.{Fibers, steal, setup_for_sync, sync, take, leave, wake, return}
use cheetah.Base.{
  refl, zero, suc, none, some, true, false, inl, inr, [], ◌∷◌, Option, ℕ, if◌then◌else◌, List, ◌+◌,
  ◌≤◌, ◌≡◌, ◌==◌, ◌++◌, arith, Passes, Option-cases, passed, Bool-cases, ◌≢◌, if_lem, Passes-mono,
  else_lem, subst, not, ◌&&◌, >>=-Passes, ◌||◌,
}

abbrev pub one_at : Option ℕ → ℕ → ℕ
one_at none f = 0
one_at (some g) f = if g == f then 1 else 0

abbrev pub count : ℕ → List ℕ → ℕ
count f [] = 0
count f (g ∷ gs) = (if g == f then 1 else 0) + count f gs

-- How often the closure and its children hold a fiber.
abbrev pub held : Fibers → ℕ → ℕ
held s f = one_at s.fiber f + one_at s.fiber_child f + count f s.children

abbrev pub leftmost : Option ℕ → List ℕ → Option ℕ
leftmost (some f) fs = some f
leftmost none [] = none
leftmost none (f ∷ fs) = some f

-- `home` is the fiber of the closure's frame.
pub record IsStacked (home : ℕ) (s : Fibers) : Type 0 where
  pub once : (f : ℕ) → held s f ≤ 1
  pub synced :
      s.unsynched ≡ false → (s.fiber ≡ some home) × (s.fiber_child ≡ none) × (s.children ≡ [])
  pub unsynced : s.unsynched ≡ true → leftmost s.fiber_child s.children ≡ some home
  pub asleep : s.suspended ≡ true → (s.fiber ≡ none) × (s.unsynched ≡ true)
  pub awake : s.suspended ≡ false → is_some s.fiber ≡ true

count-append : (f : ℕ) (xs ys : List ℕ) → count f (xs ++ ys) ≡ count f xs + count f ys
count-append f [] ys = omega arith
count-append f (x ∷ xs) ys = omega (arith, count-append f xs ys)

leftmost-append :
    (c : Option ℕ) (xs : List ℕ) (f : ℕ)
    → leftmost c (xs ++ (f ∷ [])) ≡ (if is_some (leftmost c xs) then leftmost c xs else some f)
leftmost-append none [] f = refl
leftmost-append none (x ∷ xs) f = refl
leftmost-append (some c) [] f = refl
leftmost-append (some c) (x ∷ xs) f = refl

-- What the fibers that a step leaves have to do with those before.
pub record IsKept (home : ℕ) (s s' : Fibers) (added : ℕ → ℕ) : Type 0 where
  pub stacked : IsStacked home s'
  pub kept : (f : ℕ) → held s' f + count f s'.pool ≡ held s f + count f s.pool + added f

pub steal-IsKept :
    (home new : ℕ) (s : Fibers)
    → IsStacked home s
    → s.suspended ≡ false
    → held s new ≡ 0
    → Passes (λ s'. IsKept home s s' (λ f. if new == f then 1 else 0)) (steal s new)
unfolding steal
steal-IsKept home new s v a b = elim (Option-cases s.fiber) [
  | inl e ↦ absurd (let q = v.awake a in ground (arith, e, q))
  | inr (f, e) ↦
      let c = λ (x : ℕ). count-append x s.children (f ∷ []) in
      let l = leftmost-append s.fiber_child s.children f in
      rw (e, steal)
        (passed _ (record {
          stacked = record {
            once = λ x. let q = c x in ground (arith, q, e, b, v.once x);
            synced = λ h. cc;
            unsynced = λ h.
                (let z = v.synced in
                  let y = v.unsynced in
                  elim (Bool-cases s.unsynched) [
                    | inl t ↦ ground (arith, l, y, t)
                    | inr t ↦ ground (arith, l, e, z, t)
                  ]);
            asleep = λ h. ground (arith, a, h);
            awake = λ h. refl;
          };
          kept = λ x. let q = c x in ground (arith, q, e);
        }))
]

nothing : ℕ → ℕ
nothing f = 0

-- A closure without children that syncs is on its frame's fiber again.
setup_for_sync-IsKept :
    (home : ℕ) (s : Fibers)
    → IsStacked home s
    → s.unsynched ≡ true
    → s.children ≡ []
    → Passes (λ s'. IsKept home s s' (λ f. 0) × (s'.fiber ≡ some home)) (setup_for_sync s)
unfolding setup_for_sync
setup_for_sync-IsKept home s v a b =
    let l = v.unsynced a in
    let e : s.fiber_child ≡ some home = ground (arith, b, l) in
    let once = v.once home in
    let apart : is_child s.fiber home ≡ false = ground (arith, e, once) in
    rw (e, setup_for_sync)
      (rw apart (
        passed _ (
          record {
            stacked = record {
              once = λ x. ground (arith, e, v.once x);
              synced = λ h. (refl, refl, b);
              unsynced = λ h. cc;
              asleep = λ h. cc;
              awake = λ h. refl;
            };
            kept = λ x. ground (arith, e);
          },
          refl,
        )))

pub sync-IsKept :
    (home : ℕ) (s : Fibers)
    → IsStacked home s
    → s.suspended ≡ false
    → s.unsynched ≡ true
    → Passes (λ s'. IsKept home s s' (λ f. 0)) (sync s)
unfolding sync
sync-IsKept home s v a b = elim (Bool-cases (is_nil s.children)) [
  | inl e ↦
      rw (if_lem _ _ _ e)
        (Passes-mono (setup_for_sync-IsKept home s v b (ground (arith, e))) (λ s' h. h.0))
  | inr e ↦ rw (else_lem _ _ _ e) (
      passed _ (record {
        stacked = record {
          once = λ x. ground (arith, v.once x);
          synced = λ h. absurd (ground (arith, b, h));
          unsynced = λ h. v.unsynced b;
          asleep = λ h. (refl, b);
          awake = λ h. cc;
        };
        kept = λ x. ground arith;
      }))
]

-- The fibers of the children without one of them.
take-count :
    (i : ℕ) (fs : List ℕ) (f : ℕ) (rest : List ℕ)
    → take i fs ≡ some (f, rest)
    → ((x : ℕ) → count x fs ≡ count x rest + (if f == x then 1 else 0))
      × (i ≡ 0 → leftmost none fs ≡ some f)
      × (i ≢ 0 → leftmost none rest ≡ leftmost none fs)
unfolding take
take-count i [] f rest e = absurd (cc)
take-count zero (g ∷ fs) f rest e =
    (λ x. ground (arith, e), λ z. ground (arith, e), λ z. absurd (z refl))
take-count (suc i) (g ∷ fs) f rest e = elim (Option-cases (take i fs)) [
  | inl z ↦ absurd (ground (arith, e, z))
  | inr ((f', rest'), z) ↦
      let q = take-count i fs f' rest' z in
      (
        λ x. let q' = q.0 x in ground (arith, e, z, q'),
        λ w. absurd (omega arith),
        λ w. ground (arith, e, z),
      )
]

module _ (home i f : ℕ) (fs : List ℕ) (s : Fibers) (v : IsStacked home s)
    (e : take i s.children ≡ some (f, fs)) where
  -- A closure with children has not synced.
  open_sync : s.unsynched ≡ true
  unfolding take
  open_sync = elim (Bool-cases s.unsynched) [
    | inl t ↦ t
    | inr t ↦
        let q = (v.synced t).2 in
        let e' : take i [] ≡ some (f, fs) = subst (λ (c : List ℕ). take i c ≡ some (f, fs)) q e in
        absurd (cc)
  ]

  leave-IsKept : Passes (λ s'. IsKept home s s' (λ x. 0)) (leave s i f fs)
  unfolding leave
  leave-IsKept =
      let c = take-count i s.children f fs e in
      let t = open_sync in
      let l = v.unsynced t in
      let first = c.1 in
      let other = c.2 in
      elim (Bool-cases (not (i == 0) || is_some s.fiber_child)) [
        | inl g ↦
            let apart : is_child s.fiber_child f ≡ false =
              (let q = c.0 f in let o = v.once f in ground (arith, q, o)) in
            rw (if_lem _ _ _ g) (
              rw apart (
                passed _ (record {
                  stacked = record {
                    once = λ x. let q = c.0 x in ground (arith, q, v.once x);
                    synced = λ h. absurd (ground (arith, t, h));
                    unsynced = λ h. ground (arith, l, g, other);
                    asleep = v.asleep;
                    awake = v.awake;
                  };
                  kept = λ x. let q = c.0 x in ground (arith, q);
                })))
        | inr g ↦ rw (else_lem _ _ _ g) (
            passed _ (record {
              stacked = record {
                once = λ x. let q = c.0 x in ground (arith, q, g, v.once x);
                synced = λ h. absurd (ground (arith, t, h));
                unsynced = λ h. ground (arith, l, g, first);
                asleep = v.asleep;
                awake = v.awake;
              };
              kept = λ x. let q = c.0 x in ground (arith, q, g);
            }))
      ]

-- What two steps keep.
pub IsKept-trans :
    (home : ℕ) (s t u : Fibers) (a b : ℕ → ℕ)
    → IsKept home s t a
    → IsKept home t u b
    → IsKept home s u (λ x. a x + b x)
IsKept-trans home s t u a b p q = record {
  stacked = q.stacked;
  kept = λ x. omega (arith, p.kept x, q.kept x);
}

wake-IsKept :
    (home : ℕ) (s : Fibers) → IsStacked home s → Passes (λ s'. IsKept home s s' (λ x. 0)) (wake s)
unfolding wake
wake-IsKept home s v = elim (Bool-cases (is_nil s.children && s.suspended)) [
  | inl e ↦ rw (if_lem _ _ _ e) (
      Passes-mono
        (setup_for_sync-IsKept home s v (let q = v.asleep in ground (arith, e, q))
          (ground (arith, e)))
        (λ s' h. h.0))
  | inr e ↦ rw (else_lem _ _ _ e) (passed _ (record { stacked = v; kept = λ x. omega arith }))
]

pub return-IsKept :
    (home i f : ℕ) (fs : List ℕ) (s : Fibers)
    → IsStacked home s
    → take i s.children ≡ some (f, fs)
    → Passes (λ s'. IsKept home s s' (λ x. 0)) (return s i)
unfolding return
return-IsKept home i f fs s v e =
    rw (e, return)
      (>>=-Passes (leave-IsKept home i f fs s v e) (λ t p.
        Passes-mono (wake-IsKept home t p.stacked)
          (λ u q. IsKept-trans home s t u (λ x. 0) (λ x. 0) p q)))
