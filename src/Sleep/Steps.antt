-- ===== src/Sleep/Steps.antt =====
-- Workers that become sentinels, leave, and come back, one critical section or atomic addition after
-- the other, with the counts and the index of all of them.
use cheetah.Base.{
  refl, zero, suc, ◌<◌, sum_of, update, ◌≡◌, ◌^◌, ◌+◌, ◌-◌, ◌*◌, ◌≤◌, some, arith, suc,
  sum_of-update, ◌∙◌, sym, subst, ◌%◌, sum_of-zero, some_eq,
}
use cheetah.Sleep.{
  GlobalState, pack, minus_u32, fetch_add, add_to_disengaged, add_to_sentinels, init_workers,
  swap_if_before, swap_if_after, disengage_worker, reengage_worker, try_to_leave, come_back,
  get_disengaged, get_sentinel, ℕ, swap_worker_with_target,
}
use cheetah.Sleep.Counts.{
  Status, active, sentinel, disengaged, is_disengaged, is_sentinel, IsIndexed, leave-IsIndexed,
  return-IsIndexed,
}

-- The workers, with what each one counts as.
pub record Crew : Type 0 where
  pub global : GlobalState
  pub status : ℕ → Status

abbrev pub moved : Crew → GlobalState → ℕ → Status → Crew
moved s g w st = record { global = g; status = update s.status w st }

pub data Step : Crew → Crew → Type 0 where
  grew_idle :
      (s : Crew) (w : ℕ)
      → w < s.global.nworkers
      → s.status w ≡ active
      → Step s (moved s (add_to_sentinels s.global 1) w sentinel)
  found_work :
      (s : Crew) (w : ℕ)
      → w < s.global.nworkers
      → s.status w ≡ sentinel
      → Step s (moved s (add_to_sentinels s.global (2 ^ 64 - 1)) w active)
  left :
      (s : Crew) (w : ℕ) (g : GlobalState)
      → w < s.global.nworkers
      → s.status w ≡ sentinel
      → try_to_leave s.global w s.global.disengaged_sentinel ≡ some g
      → Step s (moved s g w disengaged)
  came_back :
      (s : Crew) (w : ℕ)
      → w < s.global.nworkers
      → s.status w ≡ disengaged
      → Step s (moved s (come_back s.global w) w sentinel)
  waited :
      (s : Crew) (w : ℕ)
      → w < s.global.nworkers
      → s.status w ≡ active
      → Step s (moved s (disengage_worker s.global w) w disengaged)
  woke :
      (s : Crew) (w : ℕ)
      → w < s.global.nworkers
      → s.status w ≡ disengaged
      → Step s (moved s (reengage_worker s.global w) w active)

pub data Reaches (s : Crew) : Crew → Type 0 where
  here : Reaches s s
  next : (t u : Crew) → Reaches s t → Step t u → Reaches s u

unfoldable pub start : ℕ → Crew
start n = record { global = init_workers n; status = λ w. active }

abbrev pub one_disengaged : ℕ → Status → ℕ
one_disengaged i st = is_disengaged st

abbrev pub one_sentinel : ℕ → Status → ℕ
one_sentinel i st = is_sentinel st

abbrev pub count_disengaged : Crew → ℕ
count_disengaged s = sum_of one_disengaged s.global.nworkers s.status

abbrev pub count_sentinels : Crew → ℕ
count_sentinels s = sum_of one_sentinel s.global.nworkers s.status

-- The packed counts are those of the workers, of which there are less than 2 ^ 31, and the index has
-- the disengaged ones last.
pub record IsCounted (s : Crew) : Type 0 where
  pub few : s.global.nworkers < 2 ^ 31
  pub indexed : IsIndexed s.global (count_disengaged s) s.status
  pub counts : s.global.disengaged_sentinel ≡ count_disengaged s * 2 ^ 32 + count_sentinels s

pub statuses-le : (n : ℕ) (f : ℕ → Status) → sum_of one_disengaged n f + sum_of one_sentinel n f ≤ n
unfolding sum_of is_disengaged is_sentinel
statuses-le zero f = omega arith
statuses-le (suc n) f = let rest = statuses-le n f in let st = f n in ground arith

recounted :
    (g : GlobalState) (d k : ℕ) (status : ℕ → Status)
    → IsIndexed g k status
    → IsIndexed (record g { disengaged_sentinel = d }) k status
recounted g d k status v = record {
  inverse = record {
    index_bound = v.inverse.index_bound;
    worker_bound = v.inverse.worker_bound;
    worker = v.inverse.worker;
    index = v.inverse.index;
  };
  last = v.last;
  first = v.first;
}

-- A change between the two statuses that are engaged leaves the index alone.
restated :
    (g : GlobalState) (k w : ℕ) (status : ℕ → Status) (st : Status)
    → is_disengaged st ≡ is_disengaged (status w)
    → IsIndexed g k status
    → IsIndexed g k (update status w st)
restated g k w status st e v = record {
  inverse = v.inverse;
  last = λ i a b. ground (arith, v.last i a, v.first i a);
  first = λ i a b. ground (arith, v.last i a, v.first i a);
}

-- What the change of a worker does to the counts.
record IsChanged (s : Crew) (w : ℕ) (old st : Status) : Type 0 where
  gone :
      sum_of one_disengaged s.global.nworkers (update s.status w st) + is_disengaged old
      ≡ count_disengaged s + is_disengaged st
  watching :
      sum_of one_sentinel s.global.nworkers (update s.status w st) + is_sentinel old
      ≡ count_sentinels s + is_sentinel st
  most_after :
      sum_of one_disengaged s.global.nworkers (update s.status w st)
        + sum_of one_sentinel s.global.nworkers (update s.status w st)
      ≤ s.global.nworkers
  most : count_disengaged s + count_sentinels s ≤ s.global.nworkers

changed :
    (s : Crew) (w : ℕ) (old st : Status)
    → w < s.global.nworkers
    → s.status w ≡ old
    → IsChanged s w old st
changed s w old st h e = record {
  gone = rw (← e) (sum_of-update one_disengaged s.global.nworkers w s.status st h);
  watching = rw (← e) (sum_of-update one_sentinel s.global.nworkers w s.status st h);
  most_after = statuses-le s.global.nworkers (update s.status w st);
  most = statuses-le s.global.nworkers s.status;
}

-- A change between the two statuses of engaged workers.
engaged-IsCounted :
    (s : Crew) (w d : ℕ) (old st : Status)
    → w < s.global.nworkers
    → s.status w ≡ old
    → is_disengaged old ≡ 0
    → is_disengaged st ≡ 0
    → (IsChanged s w old st
        → d
          ≡ count_disengaged s * 2 ^ 32
            + sum_of one_sentinel s.global.nworkers (update s.status w st))
    → IsCounted s
    → IsCounted (moved s (record s.global { disengaged_sentinel = d }) w st)
engaged-IsCounted s w d old st h e a b f v =
    let c = changed s w old st h e in
    let now : sum_of one_disengaged s.global.nworkers (update s.status w st) ≡ count_disengaged s =
      omega (arith, c.gone, a, b) in
    let same : is_disengaged st ≡ is_disengaged (s.status w) = rw e (b ∙ sym a) in
    record {
      few = v.few;
      indexed = rw now (
          recounted s.global d (count_disengaged s) (update s.status w st)
            (restated s.global (count_disengaged s) w s.status st same v.indexed));
      counts = rw now (f c);
    }

settled :
    (g : GlobalState) (f : ℕ → Status) (n k d : ℕ)
    → (g.nworkers ≡ n) × (g.disengaged_sentinel ≡ d)
    → n < 2 ^ 31
    → sum_of one_disengaged n f ≡ k
    → d ≡ k * 2 ^ 32 + sum_of one_sentinel n f
    → IsIndexed g k f
    → IsCounted (record { global = g; status = f })
settled g f n k d (same, word) small now total v =
    let counted : sum_of one_disengaged g.nworkers f ≡ k = rw same now in
    record {
      few = rw same small;
      indexed = subst (λ m. IsIndexed g m f) (sym counted) v;
      counts = rw (same, now, word) total;
    }

swap_if_before-same :
    (g : GlobalState) (w target : ℕ)
    → ((swap_if_before g w target).nworkers ≡ g.nworkers)
      × ((swap_if_before g w target).disengaged_sentinel ≡ g.disengaged_sentinel)
unfolding swap_if_before swap_worker_with_target
swap_if_before-same g w target = ground arith

swap_if_after-same :
    (g : GlobalState) (w target : ℕ)
    → ((swap_if_after g w target).nworkers ≡ g.nworkers)
      × ((swap_if_after g w target).disengaged_sentinel ≡ g.disengaged_sentinel)
unfolding swap_if_after swap_worker_with_target
swap_if_after-same g w target = ground arith

-- A worker leaves.
left-IsCounted :
    (s : Crew) (w d target : ℕ) (old : Status)
    → w < s.global.nworkers
    → s.status w ≡ old
    → is_disengaged old ≡ 0
    → (IsChanged s w old disengaged
        → (target ≡ s.global.nworkers - (count_disengaged s + 1))
          × (d
              ≡ (count_disengaged s + 1) * 2 ^ 32
                + sum_of one_sentinel s.global.nworkers (update s.status w disengaged)))
    → IsCounted s
    → IsCounted (
        moved s
          (swap_if_before (record s.global { disengaged_sentinel = d }) w target)
          w
          disengaged)
unfolding is_disengaged
left-IsCounted s w d target old h e a f v =
    let c = changed s w old disengaged h e in
    let (at, total) = f c in
    let g = record s.global { disengaged_sentinel = d } in
    settled (swap_if_before g w target) (update s.status w disengaged) s.global.nworkers
      (count_disengaged s + 1) d (swap_if_before-same g w target) v.few (omega (arith, c.gone, a))
      total
      (rw at (
        leave-IsIndexed g (count_disengaged s) w s.status disengaged h
          (recounted s.global d (count_disengaged s) s.status v.indexed) (rw e a) refl))

-- A worker comes back.
back-IsCounted :
    (s : Crew) (w d target : ℕ) (st : Status)
    → w < s.global.nworkers
    → s.status w ≡ disengaged
    → is_disengaged st ≡ 0
    → (IsChanged s w disengaged st
        → (target ≡ s.global.nworkers - count_disengaged s)
          × (d
              ≡ (count_disengaged s - 1) * 2 ^ 32
                + sum_of one_sentinel s.global.nworkers (update s.status w st)))
    → IsCounted s
    → IsCounted
        (moved s (swap_if_after (record s.global { disengaged_sentinel = d }) w target) w st)
unfolding is_disengaged
back-IsCounted s w d target st h e a f v =
    let c = changed s w disengaged st h e in
    let (at, total) = f c in
    let g = record s.global { disengaged_sentinel = d } in
    settled (swap_if_after g w target) (update s.status w st) s.global.nworkers
      (count_disengaged s - 1) d (swap_if_after-same g w target) v.few (omega (arith, c.gone, a))
      total
      (rw at (
        return-IsIndexed g (count_disengaged s) w s.status st h
          (recounted s.global d (count_disengaged s) s.status v.indexed) (rw e refl) a
          (omega (arith, c.most))))

try_to_leave_now :
    (g : GlobalState) (w : ℕ)
    → let d = g.disengaged_sentinel in
      let d' = pack ((get_disengaged d + 1) % 2 ^ 32) (minus_u32 (get_sentinel d) 1) in
      try_to_leave g w d
      ≡ some (
          swap_if_before
            (record g { disengaged_sentinel = d' })
            w
            (minus_u32 g.nworkers (get_disengaged d')))
unfolding try_to_leave
try_to_leave_now g w = ground arith

pub Step-IsCounted : {s t : Crew} → Step s t → IsCounted s → IsCounted t
unfolding add_to_sentinels add_to_disengaged fetch_add is_disengaged is_sentinel try_to_leave
    come_back disengage_worker reengage_worker pack minus_u32
Step-IsCounted (grew_idle s w h e) v =
    engaged-IsCounted s w _ active sentinel h e refl refl
      (λ c. omega (arith, c.watching, c.most_after, c.most, v.counts, v.few)) v
Step-IsCounted (found_work s w h e) v =
    engaged-IsCounted s w _ sentinel active h e refl refl
      (λ c. omega (arith, c.watching, c.most_after, c.most, v.counts, v.few)) v
Step-IsCounted (left s w g h e run) v =
    subst (λ g'. IsCounted (moved s g' w disengaged))
      (some_eq (sym (try_to_leave_now s.global w) ∙ run))
      (left-IsCounted s w _ _ sentinel h e refl
        (λ c. (
          omega (arith, c.watching, c.gone, c.most_after, c.most, v.counts, v.few),
          omega (arith, c.watching, c.gone, c.most_after, c.most, v.counts, v.few),
        ))
        v)
Step-IsCounted (came_back s w h e) v =
    back-IsCounted s w _ _ sentinel h e refl
      (λ c. (
        omega (arith, c.watching, c.gone, c.most_after, c.most, v.counts, v.few),
        omega (arith, c.watching, c.gone, c.most_after, c.most, v.counts, v.few),
      ))
      v
Step-IsCounted (waited s w h e) v =
    left-IsCounted s w _ _ active h e refl
      (λ c. (
        omega (arith, c.watching, c.gone, c.most_after, c.most, v.counts, v.few),
        omega (arith, c.watching, c.gone, c.most_after, c.most, v.counts, v.few),
      ))
      v
Step-IsCounted (woke s w h e) v =
    back-IsCounted s w _ _ active h e refl
      (λ c. (
        omega (arith, c.watching, c.gone, c.most_after, c.most, v.counts, v.few),
        omega (arith, c.watching, c.gone, c.most_after, c.most, v.counts, v.few),
      ))
      v

pub start-IsCounted : (n : ℕ) → n < 2 ^ 31 → IsCounted (start n)
unfolding start init_workers is_disengaged is_sentinel
start-IsCounted n h =
    let none_gone : sum_of one_disengaged n (λ w. active) ≡ 0 =
      sum_of-zero one_disengaged n (λ w. active) (λ i q. refl) in
    let none_watching : sum_of one_sentinel n (λ w. active) ≡ 0 =
      sum_of-zero one_sentinel n (λ w. active) (λ i q. refl) in
    record {
      few = h;
      indexed = record {
        inverse = record {
          index_bound = λ w a. a;
          worker_bound = λ i a. a;
          worker = λ w a. refl;
          index = λ i a. refl;
        };
        last = λ w a b. absurd (omega (arith, b));
        first = λ w a b. omega (arith, none_gone);
      };
      counts = omega (arith, none_gone, none_watching);
    }

pub Reaches-IsCounted : {s t : Crew} → Reaches s t → IsCounted s → IsCounted t
Reaches-IsCounted here v = v
Reaches-IsCounted (next t u r step) v = Step-IsCounted step (Reaches-IsCounted r v)
