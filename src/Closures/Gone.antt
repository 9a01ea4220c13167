-- ===== src/Closures/Gone.antt =====
-- A closure that is destroyed, with the join counter of its parent one less.
use cheetah.Closures.Facts.{no_child}
use cheetah.Closures.Children.{
  is_under, children-le, children-under, children, children_pos, children-same,
}
use cheetah.Closures.Sound.{IsTree}
use cheetah.Base.{
  none, some, true, false, ℕ, Option, ◌<◌, ◌^◌, ◌≡◌, ◌≢◌, update, arith, ◌+◌, if◌then◌else◌,
  update_ne, sym,
}
use cheetah.Closures.{
  ready, post_invalid, Scheduler, Closure, Flags, is_live, sub_join, is_suspended, is_returning,
  frame_stolen, frame_unsynched, create,
}

-- The state then.
abbrev pub after :
    Scheduler
    → ℕ
    → ℕ
    → Closure
    → Closure
    → (ℕ → Flags)
    → (ℕ → Option ℕ)
    → (ℕ → Option ℕ)
    → Scheduler
after s t p dead p' flags busy current = record s {
  closure = update (update s.closure t dead) p p';
  flags = flags;
  busy = busy;
  current = current;
}

-- A parent's state is in use.
pub parent_lives :
    (n : ℕ) (s : Scheduler) (t p : ℕ)
    → IsTree s n
    → is_under p (s.closure t) ≡ true
    → is_live (s.closure p).status ≡ true
parent_lives n s t p v under = ground (arith, under, v.spawned t p, v.called t p)

-- The counter of the parent goes down by one, without a wrap.
pub sub_join-counted :
    (n : ℕ) (s : Scheduler) (t p : ℕ)
    → IsTree s n
    → n < 2 ^ 32
    → is_live (s.closure t).status ≡ true
    → is_under p (s.closure t) ≡ true
    → (sub_join (s.closure p)).join_counter + 1 ≡ (s.closure p).join_counter
unfolding sub_join
sub_join-counted n s t p v small lives under =
    let e = v.counted p (parent_lives n s t p v under) in
    let up = children-le n p s.closure in
    let pos = children_pos n p t s.closure (v.bounded t lives) under in omega (arith, e, up, pos)

-- Two children are counted.
pub two_children :
    (n : ℕ) (s : Scheduler) (t x p : ℕ)
    → IsTree s n
    → x ≢ t
    → is_live (s.closure t).status ≡ true
    → is_live (s.closure x).status ≡ true
    → is_under p (s.closure t) ≡ true
    → is_under p (s.closure x) ≡ true
    → 1 < (s.closure p).join_counter
unfolding create
two_children n s t x p v apart a b c d =
    let e = v.counted p (parent_lives n s t p v c) in
    let one = children-under n p t s.closure (create none) (v.bounded t a) in
    let other =
      children_pos n p x (update s.closure t (create none)) (v.bounded x b)
        (rw (update_ne s.closure t x (create none) (λ q. apart (sym q))) d) in
    ground (arith, e, one, other, c)

module _ (n : ℕ) (s : Scheduler) (t p : ℕ) (dead p' : Closure) (flags : ℕ → Flags)
    (busy current : ℕ → Option ℕ) (v : IsTree s n) (small : n < 2 ^ 32)
    (lives : is_live (s.closure t).status ≡ true) (over : (s.closure t).join_counter ≡ 0)
    (under : is_under p (s.closure t) ≡ true) (apart : t ≢ p)
    (gone : dead.status ≡ post_invalid) where
  module _ (lives' : is_live p'.status ≡ true) (settled' : p'.status ≢ ready)
      (same_frame : p'.frame ≡ (s.closure p).frame)
      (same_spawn : p'.spawn_parent ≡ (s.closure p).spawn_parent)
      (same_call : p'.call_parent ≡ (s.closure p).call_parent) where
    after-children :
        (q : ℕ)
        → children n (after s t p dead p' flags busy current).closure q
            + (if is_under q (s.closure t) then 1 else 0)
          ≡ children n s.closure q
    after-children q =
        let l = parent_lives n s t p v under in
        let a = children-under n q t s.closure dead (v.bounded t lives) in
        let b =
          children-same n q p (update s.closure t dead) p'
            (ground (arith, l, lives', same_spawn, same_call, apart)) in
        ground (arith, a, b, gone)

    module _ (counts : p'.join_counter ≡ (sub_join (s.closure p)).join_counter) where
      module _ (waits' : is_suspended p'.status ≡ true → 0 < p'.join_counter)
          (spawned' : (x : ℕ)
            → is_live (s.closure x).status ≡ true
            → x ≢ t
            → (s.closure x).spawn_parent ≡ some p
            → (is_returning p'.status ≡ false)
              × (frame_stolen (after s t p dead p' flags busy current) p'.frame ≡ true)
              × (frame_unsynched (after s t p dead p' flags busy current) p'.frame ≡ true))
          (called' : (x : ℕ)
            → is_live (s.closure x).status ≡ true
            → x ≢ t
            → (s.closure x).call_parent ≡ some p
            → is_suspended p'.status ≡ true)
          (flags' : (q : ℕ)
            → is_live (s.closure q).status ≡ true
            → q ≢ p
            → (frame_stolen (after s t p dead p' flags busy current) (s.closure q).frame
                ≡ frame_stolen s (s.closure q).frame)
              × (frame_unsynched (after s t p dead p' flags busy current) (s.closure q).frame
                  ≡ frame_unsynched s (s.closure q).frame)) where
        pub after-IsTree : IsTree (after s t p dead p' flags busy current) n
        after-IsTree =
            let l = parent_lives n s t p v under in
            record {
              bounded = λ x h. ground (arith, gone, l, v.bounded x);
              counted = λ x h.
                  let c = after-children x in
                  let d = sub_join-counted n s t p v small lives under in
                  ground
                    (arith, gone, l, c, d, counts, under, v.spawned t p, v.called t p, v.counted x);
              spawned = λ x q h k.
                  let e = spawned' x in
                  let z = no_child n t x s v lives over in
                  ground (
                    arith,
                    gone,
                    l,
                    same_spawn,
                    same_call,
                    e,
                    z,
                    flags' q,
                    v.spawned x q,
                    v.spawned p q,
                  );
              called = λ x q h k.
                  let e = called' x in
                  let z = no_child n t x s v lives over in
                  ground (arith, gone, l, same_spawn, same_call, e, z, v.called x q, v.called p q);
              callee = λ x y q h k i j.
                  ground
                    (arith, gone, l, same_call, v.callee x y q, v.callee p y q, v.callee x p q);
              frames = λ x y g h k i j.
                  ground
                    (arith, gone, l, same_frame, v.frames x y g, v.frames p y g, v.frames x p g);
              waits = λ x h. ground (arith, gone, waits', v.waits x);
              settled = λ x h. ground (arith, gone, settled', v.settled x);
              top = (let r = v.top in ground (arith, r, under, lives', same_spawn, same_call));
              rooted =
                  λ x h. ground (arith, gone, l, same_spawn, same_call, v.rooted x, v.rooted p);
            }
