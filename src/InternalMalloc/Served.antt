-- ===== src/InternalMalloc/Served.antt =====
-- The sums that `workers_used_and_free` of runtime/internal-malloc.cpp asserts not to be negative:
-- they are the sizes of the blocks in use.
use cheetah.Base.{
  ℕ, ◌+◌, ◌-◌, ◌≡◌, refl, arith, List, [], ◌∷◌, ◌++◌, ap, sym, ◌∙◌, total_of-update, total_of-zero,
  total_of, false,
}
use cheetah.Base.Int.{int_laws, pos_part, neg_part, pos, ◌+ℤ◌}
use cheetah.InternalMalloc.{ImDesc, ImGlobal, System, bucket_sizes, size_to_bucket, init_im_buckets}
use cheetah.InternalMalloc.Check.{
  desc_used, wasted_bytes, workers_used, workers_wasted, is_negative,
}
use cheetah.InternalMalloc.Steps.{Piece, Arena, start, Step, allocated, freed, Reaches, here, next}
use cheetah.InternalMalloc.Uses.{cilk_internal_malloc-uses, cilk_internal_free-uses}
use cheetah.InternalMalloc.Workers.{Memory}

abbrev held_size : List Piece → ℕ
held_size [] = 0
held_size (b ∷ bs) = b.size + held_size bs

abbrev piece_waste : Piece → ℕ
piece_waste b = bucket_sizes (size_to_bucket b.size) - b.size

abbrev held_waste : List Piece → ℕ
held_waste [] = 0
held_waste (b ∷ bs) = piece_waste b + held_waste bs

held_size-append : (bs cs : List Piece) → held_size (bs ++ cs) ≡ held_size bs + held_size cs
held_size-append [] cs = omega arith
held_size-append (b ∷ bs) cs = omega (arith, held_size-append bs cs)

held_waste-append : (bs cs : List Piece) → held_waste (bs ++ cs) ≡ held_waste bs + held_waste cs
held_waste-append [] cs = omega arith
held_waste-append (b ∷ bs) cs = omega (arith, held_waste-append bs cs)

module _ (n : ℕ) where
  -- The workers use what the blocks in use were asked for, and waste the rest of these blocks.
  pub record IsServed (s : Arena) : Type 0 where
    pub used :
        pos_part (workers_used n s.descs) ≡ neg_part (workers_used n s.descs) + held_size s.held
    pub wasted :
        pos_part (workers_wasted n s.descs)
        ≡ neg_part (workers_wasted n s.descs) + held_waste s.held

  module _ (system : System) where
    Step-IsServed : {s r : Arena} → Step system n s r → IsServed s → IsServed r
    Step-IsServed (allocated s w size tag p g l h fits small e) b =
        let (used, wasted) = cilk_internal_malloc-uses system s.global (s.descs w) size tag fits in
        let same_l = ap (λ (r : Memory × ImGlobal × ImDesc). r.2) e in
        let used' : l.used ≡ (s.descs w).used +ℤ pos size =
          sym (ap (λ (l' : ImDesc). l'.used) same_l) ∙ used in
        let wasted' : pos_part (wasted_bytes l) + neg_part (wasted_bytes (s.descs w))
            ≡ neg_part (wasted_bytes l)
              + pos_part (wasted_bytes (s.descs w))
              + (bucket_sizes (size_to_bucket size) - size) =
          rw same_l at wasted in
        let sum = total_of-update desc_used n w s.descs l h in
        record {
          used = omega (int_laws, b.used, sum, ap pos_part used', ap neg_part used');
          wasted = omega (arith, b.wasted, wasted', total_of-update wasted_bytes n w s.descs l h);
        }
    Step-IsServed (freed s w tag fuel before after b0 g l h fits at enough e) b =
        let (used, wasted) =
          cilk_internal_free-uses fuel s.global g (s.descs w) l b0.at b0.size tag fits e in
        let sum = total_of-update desc_used n w s.descs l h in
        record {
          used = omega (
            int_laws,
            b.used,
            sum,
            ap pos_part used,
            ap neg_part used,
            ap held_size at,
            held_size-append before after,
            held_size-append before (b0 ∷ after),
          );
          wasted = omega (
            arith,
            b.wasted,
            wasted,
            total_of-update wasted_bytes n w s.descs l h,
            ap held_waste at,
            held_waste-append before after,
            held_waste-append before (b0 ∷ after),
          );
        }

    pub Reaches-IsServed : {s r : Arena} → Reaches system n s r → IsServed s → IsServed r
    Reaches-IsServed (here s) b = b
    Reaches-IsServed (next s t r h k) b = Step-IsServed k (Reaches-IsServed h b)

  init-wasted : wasted_bytes init_im_buckets ≡ pos 0
  unfolding init_im_buckets total_of ◌+ℤ◌
  init-wasted = refl

  init-used : init_im_buckets.used ≡ pos 0
  unfolding init_im_buckets
  init-used = refl

  pub start-IsServed : IsServed start
  unfolding start
  start-IsServed =
      let used = total_of-zero desc_used n start.descs (λ w. init-used) in
      let wasted = total_of-zero wasted_bytes n start.descs (λ w. init-wasted) in
      record {
        used = omega (arith, ap pos_part used, ap neg_part used);
        wasted = omega (arith, ap pos_part wasted, ap neg_part wasted);
      }

  pub not_negative :
      {s : Arena}
      → IsServed s
      → (is_negative (workers_used n s.descs) ≡ false)
        × (is_negative (workers_wasted n s.descs) ≡ false)
  not_negative b = (ground (arith, b.used), ground (arith, b.wasted))
