-- ===== src/InternalMalloc/Uses.antt =====
-- What workers use and waste, by the requests of runtime/internal-malloc.cpp that have been served:
-- moving blocks changes neither.
use cheetah.Base.{
  ℕ, zero, suc, ◌+◌, ◌-◌, ◌/◌, ◌≤◌, ◌≡◌, refl, arith, update, update_self, update_ne, ℕ_discrete,
  List, [], ◌∷◌, Option, none, some, some_eq, ltb, leb, Bool-cases, inl, inr, ap, ◌∙◌,
  total_of-update, total_of_congr, false,
}
use cheetah.Base.Int.{int_laws, pos_part, neg_part, pos, ◌+ℤ◌, ◌-ℤ◌}
use cheetah.InternalMalloc.{
  ImBucket, ImDesc, ImGlobal, System, num_buckets, bucket_sizes, bucket_capacity, size_to_bucket,
  add_to_free_list, remove_from, remove_from_free_list, global_im_alloc,
}
use cheetah.InternalMalloc.Check.{bucket_waste, wasted_bytes}
use cheetah.InternalMalloc.Serve.{size_to_bucket_lem}
use cheetah.InternalMalloc.Workers.{
  allocate_loop, im_allocate_batch, give_back, free_loop, im_free_batch, count_malloc,
  block_or_batch, cilk_internal_malloc, trim, take_back, cilk_internal_free,
}

-- The same bytes are used, and the same wasted in each bucket.
pub record IsKept (l l' : ImDesc) : Type 0 where
  pub used : l'.used ≡ l.used
  pub wasted : (k : ℕ) → (l'.buckets k).wasted ≡ (l.buckets k).wasted

IsKept-trans : {l m r : ImDesc} → IsKept l m → IsKept m r → IsKept l r
IsKept-trans a b = record { used = b.used ∙ a.used; wasted = λ k. b.wasted k ∙ a.wasted k }

update-IsKept :
    (l : ImDesc) (k : ℕ) (b : ImBucket)
    → b.wasted ≡ (l.buckets k).wasted
    → IsKept l (record l { buckets = update l.buckets k b })
update-IsKept l k b h = record {
  used = refl;
  wasted = λ j. elim (ℕ_discrete k j) [
    | yes e ↦
        let here : update l.buckets k b j ≡ b = rw e (update_self l.buckets j b) in
        rw here (h ∙ ap (λ i. (l.buckets i).wasted) e)
    | no e ↦ rw (update_ne l.buckets k j b e) refl
  ];
}

remove_from-wasted :
    (bucket : ImBucket) (blocks : List ℕ) → (remove_from bucket blocks).1.wasted ≡ bucket.wasted
unfolding remove_from
remove_from-wasted bucket [] = refl
remove_from-wasted bucket (p ∷ rest) = refl

add_to_free_list-wasted :
    (bucket : ImBucket) (p : ℕ) → (add_to_free_list bucket p).wasted ≡ bucket.wasted
unfolding add_to_free_list
add_to_free_list-wasted bucket p = refl

allocate_loop-wasted :
    (system : System) (size k n : ℕ) (g : ImGlobal) (bucket : ImBucket)
    → (allocate_loop system size k n g bucket).1.wasted ≡ bucket.wasted
unfolding allocate_loop
allocate_loop-wasted system size k zero g bucket = refl
allocate_loop-wasted system size k (suc n) g bucket =
    let r = global_im_alloc system g size k in
    allocate_loop-wasted system size k n r.1 (add_to_free_list bucket r.0)
    ∙ add_to_free_list-wasted bucket r.0

im_allocate_batch-IsKept :
    (system : System) (g : ImGlobal) (l : ImDesc) (size k : ℕ)
    → IsKept l (im_allocate_batch system g l size k).1
unfolding im_allocate_batch
im_allocate_batch-IsKept system g l size k =
    update-IsKept l k _ (allocate_loop-wasted system size k (bucket_capacity k / 2) g (l.buckets k))

block_or_batch-IsKept :
    (system : System) (g : ImGlobal) (l : ImDesc) (k : ℕ) (o : Option ℕ × ImBucket)
    → o.1.wasted ≡ (l.buckets k).wasted
    → IsKept l (block_or_batch system g l k o).2
unfolding block_or_batch
block_or_batch-IsKept system g l k (some p, bucket) h = update-IsKept l k bucket h
block_or_batch-IsKept system g l k (none, bucket) h =
    let b = im_allocate_batch system g l (bucket_sizes k) k in
    IsKept-trans (im_allocate_batch-IsKept system g l (bucket_sizes k) k)
      (update-IsKept b.1 k _ (remove_from-wasted (b.1.buckets k) (b.1.buckets k).free_list))

free_loop-wasted :
    (size k n : ℕ) (blocks : List ℕ) (g : ImGlobal) (bucket : ImBucket)
    → (free_loop size k n blocks g bucket).1.wasted ≡ bucket.wasted
unfolding free_loop
free_loop-wasted size k zero blocks g bucket = refl
free_loop-wasted size k (suc n) [] g bucket = refl
free_loop-wasted size k (suc n) (p ∷ rest) g bucket =
    free_loop-wasted size k n rest (give_back size k g p) _

im_free_batch-IsKept :
    (g : ImGlobal) (l : ImDesc) (size k : ℕ) → IsKept l (im_free_batch g l size k).1
unfolding im_free_batch
im_free_batch-IsKept g l size k =
    update-IsKept l k _
      (free_loop-wasted size k (bucket_capacity k / 2) (l.buckets k).free_list g (l.buckets k))

trim-IsKept :
    (size k fuel : ℕ) (g g' : ImGlobal) (l l' : ImDesc)
    → trim size k fuel g l ≡ some (g', l')
    → IsKept l l'
unfolding trim
trim-IsKept size k zero g g' l l' e = absurd (cc)
trim-IsKept size k (suc fuel) g g' l l' e =
    let r = im_free_batch g l size k in
    elim (Bool-cases (ltb (l.buckets k).free_list_limit (l.buckets k).free_list_size)) [
      | inl more ↦
          IsKept-trans (im_free_batch-IsKept g l size k)
            (trim-IsKept size k fuel r.0 g' r.1 l' (rw more at e))
      | inr done ↦
          let same : l ≡ l' = ap (λ (x : ImGlobal × ImDesc). x.1) (some_eq (rw done at e)) in
          rw (← same) (record { used = refl; wasted = λ j. refl })
    ]

wasted_bytes_congr : (l l' : ImDesc) → IsKept l l' → wasted_bytes l' ≡ wasted_bytes l
wasted_bytes_congr l l' h = total_of_congr bucket_waste num_buckets l'.buckets l.buckets h.wasted

-- A request that is served.
pub cilk_internal_malloc-uses :
    (system : System) (g : ImGlobal) (l : ImDesc) (size tag : ℕ)
    → size ≤ 2048
    → let l' = (cilk_internal_malloc system g l size tag).2 in
      let waste = bucket_sizes (size_to_bucket size) - size in
      (l'.used ≡ l.used +ℤ pos size)
      × (pos_part (wasted_bytes l') + neg_part (wasted_bytes l)
          ≡ neg_part (wasted_bytes l') + pos_part (wasted_bytes l) + waste)
unfolding cilk_internal_malloc count_malloc
cilk_internal_malloc-uses system g l size tag fits =
    let k = size_to_bucket size in
    let (h, holds, least) = (size_to_bucket_lem size).0 fits in
    let l1 = count_malloc l size tag k in
    let in_range : leb num_buckets k ≡ false = ground (arith, h) in
    let kept =
      block_or_batch-IsKept system g l1 k (remove_from_free_list (l1.buckets k))
        (remove_from-wasted (l1.buckets k) (l1.buckets k).free_list) in
    let counted : ImBucket = record (l.buckets k) {
      wasted = (l.buckets k).wasted +ℤ (pos (bucket_sizes k) -ℤ pos size);
    } in
    let change = total_of-update bucket_waste num_buckets k l.buckets counted h in
    rw in_range (kept.used, rw (wasted_bytes_congr l1 _ kept) (omega (int_laws, change)))

-- A block that is taken back.
pub cilk_internal_free-uses :
    (fuel : ℕ) (g g' : ImGlobal) (l l' : ImDesc) (p size tag : ℕ)
    → size ≤ 2048
    → cilk_internal_free fuel g l p size tag ≡ some (g', l')
    → let waste = bucket_sizes (size_to_bucket size) - size in
      (l'.used ≡ l.used -ℤ pos size)
      × (pos_part (wasted_bytes l') + neg_part (wasted_bytes l) + waste
          ≡ neg_part (wasted_bytes l') + pos_part (wasted_bytes l))
unfolding cilk_internal_free take_back add_to_free_list bucket_sizes
cilk_internal_free-uses fuel g g' l l' p size tag fits e =
    let k = size_to_bucket size in
    let (h, holds, least) = (size_to_bucket_lem size).0 fits in
    let in_range : ltb (bucket_sizes (num_buckets - 1)) size ≡ false = ground (arith, fits) in
    let l1 = take_back l p size tag k in
    let kept = trim-IsKept (bucket_sizes k) k fuel g g' l1 l' (rw in_range at e) in
    let counted : ImBucket = record (l.buckets k) {
      free_list = p ∷ (l.buckets k).free_list;
      free_list_size = (l.buckets k).free_list_size + 1;
      wasted = (l.buckets k).wasted -ℤ (pos (bucket_sizes k) -ℤ pos size);
    } in
    let change = total_of-update bucket_waste num_buckets k l.buckets counted h in
    (kept.used, rw (wasted_bytes_congr l1 l' kept) (omega (int_laws, change)))
