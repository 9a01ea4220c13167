-- ===== src/Hypertable.antt =====
-- The hash table of reducer views: runtime/local-hypertable.h and the queries of
-- runtime/local-hypertable.cpp. Keys are addresses, indices and hashes are 32-bit words.
mod Circle
mod Order
mod Pending
mod Count
mod Shift
mod Skip
mod Probe
mod Found
mod Place
mod Fresh
mod Rebuild
mod Store
mod Valid
mod Insert
mod Lookup
mod Remove
mod Delete
mod Removal
mod Merge
mod Combine
pub mod Update
mod Tests
mod Examples
use cheetah.Base.{
  ℕ, zero, suc, ◌+◌, ◌-◌, ◌*◌, ◌/◌, ◌%◌, ◌^◌, Bool, true, false, not, ◌&&◌, ◌||◌, Option, none,
  some, ltb, leb, ◌==◌, if◌then◌else◌, bit_and, bit_xor, update,
}
use cheetah.Base.Int.{ℤ, pos, ltb_ℤ}

abbrev pub u32_mod : ℕ
u32_mod = 2 ^ 32

abbrev pub key_empty : ℕ
key_empty = 0

-- `~0UL`
abbrev pub key_deleted : ℕ
key_deleted = 2 ^ 64 - 1

-- `data` stands for the view, with what it holds, and the functions that go with it.
pub record Bucket {ℓ} (D : Type ℓ) : Type ℓ where
  pub key : ℕ
  pub hash : ℕ
  pub data_of : D

-- The array of a table is a block of `capacity` buckets.
pub record Table {ℓ} (D : Type ℓ) : Type ℓ where
  pub capacity : ℕ
  pub occupancy : ℕ
  pub ins_rm_count : ℤ
  pub buckets : ℕ → Bucket D

-- What the table takes from the reducers: the data of a bucket that was never filled, and the
-- user's reduction, which leaves the combination of its two arguments in the left one.
pub record Views {ℓ} (D : Type ℓ) : Type ℓ where
  pub null : D
  pub reduce : D → D → D

abbrev pub is_empty : ℕ → Bool
is_empty key = key == key_empty

abbrev pub is_tombstone : ℕ → Bool
is_tombstone key = key == key_deleted

abbrev pub is_valid : ℕ → Bool
is_valid key = not (is_empty key) && not (is_tombstone key)

abbrev pub min_capacity : ℕ
min_capacity = 4

abbrev pub min_ht_capacity : ℕ
min_ht_capacity = 8

-- `x & low_mask` and `x >> half_bits` on a 64-bit word
unfoldable pub hash : ℕ → ℕ
hash key_in =
    let x = bit_xor key_in 0x96b9af4f6a40de92 in
    let v = (x % u32_mod) * (x / u32_mod) % 2 ^ 64 in bit_xor (v % u32_mod) (v / u32_mod)

unfoldable pub get_table_entry : ℕ → ℕ → ℕ
get_table_entry capacity key = bit_and (hash key) (capacity - 1)

unfoldable pub inc_index : ℕ → ℕ → ℕ
inc_index i capacity = let j = (i + 1) % u32_mod in if j == capacity then 0 else j

-- Unsigned differences wrap.
unfoldable pub continue_probe : ℕ → ℕ → ℕ → Bool
continue_probe tgt hash idx =
    leb ((idx + u32_mod - tgt) % u32_mod) ((idx + u32_mod - hash) % u32_mod)

abbrev pub load_factor_constant : ℕ
load_factor_constant = 16

abbrev pub max_capacity : ℕ
max_capacity = 0x7fffffff / (load_factor_constant - 1)

-- A product of type `int32_t` is taken modulo 2 ^ 32, as the processor does where it overflows; from
-- 2 ^ 31 on it stands for a negative number, and so does a sixteenth of it, while no occupancy is
-- negative.
unfoldable pub is_overloaded : ℕ → ℕ → Bool
is_overloaded occupancy capacity =
    let x = (load_factor_constant - 1) * capacity % u32_mod in
    leb (2 ^ 31) x || ltb (x / load_factor_constant) occupancy

unfoldable pub is_underloaded : ℕ → ℕ → Bool
is_underloaded occupancy capacity =
    let x = (load_factor_constant / 2 - 1) * capacity % u32_mod in
    ltb min_capacity capacity && ltb x (2 ^ 31) && leb occupancy (x / load_factor_constant)

abbrev pub min_rebuild_op_count : ℕ
min_rebuild_op_count = 8

unfoldable pub time_to_rebuild : ℤ → ℕ → Bool
time_to_rebuild ins_rm_count capacity =
    ltb_ℤ (pos min_rebuild_op_count) ins_rm_count
    && ltb_ℤ (pos (capacity / (4 * load_factor_constant))) ins_rm_count

module _ {ℓ} {D : Type ℓ} where
  -- The loop of `bucket_array_create`: `n` rounds from index `i`.
  unfoldable pub plant_tombstones : ℕ → ℕ → ℕ → (ℕ → Bucket D) → ℕ → Bucket D
  plant_tombstones zero i tombstone_idx buckets = buckets
  plant_tombstones (suc n) i tombstone_idx buckets =
      let due = tombstone_idx == 2 * load_factor_constant in
      plant_tombstones n (i + 1)
        (if due then tombstone_idx - 2 * load_factor_constant else tombstone_idx + 1)
        (if due then update buckets i (record (buckets i) { key = key_deleted }) else buckets)

  -- `new bucket[array_size]` holds empty buckets.
  unfoldable pub bucket_array_create : Views D → ℕ → ℕ → Bucket D
  bucket_array_create u array_size =
      let buckets : ℕ → Bucket D = λ _. record { key = key_empty; hash = 0; data_of = u.null } in
      if ltb array_size min_ht_capacity then buckets else plant_tombstones array_size 0 0 buckets

  unfoldable pub new_table : Views D → ℕ → Table D
  new_table u capacity = record {
    capacity = capacity;
    occupancy = 0;
    ins_rm_count = pos 0;
    buckets = bucket_array_create u capacity;
  }

  unfoldable pub local_hyper_table_alloc : Views D → Table D
  local_hyper_table_alloc u = new_table u min_capacity

  -- The index of the bucket that a pointer names; `n` buckets are left to scan.
  unfoldable pub find_hyperobject_linear : (ℕ → Bucket D) → ℕ → ℕ → Option ℕ
  find_hyperobject_linear buckets key zero = none
  find_hyperobject_linear buckets key (suc n) =
      if (buckets n).key == key then some n else find_hyperobject_linear buckets key n

  -- The `do … while (i != tgt)` loop from index `i`, with fuel for the rounds.
  unfoldable pub find_loop : (ℕ → Bucket D) → ℕ → ℕ → ℕ → ℕ → ℕ → Option ℕ
  find_loop buckets capacity key tgt zero i = none
  find_loop buckets capacity key tgt (suc fuel) i =
      let next = inc_index i capacity in
      let rest = find_loop buckets capacity key tgt fuel next in
      let again = if next == tgt then none else rest in
      if key == (buckets i).key
      then some i
      else if is_empty (buckets i).key
      then none
      else if is_tombstone (buckets i).key
      then again
      else if continue_probe tgt (buckets i).hash i
      then again
      else none

  unfoldable pub find_hyperobject_hash : Table D → ℕ → Option ℕ
  find_hyperobject_hash t key =
      let tgt = get_table_entry t.capacity key in
      find_loop t.buckets t.capacity key tgt t.capacity tgt

  unfoldable pub find_hyperobject : Table D → ℕ → Option ℕ
  find_hyperobject t key =
      if ltb t.capacity min_ht_capacity
      then find_hyperobject_linear t.buckets key t.occupancy
      else find_hyperobject_hash t key
