-- ===== src/Join/Links.antt =====
-- The sibling links of spawned children: `add_child`, `remove_child`, `double_link_children` and
-- `unlink_child` of runtime/scheduler.cpp. A closure is a number, a null pointer is `none`.
use cheetah.Base.{
  refl, zero, suc, none, some, false, update, ℕ, Option, Bool, if◌then◌else◌, ◌<◌, ◌==◌, ◌≡◌, ◌≢◌,
  ◌+◌, arith,
}

pub record Links : Type 0 where
  pub left_sib : ℕ → Option ℕ
  pub right_sib : ℕ → Option ℕ
  pub right_most_child : Option ℕ

-- A store through a pointer that may be null.
unfoldable pub store : (ℕ → Option ℕ) → Option ℕ → Option ℕ → ℕ → Option ℕ
store f none v = f
store f (some i) v = update f i v

unfoldable pub double_link_children : Links → Option ℕ → ℕ → Links
double_link_children l left right = record l {
  right_sib = store l.right_sib left (some right);
  left_sib = update l.left_sib right left;
}

unfoldable pub add_child : Links → ℕ → Links
add_child l child = record (double_link_children l l.right_most_child child) {
  right_most_child = some child;
}

unfoldable pub unlink_child : Links → ℕ → Links
unlink_child l c =
    let right_sib = store l.right_sib (l.left_sib c) (l.right_sib c) in
    let left_sib = store l.left_sib (l.right_sib c) (l.left_sib c) in
    record l { left_sib = update left_sib c none; right_sib = update right_sib c none }

abbrev pub is_child : Option ℕ → ℕ → Bool
is_child none c = false
is_child (some x) c = x == c

unfoldable pub remove_child : Links → ℕ → Links
remove_child l child =
    let right_most =
      if is_child l.right_most_child child then l.left_sib child else l.right_most_child in
    unlink_child (record l { right_most_child = right_most }) child

-- The `n` children, from left to right.
pub record IsLinked (l : Links) (n : ℕ) (xs : ℕ → ℕ) : Type 0 where
  pub distinct : (i j : ℕ) → i < n → j < n → xs i ≡ xs j → i ≡ j
  pub first : 0 < n → l.left_sib (xs 0) ≡ none
  pub left : (i : ℕ) → i + 1 < n → l.left_sib (xs (i + 1)) ≡ some (xs i)
  pub right : (i : ℕ) → i + 1 < n → l.right_sib (xs i) ≡ some (xs (i + 1))
  pub last : (i : ℕ) → i + 1 ≡ n → l.right_sib (xs i) ≡ none
  pub empty : n ≡ 0 → l.right_most_child ≡ none
  pub most : (i : ℕ) → i + 1 ≡ n → l.right_most_child ≡ some (xs i)

-- With `n` distinct children linked in order, a closure that is none of them and has no right sibling
-- is the last of them after add_child.
pub add_child-IsLinked :
    (l : Links) (n child : ℕ) (xs : ℕ → ℕ)
    → IsLinked l n xs
    → ((i : ℕ) → i < n → xs i ≢ child)
    → l.right_sib child ≡ none
    → IsLinked (add_child l child) (n + 1) (update xs n child)
unfolding add_child double_link_children store
add_child-IsLinked l zero child xs v new fresh =
    let end = v.empty refl in
    rw end (record {
      distinct = λ i j a b e. omega arith;
      first = λ a. ground arith;
      left = λ i a. absurd (omega arith);
      right = λ i a. absurd (omega arith);
      last = λ i a. ground (arith, fresh);
      empty = λ a. absurd (omega arith);
      most = λ i a. ground arith;
    })
add_child-IsLinked l (suc n) child xs v new fresh =
    let end = v.most n (omega arith) in
    rw end (record {
      distinct = λ i j a b e. ground (arith, v.distinct i j, new i, new j);
      first = λ a. ground (arith, v.first (omega arith), new 0);
      left = λ i a. ground (arith, v.left i, new i, new (i + 1));
      right = λ i a. ground (arith, v.right i, v.distinct i n, new i, new (i + 1));
      last = λ i a. ground (arith, fresh, new n);
      empty = λ a. absurd (omega arith);
      most = λ i a. ground arith;
    })
