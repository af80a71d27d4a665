-- ===== src/Order.antt =====
-- src/order.rs: the bounded top-k order over a nullable column. A `BinaryHeap` is the ascending
-- list of its keys: `push` inserts in order, `peek_mut` is the last, and `into_sorted_vec` the list.
pub mod Heap
pub mod Ranks
pub mod Rows
pub mod Sorted
use rusthouse.Prelude.{
  ℕ, ◌+◌, ◌-◌, ◌%◌, ◌^◌, min, Bool, true, false, ◌||◌, Option, none, some, List, [], ◌∷◌, map, ltb,
  ◌==◌, if◌then◌else◌, length, Result, ok, ◌>>=◌, ◌>>◌, reject_if,
}
use rusthouse.Prelude.Int.{ℤ, pos, negsuc}

pub data OrderDirection : Type 0 where
  asc desc : OrderDirection

pub data NullOrder : Type 0 where
  first last : NullOrder

pub record OrderLimits : Type 0 where
  pub max_input_rows : ℕ
  pub max_limit : ℕ

pub data OrderError : Type 0 where
  input_limit_exceeded : (rows max_rows : ℕ) → OrderError
  limit_exceeded : (limit max_limit : ℕ) → OrderError

pub record OrderKey : Type 0 where
  pub null_rank : ℕ
  pub value_rank : ℕ
  pub source_index : ℕ

-- `value as u64`, in two's complement.
abbrev pub as_u64 : ℤ → ℕ
as_u64 (pos n) = n % 2 ^ 64
as_u64 (negsuc n) = 2 ^ 64 - 1 - n % 2 ^ 64

-- `x ^ (1_u64 << 63)` flips the top bit of a `u64`.
abbrev pub flip_sign_bit : ℕ → ℕ
flip_sign_bit x = if ltb x (2 ^ 63) then x + 2 ^ 63 else x - 2 ^ 63

unfoldable pub ascending_rank : ℤ → ℕ
ascending_rank v = flip_sign_bit (as_u64 v)

-- `match direction`, with `!rank` on a `u64`.
abbrev pub directed_rank : OrderDirection → ℕ → ℕ
directed_rank asc rank = rank
directed_rank desc rank = 2 ^ 64 - 1 - rank

abbrev pub null_rank_of : Option ℤ → NullOrder → ℕ
null_rank_of none first = 0
null_rank_of none last = 1
null_rank_of (some v) first = 1
null_rank_of (some v) last = 0

abbrev pub value_rank_of : Option ℤ → OrderDirection → ℕ
value_rank_of none direction = 0
value_rank_of (some v) direction = directed_rank direction (ascending_rank v)

-- `OrderKey::new`
unfoldable pub new_key : Option ℤ → ℕ → OrderDirection → NullOrder → OrderKey
new_key v i direction null_order = record {
  null_rank = null_rank_of v null_order;
  value_rank = value_rank_of v direction;
  source_index = i;
}

-- The derived `<` of `OrderKey`: field by field.
unfoldable pub key_ltb : OrderKey → OrderKey → Bool
key_ltb a b =
    if a.null_rank == b.null_rank
    then if a.value_rank == b.value_rank
      then ltb a.source_index b.source_index
      else ltb a.value_rank b.value_rank
    else ltb a.null_rank b.null_rank

-- `BinaryHeap::push`
unfoldable pub push : OrderKey → List OrderKey → List OrderKey
push k [] = k ∷ []
push k (x ∷ xs) = if key_ltb k x then k ∷ x ∷ xs else x ∷ push k xs

-- The greatest key, which `peek_mut` shows, and the others.
unfoldable pub peek : OrderKey → List OrderKey → OrderKey
peek x [] = x
peek x (y ∷ ys) = peek y ys

unfoldable pub others : OrderKey → List OrderKey → List OrderKey
others x [] = []
others x (y ∷ ys) = x ∷ others y ys

-- `if candidate < *worst { *worst = candidate; }`
unfoldable pub replace_worst : OrderKey → List OrderKey → List OrderKey
unfolding peek others
replace_worst k [] = []
replace_worst k (x ∷ xs) = if key_ltb k (peek x xs) then push k (others x xs) else x ∷ xs

unfoldable pub offer : ℕ → OrderKey → List OrderKey → List OrderKey
offer retained k heap = if ltb (length heap) retained then push k heap else replace_worst k heap

-- The loop of `order_nullable_i64` from row `i` on.
unfoldable pub order_loop :
    OrderDirection → NullOrder → ℕ → ℕ → List (Option ℤ) → List OrderKey → List OrderKey
order_loop direction null_order retained i [] heap = heap
order_loop direction null_order retained i (v ∷ vs) heap =
    order_loop direction null_order retained (i + 1) vs
      (offer retained (new_key v i direction null_order) heap)

abbrev pub is_empty : List (Option ℤ) → Bool
is_empty [] = true
is_empty (v ∷ vs) = false

unfoldable pub order_nullable_i64 :
    List (Option ℤ) → OrderDirection → NullOrder → ℕ → OrderLimits → Result OrderError (List ℕ)
order_nullable_i64 values direction null_order limit limits = do
  reject_if (ltb limits.max_input_rows (length values))
      (input_limit_exceeded (length values) limits.max_input_rows)
  reject_if (ltb limits.max_limit limit) (limit_exceeded limit limits.max_limit)
  (if limit == 0 || is_empty values
      then ok []
      else ok (
          map (λ (row : OrderKey). row.source_index)
            (order_loop direction null_order (min limit (length values)) 0 values [])))
