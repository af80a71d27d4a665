-- ===== src/Order/Ranks.antt =====
-- The ranks of an `OrderKey` order the rows as SQL does: NULLs at the stated end, values in the
-- stated direction, and equal rows by source position.
use rusthouse.Prelude.{
  ℕ, ◌+◌, ◌^◌, ◌<◌, ◌≡◌, Bool, true, false, Option, none, some, arith, ltb, if◌then◌else◌,
}
use rusthouse.Prelude.Int.{ℤ, pos, negsuc, pos_part, neg_part, ltb_ℤ, IsI64}
use rusthouse.Order.{
  OrderDirection, asc, desc, NullOrder, first, last, new_key, key_ltb, ascending_rank,
}

-- The SQL order of two values in a direction: strictly before, and neither before.
abbrev pub value_before : OrderDirection → ℤ → ℤ → Bool
value_before asc a b = ltb_ℤ a b
value_before desc a b = ltb_ℤ b a

-- Row `i` with value `v` comes before row `j` with value `w`.
abbrev pub row_before : OrderDirection → NullOrder → Option ℤ → ℕ → Option ℤ → ℕ → Bool
row_before direction null_order none i none j = ltb i j
row_before direction first none i (some w) j = true
row_before direction last none i (some w) j = false
row_before direction first (some v) i none j = false
row_before direction last (some v) i none j = true
row_before direction null_order (some v) i (some w) j =
    if value_before direction v w
    then true
    else if value_before direction w v
    then false
    else ltb i j

abbrev pub IsNullableI64 : Option ℤ → Type 0
IsNullableI64 none = Unit
IsNullableI64 (some v) = IsI64 v

-- Flipping the sign bit shifts an `i64` by 2^63, within the range of a `u64`.
ascending_rank-parts :
    (v : ℤ)
    → IsI64 v
    → (ascending_rank v + neg_part v ≡ pos_part v + 2 ^ 63) × (ascending_rank v < 2 ^ 64)
unfolding ascending_rank
ascending_rank-parts (pos n) h = ground arith
ascending_rank-parts (negsuc n) h = ground arith

-- On 64-bit values the unsigned keys of two rows compare exactly as the rows do: NULLs at the
-- stated end, values in the stated direction, and equal rows by their positions.
pub key_ltb-new_key :
    (direction : OrderDirection) (null_order : NullOrder) (v w : Option ℤ) (i j : ℕ)
    → IsNullableI64 v
    → IsNullableI64 w
    → key_ltb (new_key v i direction null_order) (new_key w j direction null_order)
      ≡ row_before direction null_order v i w j
unfolding key_ltb new_key
key_ltb-new_key direction first none none i j p q = ground arith
key_ltb-new_key direction last none none i j p q = ground arith
key_ltb-new_key direction first none (some w) i j p q = ground arith
key_ltb-new_key direction last none (some w) i j p q = ground arith
key_ltb-new_key direction first (some v) none i j p q = ground arith
key_ltb-new_key direction last (some v) none i j p q = ground arith
key_ltb-new_key asc first (some v) (some w) i j p q =
    ground (arith, ascending_rank-parts v, ascending_rank-parts w)
key_ltb-new_key asc last (some v) (some w) i j p q =
    ground (arith, ascending_rank-parts v, ascending_rank-parts w)
key_ltb-new_key desc first (some v) (some w) i j p q =
    ground (arith, ascending_rank-parts v, ascending_rank-parts w)
key_ltb-new_key desc last (some v) (some w) i j p q =
    ground (arith, ascending_rank-parts v, ascending_rank-parts w)
