-- ===== src/Snapshot/Words.antt =====
-- src/snapshot.rs: little-endian words in byte strings, and reads at an offset.
use rusthouse.Prelude.{
  ℕ, zero, suc, ◌+◌, ◌-◌, ◌*◌, ◌/◌, ◌%◌, ◌^◌, ◌≤◌, ◌<◌, ◌≡◌, refl, ap, some, List, [], ◌∷◌, ◌++◌,
  arith, ltb, if◌then◌else◌, length, get_elem?, get_or, take, drop, All, length-append, take_all,
  length-take,
}
use rusthouse.Prelude.Int.{ℤ, pos, negsuc, IsI64}
use rusthouse.Prelude.Bytes.{Bytes}
use mathlib.Core.List.{append_assoc}
use rusthouse.Order.{as_u64}

-- `to_le_bytes` of a word of `n` bytes.
unfoldable pub to_le_bytes : ℕ → ℕ → Bytes
to_le_bytes zero x = []
to_le_bytes (suc n) x = (x % 256) ∷ to_le_bytes n (x / 256)

unfoldable pub from_le_bytes : Bytes → ℕ
from_le_bytes [] = 0
from_le_bytes (b ∷ bs) = b + 256 * from_le_bytes bs

-- A `u64` as an `i64`, in two's complement.
abbrev pub as_i64 : ℕ → ℤ
as_i64 x = if ltb x (2 ^ 63) then pos x else negsuc (2 ^ 64 - 1 - x)

-- `read_array::<N>`
unfoldable pub read_array : ℕ → Bytes → ℕ → Bytes
read_array n bytes offset = take n (drop offset bytes)

-- 256 ^ n
abbrev pub capacity : ℕ → ℕ
capacity zero = 1
capacity (suc n) = 256 * capacity n

pub from_le_bytes-to_le_bytes : (n x : ℕ) → x < capacity n → from_le_bytes (to_le_bytes n x) ≡ x
unfolding to_le_bytes from_le_bytes
from_le_bytes-to_le_bytes zero x h = omega arith
from_le_bytes-to_le_bytes (suc n) x h =
    rw (from_le_bytes-to_le_bytes n (x / 256) (omega arith)) (omega arith)

pub length-to_le_bytes : (n x : ℕ) → length (to_le_bytes n x) ≡ n
unfolding to_le_bytes
length-to_le_bytes zero x = refl
length-to_le_bytes (suc n) x = ap suc (length-to_le_bytes n (x / 256))

pub as_u64_bound : (v : ℤ) → as_u64 v < capacity 8
as_u64_bound (pos n) = omega arith
as_u64_bound (negsuc n) = omega arith

pub as_i64-as_u64 : (v : ℤ) → IsI64 v → as_i64 (as_u64 v) ≡ v
as_i64-as_u64 (pos n) h = ground arith
as_i64-as_u64 (negsuc n) h = ground arith

module _ {ℓ} {A : Type ℓ} where
  pub drop-append : (pre xs : List A) → drop (length pre) (pre ++ xs) ≡ xs
  drop-append [] xs = refl
  drop-append (x ∷ pre) xs = drop-append pre xs

  pub take-append : (xs rest : List A) → take (length xs) (xs ++ rest) ≡ xs
  take-append [] rest = refl
  take-append (x ∷ xs) rest = ap (λ t. x ∷ t) (take-append xs rest)

  pub get_elem?-append :
      (pre rest : List A) (x : A) → get_elem? (pre ++ (x ∷ rest)) (length pre) ≡ some x
  get_elem?-append [] rest x = refl
  get_elem?-append (y ∷ pre) rest x = get_elem?-append pre rest x

  pub get_or-append : (pre rest : List A) (x d : A) → get_or (pre ++ (x ∷ rest)) (length pre) d ≡ x
  get_or-append [] rest x d = refl
  get_or-append (y ∷ pre) rest x d = get_or-append pre rest x d

-- A read at the end of a prefix reads what follows it.
pub read_array-append :
    (n offset : ℕ) (pre bytes rest : Bytes)
    → length bytes ≡ n
    → length pre ≡ offset
    → read_array n (pre ++ (bytes ++ rest)) offset ≡ bytes
unfolding read_array
read_array-append n offset pre bytes rest h k =
    rw (← h, ← k, drop-append pre (bytes ++ rest)) (take-append bytes rest)

-- The same after one more byte.
pub read_array-cons :
    (n : ℕ) (pre bytes rest : Bytes) (x : ℕ)
    → length bytes ≡ n
    → read_array n (pre ++ (x ∷ (bytes ++ rest))) (length pre + 1) ≡ bytes
read_array-cons n pre bytes rest x h = rw (← append_assoc pre (x ∷ []) (bytes ++ rest)) (
    read_array-append n (length pre + 1) (pre ++ (x ∷ [])) bytes rest h
      (length-append pre (x ∷ [])))

abbrev pub IsByte : ℕ → Type 0
IsByte b = b < 256

-- The encoding of a word is unique.
pub to_le_bytes-from_le_bytes :
    (bytes : Bytes) → All IsByte bytes → to_le_bytes (length bytes) (from_le_bytes bytes) ≡ bytes
unfolding to_le_bytes from_le_bytes
to_le_bytes-from_le_bytes [] a = refl
to_le_bytes-from_le_bytes (b ∷ bytes) a =
    let low : (b + 256 * from_le_bytes bytes) % 256 ≡ b = let s = a.0 in omega arith in
    let high : (b + 256 * from_le_bytes bytes) / 256 ≡ from_le_bytes bytes =
      let s = a.0 in omega arith in
    rw (low, high) (ap (λ t. b ∷ t) (to_le_bytes-from_le_bytes bytes a.1))

length-drop : (n : ℕ) (bytes : Bytes) → length (drop n bytes) ≡ length bytes - n
length-drop zero bytes = omega arith
length-drop (suc n) [] = omega arith
length-drop (suc n) (b ∷ bytes) = omega (arith, length-drop n bytes)

pub length-read_array :
    (n : ℕ) (bytes : Bytes) (offset : ℕ)
    → offset + n ≤ length bytes
    → length (read_array n bytes offset) ≡ n
unfolding read_array
length-read_array n bytes offset h =
    omega (arith, length-take n (drop offset bytes), length-drop offset bytes)

All-take : (n : ℕ) (bytes : Bytes) → All IsByte bytes → All IsByte (take n bytes)
All-take zero bytes a = tt
All-take (suc n) [] a = tt
All-take (suc n) (b ∷ bytes) a = (a.0, All-take n bytes a.1)

All-drop : (n : ℕ) (bytes : Bytes) → All IsByte bytes → All IsByte (drop n bytes)
All-drop zero bytes a = a
All-drop (suc n) [] a = tt
All-drop (suc n) (b ∷ bytes) a = All-drop n bytes a.1

pub All-read_array :
    (n : ℕ) (bytes : Bytes) (offset : ℕ) → All IsByte bytes → All IsByte (read_array n bytes offset)
unfolding read_array
All-read_array n bytes offset a = All-take n (drop offset bytes) (All-drop offset bytes a)

take-drop : (n : ℕ) (bytes : Bytes) → bytes ≡ take n bytes ++ drop n bytes
take-drop zero bytes = refl
take-drop (suc n) [] = refl
take-drop (suc n) (b ∷ bytes) = ap (λ t. b ∷ t) (take-drop n bytes)

abbrev no_bytes : Bytes
no_bytes = []

drop_none : (n : ℕ) → drop n no_bytes ≡ no_bytes
drop_none zero = refl
drop_none (suc n) = refl

drop-drop :
    (offset n end : ℕ) (bytes : Bytes)
    → offset + n ≡ end
    → drop n (drop offset bytes) ≡ drop end bytes
drop-drop zero n end bytes h = ap (λ (k : ℕ). drop k bytes) (let e : n ≡ end = omega arith in e)
drop-drop (suc offset) n zero bytes h = absurd (omega arith)
drop-drop (suc offset) n (suc end) [] h = drop_none n
drop-drop (suc offset) n (suc end) (b ∷ bytes) h = drop-drop offset n end bytes (omega arith)

-- A read and what stands after it.
pub read_array-drop :
    (n offset end : ℕ) (bytes : Bytes)
    → offset + n ≡ end
    → drop offset bytes ≡ read_array n bytes offset ++ drop end bytes
unfolding read_array
read_array-drop n offset end bytes h =
    rw (← drop-drop offset n end bytes h) (take-drop n (drop offset bytes))

-- A read to the end.
pub read_array_end :
    (n offset : ℕ) (bytes : Bytes)
    → length bytes ≤ offset + n
    → read_array n bytes offset ≡ drop offset bytes
unfolding read_array
read_array_end n offset bytes h =
    take_all n (drop offset bytes) (omega (arith, length-drop offset bytes))
