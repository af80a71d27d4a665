-- ===== src/Distinct/Set.antt =====
-- The ascending list as a set: order and membership.
use rusthouse.Prelude.{
  ◌+◌, ◌≡◌, refl, inl, inr, true, false, Option, List, [], ◌∷◌, arith, if◌then◌else◌, Bool-cases,
  length, All,
}
use rusthouse.Prelude.Int.{ℤ, eqb_option}
use rusthouse.Distinct.{option_ltb, contains, insert}

-- NULL, then ascending values, with no repetition.
abbrev pub IsAscending : List (Option ℤ) → Type 0
IsAscending [] = Unit
IsAscending (x ∷ xs) = All (λ y. option_ltb x y ≡ true) xs × IsAscending xs

pub option_ltb_trans :
    (a b c : Option ℤ) → option_ltb a b ≡ true → option_ltb b c ≡ true → option_ltb a c ≡ true
option_ltb_trans a b c p q = ground arith

pub option_ltb_total :
    (a b : Option ℤ) → eqb_option a b ≡ false → option_ltb a b ≡ false → option_ltb b a ≡ true
option_ltb_total a b p q = ground arith

All-ltb :
    (a b : Option ℤ) (xs : List (Option ℤ))
    → option_ltb a b ≡ true
    → All (λ y. option_ltb b y ≡ true) xs
    → All (λ y. option_ltb a y ≡ true) xs
All-ltb a b [] p h = tt
All-ltb a b (x ∷ xs) p h = (option_ltb_trans a b x p h.0, All-ltb a b xs p h.1)

All-insert :
    (a v : Option ℤ) (xs : List (Option ℤ))
    → option_ltb a v ≡ true
    → All (λ y. option_ltb a y ≡ true) xs
    → All (λ y. option_ltb a y ≡ true) (insert v xs)
unfolding insert
All-insert a v [] p h = (p, tt)
All-insert a v (x ∷ xs) p h = elim (Bool-cases (option_ltb v x)) [
  | inl t ↦ rw t (p, h)
  | inr f ↦ rw f (h.0, All-insert a v xs p h.1)
]

-- A value that is not in the set keeps it ascending.
pub insert-IsAscending :
    (v : Option ℤ) (xs : List (Option ℤ))
    → contains v xs ≡ false
    → IsAscending xs
    → IsAscending (insert v xs)
unfolding insert contains
insert-IsAscending v [] c s = (tt, tt)
insert-IsAscending v (x ∷ xs) c s =
    let ne : eqb_option v x ≡ false = ground arith in
    let c' : contains v xs ≡ false = ground arith in
    elim (Bool-cases (option_ltb v x)) [
      | inl t ↦ rw t ((t, All-ltb v x xs t s.0), s)
      | inr f ↦
          rw f (All-insert x v xs (option_ltb_total v x ne f) s.0, insert-IsAscending v xs c' s.1)
    ]

pub length-insert : (v : Option ℤ) (xs : List (Option ℤ)) → length (insert v xs) ≡ length xs + 1
unfolding insert
length-insert v [] = omega arith
length-insert v (x ∷ xs) = ground (arith, length-insert v xs)

pub contains-insert :
    (w v : Option ℤ) (xs : List (Option ℤ))
    → contains w (insert v xs) ≡ (if eqb_option w v then true else contains w xs)
unfolding insert contains
contains-insert w v [] = refl
contains-insert w v (x ∷ xs) = ground (arith, contains-insert w v xs)
