-- ===== src/Order/Heap.antt =====
-- The bounded heap keeps the least keys: each offer is an insertion into the sorted list of all
-- keys, cut to the retained rows.
use rusthouse.Prelude.{
  ℕ, zero, suc, ◌+◌, ◌≡◌, refl, sym, ap, ◌∙◌, inl, inr, true, false, List, [], ◌∷◌, arith, ltb,
  Bool-cases, length, take, All, take_all, length-take,
}
use rusthouse.Order.{OrderKey, key_ltb, push, peek, others, replace_worst, offer}

-- No key stands before a smaller one.
abbrev pub IsSorted : List OrderKey → Type 0
IsSorted [] = Unit
IsSorted (x ∷ xs) = All (λ y. key_ltb y x ≡ false) xs × IsSorted xs

pub key_ltb_trans :
    (a b c : OrderKey) → key_ltb b a ≡ false → key_ltb c b ≡ false → key_ltb c a ≡ false
unfolding key_ltb
key_ltb_trans a b c p q = ground arith

pub key_ltb_asymm : (a b : OrderKey) → key_ltb a b ≡ true → key_ltb b a ≡ false
unfolding key_ltb
key_ltb_asymm a b p = ground arith

key_ltb_irrefl : (a : OrderKey) → key_ltb a a ≡ false
unfolding key_ltb
key_ltb_irrefl a = ground arith

All-trans :
    (a b : OrderKey) (xs : List OrderKey)
    → key_ltb b a ≡ false
    → All (λ y. key_ltb y b ≡ false) xs
    → All (λ y. key_ltb y a ≡ false) xs
All-trans a b [] p h = tt
All-trans a b (x ∷ xs) p h = (key_ltb_trans a b x p h.0, All-trans a b xs p h.1)

All-push :
    (a k : OrderKey) (xs : List OrderKey)
    → key_ltb k a ≡ false
    → All (λ y. key_ltb y a ≡ false) xs
    → All (λ y. key_ltb y a ≡ false) (push k xs)
unfolding push
All-push a k [] p h = (p, tt)
All-push a k (x ∷ xs) p h = elim (Bool-cases (key_ltb k x)) [
  | inl t ↦ rw t (p, h)
  | inr f ↦ rw f (h.0, All-push a k xs p h.1)
]

pub push-IsSorted : (k : OrderKey) (xs : List OrderKey) → IsSorted xs → IsSorted (push k xs)
unfolding push
push-IsSorted k [] s = (tt, tt)
push-IsSorted k (x ∷ xs) s = elim (Bool-cases (key_ltb k x)) [
  | inl t ↦ rw t ((key_ltb_asymm k x t, All-trans k x xs (key_ltb_asymm k x t) s.0), s)
  | inr f ↦ rw f (All-push x k xs f s.0, push-IsSorted k xs s.1)
]

pub length-push : (k : OrderKey) (xs : List OrderKey) → length (push k xs) ≡ length xs + 1
unfolding push
length-push k [] = omega arith
length-push k (x ∷ xs) = ground (arith, length-push k xs)

take-take_cons :
    (n : ℕ) (x : OrderKey) (xs : List OrderKey) → take n (x ∷ take n xs) ≡ take n (x ∷ xs)
take-take_cons zero x xs = refl
take-take_cons (suc n) x [] = refl
take-take_cons (suc n) x (y ∷ ys) = ap (λ t. x ∷ t) (take-take_cons n y ys)

-- An insertion shows in the first `n` keys only through the first `n` keys.
take-push :
    (n : ℕ) (k : OrderKey) (xs : List OrderKey) → take n (push k (take n xs)) ≡ take n (push k xs)
unfolding push
take-push zero k xs = refl
take-push (suc n) k [] = refl
take-push (suc n) k (x ∷ xs) = elim (Bool-cases (key_ltb k x)) [
  | inl t ↦ rw t (ap (λ t. k ∷ t) (take-take_cons n x xs))
  | inr f ↦ rw f (ap (λ t. x ∷ t) (take-push n k xs))
]

peek-ge : (x : OrderKey) (xs : List OrderKey) → IsSorted (x ∷ xs) → (key_ltb (peek x xs) x ≡ false)
unfolding peek
peek-ge x [] s = key_ltb_irrefl x
peek-ge x (y ∷ ys) s = key_ltb_trans x y (peek y ys) s.0.0 (peek-ge y ys s.1)

others-take : (x : OrderKey) (xs : List OrderKey) → others x xs ≡ take (length xs) (x ∷ xs)
unfolding others
others-take x [] = refl
others-take x (y ∷ ys) = ap (λ t. x ∷ t) (others-take y ys)

replace_below :
    (k x : OrderKey) (xs : List OrderKey)
    → key_ltb k (peek x xs) ≡ true
    → push k (others x xs) ≡ take (length (x ∷ xs)) (push k (x ∷ xs))
unfolding peek others push
replace_below k x [] t = rw t refl
replace_below k x (y ∷ ys) t = elim (Bool-cases (key_ltb k x)) [
  | inl l ↦ rw l (ap (λ t. k ∷ x ∷ t) (others-take y ys))
  | inr f ↦ rw f (ap (λ t. x ∷ t) (replace_below k y ys t))
]

replace_above :
    (k x : OrderKey) (xs : List OrderKey)
    → IsSorted (x ∷ xs)
    → key_ltb k (peek x xs) ≡ false
    → x ∷ xs ≡ take (length (x ∷ xs)) (push k (x ∷ xs))
unfolding peek push
replace_above k x [] s f = rw f refl
replace_above k x (y ∷ ys) s f =
    let g : key_ltb k x ≡ false = key_ltb_trans x (peek x (y ∷ ys)) k (peek-ge x (y ∷ ys) s) f in
    rw g (ap (λ t. x ∷ t) (replace_above k y ys s.1 f))

-- A heap that is full keeps the least keys of itself and the candidate.
replace_worst-take :
    (k : OrderKey) (h : List OrderKey) → IsSorted h → replace_worst k h ≡ take (length h) (push k h)
unfolding replace_worst
replace_worst-take k [] s = refl
replace_worst-take k (x ∷ xs) s = elim (Bool-cases (key_ltb k (peek x xs))) [
  | inl t ↦ rw t (replace_below k x xs t)
  | inr f ↦ rw f (replace_above k x xs s f)
]

All-take :
    (a : OrderKey) (n : ℕ) (xs : List OrderKey)
    → All (λ y. key_ltb y a ≡ false) xs
    → All (λ y. key_ltb y a ≡ false) (take n xs)
All-take a zero xs h = tt
All-take a (suc n) [] h = tt
All-take a (suc n) (x ∷ xs) h = (h.0, All-take a n xs h.1)

pub take-IsSorted : (n : ℕ) (xs : List OrderKey) → IsSorted xs → IsSorted (take n xs)
take-IsSorted zero xs s = tt
take-IsSorted (suc n) [] s = tt
take-IsSorted (suc n) (x ∷ xs) s = (All-take x n xs s.0, take-IsSorted n xs s.1)

-- An offer to the least `n` keys gives the least `n` keys with the candidate among them.
pub offer-take :
    (n : ℕ) (k : OrderKey) (xs : List OrderKey)
    → IsSorted xs
    → offer n k (take n xs) ≡ take n (push k xs)
unfolding offer
offer-take n k xs s = elim (Bool-cases (ltb (length (take n xs)) n)) [
  | inl t ↦
      rw (t, ← take-push n k xs)
        (sym (take_all n (push k (take n xs)) (ground (arith, length-push k (take n xs)))))
  | inr f ↦
      let e : length (take n xs) ≡ n = ground (arith, length-take n xs) in
      rw f (
        replace_worst-take k (take n xs) (take-IsSorted n xs s)
        ∙ ap (λ m. take m (push k (take n xs))) e
        ∙ take-push n k xs)
]
