-- ===== src/Snapshot/Runs/Maximal.antt =====
-- The maximal runs of a column: what the encoder writes, and what expands to the column again.
use rusthouse.Prelude.{
  ℕ, zero, suc, ◌+◌, ◌≤◌, ◌≡◌, refl, sym, ap, ◌∙◌, subst, inl, inr, true, false, Option, List, [],
  ◌∷◌, ◌++◌, arith, Bool-cases, length, replicate, All, length-append,
}
use rusthouse.Prelude.Int.{ℤ, eqb_option, eqb_option_iff}
use rusthouse.Prelude.Bytes.{Bytes}
use mathlib.Core.List.{append-nil}
use rusthouse.Order.Ranks.{IsNullableI64}
use rusthouse.Snapshot.Runs.{
  run_tag, count_runs_after, count_runs, encode_run, encode_runs_after, encode_runs,
}

abbrev pub Runs : Type 0
Runs = List (Option ℤ × ℕ)

-- The maximal runs of a column, after an open run.
abbrev pub runs_after : Option ℤ → ℕ → List (Option ℤ) → Runs
runs_after v n [] = (v, n) ∷ []
runs_after v n (w ∷ vs) = elim (eqb_option w v) [
  | true ↦ runs_after v (n + 1) vs
  | false ↦ (v, n) ∷ runs_after w 1 vs
]

abbrev pub runs_of : List (Option ℤ) → Runs
runs_of [] = []
runs_of (v ∷ vs) = runs_after v 1 vs

abbrev pub encode_all : Runs → Bytes
encode_all [] = []
encode_all (r ∷ rs) = encode_run r.0 r.1 ++ encode_all rs

abbrev pub expand : Runs → List (Option ℤ)
expand [] = []
expand (r ∷ rs) = replicate r.1 r.0 ++ expand rs

abbrev pub run_rows : Runs → ℕ
run_rows [] = 0
run_rows (r ∷ rs) = r.1 + run_rows rs

-- No run is empty, and every value is an `i64`.
abbrev pub AllRuns : Runs → Type 0
AllRuns [] = Unit
AllRuns (r ∷ rs) = (1 ≤ r.1) × IsNullableI64 r.0 × AllRuns rs

encode_runs_after-runs_after :
    (v : Option ℤ) (n : ℕ) (vs : List (Option ℤ))
    → encode_runs_after v n vs ≡ encode_all (runs_after v n vs)
unfolding encode_runs_after
encode_runs_after-runs_after v n [] = sym (append-nil (encode_run v n))
encode_runs_after-runs_after v n (w ∷ vs) = elim (Bool-cases (eqb_option w v)) [
  | inl t ↦ rw (encode_runs_after, runs_after, t) (encode_runs_after-runs_after v (n + 1) vs)
  | inr f ↦
      rw (encode_runs_after, runs_after, f)
        (ap (λ t. encode_run v n ++ t) (encode_runs_after-runs_after w 1 vs))
]

pub encode_runs-runs_of : (vs : List (Option ℤ)) → encode_runs vs ≡ encode_all (runs_of vs)
encode_runs-runs_of [] = refl
encode_runs-runs_of (v ∷ vs) = encode_runs_after-runs_after v 1 vs

count_runs_after-length :
    (v : Option ℤ) (n : ℕ) (vs : List (Option ℤ)) (a b : ℕ)
    → (count_runs_after v vs (a + 1) b).0 ≡ a + length (runs_after v n vs)
unfolding count_runs_after
count_runs_after-length v n [] a b = refl
count_runs_after-length v n (w ∷ vs) a b = elim (Bool-cases (eqb_option w v)) [
  | inl t ↦
      (let same : w ≡ v = (eqb_option_iff w v).0 t in
        rw (count_runs_after, runs_after, t)
          (subst (λ u. (count_runs_after u vs (a + 1) b).0 ≡ a + length (runs_after v (n + 1) vs))
            (sym same) (count_runs_after-length v (n + 1) vs a b)))
  | inr f ↦
      rw (count_runs_after, runs_after, f)
        (count_runs_after-length w 1 vs (a + 1) (b + run_tag w) ∙ omega arith)
]

pub count_runs-length : (vs : List (Option ℤ)) → (count_runs vs).0 ≡ length (runs_of vs)
count_runs-length [] = refl
count_runs-length (v ∷ vs) = count_runs_after-length v 1 vs 0 (run_tag v) ∙ omega arith

replicate-cons :
    (n k : ℕ) (v : Option ℤ) (vs : List (Option ℤ))
    → k ≡ n + 1
    → replicate k v ++ vs ≡ replicate n v ++ (v ∷ vs)
replicate-cons n zero v vs h = absurd (omega arith)
replicate-cons zero (suc zero) v vs h = refl
replicate-cons zero (suc (suc k)) v vs h = absurd (omega arith)
replicate-cons (suc n) (suc k) v vs h = ap (λ t. v ∷ t) (replicate-cons n k v vs (omega arith))

expand-runs_after :
    (v : Option ℤ) (n : ℕ) (vs : List (Option ℤ)) → expand (runs_after v n vs) ≡ replicate n v ++ vs
expand-runs_after v n [] = refl
expand-runs_after v n (w ∷ vs) = elim (Bool-cases (eqb_option w v)) [
  | inl t ↦
      (let same : w ≡ v = (eqb_option_iff w v).0 t in
        rw (runs_after, t)
          (expand-runs_after v (n + 1) vs
            ∙ replicate-cons n (n + 1) v vs refl
            ∙ ap (λ u. replicate n v ++ (u ∷ vs)) (sym same)))
  | inr f ↦ rw (runs_after, f) (ap (λ t. replicate n v ++ t) (expand-runs_after w 1 vs))
]

pub expand-runs_of : (vs : List (Option ℤ)) → expand (runs_of vs) ≡ vs
expand-runs_of [] = refl
expand-runs_of (v ∷ vs) = expand-runs_after v 1 vs

length-replicate : (n : ℕ) (v : Option ℤ) → length (replicate n v) ≡ n
length-replicate zero v = refl
length-replicate (suc n) v = ap suc (length-replicate n v)

pub run_rows-expand : (rs : Runs) → run_rows rs ≡ length (expand rs)
run_rows-expand [] = refl
run_rows-expand (r ∷ rs) = omega (
  arith,
  run_rows-expand rs,
  length-append (replicate r.1 r.0) (expand rs),
  length-replicate r.1 r.0,
)

AllRuns-runs_after :
    (v : Option ℤ) (n : ℕ) (vs : List (Option ℤ))
    → 1 ≤ n
    → IsNullableI64 v
    → All IsNullableI64 vs
    → AllRuns (runs_after v n vs)
AllRuns-runs_after v n [] h i a = (h, i, tt)
AllRuns-runs_after v n (w ∷ vs) h i a = elim (Bool-cases (eqb_option w v)) [
  | inl t ↦ rw (runs_after, t) (AllRuns-runs_after v (n + 1) vs (omega arith) i a.1)
  | inr f ↦ rw (runs_after, f) (h, i, AllRuns-runs_after w 1 vs (omega arith) a.0 a.1)
]

pub AllRuns-runs_of : (vs : List (Option ℤ)) → All IsNullableI64 vs → AllRuns (runs_of vs)
AllRuns-runs_of [] a = tt
AllRuns-runs_of (v ∷ vs) a = AllRuns-runs_after v 1 vs (omega arith) a.0 a.1

-- The runs that hold a value.
abbrev pub value_runs : Runs → ℕ
value_runs [] = 0
value_runs (r ∷ rs) = run_tag r.0 + value_runs rs

count_runs_after-values :
    (v : Option ℤ) (n : ℕ) (vs : List (Option ℤ)) (a b c : ℕ)
    → b ≡ c + run_tag v
    → (count_runs_after v vs a b).1 ≡ c + value_runs (runs_after v n vs)
unfolding count_runs_after
count_runs_after-values v n [] a b c h = omega arith
count_runs_after-values v n (w ∷ vs) a b c h = elim (Bool-cases (eqb_option w v)) [
  | inl t ↦
      (let same : w ≡ v = (eqb_option_iff w v).0 t in
        rw (count_runs_after, runs_after, t)
          (subst (λ u. (count_runs_after u vs a b).1 ≡ c + value_runs (runs_after v (n + 1) vs))
            (sym same) (count_runs_after-values v (n + 1) vs a b c h)))
  | inr f ↦
      rw (count_runs_after, runs_after, f)
        (count_runs_after-values w 1 vs (a + 1) (b + run_tag w) b refl ∙ omega arith)
]

pub count_runs-values : (vs : List (Option ℤ)) → (count_runs vs).1 ≡ value_runs (runs_of vs)
count_runs-values [] = refl
count_runs-values (v ∷ vs) =
    count_runs_after-values v 1 vs 1 (run_tag v) 0 (omega arith) ∙ omega arith
