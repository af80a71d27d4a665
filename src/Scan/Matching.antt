-- ===== src/Scan/Matching.antt =====
-- The scans against an independent description of the matching rows.
use rusthouse.Prelude.{
  ℕ, zero, suc, ◌+◌, ◌≤◌, ◌<◌, ◌≡◌, refl, sym, ap, ◌∙◌, ◌↔◌, inl, inr, Bool, true, Option, none,
  List, [], ◌∷◌, ◌++◌, map, arith, ltb, if◌then◌else◌, Bool-cases, saturating_add, length, get_or,
  filter, Member, length-append, length-filter, length-map, Result, ok, err,
}
use rusthouse.Prelude.Int.{ℤ}
use mathlib.Core.List.{append-nil, append_assoc}
use rusthouse.Scan.{
  ScanLimits, ScanError, result_limit_exceeded, input_limit_exceeded, scan_loop, scan_matching_rows,
}

-- The positions, counted from `i`, of the values that satisfy `p`.
abbrev pub matching_rows : (Option ℤ → Bool) → ℕ → List (Option ℤ) → List ℕ
matching_rows p i [] = []
matching_rows p i (v ∷ vs) =
    if p v then i ∷ matching_rows p (i + 1) vs else matching_rows p (i + 1) vs

-- The rows are strictly increasing, from `lo` on and below `n`.
abbrev pub IsSelection : ℕ → ℕ → List ℕ → Type 0
IsSelection lo n [] = Unit
IsSelection lo n (r ∷ rs) = (lo ≤ r) × (r < n) × IsSelection (r + 1) n rs

scan_loop-ok :
    (p : Option ℤ → Bool) (m i : ℕ) (vs : List (Option ℤ)) (found : List ℕ)
    → length found + length (matching_rows p i vs) ≤ m
    → scan_loop p m i vs found ≡ ok (found ++ matching_rows p i vs)
unfolding scan_loop
scan_loop-ok p m i [] found h = ap ok (sym (append-nil found))
scan_loop-ok p m i (v ∷ vs) found h = ground (
  arith,
  scan_loop-ok p m (i + 1) vs (found ++ (i ∷ [])),
  scan_loop-ok p m (i + 1) vs found,
  length-append found (i ∷ []),
  append_assoc found (i ∷ []) (matching_rows p (i + 1) vs),
)

scan_loop-err :
    (p : Option ℤ → Bool) (m i : ℕ) (vs : List (Option ℤ)) (found : List ℕ)
    → length found ≤ m
    → m < length found + length (matching_rows p i vs)
    → scan_loop p m i vs found ≡ err (result_limit_exceeded (saturating_add m 1) m)
unfolding scan_loop
scan_loop-err p m i [] found c h = absurd (omega arith)
scan_loop-err p m i (v ∷ vs) found c h = ground (
  arith,
  scan_loop-err p m (i + 1) vs (found ++ (i ∷ [])),
  scan_loop-err p m (i + 1) vs found,
  length-append found (i ∷ []),
)

-- What a scan returns, as a function of its input alone: both bounds are inclusive, the input
-- bound is tested first, and an accepted scan returns every matching row in source order.
abbrev pub scan_outcome :
    List (Option ℤ) → ScanLimits → (Option ℤ → Bool) → Result ScanError (List ℕ)
scan_outcome values limits p =
    if ltb limits.max_input_rows (length values)
    then err (input_limit_exceeded (length values) limits.max_input_rows)
    else if ltb limits.max_result_rows (length (matching_rows p 0 values))
    then err
        (result_limit_exceeded (saturating_add limits.max_result_rows 1) limits.max_result_rows)
    else ok (matching_rows p 0 values)

-- A scan, which stops at the first row past its bound, answers on every input as a description of
-- the whole input does: the input bound is tested first, both bounds are inclusive, and an
-- accepted scan returns every matching row in source order.
pub scan_matching_rows-outcome :
    (values : List (Option ℤ)) (limits : ScanLimits) (p : Option ℤ → Bool)
    → scan_matching_rows values limits p ≡ scan_outcome values limits p
unfolding scan_matching_rows
scan_matching_rows-outcome values limits p = ground (
  arith,
  scan_loop-ok p limits.max_result_rows 0 values [],
  scan_loop-err p limits.max_result_rows 0 values [],
)

IsSelection-le :
    (lo lo' n : ℕ) (rs : List ℕ) → lo ≤ lo' → IsSelection lo' n rs → IsSelection lo n rs
IsSelection-le lo lo' n [] h s = tt
IsSelection-le lo lo' n (r ∷ rs) h s = ground arith

matching_rows-IsSelection :
    (p : Option ℤ → Bool) (i n : ℕ) (vs : List (Option ℤ))
    → i + length vs ≤ n
    → IsSelection i n (matching_rows p i vs)
matching_rows-IsSelection p i n [] h = tt
matching_rows-IsSelection p i n (v ∷ vs) h =
    let rest = matching_rows-IsSelection p (i + 1) n vs (omega arith) in
    elim (Bool-cases (p v)) [
      | inl e ↦ rw e (omega arith, omega arith, rest)
      | inr e ↦ rw e (IsSelection-le i (i + 1) n (matching_rows p (i + 1) vs) (omega arith) rest)
    ]

-- The rows of an accepted scan are strictly increasing and in bounds.
pub scan-IsSelection :
    (values : List (Option ℤ)) (limits : ScanLimits) (p : Option ℤ → Bool) (rows : List ℕ)
    → scan_matching_rows values limits p ≡ ok rows
    → IsSelection 0 (length values) rows
scan-IsSelection values limits p rows h = ground (
  arith,
  scan_matching_rows-outcome values limits p,
  matching_rows-IsSelection p 0 (length values) values (omega arith),
)

Member-ge :
    (p : Option ℤ → Bool) (i r : ℕ) (vs : List (Option ℤ)) → Member r (matching_rows p i vs) → i ≤ r
Member-ge p i r [] m = absurd m
Member-ge p i r (v ∷ vs) m = ground (arith, Member-ge p (i + 1) r vs)

-- The value at position `k` exists and satisfies `p`.
abbrev pub Matches : (Option ℤ → Bool) → List (Option ℤ) → ℕ → Type 0
Matches p [] k = ⊥
Matches p (v ∷ vs) zero = p v ≡ true
Matches p (v ∷ vs) (suc k) = Matches p vs k

mem→Matches :
    (p : Option ℤ → Bool) (i k r : ℕ) (vs : List (Option ℤ))
    → i + k ≡ r
    → Member r (matching_rows p i vs)
    → Matches p vs k
mem→Matches p i k r [] e m = m
mem→Matches p i zero r (v ∷ vs) e m = ground (arith, Member-ge p (i + 1) r vs)
mem→Matches p i (suc k) r (v ∷ vs) e m = ground (arith, mem→Matches p (i + 1) k r vs (omega arith))

Matches→mem :
    (p : Option ℤ → Bool) (i k r : ℕ) (vs : List (Option ℤ))
    → i + k ≡ r
    → Matches p vs k
    → Member r (matching_rows p i vs)
Matches→mem p i k r [] e m = m
Matches→mem p i zero r (v ∷ vs) e m = rw m (inl (omega arith))
Matches→mem p i (suc k) r (v ∷ vs) e m =
    let rest = Matches→mem p (i + 1) k r vs (omega arith) m in
    elim (Bool-cases (p v)) [ inl t ↦ rw t (inr rest) | inr f ↦ rw f rest ]

-- An accepted scan returns a row exactly when the value at that row exists and matches.
pub scan-mem_iff :
    (values : List (Option ℤ)) (limits : ScanLimits) (p : Option ℤ → Bool) (rows : List ℕ) (r : ℕ)
    → scan_matching_rows values limits p ≡ ok rows
    → Member r rows ↔ Matches p values r
scan-mem_iff values limits p rows r h =
    let e : matching_rows p 0 values ≡ rows =
      ground (arith, scan_matching_rows-outcome values limits p) in
    rw (← e) (mem→Matches p 0 r r values (omega arith), Matches→mem p 0 r r values (omega arith))

-- The values at given rows, `rows.map(|row| values[row])`.
abbrev pub project : List (Option ℤ) → List ℕ → List (Option ℤ)
project values rows = map (λ r. get_or values r none) rows

get_or-append :
    (pre vs : List (Option ℤ)) (v : Option ℤ) → get_or (pre ++ (v ∷ vs)) (length pre) none ≡ v
get_or-append [] vs v = refl
get_or-append (x ∷ pre) vs v = get_or-append pre vs v

project-matching_from :
    (p : Option ℤ → Bool) (pre vs : List (Option ℤ)) (i : ℕ)
    → length pre ≡ i
    → project (pre ++ vs) (matching_rows p i vs) ≡ filter p vs
project-matching_from p pre [] i h = refl
project-matching_from p pre (v ∷ vs) i h =
    let rest : project (pre ++ (v ∷ vs)) (matching_rows p (i + 1) vs) ≡ filter p vs =
      rw append_assoc at (
        project-matching_from p (pre ++ (v ∷ [])) vs (i + 1)
          (omega (arith, length-append pre (v ∷ [])))) in
    ground (arith, rest, get_or-append pre vs v)

-- Projecting the matching rows gives the matching values, in order.
pub project-matching_rows :
    (p : Option ℤ → Bool) (values : List (Option ℤ))
    → project values (matching_rows p 0 values) ≡ filter p values
project-matching_rows p values = project-matching_from p [] values 0 refl

-- An accepted scan projects to the matching values, and has as many rows.
pub project-scan :
    (values : List (Option ℤ)) (limits : ScanLimits) (p : Option ℤ → Bool) (rows : List ℕ)
    → scan_matching_rows values limits p ≡ ok rows
    → (project values rows ≡ filter p values) × (length rows ≡ length (filter p values))
project-scan values limits p rows h =
    let e : matching_rows p 0 values ≡ rows =
      ground (arith, scan_matching_rows-outcome values limits p) in
    let q : project values rows ≡ filter p values = rw (← e) (project-matching_rows p values) in
    (q, sym (length-map (λ r. get_or values r none) rows) ∙ ap length q)

pub length-matching_rows :
    (p : Option ℤ → Bool) (values : List (Option ℤ))
    → length (matching_rows p 0 values) ≤ length values
length-matching_rows p values = omega (
  arith,
  length-map (λ r. get_or values r none) (matching_rows p 0 values),
  ap length (project-matching_rows p values),
  length-filter p values,
)

-- Bounds of at least the rows are never passed.
pub scan-within :
    (values : List (Option ℤ)) (limits : ScanLimits) (p : Option ℤ → Bool)
    → length values ≤ limits.max_input_rows
    → length values ≤ limits.max_result_rows
    → scan_matching_rows values limits p ≡ ok (matching_rows p 0 values)
scan-within values limits p a b =
    ground (arith, scan_matching_rows-outcome values limits p, length-matching_rows p values)
