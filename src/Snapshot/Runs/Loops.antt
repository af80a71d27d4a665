-- ===== src/Snapshot/Runs/Loops.antt =====
-- The loops of the decoder on encoded runs.
use rusthouse.Prelude.{
  ℕ, suc, ◌+◌, ◌≤◌, ◌≡◌, sym, ap, ◌∙◌, Option, none, some, List, [], ◌∷◌, ◌++◌, arith,
  saturating_add, u64_max, length, get_elem?, replicate, length-append, ok,
}
use rusthouse.Prelude.Int.{ℤ}
use rusthouse.Prelude.Bytes.{Bytes}
use mathlib.Core.List.{append-nil, append_assoc}
use mathlib.Core.Path.{ap₂}
use rusthouse.Order.{as_u64}
use rusthouse.Order.Ranks.{IsNullableI64}
use rusthouse.Snapshot.Words.{
  to_le_bytes, from_le_bytes, read_array, from_le_bytes-to_le_bytes, length-to_le_bytes,
  as_u64_bound, as_i64-as_u64, get_elem?-append, get_or-append, read_array-append, read_array-cons,
}
use rusthouse.Snapshot.Runs.{
  run_tag, value_bytes, encode_run, run_end, validate_runs, read_run, decode_runs,
}
use rusthouse.Snapshot.Runs.Maximal.{Runs, encode_all, expand, run_rows, AllRuns}

abbrev pub run_len : Option ℤ → ℕ
run_len none = 9
run_len (some v) = 17

pub length-encode_run : (v : Option ℤ) (n : ℕ) → length (encode_run v n) ≡ run_len v
length-encode_run none n = omega (arith, length-append (to_le_bytes 8 n) [], length-to_le_bytes 8 n)
length-encode_run (some v) n = omega (
  arith,
  length-append (to_le_bytes 8 n) (to_le_bytes 8 (as_u64 v)),
  length-to_le_bytes 8 n,
  length-to_le_bytes 8 (as_u64 v),
)

-- The length field of a run.
read_run_length :
    (pre rest : Bytes) (v : Option ℤ) (n : ℕ)
    → n ≤ u64_max
    → from_le_bytes (read_array 8 (pre ++ (encode_run v n ++ rest)) (length pre + 1)) ≡ n
read_run_length pre rest v n h =
    rw
      (
        append_assoc (to_le_bytes 8 n) (value_bytes v) rest,
        read_array-cons 8 pre (to_le_bytes 8 n) (value_bytes v ++ rest) (run_tag v)
            (length-to_le_bytes 8 n),
      )
      (from_le_bytes-to_le_bytes 8 n (omega arith))

get_run_tag :
    (pre rest : Bytes) (v : Option ℤ) (n : ℕ)
    → get_elem? (pre ++ (encode_run v n ++ rest)) (length pre) ≡ some (run_tag v)
get_run_tag pre rest v n =
    get_elem?-append pre ((to_le_bytes 8 n ++ value_bytes v) ++ rest) (run_tag v)

-- One step of the validation, from what the payload holds at the offset.
run_end-reads :
    (payload : Bytes) (i offset n : ℕ) (v : Option ℤ)
    → get_elem? payload offset ≡ some (run_tag v)
    → from_le_bytes (read_array 8 payload (offset + 1)) ≡ n
    → 1 ≤ n
    → offset + run_len v ≤ length payload
    → length payload ≤ u64_max
    → run_end payload i offset ≡ ok (n, offset + run_len v)
unfolding run_end
run_end-reads payload i offset n none tag len p h fits =
    let sat : saturating_add offset 1 ≡ offset + 1 = ground arith in rw tag (ground arith)
run_end-reads payload i offset n (some v) tag len p h fits =
    let sat : saturating_add offset 1 ≡ offset + 1 = ground arith in rw tag (ground arith)

-- The value field of a run.
read_run_value :
    (pre rest : Bytes) (v : ℤ) (n : ℕ)
    → read_array 8 (pre ++ (encode_run (some v) n ++ rest)) (length pre + 1 + 8)
      ≡ to_le_bytes 8 (as_u64 v)
read_run_value pre rest v n =
    let len = to_le_bytes 8 n in
    let value = to_le_bytes 8 (as_u64 v) in
    let start : length (pre ++ (1 ∷ len)) ≡ length pre + 1 + 8 =
      omega (arith, length-append pre (1 ∷ len), length-to_le_bytes 8 n) in
    ap (λ t. read_array 8 t (length pre + 1 + 8))
      (ap (λ t. pre ++ (1 ∷ t)) (append_assoc len value rest)
        ∙ sym (append_assoc pre (1 ∷ len) (value ++ rest)))
    ∙ read_array-append 8 (length pre + 1 + 8) (pre ++ (1 ∷ len)) value rest
        (length-to_le_bytes 8 (as_u64 v)) start

read_run-encode_run :
    (pre rest : Bytes) (v : Option ℤ) (n : ℕ)
    → n ≤ u64_max
    → IsNullableI64 v
    → read_run (pre ++ (encode_run v n ++ rest)) (length pre) ≡ (v, n, length pre + run_len v)
unfolding read_run
read_run-encode_run pre rest none n h i =
    rw (read_run_length pre rest none n h, get_or-append pre ((to_le_bytes 8 n ++ []) ++ rest) 0 0)
      (ground arith)
read_run-encode_run pre rest (some v) n h i =
    rw
      (
        read_run_length pre rest (some v) n h,
        get_or-append pre ((to_le_bytes 8 n ++ to_le_bytes 8 (as_u64 v)) ++ rest) 1 0,
        read_run_value pre rest v n,
        from_le_bytes-to_le_bytes 8 (as_u64 v) (as_u64_bound v),
        as_i64-as_u64 v i,
      )
      (ground arith)

-- The bytes of the runs from one on, after the runs before.
split_run :
    (pre : Bytes) (v : Option ℤ) (n : ℕ) (rs : Runs)
    → (pre ++ encode_run v n) ++ encode_all rs ≡ pre ++ (encode_run v n ++ encode_all rs)
split_run pre v n rs = append_assoc pre (encode_run v n) (encode_all rs)

length-split_run :
    (pre : Bytes) (v : Option ℤ) (n : ℕ) → length (pre ++ encode_run v n) ≡ length pre + run_len v
length-split_run pre v n = omega (arith, length-append pre (encode_run v n), length-encode_run v n)

validate_runs-step :
    (payload : Bytes) (i offset decoded n offset' m : ℕ)
    → run_end payload i offset ≡ ok (n, offset')
    → decoded + n ≤ u64_max
    → validate_runs payload i offset decoded (suc m)
      ≡ validate_runs payload (i + 1) offset' (decoded + n) m
unfolding validate_runs
validate_runs-step payload i offset decoded n offset' m h b = rw h (ground arith)

decode_runs-step :
    (payload : Bytes) (offset offset' n m : ℕ) (v : Option ℤ) (rows : List (Option ℤ))
    → read_run payload offset ≡ (v, n, offset')
    → decode_runs payload offset (suc m) rows
      ≡ decode_runs payload offset' m (rows ++ replicate n v)
unfolding decode_runs
decode_runs-step payload offset offset' n m v rows h =
    ap (λ (r : Option ℤ × ℕ × ℕ). decode_runs payload r.2 m (rows ++ replicate r.1 r.0)) h

pub validate_runs-encode_all :
    (pre : Bytes) (i decoded : ℕ) (rs : Runs)
    → AllRuns rs
    → decoded + run_rows rs ≤ u64_max
    → length pre + length (encode_all rs) ≤ u64_max
    → validate_runs (pre ++ encode_all rs) i (length pre) decoded (length rs)
      ≡ ok (decoded + run_rows rs, length pre + length (encode_all rs))
unfolding validate_runs
validate_runs-encode_all pre i decoded [] a few fits =
    ap₂ (λ x y. ok (x, y)) (omega arith) (omega arith)
validate_runs-encode_all pre i decoded ((v, n) ∷ rs) a few fits =
    let rest = encode_all rs in
    let payload = pre ++ (encode_run v n ++ rest) in
    let size : length (encode_run v n ++ rest) ≡ run_len v + length rest =
      omega (arith, length-append (encode_run v n) rest, length-encode_run v n) in
    let step : run_end payload i (length pre) ≡ ok (n, length pre + run_len v) =
      run_end-reads payload i (length pre) n v (get_run_tag pre rest v n)
        (read_run_length pre rest v n (omega arith)) a.0
        (omega (arith, length-append pre (encode_run v n ++ rest)))
        (omega (arith, length-append pre (encode_run v n ++ rest))) in
    let next =
      rw (split_run pre v n rs, length-split_run pre v n) at
        (validate_runs-encode_all (pre ++ encode_run v n) (i + 1) (decoded + n) rs a.2 (omega arith)
          (omega (arith, length-split_run pre v n))) in
    validate_runs-step payload i (length pre) decoded n (length pre + run_len v) (length rs) step
      (omega arith)
    ∙ next
    ∙ ap₂ (λ x y. ok (x, y)) (omega arith) (omega arith)

pub decode_runs-encode_all :
    (pre : Bytes) (rs : Runs) (rows : List (Option ℤ))
    → AllRuns rs
    → run_rows rs ≤ u64_max
    → decode_runs (pre ++ encode_all rs) (length pre) (length rs) rows ≡ rows ++ expand rs
unfolding decode_runs
decode_runs-encode_all pre [] rows a few = sym (append-nil rows)
decode_runs-encode_all pre ((v, n) ∷ rs) rows a few =
    decode_runs-step (pre ++ (encode_run v n ++ encode_all rs)) (length pre)
      (length pre + run_len v) n (length rs) v rows
      (read_run-encode_run pre (encode_all rs) v n (omega arith) a.1)
    ∙ (rw (split_run pre v n rs, length-split_run pre v n) at
          (decode_runs-encode_all (pre ++ encode_run v n) rs (rows ++ replicate n v) a.2
            (omega arith))
        ∙ append_assoc rows (replicate n v) (expand rs))
