-- ===== src/Utils/Files.antt =====
-- utils/tool.go: the readers of csv and text files, which share the package's mutex. The state is
-- whether the mutex is held; a file is `none` where it cannot be opened.
use yaice.Base.{
  ℕ, zero, suc, ◌+◌, ◌-◌, ◌≡◌, refl, ap, ◌∙◌, Bool, true, false, List, [], ◌∷◌, ◌++◌, Option, none,
  some, arith,
}
use mathlib.Core.List.{append-nil, append_assoc}
use yaice.Base.Tests.{ltb, lt→ltb, le→ltb_false, if◌then◌else◌}
use yaice.Base.Lists.{drop}
use yaice.Utils.Tool.{Run, returns, blocks, Text}

-- What `data.Read` comes to in turn: records, then the end of the file or an error.
pub data Csv : Type 0 where
  eof : Csv
  failure : Csv
  row : List Text → Csv → Csv

-- The loop of `ReadCSVData`: `none` where a record cannot be read.
pub csv_loop : Csv → ℕ → List (List Text) → Option (List (List Text))
csv_loop eof line_number data_records = some data_records
csv_loop failure line_number data_records = none
csv_loop (row record' rest) line_number data_records =
    csv_loop rest (line_number + 1)
      (if ltb 2 line_number then data_records ++ (record' ∷ []) else data_records)

-- The mutex is released on the way out of the loop at the end of the file, and on no other.
pub read_csv_data : Option Csv → Bool → Run (Bool × List (List Text))
read_csv_data file true = blocks
read_csv_data none false = returns (true, [])
read_csv_data (some records) false = elim (csv_loop records 0 []) [
  | none ↦ returns (true, [])
  | some data_records ↦ returns (false, data_records)
]

-- `ReadTXTData`, over the lines of the file.
pub read_txt_data : Option (List Text) → Bool → Run (Bool × List Text)
read_txt_data file true = blocks
read_txt_data none false = returns (true, [])
read_txt_data (some lines) false = returns (false, lines)

-- A file that is read to its end, with these records.
abbrev pub csv : List (List Text) → Csv
csv [] = eof
csv (r ∷ rs) = row r (csv rs)

-- A file whose reading fails behind these records.
abbrev pub broken_csv : List (List Text) → Csv
broken_csv [] = failure
broken_csv (r ∷ rs) = row r (broken_csv rs)

csv_loop-csv :
    (k n : ℕ) (rs out : List (List Text))
    → k ≡ 3 - n
    → csv_loop (csv rs) n out ≡ some (out ++ drop k rs)
unfolding csv_loop
csv_loop-csv zero n [] out e = rw append-nil refl
csv_loop-csv (suc k) n [] out e = rw append-nil refl
csv_loop-csv zero n (r ∷ rs) out e =
    rw (lt→ltb 2 n (omega arith), csv_loop)
      (csv_loop-csv zero (n + 1) rs (out ++ (r ∷ [])) (omega arith)
        ∙ ap some (append_assoc out (r ∷ []) rs))
csv_loop-csv (suc k) n (r ∷ rs) out e =
    rw (le→ltb_false n 2 (omega arith), csv_loop) (csv_loop-csv k (n + 1) rs out (omega arith))

csv_loop-broken_csv :
    (rs : List (List Text)) (n : ℕ) (out : List (List Text)) → csv_loop (broken_csv rs) n out ≡ none
unfolding csv_loop
csv_loop-broken_csv [] n out = refl
csv_loop-broken_csv (r ∷ rs) n out = csv_loop-broken_csv rs (n + 1) _

-- A file that is read to its end gives its records from the fourth on, and the mutex is free again.
pub read_csv_data-csv :
    (rs : List (List Text)) → read_csv_data (some (csv rs)) false ≡ returns (false, drop 3 rs)
unfolding read_csv_data
read_csv_data-csv rs = rw (csv_loop-csv 3 0 rs [] refl, read_csv_data)

-- After a csv file that cannot be opened, or whose reading fails behind any records, the mutex stays
-- held: the call gives no records, and every later call of either reader waits for ever.
pub read_csv_data-broken_csv :
    (rs : List (List Text)) (file : Option Csv) (text : Option (List Text))
    → (read_csv_data none false ≡ returns (true, []))
      × (read_csv_data (some (broken_csv rs)) false ≡ returns (true, []))
      × (read_csv_data file true ≡ blocks)
      × (read_txt_data text true ≡ blocks)
unfolding read_csv_data read_txt_data
read_csv_data-broken_csv rs file text =
    (refl, rw (csv_loop-broken_csv rs 0 [], read_csv_data), refl, refl)
