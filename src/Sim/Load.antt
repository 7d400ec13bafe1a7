-- ===== src/Sim/Load.antt =====
-- The dataset of a simulation: from the browser's database as CSV, else from the server as binary.
pub mod Binary
use vidhi_trading_platform.Prelude.{
  ℕ, zero, suc, ◌+◌, ◌-◌, ◌*◌, Bool, ◌||◌, false, String, ◌+++◌, len, slice, str_eq, ends_with,
  includes, split, replace_all, trim, letters, to_lower, List, [], ◌∷◌, length, replicate,
  get_elem?, Option, none, some, ltb, if◌then◌else◌, ℤ, pos, negsuc,
}
use vidhi_trading_platform.Client.Http.{Response, ok, Result, value, thrown}

-- `normalizeDatasetFilename`
unfoldable pub normalize_dataset_filename : String → ℕ → String
normalize_dataset_filename key max_ticks =
    if str_eq key ""
    then (if ltb 100_000 max_ticks then "eval_1m.bin" else "public_99k.bin")
    else (if ends_with key ".bin"
        then key
        else (if ends_with key ".csv" then slice key 0 (len key - 4) +++ ".bin" else key))

-- What the code reads of a binary file: its first eight bytes as a text, the integer after them, its
-- length, and the doubles at its offsets, in units.
pub record BinaryFile : Type 0 where
  pub magic : String
  pub count : ℤ
  pub byte_length : ℕ
  pub float64 : ℕ → ℤ

abbrev pub dataset_magic : String
dataset_magic = "VIDHI\0\0\0"

abbrev pub tick_record_bytes : ℕ
tick_record_bytes = 88

-- The loop of `parseVidhiBinary` from an offset, over `n` prices of an array of zeros.
unfoldable pub read_prices : ℕ → ℕ → BinaryFile → List ℤ
read_prices zero offset f = []
read_prices (suc n) offset f =
    let rest = read_prices n (offset + tick_record_bytes) f in
    if ltb f.byte_length (offset + tick_record_bytes)
    then replicate (suc n) (pos 0)
    else f.float64 (offset + 24) ∷ rest

-- `parseVidhiBinary`. `getBigInt64` throws before the end of its eight bytes, and an array has no
-- negative length.
unfoldable pub parse_vidhi_binary : BinaryFile → Result (List ℤ)
unfolding read_prices
parse_vidhi_binary f =
    let prices : Result (List ℤ) = elim f.count [
      | pos n ↦ value (read_prices n 16 f)
      | negsuc n ↦ thrown "Invalid typed array length"
    ] in
    if str_eq f.magic dataset_magic
    then (if ltb f.byte_length 16
        then thrown "Offset is outside the bounds of the DataView"
        else prices)
    else thrown "Invalid VIDHI dataset magic"

-- `cols.findIndex(...)`, `none` for -1.
unfoldable pub price_column : List String → Option ℕ
price_column [] = none
price_column (c ∷ cs) =
    let rest = price_column cs in
    if includes c "mid" || (includes c "fair" || includes c "price")
    then some 0
    else elim rest [ none ↦ none | some i ↦ some (suc i) ]

-- `midIdx`
unfoldable pub mid_column : String → ℕ
unfolding price_column split replace_all to_lower
mid_column header =
    let cols = split "," (replace_all ";" "," (to_lower letters header)) in
    elim (price_column cols) [ some i ↦ i | none ↦ if ltb 2 (length cols) then 3 else 0 ]

-- The rows after the header; `parse_float` gives nothing for NaN, as for a column that is not there.
unfoldable pub csv_rows : (String → Option ℤ) → ℕ → List String → List ℤ
unfolding split replace_all
csv_rows parse_float column [] = []
csv_rows parse_float column (line ∷ lines) =
    let rest = csv_rows parse_float column lines in
    elim (get_elem? (split "," (replace_all ";" "," line)) column) [
      | none ↦ rest
      | some cell ↦ elim (parse_float cell) [ none ↦ rest | some price ↦ price ∷ rest ]
    ]

abbrev pub rows_of : (String → Option ℤ) → List String → List ℤ
rows_of parse_float [] = []
rows_of parse_float (header ∷ lines) = csv_rows parse_float (mid_column header) lines

unfoldable pub parse_csv : (String → Option ℤ) → String → List ℤ
unfolding csv_rows mid_column split trim
parse_csv parse_float csv = rows_of parse_float (split "\n" (trim csv))

-- What the loading meets: how JavaScript reads and encodes texts, the base that the build was given, the
-- database, and the server.
pub record Sources : Type 0 where
  pub parse_float : String → Option ℤ
  pub encode : String → String
  pub alb_base : String
  pub get_dataset : String → Result (Option String)
  pub fetch : String → Response BinaryFile

-- `loadDatasetFromBackend`, with `null` for an error.
unfoldable pub load_dataset_from_backend : Sources → String → ℕ → Option (List ℤ)
unfolding parse_vidhi_binary normalize_dataset_filename
load_dataset_from_backend o key max_ticks =
    let url =
      o.alb_base +++ "/api/datasets/" +++ o.encode (normalize_dataset_filename key max_ticks) in
    elim (o.fetch url) [
      | ok f ↦ elim (parse_vidhi_binary f) [ value prices ↦ some prices | thrown m ↦ none ]
      | _ ↦ none
    ]

-- `csvData`: nothing where there is no key, no entry, an empty one, or an error.
abbrev pub csv_of : Result (Option String) → Option String
csv_of (value (some csv)) = if str_eq csv "" then none else some csv
csv_of (value none) = none
csv_of (thrown m) = none

-- `loadDataset`
unfoldable pub load_dataset : Sources → String → ℕ → Option (List ℤ)
unfolding load_dataset_from_backend parse_csv
load_dataset o key max_ticks = elim (if str_eq key "" then none else csv_of (o.get_dataset key)) [
  | some csv ↦ some (parse_csv o.parse_float csv)
  | none ↦ load_dataset_from_backend o key max_ticks
]
