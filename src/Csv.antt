-- ===== src/Csv.antt =====
-- io::CSVReader as its users see it: what the calls of read_row give, one after the other. The
-- reader itself is a library, so a file is a parameter.
use halo_keyboard.Prelude.{ℕ, suc, Option, none, some}
use halo_keyboard.System.{Failure, Result, ok, err, undefined}

-- A row, the end of the file, or an exception, of the constructor and of read_header too.
pub data Csv (R : Type 0) : Type 0 where
  finished : Csv R
  failed : Failure → Csv R
  row : R → Csv R → Csv R

abbrev pub rows : {R : Type 0} → Csv R → ℕ
rows finished = 0
rows (failed e) = 0
rows (row r csv) = suc (rows csv)

-- A variable after read_row: the field of the row, or the old value if the column is missing.
abbrev pub assigned : {A : Type 0} → Option A → A → A
assigned none old = old
assigned (some new) old = new

-- The same for a variable that has no value yet.
abbrev pub assigned_first : {A : Type 0} → Option A → Option A → Option A
assigned_first none old = old
assigned_first (some new) old = some new

-- Undefined behaviour where there is no value: a variable that was never assigned, or a conversion
-- to int of a number that does not fit.
abbrev pub defined : {A : Type 0} → Option A → Result A
defined none = err undefined
defined (some a) = ok a
