-- ===== src/Auth/Import/Csv.antt =====
-- `parseCSV` and `validateHeader` of auth-service/internal/user/service.go.
use seta_training.Prelude.{ℕ, ◌+◌, String, not, Option, none, some, List, [], ◌∷◌, if◌then◌else◌}
use seta_training.Auth.Import.Trim.{trim_space, equal_fold}

pub record CsvRow : Type 0 where
  pub line_no : ℕ
  pub username : String
  pub email : String
  pub password : String
  pub role : String

-- What `reader.Read()` gives before the end of the file. The reader has been told to want four fields.
pub data Read : Type 0 where
  fields : (first second third fourth : String) → Read
  failed : (reason : String) → Read

pub data CsvError : Type 0 where
  -- `read header: …`, which an empty file leads to, too
  no_header : CsvError
  wrong_column : (number : ℕ) → CsvError
  bad_line : (number : ℕ) → CsvError

-- `none`, or the number of the first column that is not as expected.
unfoldable pub validate_header : String → String → String → String → Option ℕ
unfolding trim_space equal_fold
validate_header a b c d =
    if not (equal_fold (trim_space a) "username")
    then some 1
    else if not (equal_fold (trim_space b) "email")
    then some 2
    else if not (equal_fold (trim_space c) "password")
    then some 3
    else if not (equal_fold (trim_space d) "role")
    then some 4
    else none

pub data Parsed : Type 0 where
  rows : List CsvRow → Parsed
  error : CsvError → Parsed

abbrev pub and_row : CsvRow → Parsed → Parsed
and_row r (rows rs) = rows (r ∷ rs)
and_row r (error e) = error e

-- The loop over the lines behind the header. The password is not trimmed.
unfoldable pub parse_lines : ℕ → List Read → Parsed
unfolding trim_space
parse_lines line [] = rows []
parse_lines line (fields a b c d ∷ reads) =
    and_row
      (record {
        line_no = line;
        username = trim_space a;
        email = trim_space b;
        password = c;
        role = trim_space d;
      })
      (parse_lines (line + 1) reads)
parse_lines line (failed reason ∷ reads) = error (bad_line line)

abbrev pub headed : Option ℕ → List Read → Parsed
headed none reads = parse_lines 2 reads
headed (some n) reads = error (wrong_column n)

unfoldable pub parse_csv : List Read → Parsed
unfolding validate_header
parse_csv [] = error no_header
parse_csv (failed reason ∷ reads) = error no_header
parse_csv (fields a b c d ∷ reads) = headed (validate_header a b c d) reads
