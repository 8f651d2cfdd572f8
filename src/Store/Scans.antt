-- ===== src/Store/Scans.antt =====
-- internal/store/id.go: the texts of the times; and what reading a row can come to.
pub mod Tasks
pub mod Parts
pub mod RoundTrip
use ermine_tq.Prelude.{ℕ, ◌*◌, ◌<◌, String, ◌≡◌, Option, none, some, List, [], ◌∷◌}
use ermine_tq.Store.Models.{Detail, second, fmt_db_time}

-- The functions of the packages time and encoding/json that the code calls. A time that a parser
-- returns is in UTC.
pub record Formats : Type 0 where
  pub layout_text : ℕ → String  -- t.UTC().Format(dbTimeLayout)
  pub read_layout : String → Option ℕ  -- time.ParseInLocation(dbTimeLayout, s, time.UTC)
  pub nano_text : ℕ → String  -- t.Format(time.RFC3339Nano)
  pub read_nano : String → Option ℕ  -- time.Parse(time.RFC3339Nano, s)
  pub read_rfc3339 : String → Option ℕ  -- time.Parse(time.RFC3339, s)
  pub marshal : List String → String
  pub unmarshal : String → Option (List String)
  pub marshal_detail : Detail → String

-- The first instant of the year 10000: both layouts have four digits for a year.
abbrev pub end_of_years : ℕ
end_of_years = 315_537_897_600 * second

-- A layout reads what it wrote of an instant before the year 10000, as far as it wrote it; the
-- first layout wants a space between date and time, where RFC 3339 has a T.
pub record IsLawful (f : Formats) : Type 0 where
  pub read-layout :
      (t : ℕ) → t < end_of_years → f.read_layout (f.layout_text t) ≡ some (fmt_db_time t)
  pub layout_not_nano : (t : ℕ) → t < end_of_years → f.read_layout (f.nano_text t) ≡ none
  pub read-nano : (t : ℕ) → t < end_of_years → f.read_nano (f.nano_text t) ≡ some t
  pub unmarshal-marshal : (xs : List String) → f.unmarshal (f.marshal xs) ≡ some xs

-- `no_rows` is sql.ErrNoRows; an unreadable column is named.
pub data ScanError : Type 0 where
  no_rows scan_failed : ScanError
  unreadable : String → ScanError

-- The code takes any text as a status. `unnamed` is a text that none of its constants has.
pub data Scanned {ℓ} (A : Type ℓ) : Type ℓ where
  found : A → Scanned A
  failed : ScanError → Scanned A
  unnamed : Scanned A

infixl 5 ◌>>=◌
abbrev pub ◌>>=◌ {ℓ κ} : {A : Type ℓ} {B : Type κ} → Scanned A → (A → Scanned B) → Scanned B
◌>>=◌ (found a) k = k a
◌>>=◌ (failed e) k = failed e
◌>>=◌ unnamed k = unnamed

abbrev pub or_unnamed {ℓ} : {A : Type ℓ} → Option A → Scanned A
or_unnamed none = unnamed
or_unnamed (some a) = found a

-- The error of a column that cannot be read.
abbrev pub or_unreadable {ℓ} : {A : Type ℓ} → String → Option A → Scanned A
or_unreadable column none = failed (unreadable column)
or_unreadable column (some a) = found a

abbrev pub or_try {ℓ} : {A : Type ℓ} → Option A → Option A → Option A
or_try none other = other
or_try (some a) other = some a

-- What a pointer to a parsed time comes to: absent for NULL.
abbrev pub parse_null : (String → Option ℕ) → Option String → Option (Option ℕ)
parse_null parse none = some none
parse_null parse (some s) = elim (parse s) [ none ↦ none | some t ↦ some (some t) ]

module _ (f : Formats) where
  unfoldable pub parse_db_time : String → Option ℕ
  parse_db_time s = or_try (f.read_layout s) (or_try (f.read_nano s) (f.read_rfc3339 s))

  unfoldable pub parse_null_db_time : Option String → Option (Option ℕ)
  unfolding parse_db_time
  parse_null_db_time ns = parse_null parse_db_time ns

-- The loop of a listing over the rows of its query: the first row that cannot be read ends it. An error of
-- the iteration (rows.Err) is a last row whose scan fails.
unfoldable pub scan_rows {ℓ κ} :
    {C : Type ℓ} {A : Type κ} → (Scanned C → Scanned A) → List (Scanned C) → Scanned (List A)
scan_rows scan [] = found []
scan_rows scan (row ∷ rows) =
    let rest = scan_rows scan rows in scan row >>= λ a. rest >>= λ more. found (a ∷ more)

-- How the driver hands out a column declared DATETIME: the text as it was written, or a time, which
-- the package database/sql formats as RFC3339Nano when it is scanned into a text.
pub data Shown : Type 0 where
  as_text as_time : Shown

unfoldable pub shown_time : Formats → Shown → ℕ → String
shown_time f as_text t = f.layout_text t
shown_time f as_time t = f.nano_text (fmt_db_time t)

abbrev pub shown_null : Formats → Shown → Option ℕ → Option String
shown_null f show none = none
shown_null f show (some t) = some (shown_time f show t)
