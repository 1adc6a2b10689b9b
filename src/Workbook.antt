-- ===== src/Workbook.antt =====
-- The workbook that an audit reads, and how the per-function engines turn the rows of a sheet into
-- objects. Each engine file holds its own copy of `isBlankRow`, `rowsToObjects` and `textValue`; the
-- copies are the same text.
pub mod Rows
pub mod SuffixRows
use ses.Base.{ℕ, String, Bool, true, false, ◌&&◌, Option, none, some, List, [], ◌∷◌, filter}
use ses.Base.Dict.{Dict}
use ses.Js.{Value}

pub data SheetStatus : Type 0 where
  valid duplicate invalid : SheetStatus

-- The fields that audits read.
pub record SheetInfo : Type 0 where
  pub name : String
  pub status : SheetStatus
  pub is_selected : Bool
  pub header_row_index : Option ℕ
  pub normalized_headers : Option (List String)

pub record WorkbookFile : Type 0 where
  pub id : String
  pub sheets : List SheetInfo
  pub raw_data : Dict (List (List Value))

abbrev is_valid : SheetStatus → Bool
is_valid valid = true
is_valid _ = false

-- `sheet.status === 'valid' && sheet.isSelected`.
abbrev pub is_audited : SheetInfo → Bool
is_audited sheet = is_valid sheet.status && sheet.is_selected

-- A row object: a JavaScript object whose keys are headers.
abbrev pub RowObject : Type 0
RowObject = Dict Value

pub record EvaluatedRow : Type 0 where
  pub row : RowObject
  pub row_index : ℕ
