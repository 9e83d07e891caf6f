-- ===== src/Sources/Adapter.antt =====
-- src/trader/sources/adapter.py: what loads the posts of a source, and the registry of such.
use Prim.Native.String.{◌++◌}
use kyo_trading_tool.Prelude.{ℕ, List, [], ◌∷◌, String, str_eq, if◌then◌else◌}
use kyo_trading_tool.Domain.Result.{Result, ok, err}
use kyo_trading_tool.Domain.Models.{Mention}

-- one entry of `first_errors`: the index of the record and the field
pub record FieldError : Type 0 where
  pub index : ℕ
  pub field : String

pub record IngestError : Type 0 where
  pub message : String
  pub invalid_count : ℕ
  pub first_errors : List FieldError

-- an error with no record at fault
abbrev pub boundary_error : String → IngestError
boundary_error message = record { message = message; invalid_count = 0; first_errors = [] }

-- what an adapter reads is in `S`: the files of a directory
pub record SourceAdapter (S : Type 0) : Type 0 where
  pub source_id : String
  pub load : S → Result IngestError (List Mention)

-- `adapters`, a dict by `source_id`
abbrev pub AdapterRegistry : Type 0 → Type 0
AdapterRegistry S = List (SourceAdapter S)

unfoldable pub register : {S : Type 0} → SourceAdapter S → AdapterRegistry S → AdapterRegistry S
register adapter [] = adapter ∷ []
register adapter (a ∷ rest) =
    if str_eq a.source_id adapter.source_id then adapter ∷ rest else a ∷ register adapter rest

unfoldable pub find_adapter :
    {S : Type 0} → AdapterRegistry S → String → Result IngestError (SourceAdapter S)
find_adapter [] source_id = err (boundary_error ("unknown source '" ++ (source_id ++ "'")))
find_adapter (a ∷ rest) source_id =
    if str_eq a.source_id source_id then ok a else find_adapter rest source_id
