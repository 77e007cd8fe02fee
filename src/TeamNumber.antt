-- ===== src/TeamNumber.antt =====
-- `TeamIDByNumber` of go/internal/teamnumber/resolver.go. The database is a parameter: it answers the
-- query on a year and a number with the ids of the rows it yields, two at most, or fails with an error.
pub mod Laws
use foto.Base.{Option, none, some, List, [], ◌∷◌, Bytes, is_empty, if◌then◌else◌, Result, ok, err}
use foto.Base.Text.{trim_space}

pub data LookupError : Type 0 where
  no_reader : LookupError
  empty_year : LookupError
  team_not_found : LookupError
  ambiguous : LookupError
  query_failed : LookupError

abbrev pub Reader : Type 0
Reader = Bytes → Bytes → Option (List Bytes)

-- The `switch` on the number of ids found.
unfoldable pub pick : List Bytes → Result LookupError Bytes
pick [] = err team_not_found
pick (id ∷ []) = if is_empty (trim_space id) then err team_not_found else ok id
pick (id ∷ other ∷ ids) = err ambiguous

unfoldable pub team_id_by_number : Option Reader → Bytes → Bytes → Result LookupError Bytes
unfolding pick
team_id_by_number none year number = err no_reader
team_id_by_number (some query) year number =
    if is_empty (trim_space year)
    then err empty_year
    else if is_empty (trim_space number)
    then err team_not_found
    else elim (query (trim_space year) (trim_space number)) [
      | none ↦ err query_failed
      | some found ↦ pick found
    ]
