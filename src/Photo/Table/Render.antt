-- ===== src/Photo/Table/Render.antt =====
-- The text of a statement, as `handlePhotographed` and `handlePurged` of
-- go/nathejk/table/photo/table.go format it.
pub mod Skeleton
use foto.Base.{Bool, true, false, List, [], ◌∷◌, ◌++◌, Bytes, codes}
use foto.Base.Decimal.{decimal_ℤ}
use foto.Photo.Sql.{Formats, quote, datetime}
use foto.Photo.Table.{Row, Statement, upsert, delete_refs}
use foto.Base.Int.{ℤ}
use foto.Photo.Messages.{Time}
use Prim.Native.String.{String}

abbrev pub bool_to_int : Bool → Bytes
bool_to_int true = codes "1"
bool_to_int false = codes "0"

-- What the format's `%s` and `%d` stand for.
pub data Value : Type 0 where
  text : Bytes → Value
  number : ℤ → Value
  flag : Bool → Value
  moment : Time → Value

unfoldable pub write : Formats → Value → Bytes
write formats (text s) = quote s
write formats (number n) = decimal_ℤ n
write formats (flag b) = bool_to_int b
write formats (moment t) = datetime formats t

-- The values behind the text in front of them.
unfoldable pub columns : Row → List (String × Value)
columns r =
    ("INSERT INTO photo SET year=", text r.year)
    ∷ (", teamId=", text r.team_id)
    ∷ (", ref=", text r.ref)
    ∷ (", type=", text r.kind)
    ∷ (", teamNumber=", text r.team_number)
    ∷ (", attention=", flag r.attention)
    ∷ (", contentType=", text r.content_type)
    ∷ (", bytes=", number r.bytes)
    ∷ (", width=", number r.width)
    ∷ (", height=", number r.height)
    ∷ (", renditions=", text r.renditions)
    ∷ (", thumbRef=", text r.thumb_ref)
    ∷ (", originalRef=", text r.original.ref)
    ∷ (", originalContentType=", text r.original.content_type)
    ∷ (", originalBytes=", number r.original.bytes)
    ∷ (", originalWidth=", number r.original.width)
    ∷ (", originalHeight=", number r.original.height)
    ∷ (", orientation=", number r.original.orientation)
    ∷ (", sourceUrl=", text r.source_url)
    ∷ (", sourceKind=", text r.source_kind)
    ∷ (", capturedAt=", moment r.captured_at)
    ∷ []

-- What the statement does where the key is taken: every column outside the key is replaced.
abbrev pub on_duplicate : String
on_duplicate =
    " ON DUPLICATE KEY UPDATE teamNumber=VALUES(teamNumber), attention=VALUES(attention), contentType=VALUES(contentType), bytes=VALUES(bytes), width=VALUES(width), height=VALUES(height), renditions=VALUES(renditions), thumbRef=VALUES(thumbRef), originalRef=VALUES(originalRef), originalContentType=VALUES(originalContentType), originalBytes=VALUES(originalBytes), originalWidth=VALUES(originalWidth), originalHeight=VALUES(originalHeight), orientation=VALUES(orientation), sourceUrl=VALUES(sourceUrl), sourceKind=VALUES(sourceKind), capturedAt=VALUES(capturedAt)"

unfoldable pub concat_columns : (Value → Bytes) → List (String × Value) → Bytes → Bytes
concat_columns show [] end = end
concat_columns show (c ∷ cs) end = codes c.0 ++ (show c.1 ++ concat_columns show cs end)

-- `strings.Join(refs, ",")` of the quoted refs.
unfoldable pub quoted_refs : List Bytes → Bytes
quoted_refs [] = []
quoted_refs (r ∷ []) = quote r
quoted_refs (r ∷ s ∷ refs) = quote r ++ b',' ∷ quoted_refs (s ∷ refs)

unfoldable pub render : Formats → Statement → Bytes
unfolding columns concat_columns quoted_refs write
render formats (upsert row) = concat_columns (write formats) (columns row) (codes on_duplicate)
render formats (delete_refs year team_id refs) =
    codes "DELETE FROM photo WHERE year="
    ++ (quote year
        ++ (codes " AND teamId="
            ++ (quote team_id ++ (codes " AND ref IN (" ++ (quoted_refs refs ++ codes ")")))))
