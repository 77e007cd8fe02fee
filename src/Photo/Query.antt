-- ===== src/Photo/Query.antt =====
-- Reads: `Servable` and `ByTeam` of go/nathejk/table/photo/query.go. The database is a parameter.
pub mod Laws
use foto.Base.{
  ℕ, Bool, true, false, not, ◌||◌, Option, none, some, List, [], ◌∷◌, Bytes, bytes_eq, is_empty,
  if◌then◌else◌, Result, ok, err, ◌>>=◌,
}
use foto.Base.Int.{ℤ, pos, leb_ℤ}
use foto.Photo.Messages.{Time, PhotoRendition}
use foto.Photo.Subject.{valid_photo_ref}
use foto.Photo.Sql.{Formats, decode_renditions}

pub data QueryError : Type 0 where
  no_reader : QueryError
  not_found : QueryError
  query_failed : QueryError

-- `Photo`: what handlers send out. It has no original.
pub record Photo : Type 0 where
  pub year : Bytes
  pub team_id : Bytes
  pub team_number : Bytes
  pub kind : Bytes
  pub attention : Bool
  pub ref : Bytes
  pub content_type : Bytes
  pub bytes : ℤ
  pub width : ℤ
  pub height : ℤ
  pub thumb_ref : Bytes
  pub renditions : List PhotoRendition
  pub captured_at : Time

-- The columns that `ByTeam` selects: a photo without its renditions, their text, and the time.
pub record Selected : Type 0 where
  pub row : Photo
  pub encoded : Bytes

-- What the database answers to the three queries; `none` is an error, of the query, a scan or the rows.
-- `display` has the content type of a row with the ref, if there is one.
pub record Reader : Type 0 where
  pub by_team : Bytes → Bytes → Option (List Selected)
  pub display : Bytes → Option (Option Bytes)
  pub candidates : Bytes → Option (List Bytes)
  pub originals : ℕ → ℤ → Option (List Bytes)

-- The rendition of a list that has the ref, by its content type.
unfoldable pub find_rendition : Bytes → List PhotoRendition → Option Bytes
find_rendition ref [] = none
find_rendition ref (r ∷ renditions) =
    let rest = find_rendition ref renditions in
    if bytes_eq r.ref ref then some r.content_type else rest

module _ (formats : Formats) where
  -- The loop over the candidate rows.
  unfoldable pub find_candidate : Bytes → List Bytes → Option Bytes
  unfolding find_rendition
  find_candidate ref [] = none
  find_candidate ref (text ∷ texts) = elim (find_rendition ref (decode_renditions formats text)) [
    | some kind ↦ some kind
    | none ↦ find_candidate ref texts
  ]

  unfoldable pub servable : Option Reader → Bytes → Result QueryError Bytes
  unfolding find_candidate
  servable none ref = err no_reader
  servable (some reader) ref =
      if not (valid_photo_ref ref) then err not_found else (elim (reader.display ref) [
        | none ↦ err query_failed
        | some (some kind) ↦ ok kind
        | some none ↦ elim (reader.candidates ref) [
          | none ↦ err query_failed
          | some texts ↦ elim (find_candidate ref texts) [
            | none ↦ err not_found
            | some kind ↦ ok kind
          ]
        ]
      ])

  -- The loop over the rows.
  unfoldable pub photos_of : List Selected → List Photo
  photos_of [] = []
  photos_of (s ∷ rows) =
      record s.row { renditions = decode_renditions formats s.encoded } ∷ photos_of rows

  unfoldable pub by_team : Option Reader → Bytes → Bytes → Result QueryError (List Photo)
  unfolding photos_of
  by_team none year team_id = err no_reader
  by_team (some reader) year team_id =
      if is_empty year || is_empty team_id
      then err not_found
      else (elim (reader.by_team year team_id) [
        | none ↦ err query_failed
        | some rows ↦ ok (photos_of rows)
      ])

-- A limit that is not positive is 100.
unfoldable pub original_refs : Option Reader → ℕ → ℤ → Result QueryError (List Bytes)
original_refs none before limit = err no_reader
original_refs (some reader) before limit =
    elim (reader.originals before (if leb_ℤ limit (pos 0) then pos 100 else limit)) [
      | none ↦ err query_failed
      | some refs ↦ ok refs
    ]
