-- ===== src/Serving.antt =====
-- `showPhotoHandler` and `listTeamPhotosHandler` of go/cmd/api/photos.go.
pub mod Laws
use foto.Base.{
  Bool, true, false, not, Option, none, some, Bytes, codes, is_empty, List, if◌then◌else◌, Result,
  ok, err,
}
use foto.Base.Text.{trim_space}
use foto.Blob.Store.{Store}
use foto.Blob.Store as Blobs
use foto.Photo.Sql.{Formats}
use foto.Photo.Query.{QueryError, Reader, Photo, servable, by_team}
use foto.Photo.Query as Query

-- The response: 503, 404, 500, or 200 with a content type and, for a GET, the bytes.
pub data Response : Type 0 where
  unavailable : Response
  missing : Response
  failed : Response
  shown : Bytes → Option Bytes → Response

-- Whether an error is the package's `ErrNotFound`.
abbrev pub is_unknown : QueryError → Bool
is_unknown Query.not_found = true
is_unknown Query.no_reader = false
is_unknown Query.query_failed = false

abbrev pub is_gone : Blobs.StoreError → Bool
is_gone Blobs.not_found = true
is_gone Blobs.cancelled = false
is_gone Blobs.invalid_ref = false
is_gone Blobs.io = false

module _ (formats : Formats) (S : Store) (env : S.Env) where
  -- From the content type on.
  unfoldable pub serve : Bytes → Bytes → Bool → S.State → Response
  serve kind ref head s = elim (S.get env ref s) [
    | err e ↦ if is_gone e then missing else failed
    | ok content ↦
        shown (if is_empty kind then codes "image/jpeg" else kind)
          (if head then none else some content)
  ]

  -- On the table, which is none if it is nil, and the `ref` of the route.
  unfoldable pub show_photo_handler :
      Option (Option Reader) → Bool → Bytes → Bool → S.State → Response
  unfolding serve
  show_photo_handler none has_blobs param head s = unavailable
  show_photo_handler (some table) has_blobs param head s =
      if not has_blobs then unavailable else (elim (servable formats table (trim_space param)) [
        | err e ↦ if is_unknown e then missing else failed
        | ok kind ↦ serve kind (trim_space param) head s
      ])

-- The answer of `listTeamPhotosHandler`: 503, 404, 500, or 200 with the season, the team and its photos.
pub data Listing : Type 0 where
  unlisted : Listing
  no_team : Listing
  broken : Listing
  listed : Bytes → Bytes → List Photo → Listing

-- On the table, the season and the `teamId` of the route.
unfoldable pub list_team_photos_handler : Formats → Option (Option Reader) → Bytes → Bytes → Listing
list_team_photos_handler formats none event_year param = unlisted
list_team_photos_handler formats (some table) event_year param =
    elim (by_team formats table event_year (trim_space param)) [
      | err e ↦ if is_unknown e then no_team else broken
      | ok photos ↦ listed event_year (trim_space param) photos
    ]
