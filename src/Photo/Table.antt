-- ===== src/Photo/Table.antt =====
-- The projection: `HandleMessage` and its handlers of go/nathejk/table/photo/table.go. What a handler
-- hands to `Writer.Consume` is a `Statement`, and `render` is its text.
pub mod Render
pub mod Rendition
pub mod Laws
use foto.Base.{
  ℕ, Bool, true, false, not, ◌&&◌, ◌||◌, Option, none, some, List, [], ◌∷◌, ◌++◌, map, Bytes, codes,
  is_empty, take, length, leb, ltb, if◌then◌else◌, Result, ok, err, ◌>>=◌,
}
use foto.Base.Int.{ℤ, pos, ltb_ℤ}
use foto.Base.Decimal.{decimal_ℤ}
use foto.Photo.Messages.{
  Time, PhotoRendition, PhotoOriginal, PhotoSource, PatruljePhotographed, PatruljePhotoPurged,
  no_original, no_source,
}
use foto.Photo.Subject.{
  Subject, subject_year, subject_team_id, subject_part, valid_photo_ref, photographed_verb,
  purged_verb, consume_pattern, match_pattern,
}
use foto.Photo.Sql.{Formats, encode_renditions}

pub data TableError : Type 0 where
  bad_body : TableError
  no_team : TableError
  no_year : TableError
  bad_ref : TableError
  bad_renditions : TableError

-- A row of the table `photo`, its columns in the order of the statement.
pub record Row : Type 0 where
  pub year : Bytes
  pub team_id : Bytes
  pub ref : Bytes
  pub kind : Bytes
  pub team_number : Bytes
  pub attention : Bool
  pub content_type : Bytes
  pub bytes : ℤ
  pub width : ℤ
  pub height : ℤ
  pub renditions : Bytes
  pub thumb_ref : Bytes
  pub original : PhotoOriginal
  pub source_url : Bytes
  pub source_kind : Bytes
  pub captured_at : Time

-- INSERT ... ON DUPLICATE KEY UPDATE of a row, and DELETE of some refs of a team in a year.
pub data Statement : Type 0 where
  upsert : Row → Statement
  delete_refs : Bytes → Bytes → List Bytes → Statement

-- A message: its subject, and what `Body` decodes its body to for either event.
pub record Message : Type 0 where
  pub subject : Subject
  pub photographed : Option PatruljePhotographed
  pub purged : Option PatruljePhotoPurged

unfoldable pub max_int : ℤ → ℤ → ℤ
max_int a b = if ltb_ℤ b a then a else b

-- A rendition without a name gets one from its longest edge.
unfoldable pub named : PhotoRendition → PhotoRendition
unfolding max_int
named r =
    if is_empty r.name
    then record r { name = codes "thumb" ++ decimal_ℤ (max_int r.width r.height) }
    else r

unfoldable pub valid_renditions : List PhotoRendition → List PhotoRendition
unfolding named
valid_renditions [] = []
valid_renditions (r ∷ renditions) =
    let rest = valid_renditions renditions in if valid_photo_ref r.ref then named r ∷ rest else rest

unfoldable pub edge_of : PhotoRendition → ℤ
unfolding max_int
edge_of r = max_int r.width r.height

-- `bestEdge == 0 || (edge > 0 && edge < bestEdge)`
unfoldable pub better_edge : ℤ → ℤ → Bool
better_edge edge best =
    (not (ltb_ℤ best (pos 0)) && not (ltb_ℤ (pos 0) best))
    || (ltb_ℤ (pos 0) edge && ltb_ℤ edge best)

-- The loop of `smallestRendition`, behind the first rendition.
unfoldable pub smallest_rendition : PhotoRendition → List PhotoRendition → PhotoRendition
unfolding better_edge edge_of
smallest_rendition best [] = best
smallest_rendition best (r ∷ renditions) =
    smallest_rendition (if better_edge (edge_of r) (edge_of best) then r else best) renditions

unfoldable pub thumb_ref_of : List PhotoRendition → Bytes
unfolding smallest_rendition
thumb_ref_of [] = []
thumb_ref_of (r ∷ renditions) = (smallest_rendition r renditions).ref

unfoldable pub truncate : Bytes → ℕ → Bytes
truncate s n = if leb (length s) n then s else take n s

-- An original whose ref is no content hash is left out.
unfoldable pub original_of : Option PhotoOriginal → PhotoOriginal
original_of none = no_original
original_of (some o) = if valid_photo_ref o.ref then o else no_original

abbrev pub source_of : Option PhotoSource → PhotoSource
source_of none = no_source
source_of (some s) = s

-- The body's field, or the subject's part where the body has none.
abbrev pub or_else : Bytes → Bytes → Bytes
or_else field part = if is_empty field then part else field

abbrev pub encoded : Option Bytes → Result TableError Bytes
encoded none = err bad_renditions
encoded (some text) = ok text

module _ (formats : Formats) where
  unfoldable pub photographed_row : Bytes → Bytes → PatruljePhotographed → Bytes → Row
  unfolding thumb_ref_of truncate original_of valid_renditions
  photographed_row year team_id body renditions = record {
    year = year;
    team_id = team_id;
    ref = body.ref;
    kind = body.kind;
    team_number = body.team_number;
    attention = body.attention;
    content_type = body.content_type;
    bytes = body.bytes;
    width = body.width;
    height = body.height;
    renditions = renditions;
    thumb_ref = thumb_ref_of (valid_renditions body.renditions);
    original = original_of body.original;
    source_url = truncate (source_of body.source).url 999;
    source_kind = (source_of body.source).kind;
    captured_at = body.captured_at;
  }

  unfoldable pub handle_photographed : Message → Result TableError Statement
  unfolding photographed_row subject_year subject_team_id
  handle_photographed msg = elim msg.photographed [
    | none ↦ err bad_body
    | some body ↦
        let team_id = or_else body.team_id (subject_team_id msg.subject) in
        let year = or_else body.year (subject_year msg.subject) in
        if is_empty team_id
        then err no_team
        else if is_empty year
        then err no_year
        else if not (valid_photo_ref body.ref)
        then err bad_ref
        else (encoded (encode_renditions formats (valid_renditions body.renditions))
            >>= λ renditions. ok (upsert (photographed_row year team_id body renditions)))
  ]

unfoldable pub valid_refs : List Bytes → List Bytes
valid_refs [] = []
valid_refs (r ∷ refs) = let rest = valid_refs refs in if valid_photo_ref r then r ∷ rest else rest

-- `none` is the return without a statement.
unfoldable pub handle_purged : Message → Result TableError (Option Statement)
unfolding valid_refs subject_year subject_team_id
handle_purged msg = elim msg.purged [
  | none ↦ err bad_body
  | some body ↦
      let team_id = or_else body.team_id (subject_team_id msg.subject) in
      let year = or_else body.year (subject_year msg.subject) in
      if is_empty team_id || is_empty year then err no_team else (elim (valid_refs body.refs) [
        | [] ↦ ok none
        | r ∷ refs ↦ ok (some (delete_refs year team_id (r ∷ refs)))
      ])
]

-- The patterns that the projection subscribes to.
unfoldable pub consumes : List Bytes
unfolding consume_pattern
consumes = consume_pattern photographed_verb ∷ consume_pattern purged_verb ∷ []

-- `Subject.Match` is the argument `matches`.
unfoldable pub handle_message :
    Formats → (Subject → Bytes → Bool) → Message → Result TableError (Option Statement)
unfolding handle_photographed handle_purged
handle_message formats matches msg =
    if matches msg.subject (match_pattern photographed_verb)
    then (handle_photographed formats msg >>= λ s. ok (some s))
    else if matches msg.subject (match_pattern purged_verb)
    then handle_purged msg
    else ok none
