-- ===== src/Examples/ReadModel.antt =====
-- The projection, the commands and the queries of package photo at concrete inputs.
use foto.Base.{
  ◌≡◌, inl, inr, refl, arith, true, false, Option, none, some, List, [], ◌∷◌, Bytes, codes,
  bytes_eq, bytes_eq_iff, if◌then◌else◌, ok,
}
use foto.Base.Int.{pos}
use foto.Blob.Ref.{compute_ref, encode_hex}
use foto.Photo.Messages.{PhotoRendition, PatruljePhotographed, Photographed, no_original}
use foto.Photo.Subject.{valid_photo_ref, subject_part, subject_year, subject_team_id}
use foto.Photo.Sql.{encode_renditions}
use foto.Photo.Table.{
  Row, upsert, Message, handle_photographed, valid_renditions, photographed_row, original_of,
  truncate, thumb_ref_of,
}
use foto.Photo.Commands.{Broker}
use foto.Photo.Query.{Reader, servable}
use foto.Photo.Query.Laws.{IsReader, Exists, Shows}
use foto.Base.{Bool-cases, sym, ap, ◌∙◌}
use foto.Base.Text.{trim_space}
use foto.Base.Dict.{lookup}
use foto.Blob.Ref.{valid}
use foto.Blob.Store.{IsAddressed}
use foto.Blob.Memory.{Objects, memory_store, get}
use foto.Blob.Memory.Laws.{memory_store-IsStore}
use foto.Serving.{shown, show_photo_handler}
use foto.Serving.Laws.{show_photo_handler-Shows}
use foto.Examples.Toy.{toy_sha, upload}
use foto.Examples.Photo.{season, team, built, thumb, row, formats}

abbrev large : PhotoRendition
large = record thumb { width = pos 1024 }

-- A body without its year, which the subject has.
abbrev body : PatruljePhotographed
body = record {
  team_id = team;
  year = [];
  team_number = codes "42";
  kind = codes "start";
  attention = false;
  ref = compute_ref toy_sha upload;
  content_type = codes "image/jpeg";
  bytes = pos 3;
  width = pos 3;
  height = pos 2;
  renditions = [];
  original = none;
  source = none;
  captured_at = none;
}

abbrev pub message : Message
message = record { subject = built; photographed = some body; purged = none }

abbrev written : Row
written = record {
  year = season;
  team_id = team;
  ref = compute_ref toy_sha upload;
  kind = codes "start";
  team_number = codes "42";
  attention = false;
  content_type = codes "image/jpeg";
  bytes = pos 3;
  width = pos 3;
  height = pos 2;
  renditions = [];
  thumb_ref = [];
  original = no_original;
  source_url = [];
  source_kind = [];
  captured_at = none;
}

message-written : handle_photographed formats message ≡ ok (upsert written)
unfolding handle_photographed encode_renditions valid_photo_ref photographed_row valid_renditions
    original_of truncate thumb_ref_of subject_year subject_team_id subject_part compute_ref
    encode_hex
message-written = refl

-- One ref that is a hash, and one that is not.
abbrev purge_message : Message
purge_message = record {
  subject = built;
  photographed = none;
  purged = some (record {
    team_id = [];
    year = season;
    refs = codes "*" ∷ compute_ref toy_sha upload ∷ [];
    reason = [];
    purged_at = none;
  });
}

abbrev pub toy_broker : Broker
toy_broker = record { has_message = true; sets_body = true; publishes = true }

abbrev order : Photographed
order = record {
  year = season;
  team_id = team;
  team_number = codes "42";
  kind = codes "start";
  attention = false;
  display = thumb;
  renditions = [];
  original = none;
  source = none;
  captured_at = none;
}

-- A reader of a table with one row.
abbrev reader : Reader
reader = record {
  by_team = λ year team_id. none;
  display = λ ref. some (if bytes_eq row.ref ref then some row.content_type else none);
  candidates = λ ref. some [];
  originals = λ before limit. none;
}

row_found :
    (ref kind : Bytes)
    → reader.display ref ≡ some (some kind)
    → Exists (λ r. (r.ref ≡ ref) × (r.content_type ≡ kind)) (row ∷ [])
row_found ref kind h = inl ((bytes_eq_iff row.ref ref).0 (ground arith), ground arith)

no_row_missed :
    (ref : Bytes) → reader.display ref ≡ some none → Exists (λ r. r.ref ≡ ref) (row ∷ []) → ⊥
no_row_missed ref h (inl e) = let same = (bytes_eq_iff row.ref ref).1 e in ground arith
no_row_missed ref h (inr e) = e

reader-IsReader : IsReader (row ∷ []) reader
reader-IsReader = record {
  display_row = row_found;
  display_all = no_row_missed;
  candidate_rows = λ ref texts P h e. absurd (no_text texts P h e);
}
  where
    no_text :
        (texts : List Bytes) (P : Bytes → Type 0)
        → ◌≡◌ {A = Option (List Bytes)} (some []) (some texts)
        → Exists P texts
        → ⊥
    no_text [] P h e = e
    no_text (t ∷ texts) P h e = cc h

row-shown : servable formats (some reader) row.ref ≡ ok row.content_type
unfolding servable valid_photo_ref compute_ref encode_hex bytes_eq
row-shown = refl

-- The object of the row, in memory.
abbrev objects : Objects
objects = (compute_ref toy_sha upload, upload) ∷ []

abbrev IsUpload : Bytes → Type 0
IsUpload b = b ≡ upload

objects-IsAddressed : IsAddressed toy_sha IsUpload (memory_store toy_sha) objects
unfolding lookup
objects-IsAddressed r c h = elim (Bool-cases (bytes_eq (compute_ref toy_sha upload) r)) [
  | inl e ↦
      let same : upload ≡ c = cc (rw e at h) in
      (
        sym same,
        ap (compute_ref toy_sha) (sym same) ∙ (bytes_eq_iff (compute_ref toy_sha upload) r).0 e,
      )
  | inr e ↦ absurd (cc (rw e at h))
]

row-sent :
    show_photo_handler formats
      (memory_store toy_sha)
      false
      (some (some reader))
      true
      row.ref
      false
      objects
    ≡ shown (codes "image/jpeg") (some upload)
unfolding show_photo_handler servable valid_photo_ref compute_ref encode_hex bytes_eq trim_space get
    valid lookup
row-sent = refl

show_photo_handler-Shows_example :
    Exists (Shows formats (trim_space row.ref)) (row ∷ [])
    × (valid_photo_ref (trim_space row.ref) ≡ true)
    × (compute_ref toy_sha upload ≡ trim_space row.ref)
show_photo_handler-Shows_example =
    show_photo_handler-Shows formats (memory_store toy_sha) false toy_sha IsUpload (row ∷ []) reader
      true row.ref false objects (codes "image/jpeg") upload (memory_store-IsStore toy_sha)
      objects-IsAddressed reader-IsReader row-sent
