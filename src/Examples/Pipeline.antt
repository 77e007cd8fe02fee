-- ===== src/Examples/Pipeline.antt =====
-- The way from the webhook to the read model and back at concrete inputs.
use foto.Base.{
  ℕ, ◌+◌, ◌≡◌, ◌∙◌, sym, subst, inl, inr, refl, ap, arith, true, false, Bool, ◌&&◌, leb, map, all,
  if◌then◌else◌, none, some, List, [], ◌∷◌, ◌++◌, Bytes, bytes_eq, codes, ok, get_elem?, any,
}
use foto.Base.Int.{pos}
use foto.Base.Dict.{insert}
use foto.Base.Decimal.{decimal_ℤ}
use foto.Base.Split.{split}
use foto.Base.Text.{trim_space, to_lower, trim_suffix}
use foto.Blob.Ref.{compute_ref, encode_hex, is_lower_hex}
use foto.Blob.Memory.{memory_store, put}
use foto.Blob.Memory.Laws.{memory_store-IsStore}
use foto.Fetcher.Policy.{check_url, normalise_host, host_allowed, is_http}
use foto.Fetcher.Fetch.{fetch, do_request, next_hop, receive, read_limited, read_limit}
use foto.Imaging.Prepare.{prepare, dimensions, thumb_name}
use foto.Imaging.Bounds.{check_bounds}
use foto.TeamNumber.{team_id_by_number, pick}
use foto.Photo.Subject.{
  Subject, parts, photographed_verb, purged_verb, match_pattern, photographed_subject,
  entity_subject, valid_subject_token, valid_photo_ref, purge_subject, subject_part,
  subject_team_id, subject_year,
}
use foto.Photo.Subject.Laws.{compute_ref-valid_photo_ref}
use foto.Photo.Sql.{Formats}
use foto.Photo.Messages.{PatruljePhotographed}
use foto.Photo.Commands.{Event, photographed, publish, publish_event, event_of, purge}
use foto.Photo.Replay.{
  Engine, Key, Rows, same_text, key_eq, apply, Database, IsDatabase, statement_of, replay,
  is_within, fits_text, fits_int,
}
use foto.Photo.Replay.Erasure.{AreRows}
use foto.Photo.Sql.{encode_renditions}
use foto.Base.Decimal.{decimal}
use foto.Imaging.Fit.{fit}
use foto.Ingest.Storing.{content_type_for_format}
use foto.Photo.Table.{
  Row, upsert, handle_message, handle_photographed, photographed_row, smallest_rendition,
  thumb_ref_of, truncate, original_of, valid_renditions, better_edge, edge_of, max_int, named,
}
use foto.Ingest.Storing.{store_photo, store_thumbs}
use foto.Ingest.Webhook.{
  IngestResponse, ready, response, command, announce, process, ingest, accepted, answer_of,
  webhook_authorized, kamera_callback_handler,
}
use foto.Http.Laws.{status_of}
use foto.Http.Webhook.{Outside, reply}
use foto.Pipeline.{history, IsMatch, IsMarshal}
use foto.Photo.Query.{Reader}
use foto.Pipeline.Recorded.{IsHeld, IsKeptPhoto}
use foto.Pipeline.Addressed.{valid_photo_ref-lower}
use foto.Pipeline.Told.{told-IsKeptPhoto}
use foto.Pipeline.Erased.{purge-erases}
use foto.Pipeline.Lasting.{IsOther, purge-lasts}
use foto.Http.{set_headers, set_header, write_header, write, write_json, write_or_fail}
use foto.Examples.ReadModel.{toy_broker}
use foto.Examples.Toy.{toy_sha, upload, rendered}
use foto.Examples.Photo.{formats}
use foto.Examples.Ingest.{
  app, payload, IsContent, contents-IsCollisionFree, app-IsCorpus, empty-IsAddressed,
}

abbrev pub answered : IngestResponse
answered = record {
  status = codes "photographed";
  team_id = codes "team-a";
  year = codes "2026";
  ref = compute_ref toy_sha rendered;
  bytes = pos 4;
  renditions = codes "thumb1024" ∷ codes "thumb256" ∷ [];
}

pub payload-accepted : (ingest app payload [] []).outcome ≡ ok answered
unfolding ingest team_id_by_number trim_space fetch check_url bytes_eq to_lower normalise_host
    trim_suffix prepare check_bounds store_photo put dimensions publish photographed_subject
    valid_photo_ref compute_ref insert encode_hex do_request next_hop read_limit read_limited
    receive host_allowed is_http store_thumbs announce command process ready response event_of
    publish_event entity_subject valid_subject_token pick decimal_ℤ thumb_name
payload-accepted = refl

-- A collation without case, for ASCII.
abbrev pub lower_ascii : ℕ → ℕ
lower_ascii c = if leb 65 c && leb c 90 then c + 32 else c

abbrev pub toy_engine : Engine
toy_engine = record {
  weight = map lower_ascii;
  readable = λ text. true;
  datable = λ t. true;
  takes = λ row. true;
}

weight-lower : (r : Bytes) → all is_lower_hex r ≡ true → map lower_ascii r ≡ r
weight-lower [] h = refl
weight-lower (c ∷ r) h = ground (arith, weight-lower r)

weight-valid : (r : Bytes) → valid_photo_ref r ≡ true → map lower_ascii r ≡ r
weight-valid r h = weight-lower r (valid_photo_ref-lower r h).1

-- A table that is a function, and does what a statement says.
abbrev pub toy_database : Database
toy_database = record {
  State = Rows;
  engine = toy_engine;
  row_at = λ rows k. rows k;
  consume = λ st rows k. apply toy_engine st rows k;
}

pub toy_database-IsDatabase : IsDatabase toy_database
toy_database-IsDatabase = record {
  runs = λ st rows k. refl;
  holds = λ row h. refl;
  tells = λ a b va vb same. sym (weight-valid a va) ∙ (same ∙ weight-valid b vb);
}

abbrev pub no_rows : Rows
no_rows k = none

-- A subject matches a pattern with the same last part.
abbrev last_part : List Bytes → Bytes
last_part texts = elim (get_elem? texts 4) [ none ↦ [] | some part ↦ part ]

abbrev pub toy_matches : Subject → Bytes → Bool
toy_matches s pattern = bytes_eq (last_part (parts s)) (last_part (parts pattern))

pub toy_matches-IsMatch : IsMatch toy_matches
unfolding split match_pattern
toy_matches-IsMatch s year team_id verb other (inl o) h =
    rw o (ap (λ texts. bytes_eq (last_part texts) photographed_verb) h)
toy_matches-IsMatch s year team_id verb other (inr o) h =
    rw o (ap (λ texts. bytes_eq (last_part texts) purged_verb) h)

abbrev pub toy_formats : Formats
toy_formats = record formats { marshal = λ renditions. some (codes "[]") }

pub toy_formats-IsMarshal : IsMarshal toy_formats
toy_formats-IsMarshal l = (codes "[]", refl)

-- The row of the photograph.
abbrev pub row : Row
row = record {
  year = codes "2026";
  team_id = codes "team-a";
  ref = compute_ref toy_sha rendered;
  kind = codes "start";
  team_number = codes "42";
  attention = false;
  content_type = codes "image/jpeg";
  bytes = pos 4;
  width = pos 3;
  height = pos 2;
  renditions = codes "[]";
  thumb_ref = compute_ref toy_sha rendered;
  original = record {
    ref = compute_ref toy_sha upload;
    content_type = codes "image/png";
    bytes = pos 3;
    width = pos 3;
    height = pos 2;
    orientation = pos 1;
  };
  source_url = codes "https://a.dk/1";
  source_kind = codes "kamera-webhook";
  captured_at = some 5;
}

upsert-injective : {a b : Row} → some (upsert a) ≡ some (upsert b) → a ≡ b
upsert-injective h = cc

-- The row of the event fits the columns.
pub payload-IsHeld :
    IsHeld toy_formats toy_matches toy_formats-IsMarshal toy_matches-IsMatch toy_database
      toy_database-IsDatabase
      (ingest app payload [] []).log
unfolding announce better_edge bytes_eq check_bounds check_url command compute_ref
    content_type_for_format decimal decimal_ℤ dimensions do_request edge_of encode_hex
    encode_renditions entity_subject event_of fetch fit fits_int fits_text handle_message
    handle_photographed host_allowed ingest insert is_http is_within match_pattern max_int named
    next_hop normalise_host original_of photographed_row photographed_subject pick prepare process
    publish publish_event put read_limit read_limited ready receive response smallest_rendition
    split statement_of store_photo store_thumbs subject_part subject_team_id subject_year
    team_id_by_number thumb_name thumb_ref_of to_lower trim_space trim_suffix truncate
    valid_photo_ref valid_renditions valid_subject_token
payload-IsHeld other h =
    subst (λ r. is_within toy_engine r ≡ true) (upsert-injective {a = row} h) refl

pub no_rows-AreRows : AreRows toy_engine no_rows
no_rows-AreRows k r h = cc h

abbrev toy_outside : Outside
toy_outside = record {
  marshal = λ envelope. some (codes "{}");
  marshal_response = λ res. some (codes "{}");
  parse = λ url. none;
}

payload-answered :
    (kamera_callback_handler app (codes "secret") (some payload) [] []).outcome ≡ accepted answered
unfolding kamera_callback_handler webhook_authorized bytes_eq
payload-answered = ap (answer_of app) payload-accepted

logged-IsHeld :
    IsHeld toy_formats toy_matches toy_formats-IsMarshal toy_matches-IsMatch toy_database
      toy_database-IsDatabase
      (kamera_callback_handler app (codes "secret") (some payload) [] []).log
unfolding kamera_callback_handler webhook_authorized bytes_eq
logged-IsHeld = payload-IsHeld

payload-seen :
    status_of (
      reply toy_outside none payload
        (kamera_callback_handler app (codes "secret") (some payload) [] []).outcome)
    ≡ some 200
unfolding reply write_or_fail write_json set_headers set_header write write_header
payload-seen = ap (λ a. status_of (reply toy_outside none payload a)) payload-answered

told-IsKeptPhoto_example :
    (res : IngestResponse) × ((kamera_callback_handler app
        (codes "secret")
        (some payload)
        []
        []).outcome
      ≡ accepted res)
    × IsKeptPhoto toy_formats toy_matches toy_formats-IsMarshal toy_matches-IsMatch toy_database
        toy_database-IsDatabase toy_sha IsContent
        (memory_store toy_sha)
        (memory_store-IsStore toy_sha)
        contents-IsCollisionFree
        app
        payload
        app-IsCorpus
        res
        (kamera_callback_handler app (codes "secret") (some payload) [] []).objects
        (replay toy_formats toy_matches toy_database
          (history (kamera_callback_handler app (codes "secret") (some payload) [] []).log)
          no_rows)
told-IsKeptPhoto_example =
    told-IsKeptPhoto toy_formats toy_matches toy_formats-IsMarshal toy_matches-IsMatch toy_database
      toy_database-IsDatabase toy_sha IsContent (memory_store toy_sha)
      (memory_store-IsStore toy_sha) contents-IsCollisionFree app payload app-IsCorpus toy_outside
      none (codes "secret") [] [] no_rows empty-IsAddressed no_rows-AreRows logged-IsHeld
      payload-seen

-- A reader that finds every display image.
abbrev pub toy_reader : Reader
toy_reader = record {
  by_team = λ year team_id. none;
  display = λ ref. some (some (codes "image/jpeg"));
  candidates = λ ref. some [];
  originals = λ before limit. none;
}

abbrev purged_key : Key
purged_key = record {
  year = codes "2026";
  team_id = codes "team-a";
  kind = codes "start";
  ref = compute_ref toy_sha rendered;
}

purge-done :
    (purge
      (some toy_broker)
      (codes "2026")
      (codes "team-a")
      []
      (compute_ref toy_sha rendered ∷ [])
      none
      []).0
    ≡ ok tt
unfolding purge publish_event purge_subject entity_subject valid_subject_token
purge-done = refl

ref-named : any (λ r. bytes_eq purged_key.ref r) (compute_ref toy_sha rendered ∷ []) ≡ true
unfolding compute_ref encode_hex bytes_eq
ref-named = refl

purge-erases_example :
    replay toy_formats toy_matches toy_database
      (history
        (purge
          (some toy_broker)
          (codes "2026")
          (codes "team-a")
          []
          (compute_ref toy_sha rendered ∷ [])
          none
          []).1)
      no_rows
      purged_key
    ≡ none
purge-erases_example =
    purge-erases toy_formats toy_matches toy_matches-IsMatch toy_database toy_database-IsDatabase
      toy_broker (codes "2026") (codes "team-a") [] (compute_ref toy_sha rendered ∷ []) none []
      no_rows purged_key purge-done refl refl (compute_ref-valid_photo_ref toy_sha rendered)
      ref-named

-- Another photograph of the team, under the ref of the upload.
abbrev other_body : PatruljePhotographed
other_body = record {
  team_id = codes "team-a";
  team_number = codes "42";
  year = codes "2026";
  kind = codes "start";
  attention = false;
  ref = compute_ref toy_sha upload;
  content_type = codes "image/jpeg";
  bytes = pos 3;
  width = pos 3;
  height = pos 2;
  renditions = [];
  original = none;
  source = none;
  captured_at = none;
}

abbrev other_entry : Subject × Event
other_entry = (codes "NATHEJK.2026.patrulje.team-a.photographed", photographed other_body)

other_entry-IsOther : IsOther toy_engine purged_key other_entry
unfolding key_eq same_text bytes_eq compute_ref encode_hex
other_entry-IsOther = refl

purge-lasts_example :
    replay toy_formats toy_matches toy_database
      (history (
        (other_entry ∷ [])
        ++ (purge
            (some toy_broker)
            (codes "2026")
            (codes "team-a")
            []
            (compute_ref toy_sha rendered ∷ [])
            none
            []).1))
      no_rows
      purged_key
    ≡ none
purge-lasts_example =
    purge-lasts toy_formats toy_matches toy_matches-IsMatch toy_database toy_database-IsDatabase
      toy_broker (codes "2026") (codes "team-a") [] (compute_ref toy_sha rendered ∷ []) none []
      (other_entry ∷ []) no_rows purged_key purge-done refl refl
      (compute_ref-valid_photo_ref toy_sha rendered) ref-named (other_entry-IsOther, tt)
