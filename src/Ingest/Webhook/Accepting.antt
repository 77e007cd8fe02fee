-- ===== src/Ingest/Webhook/Accepting.antt =====
-- When a call of the webhook's `ingest` of go/cmd/api/callback.go is accepted.
use foto.Base.{
  ℕ, ◌≡◌, inl, inr, refl, ap, ◌∙◌, true, false, Bool-cases, some, List, [], ◌∷◌, Bytes, is_empty,
  suc, length, ok,
}
use foto.Base.Int.{ℤ, pos}
use foto.Blob.Ref.{Ref, Sha256, compute_ref}
use foto.Blob.Store.{Store, IsStore}
use foto.Fetcher.Fetch.{fetch}
use foto.Imaging.Bounds.{check_bounds_iff}
use foto.Imaging.Prepare.{Codec, Rendition, prepare, dimensions}
use foto.Imaging.Prepare as Prepare
use foto.Imaging.Prepare.Laws.{prepare_sound}
use foto.TeamNumber.{team_id_by_number}
use foto.Photo.Messages.{PhotoRendition, Photographed}
use foto.Photo.Subject.{Subject, photographed_subject, valid_photo_ref}
use foto.Photo.Subject.Laws.{compute_ref-valid_photo_ref}
use foto.Photo.Commands.{Broker, Log, publish, publish_event}
use foto.Ingest.Storing.{StoredPhoto, recorded, content_type_for_format, store_thumbs, store_photo}
use foto.Ingest.Webhook.{
  KameraPayload, IngestResponse, Application, ready, command, response, announce, process, ingest,
  display_edge, thumbnail_edges, jpeg_quality,
}

-- Every `Put` of the calls that meet these environments succeeds.
abbrev pub Stores : (S : Store) → (ℕ → S.Env) → Type 0
Stores S env = (n : ℕ) (c : Bytes) (s : S.State) → (r : Ref) × ((S.put (env n) c s).0 ≡ ok r)

-- Nothing fails at the publisher.
abbrev pub IsWilling : Broker → Type 0
IsWilling broker =
    (broker.has_message ≡ true) × (broker.sets_body ≡ true) × (broker.publishes ≡ true)

publish-IsWilling :
    (broker : Broker) (cmd : Photographed) (s : Subject) (log : Log)
    → IsWilling broker
    → photographed_subject cmd.year cmd.team_id ≡ ok s
    → valid_photo_ref cmd.display.ref ≡ true
    → (publish (some broker) cmd log).0 ≡ ok tt
unfolding publish publish_event
publish-IsWilling broker cmd s log (message, body, sent) built valid =
    rw (publish, built, valid, message, body, sent) refl

dimensions-prepare :
    (codec : Codec) (raw : Bytes) (made : Prepare.Photo)
    → prepare codec raw display_edge thumbnail_edges jpeg_quality ≡ ok made
    → (size : ℤ × ℤ) × (dimensions codec raw ≡ ok size)
unfolding dimensions
dimensions-prepare codec raw made h =
    let (w, height, img, good) =
      prepare_sound codec raw display_edge thumbnail_edges jpeg_quality h in
    ((w, height), rw (good.header, (check_bounds_iff w height).1 good.bounded) refl)

module _ (sha : Sha256) (S : Store) (law : IsStore sha S) (codec : Codec) (env : ℕ → S.Env)
    (puts : Stores S env) where
  store_thumbs-Stores :
      (n : ℕ) (thumbs : List Rendition) (s : S.State)
      → (rs : List PhotoRendition) × ((store_thumbs codec S env n thumbs s).0 ≡ ok rs)
  unfolding store_thumbs
  store_thumbs-Stores n [] s = ([], refl)
  store_thumbs-Stores n (thumb ∷ thumbs) s = elim (Bool-cases (is_empty thumb.bytes)) [
    | inl e ↦ let (rs, h) = store_thumbs-Stores n thumbs s in (rs, rw (store_thumbs, e) h)
    | inr e ↦
        let (ref, p) = puts n thumb.bytes s in
        let (rs, h) = store_thumbs-Stores (suc n) thumbs (S.put (env n) thumb.bytes s).1 in
        (recorded thumb ref ∷ rs, rw (store_thumbs, e, p, h) refl)
  ]

  store_photo-Stores :
      (raw : Bytes) (made : Prepare.Photo) (s : S.State)
      → prepare codec raw display_edge thumbnail_edges jpeg_quality ≡ ok made
      → (stored : StoredPhoto) × ((store_photo codec S env raw made s).0 ≡ ok stored)
        × (stored.display.ref ≡ compute_ref sha made.display.bytes)
  unfolding store_photo
  store_photo-Stores raw made s h =
      let (size, d) = dimensions-prepare codec raw made h in
      let (original, p) = puts 0 raw s in
      let (display, q) = puts 1 made.display.bytes (S.put (env 0) raw s).1 in
      let (rs, t) =
        store_thumbs-Stores 2 made.thumbs
          (S.put (env 1) made.display.bytes (S.put (env 0) raw s).1).1 in
      let stored : StoredPhoto = record {
        display = record (recorded made.display display) { name = [] };
        renditions = rs;
        original = record {
          ref = original;
          content_type = content_type_for_format made.format;
          bytes = pos (length raw);
          width = size.0;
          height = size.1;
          orientation = pos made.orientation;
        };
      } in
      (stored, rw (store_photo, p, d, q, t) refl, law.put_ref _ _ _ display q)

module _ (sha : Sha256) (S : Store) (law : IsStore sha S) (app : Application S)
    (payload : KameraPayload) where
  -- A good photograph is accepted. If the service is ready, the payload has a URL and its number one
  -- team of the season, the fetcher gets the bytes and `Prepare` takes them, every `Put` and the
  -- publisher succeed, and a subject can be built for the season and the team, then `ingest` answers with
  -- that season and team and with the hash of the display image as the ref, on any store that keeps
  -- its contract and any log.
  pub ingest_accepts :
      (team_id raw kind : Bytes) (made : Prepare.Photo) (broker : Broker) (subject : Subject)
      (s : S.State) (log : Log)
      → ready app ≡ true
      → is_empty payload.image_url ≡ false
      → team_id_by_number app.teams app.event_year payload.team_number ≡ ok team_id
      → (fetch app.unicode_lower app.network app.fetcher payload.image_url).0 ≡ ok (raw, kind)
      → prepare app.codec raw display_edge thumbnail_edges jpeg_quality ≡ ok made
      → Stores S app.env
      → app.photo_table ≡ some (some broker)
      → IsWilling broker
      → photographed_subject app.event_year team_id ≡ ok subject
      → (res : IngestResponse) × ((ingest app payload s log).outcome ≡ ok res)
        × (res.year ≡ app.event_year)
        × (res.team_id ≡ team_id)
        × (res.ref ≡ compute_ref sha made.display.bytes)
  unfolding ingest process announce command response
  ingest_accepts team_id raw kind made broker subject s log able linked found fetched prepared puts
        table willing built =
      let (stored, p, ref) =
        store_photo-Stores sha S law app.codec app.env puts raw made s prepared in
      let valid : valid_photo_ref stored.display.ref ≡ true =
        ap valid_photo_ref ref ∙ compute_ref-valid_photo_ref sha made.display.bytes in
      let sent =
        publish-IsWilling broker (command app team_id payload stored) subject log willing built
          valid in
      (
        response app team_id stored,
        rw (ingest, able, linked, found, fetched, process, prepared, p, announce, table, sent) refl,
        refl,
        refl,
        ref,
      )
