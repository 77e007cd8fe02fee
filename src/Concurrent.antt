-- ===== src/Concurrent.antt =====
-- Calls of the webhook at the same time: `kameraCallbackHandler` and `ingest` of go/cmd/api/callback.go
-- and `storePhoto` of go/cmd/api/ingest.go, cut at the calls that touch what the calls share. net/http
-- runs every request in a goroutine of its own, so a schedule names the call that takes the next step.
-- A step is all that a call does up to and including its next `Put`, or its `Publish`.
pub mod Ending
pub mod Invariant
pub mod Rows
use foto.Base.{
  ℕ, suc, ◌≡◌, Bool, true, false, not, ◌&&◌, Option, none, some, List, [], ◌∷◌, ◌++◌, Bytes,
  is_empty, length, if◌then◌else◌, Result, ok, err, ◌==◌,
}
use foto.Base.Int.{ℤ, pos}
use foto.Blob.Ref.{Ref}
use foto.Blob.Store.{Store}
use foto.Fetcher.Fetch.{fetch}
use foto.Imaging.Prepare.{Rendition, prepare, dimensions}
use foto.Imaging.Prepare as Prepare
use foto.TeamNumber.{team_id_by_number}
use foto.Photo.Messages.{PhotoRendition, PhotoOriginal}
use foto.Photo.Commands.{Log, publish}
use foto.Ingest.Rejection.{
  bad_payload, not_ready, store_failed, publish_failed, fetch_rejection, team_rejection,
  image_rejection,
}
use foto.Ingest.Storing.{StoredPhoto, content_type_for_format, recorded}
use foto.Ingest.Webhook.{
  KameraPayload, Application, Answer, unauthorized, rejected, accepted, webhook_authorized, ready,
  broker_of, command, response, display_edge, thumbnail_edges, jpeg_quality,
}

-- One request: the application that serves it, the header's secret, and the payload if it could be read.
pub record Call (S : Store) : Type 0 where
  pub app : Application S
  pub given : Bytes
  pub payload : Option KameraPayload

-- Where the goroutine of a call stands, with what it has in its variables.
pub data Phase : Type 0 where
  arrived : Phase
  storing_original : Bytes → KameraPayload → Bytes → Prepare.Photo → Phase
  storing_display : Bytes → KameraPayload → Prepare.Photo → PhotoOriginal → Phase
  -- behind `n` objects: the thumbnails that are left, and the renditions that are recorded
  storing_thumbs :
      Bytes
      → KameraPayload
      → PhotoOriginal
      → PhotoRendition
      → ℕ
      → List Rendition
      → List PhotoRendition
      → Phase
  publishing : Bytes → KameraPayload → StoredPhoto → Phase
  answered : Answer → Phase

-- A call's phase, with the store and the log that all calls share.
abbrev pub Moment : Store → Type 0
Moment S = Phase × S.State × Log

-- The original as `storePhoto` records it.
abbrev pub original_record : Prepare.Photo → Bytes → Ref → ℤ × ℤ → PhotoOriginal
original_record prepared raw ref size = record {
  ref = ref;
  content_type = content_type_for_format prepared.format;
  bytes = pos (length raw);
  width = size.0;
  height = size.1;
  orientation = pos prepared.orientation;
}

module _ {S : Store} (app : Application S) where
  -- `ingest` up to the first `Put`: nothing that is shared is touched.
  unfoldable pub begin : KameraPayload → Phase
  begin payload =
      if not (ready app)
      then answered (rejected not_ready)
      else if is_empty payload.image_url
      then answered (rejected bad_payload)
      else (elim (team_id_by_number app.teams app.event_year payload.team_number) [
        | err e ↦ answered (rejected (team_rejection e))
        | ok team_id ↦ elim (fetch app.unicode_lower app.network app.fetcher payload.image_url).0 [
          | err e ↦ answered (rejected (fetch_rejection e))
          | ok body ↦ elim (prepare app.codec body.0 display_edge thumbnail_edges jpeg_quality) [
            | err e ↦ answered (rejected (image_rejection e))
            | ok prepared ↦ storing_original team_id payload body.0 prepared
          ]
        ]
      ])

  -- The first `Put` of `storePhoto`, and `Dimensions` behind it.
  unfoldable pub put_original :
      Bytes → KameraPayload → Bytes → Prepare.Photo → S.State → Log → Moment S
  put_original team_id payload raw prepared s log =
      let put = S.put (app.env 0) raw s in
      elim put.0 [
        | err e ↦ (answered (rejected store_failed), put.1, log)
        | ok ref ↦ elim (dimensions app.codec raw) [
          | err e ↦ (answered (rejected store_failed), put.1, log)
          | ok size ↦ (
            storing_display team_id payload prepared (original_record prepared raw ref size),
            put.1,
            log,
          )
        ]
      ]

  -- The `Put` of the display image.
  unfoldable pub put_display :
      Bytes → KameraPayload → Prepare.Photo → PhotoOriginal → S.State → Log → Moment S
  put_display team_id payload prepared original s log =
      let put = S.put (app.env 1) prepared.display.bytes s in
      elim put.0 [
        | err e ↦ (answered (rejected store_failed), put.1, log)
        | ok ref ↦ (
          storing_thumbs team_id payload original
              (record (recorded prepared.display ref) { name = [] }) 2 prepared.thumbs [],
          put.1,
          log,
        )
      ]

  -- One round of the loop over the thumbnails, or its end.
  unfoldable pub put_thumb :
      Bytes
      → KameraPayload
      → PhotoOriginal
      → PhotoRendition
      → ℕ
      → List Rendition
      → List PhotoRendition
      → S.State
      → Log
      → Moment S
  put_thumb team_id payload original display n [] renditions s log = (
    publishing team_id payload
        (record { display = display; renditions = renditions; original = original }),
    s,
    log,
  )
  put_thumb team_id payload original display n (thumb ∷ thumbs) renditions s log =
      let put = S.put (app.env n) thumb.bytes s in
      let skipped = storing_thumbs team_id payload original display n thumbs renditions in
      if is_empty thumb.bytes then (skipped, s, log) else (elim put.0 [
        | err e ↦ (answered (rejected store_failed), put.1, log)
        | ok ref ↦ (
          storing_thumbs team_id payload original display (suc n) thumbs
              (renditions ++ recorded thumb ref ∷ []),
          put.1,
          log,
        )
      ])

  -- `Publish`, and the answer.
  unfoldable pub publish_stored : Bytes → KameraPayload → StoredPhoto → S.State → Log → Moment S
  publish_stored team_id payload stored s log =
      let published =
        publish (broker_of app app.photo_table) (command app team_id payload stored) log in
      elim published.0 [
        | err e ↦ (answered (rejected publish_failed), s, published.1)
        | ok done ↦ (answered (accepted (response app team_id stored)), s, published.1)
      ]

-- The next step of a call. A call that has answered does nothing.
unfoldable pub proceed : {S : Store} → Call S → Phase → S.State → Log → Moment S
unfolding begin put_original put_display put_thumb publish_stored
proceed call arrived s log =
    if not (webhook_authorized call.app call.given)
    then (answered unauthorized, s, log)
    else (elim call.payload [
      | none ↦ (answered (rejected bad_payload), s, log)
      | some payload ↦ (begin call.app payload, s, log)
    ])
proceed call (storing_original team_id payload raw prepared) s log =
    put_original call.app team_id payload raw prepared s log
proceed call (storing_display team_id payload prepared original) s log =
    put_display call.app team_id payload prepared original s log
proceed call (storing_thumbs team_id payload original display n thumbs renditions) s log =
    put_thumb call.app team_id payload original display n thumbs renditions s log
proceed call (publishing team_id payload stored) s log =
    publish_stored call.app team_id payload stored s log
proceed call (answered a) s log = (answered a, s, log)

-- All calls at one moment: what they share, and the phase of each.
pub record System (S : Store) : Type 0 where
  pub objects : S.State
  pub log : Log
  pub phases : ℕ → Phase

module _ {S : Store} (calls : ℕ → Call S) where
  -- The call `i` takes its next step.
  unfoldable pub step : ℕ → System S → System S
  unfolding proceed
  step i system =
      let (phase, s, log) = proceed (calls i) (system.phases i) system.objects system.log in
      record { objects = s; log = log; phases = λ j. if i == j then phase else system.phases j }

  -- The steps of a schedule in their order.
  unfoldable pub run : List ℕ → System S → System S
  unfolding step
  run [] system = system
  run (i ∷ schedule) system = run schedule (step i system)
