-- ===== src/Ingest/Webhook.antt =====
-- `ingest` and `kameraCallbackHandler` of go/cmd/api/callback.go, and `ready` of go/cmd/api/main.go.
pub mod Laws
pub mod Accepting
pub mod Sent
pub mod Refused
use foto.Base.{
  ℕ, Bool, true, false, not, ◌&&◌, ◌||◌, Option, none, some, List, [], ◌∷◌, map, Bytes, bytes_eq,
  codes, is_empty, if◌then◌else◌, Result, ok, err,
}
use foto.Base.Int.{ℤ}
use foto.Blob.Store.{Store}
use foto.Fetcher.Policy.{Url, Fetcher}
use foto.Fetcher.Fetch.{Network, fetch}
use foto.Imaging.Prepare.{Codec, prepare}
use foto.TeamNumber.{Reader, team_id_by_number}
use foto.Photo.Messages.{Time, PhotoRendition, Photographed}
use foto.Photo.Commands.{Broker, Log, publish}
use foto.Ingest.Rejection.{
  Rejection, bad_payload, not_ready, store_failed, publish_failed, fetch_rejection, team_rejection,
  image_rejection,
}
use foto.Ingest.Storing.{StoredPhoto, store_photo}

pub record KameraPayload : Type 0 where
  pub team_number : Bytes
  pub kind : Bytes
  pub attention : Bool
  pub image_url : Bytes
  pub created_at : Time

pub record IngestResponse : Type 0 where
  pub status : Bytes
  pub team_id : Bytes
  pub year : Bytes
  pub ref : Bytes
  pub bytes : ℤ
  pub renditions : List Bytes

abbrev pub display_edge : ℕ
display_edge = 2000

abbrev pub jpeg_quality : ℕ
jpeg_quality = 85

abbrev pub thumbnail_edges : List ℕ
thumbnail_edges = 1024 ∷ 256 ∷ []

-- The application during one call. `teams` is none for a resolver that is nil, `photo_table` for a
-- table that is nil, and its broker is none where the table has no publisher.
pub record Application (S : Store) : Type 0 where
  pub event_year : Bytes
  pub webhook_secret : Bytes
  pub teams : Option Reader
  pub photo_table : Option (Option Broker)
  pub has_blobs : Bool
  pub has_publisher : Bool
  pub unicode_lower : Bytes → Bytes
  pub network : Network
  pub fetcher : Fetcher
  pub codec : Codec
  pub env : ℕ → S.Env
  pub now : Time

-- A call's outcome, the store and the log behind it, and the URLs that it sent requests to.
pub record Run (S : Store) (A : Type 0) : Type 0 where
  pub outcome : A
  pub objects : S.State
  pub log : Log
  pub sent : List Url

module _ {S : Store} (app : Application S) where
  unfoldable pub ready : Bool
  ready =
      (elim app.teams [ none ↦ false | some reader ↦ true ])
      && ((elim app.photo_table [ none ↦ false | some table ↦ true ])
          && (app.has_blobs && app.has_publisher))

  unfoldable pub command : Bytes → KameraPayload → StoredPhoto → Photographed
  command team_id payload stored = record {
    year = app.event_year;
    team_id = team_id;
    team_number = payload.team_number;
    kind = payload.kind;
    attention = payload.attention;
    display = stored.display;
    renditions = stored.renditions;
    original = some stored.original;
    source =
        some
          (record { url = payload.image_url; kind = codes "kamera-webhook"; fetched_at = app.now });
    captured_at = payload.created_at;
  }

  unfoldable pub response : Bytes → StoredPhoto → IngestResponse
  response team_id stored = record {
    status = codes "photographed";
    team_id = team_id;
    year = app.event_year;
    ref = stored.display.ref;
    bytes = stored.display.bytes;
    renditions = map (λ r. r.name) stored.renditions;
  }

  abbrev pub refuse : Rejection → S.State → Log → List Url → Run S (Result Rejection IngestResponse)
  refuse rejection s log sent = record {
    outcome = err rejection;
    objects = s;
    log = log;
    sent = sent;
  }

  -- `app.photoTable.Publish`; a table that is nil has no publisher.
  abbrev pub broker_of : Option (Option Broker) → Option Broker
  broker_of none = none
  broker_of (some broker) = broker

  -- The end of `ingest`, behind the store.
  unfoldable pub announce :
      Bytes
      → KameraPayload
      → StoredPhoto
      → S.State
      → Log
      → List Url
      → Run S (Result Rejection IngestResponse)
  unfolding command response
  announce team_id payload stored s log sent =
      let published = publish (broker_of app.photo_table) (command team_id payload stored) log in
      elim published.0 [
        | err e ↦ refuse publish_failed s published.1 sent
        | ok done ↦ record {
          outcome = ok (response team_id stored);
          objects = s;
          log = published.1;
          sent = sent;
        }
      ]

  -- `ingest` from the fetched bytes on.
  unfoldable pub process :
      Bytes
      → KameraPayload
      → Bytes
      → S.State
      → Log
      → List Url
      → Run S (Result Rejection IngestResponse)
  unfolding announce
  process team_id payload raw s log sent =
      elim (prepare app.codec raw display_edge thumbnail_edges jpeg_quality) [
        | err e ↦ refuse (image_rejection e) s log sent
        | ok prepared ↦
            let stored = store_photo app.codec S app.env raw prepared s in
            elim stored.0 [
              | err e ↦ refuse store_failed stored.1 log sent
              | ok photo ↦ announce team_id payload photo stored.1 log sent
            ]
      ]

  unfoldable pub ingest : KameraPayload → S.State → Log → Run S (Result Rejection IngestResponse)
  unfolding ready process
  ingest payload s log =
      if not ready
      then refuse not_ready s log []
      else if is_empty payload.image_url
      then refuse bad_payload s log []
      else (elim (team_id_by_number app.teams app.event_year payload.team_number) [
        | err e ↦ refuse (team_rejection e) s log []
        | ok team_id ↦
            let fetched = fetch app.unicode_lower app.network app.fetcher payload.image_url in
            elim fetched.0 [
              | err e ↦ refuse (fetch_rejection e) s log fetched.1
              | ok body ↦ process team_id payload body.0 s log fetched.1
            ]
      ])

-- What the handler answers.
pub data Answer : Type 0 where
  unauthorized : Answer
  rejected : Rejection → Answer
  accepted : IngestResponse → Answer

module _ {S : Store} (app : Application S) where
  -- `subtle.ConstantTimeCompare` is equality; no secret lets every call through.
  unfoldable pub webhook_authorized : Bytes → Bool
  webhook_authorized given =
      if is_empty app.webhook_secret then true else bytes_eq given app.webhook_secret

  abbrev pub answer_of : Result Rejection IngestResponse → Answer
  answer_of (ok res) = accepted res
  answer_of (err rejection) = rejected rejection

  -- `kameraCallbackHandler`, on the header's secret and the payload that `ReadJSON` reads or fails to.
  unfoldable pub kamera_callback_handler :
      Bytes → Option KameraPayload → S.State → Log → Run S Answer
  unfolding webhook_authorized ingest
  kamera_callback_handler given payload s log =
      if not (webhook_authorized given)
      then record { outcome = unauthorized; objects = s; log = log; sent = [] }
      else (elim payload [
        | none ↦ record { outcome = rejected bad_payload; objects = s; log = log; sent = [] }
        | some body ↦
            let run = ingest app body s log in
            record {
              outcome = answer_of run.outcome;
              objects = run.objects;
              log = run.log;
              sent = run.sent;
            }
      ])
