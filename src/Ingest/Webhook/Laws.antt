-- ===== src/Ingest/Webhook/Laws.antt =====
-- What a call of the webhook leaves behind.
use foto.Base.{
  ◌≡◌, ◌≢◌, ◌⊎◌, inl, inr, refl, arith, false, Bool-cases, Option, some, List, [], All, Bytes,
  is_empty, leb, Result, ok, err, Result-cases, bytes_eq, bytes_eq_iff,
}
use foto.Blob.Ref.{Sha256}
use foto.Blob.Store.{Store, IsCollisionFree, IsAddressed, IsStore}
use foto.Fetcher.Policy.{Url, FetchError}
use foto.Fetcher.Fetch.{fetch}
use foto.Imaging.Prepare.{prepare}
use foto.Imaging.Prepare as Prepare
use foto.Imaging.Bounds.{Error}
use foto.TeamNumber.{LookupError, team_id_by_number}
use foto.Photo.Commands.{Log, publish}
use foto.Photo.Commands.Laws.{IsPublished, publish-log}
use foto.Ingest.Rejection.{
  Rejection, bad_payload, not_ready, store_failed, publish_failed, fetch_rejection, team_rejection,
  image_rejection,
}
use foto.Ingest.Storing.{StoredPhoto, store_photo}
use foto.Ingest.Storing.Laws.{Keeps, HoldsRendition, store_photo-IsStored}
use foto.Ingest.Webhook.{
  KameraPayload, IngestResponse, Application, Run, refuse, broker_of, ready, command, response,
  announce, process, ingest, display_edge, thumbnail_edges, jpeg_quality, unauthorized,
  webhook_authorized, kamera_callback_handler,
}

-- Worth another try exactly if the status is in the 500s.
abbrev pub IsClassified : Rejection → Type 0
IsClassified r = r.retryable ≡ leb 500 r.status

fetch_rejection-IsClassified : (e : FetchError) → IsClassified (fetch_rejection e)
unfolding fetch_rejection
fetch_rejection-IsClassified e = ground arith

team_rejection-IsClassified : (e : LookupError) → IsClassified (team_rejection e)
unfolding team_rejection
team_rejection-IsClassified e = ground arith

image_rejection-IsClassified : (e : Error) → IsClassified (image_rejection e)
unfolding image_rejection
image_rejection-IsClassified e = ground arith

-- The contents that a call of `ingest` puts into the store: the upload that it fetches, and the display
-- image and the thumbnails that are made of that upload.
pub record IsCorpus {S : Store} (contents : Bytes → Type 0) (app : Application S)
    (payload : KameraPayload) : Type 0 where
  pub fetched :
      (photo kind : Bytes)
      → (fetch app.unicode_lower app.network app.fetcher payload.image_url).0 ≡ ok (photo, kind)
      → contents photo
  pub prepared :
      (photo kind : Bytes) (made : Prepare.Photo)
      → (fetch app.unicode_lower app.network app.fetcher payload.image_url).0 ≡ ok (photo, kind)
      → prepare app.codec photo display_edge thumbnail_edges jpeg_quality ≡ ok made
      → contents made.display.bytes × All (λ r. contents r.bytes) made.thumbs

module _ (sha : Sha256) (contents : Bytes → Type 0) (S : Store) (law : IsStore sha S)
    (free : IsCollisionFree sha contents) (app : Application S) (payload : KameraPayload)
    (corpus : IsCorpus contents app payload) where
  -- A photograph that is announced: its one event is the last of the log, and every object it names is
  -- in the store.
  pub record IsAnnounced (objects : S.State) (log after : Log) (res : IngestResponse) : Type 0 where
    pub team_id : Bytes
    pub raw : Bytes
    pub stored : StoredPhoto
    pub published : IsPublished (command app team_id payload stored) log after
    pub answered : res ≡ response app team_id stored
    pub original : S.view objects stored.original.ref ≡ some raw
    pub display : HoldsRendition S objects stored.display
    pub renditions : All (HoldsRendition S objects) stored.renditions

  -- What a call leaves behind, whatever its outcome.
  pub record IsCall (s : S.State) (log : Log) (run : Run S (Result Rejection IngestResponse))
      : Type 0 where
    pub addressed : IsAddressed sha contents S run.objects
    pub keeps : Keeps S s run.objects
    pub outcome :
        ((rejection : Rejection) × (run.outcome ≡ err rejection)
          × IsClassified rejection
          × (run.log ≡ log))
        ⊎ ((res : IngestResponse) × (run.outcome ≡ ok res)
            × IsAnnounced run.objects log run.log res)

  refused :
      (rejection : Rejection) (s t : S.State) (log : Log) (sent : List Url)
      → IsClassified rejection
      → IsAddressed sha contents S t
      → Keeps S s t
      → IsCall s log (refuse app rejection t log sent)
  refused rejection s t log sent c a k = record {
    addressed = a;
    keeps = k;
    outcome = inl (rejection, refl, c, refl);
  }

  announce-IsCall :
      (team_id : Bytes) (raw : Bytes) (stored : StoredPhoto) (s t : S.State) (log : Log)
      (sent : List Url)
      → IsAddressed sha contents S t
      → Keeps S s t
      → S.view t stored.original.ref ≡ some raw
      → HoldsRendition S t stored.display
      → All (HoldsRendition S t) stored.renditions
      → IsCall s log (announce app team_id payload stored t log sent)
  unfolding announce
  announce-IsCall team_id raw stored s t log sent a k o d r =
      let broker = broker_of app app.photo_table in
      let cmd = command app team_id payload stored in
      elim (publish-log broker cmd log) [
        | inl (done, published) ↦
            rw (announce, done)
              (record {
                addressed = a;
                keeps = k;
                outcome = inr (
                  response app team_id stored,
                  refl,
                  record {
                    team_id = team_id;
                    raw = raw;
                    stored = stored;
                    published = published;
                    answered = refl;
                    original = o;
                    display = d;
                    renditions = r;
                  },
                );
              })
        | inr (failed, same) ↦ elim (Result-cases (publish broker cmd log).0) [
          | inl (_, done) ↦ absurd (failed done)
          | inr (e, q) ↦
              rw (announce, q)
                (record {
                  addressed = a;
                  keeps = k;
                  outcome = inl (publish_failed, refl, refl, same);
                })
        ]
      ]

  process-IsCall :
      (team_id : Bytes) (raw : Bytes) (s : S.State) (log : Log) (sent : List Url)
      → contents raw
      → ((made : Prepare.Photo)
          → prepare app.codec raw display_edge thumbnail_edges jpeg_quality ≡ ok made
          → contents made.display.bytes × All (λ r. contents r.bytes) made.thumbs)
      → IsAddressed sha contents S s
      → IsCall s log (process app team_id payload raw s log sent)
  unfolding process
  process-IsCall team_id raw s log sent c made a =
      elim (Result-cases (prepare app.codec raw display_edge thumbnail_edges jpeg_quality)) [
        | inr (e, p) ↦
            rw (process, p)
              (refused (image_rejection e) s s log sent (image_rejection-IsClassified e) a
                (λ r b v. v))
        | inl (prepared, p) ↦
            let stored = store_photo app.codec S app.env raw prepared s in
            let (shown, small) = made prepared p in
            let facts =
              store_photo-IsStored sha contents S law free app.codec app.env raw prepared s c shown
                small a in
            elim (Result-cases stored.0) [
              | inr (e, q) ↦
                  rw (process, p, q)
                    (refused store_failed s stored.1 log sent refl facts.addressed facts.keeps)
              | inl (photo, q) ↦
                  rw (process, p, q)
                    (announce-IsCall team_id raw photo s stored.1 log sent facts.addressed
                      facts.keeps (facts.original photo q) (facts.display photo q)
                      (facts.renditions photo q))
            ]
      ]

  -- A call of `ingest`, on a store that keeps its contract and whose objects lie under their hashes,
  -- where no two of the contents concerned collide, loses no object. It ends in one of two ways. It is refused: then no event
  -- is published, and the refusal is marked as worth a retry exactly if its status is in the 500s. Or it
  -- is accepted: then it has published the one event of the photograph, under the subject of the season
  -- and the team, and every object of the event is in the store: the upload itself under the original's
  -- ref, and the display image and each rendition under their refs in the sizes recorded.
  pub ingest-IsCall :
      (s : S.State) (log : Log)
      → IsAddressed sha contents S s
      → IsCall s log (ingest app payload s log)
  unfolding ingest
  ingest-IsCall s log a = elim (Bool-cases (ready app)) [
    | inr n ↦ rw (ingest, n) (refused not_ready s s log [] refl a (λ r b v. v))
    | inl y ↦ elim (Bool-cases (is_empty payload.image_url)) [
      | inl e ↦ rw (ingest, y, e) (refused bad_payload s s log [] refl a (λ r b v. v))
      | inr e ↦
          elim (Result-cases (team_id_by_number app.teams app.event_year payload.team_number)) [
            | inr (x, t) ↦
                rw (ingest, y, e, t)
                  (refused (team_rejection x) s s log [] (team_rejection-IsClassified x) a
                    (λ r b v. v))
            | inl (team_id, t) ↦
                let fetched = fetch app.unicode_lower app.network app.fetcher payload.image_url in
                elim (Result-cases fetched.0) [
                  | inr (x, f) ↦
                      rw (ingest, y, e, t, f)
                        (refused (fetch_rejection x) s s log fetched.1
                          (fetch_rejection-IsClassified x) a (λ r b v. v))
                  | inl (body, f) ↦
                      rw (ingest, y, e, t, f)
                        (process-IsCall team_id body.0 s log fetched.1
                          (corpus.fetched body.0 body.1 f)
                          (λ made p. corpus.prepared body.0 body.1 made f p) a)
                ]
          ]
    ]
  ]

module _ {S : Store} (app : Application S) (payload : KameraPayload) (s : S.State) (log : Log) where
  -- A photograph whose team number has no team in the season, or more than one, costs nothing: nothing is
  -- fetched, stored or published, and the call is refused.
  pub ingest_unresolved :
      (e : LookupError)
      → team_id_by_number app.teams app.event_year payload.team_number ≡ err e
      → (rejection : Rejection) × (ingest app payload s log ≡ refuse app rejection s log [])
  unfolding ingest
  ingest_unresolved e h = elim (Bool-cases (ready app)) [
    | inr n ↦ (not_ready, rw (ingest, n) refl)
    | inl y ↦ elim (Bool-cases (is_empty payload.image_url)) [
      | inl u ↦ (bad_payload, rw (ingest, y, u) refl)
      | inr u ↦ (team_rejection e, rw (ingest, y, u, h) refl)
    ]
  ]

  -- With a secret configured, a call that does not give exactly that secret is turned away, and nothing
  -- is fetched, stored or published.
  pub kamera_callback_handler_unauthorized :
      (given : Bytes) (body : Option KameraPayload)
      → is_empty app.webhook_secret ≡ false
      → given ≢ app.webhook_secret
      → kamera_callback_handler app given body s log
        ≡ record { outcome = unauthorized; objects = s; log = log; sent = [] }
  unfolding kamera_callback_handler webhook_authorized
  kamera_callback_handler_unauthorized given body filled wrong =
      elim (Bool-cases (bytes_eq given app.webhook_secret)) [
        | inl same ↦ absurd (wrong ((bytes_eq_iff given app.webhook_secret).0 same))
        | inr other ↦ rw (filled, other) refl
      ]
