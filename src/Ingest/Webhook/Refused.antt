-- ===== src/Ingest/Webhook/Refused.antt =====
-- The refusals of the webhook.
use foto.Base.{
  ◌≤◌, ◌≡◌, refl, ap, ◌∙◌, subst, inl, inr, arith, Bool-cases, Option, none, some, List, Bytes,
  is_empty, Result, ok, err, Result-cases,
}
use foto.Blob.Store.{Store}
use foto.Fetcher.Policy.{Url, FetchError}
use foto.Fetcher.Fetch.{fetch}
use foto.Imaging.Prepare.{prepare}
use foto.Imaging.Bounds.{Error}
use foto.TeamNumber.{LookupError, team_id_by_number}
use foto.Photo.Commands.{Log, publish}
use foto.Ingest.Rejection.{Rejection, fetch_rejection, team_rejection, image_rejection}
use foto.Ingest.Storing.{StoredPhoto, store_photo}
use foto.Ingest.Webhook.{
  Application, KameraPayload, IngestResponse, Answer, unauthorized, rejected, accepted, ready,
  command, broker_of, announce, process, ingest, display_edge, thumbnail_edges, jpeg_quality,
  webhook_authorized, kamera_callback_handler,
}

-- A refusal has the status of an error.
abbrev pub IsRefusal : Rejection → Type 0
IsRefusal rej = 400 ≤ rej.status

abbrev IsOutcome : Result Rejection IngestResponse → Type 0
IsOutcome (ok res) = Unit
IsOutcome (err rej) = IsRefusal rej

fetch_rejection-IsRefusal : (e : FetchError) → IsRefusal (fetch_rejection e)
unfolding fetch_rejection
fetch_rejection-IsRefusal e = ground arith

team_rejection-IsRefusal : (e : LookupError) → IsRefusal (team_rejection e)
unfolding team_rejection
team_rejection-IsRefusal e = ground arith

image_rejection-IsRefusal : (e : Error) → IsRefusal (image_rejection e)
unfolding image_rejection
image_rejection-IsRefusal e = ground arith

-- What the handler may answer.
abbrev pub IsAnswer : Answer → Type 0
IsAnswer unauthorized = Unit
IsAnswer (rejected rej) = IsRefusal rej
IsAnswer (accepted res) = Unit

accepted-injective : {a b : IngestResponse} → accepted a ≡ accepted b → a ≡ b
accepted-injective h = cc

module _ {S : Store} (app : Application S) where
  announce-IsOutcome :
      (team_id : Bytes) (payload : KameraPayload) (stored : StoredPhoto) (s : S.State) (log : Log)
      (sent : List Url)
      → IsOutcome (announce app team_id payload stored s log sent).outcome
  unfolding announce
  announce-IsOutcome team_id payload stored s log sent =
      let published =
        publish (broker_of app app.photo_table) (command app team_id payload stored) log in
      elim (Result-cases published.0) [
        | inl (done, e) ↦ rw (announce, e) tt
        | inr (e, q) ↦ rw (announce, q) (omega arith)
      ]

  process-IsOutcome :
      (team_id : Bytes) (payload : KameraPayload) (raw : Bytes) (s : S.State) (log : Log)
      (sent : List Url)
      → IsOutcome (process app team_id payload raw s log sent).outcome
  unfolding process
  process-IsOutcome team_id payload raw s log sent =
      elim (Result-cases (prepare app.codec raw display_edge thumbnail_edges jpeg_quality)) [
        | inr (e, p) ↦ rw (process, p) (image_rejection-IsRefusal e)
        | inl (prepared, p) ↦
            let stored = store_photo app.codec S app.env raw prepared s in
            elim (Result-cases stored.0) [
              | inr (e, q) ↦ rw (process, p, q) (omega arith)
              | inl (photo, q) ↦
                  rw (process, p, q) (announce-IsOutcome team_id payload photo stored.1 log sent)
            ]
      ]

  ingest-IsOutcome :
      (payload : KameraPayload) (s : S.State) (log : Log)
      → IsOutcome (ingest app payload s log).outcome
  unfolding ingest
  ingest-IsOutcome payload s log = elim (Bool-cases (ready app)) [
    | inr n ↦ rw (ingest, n) (omega arith)
    | inl y ↦ elim (Bool-cases (is_empty payload.image_url)) [
      | inl e ↦ rw (ingest, y, e) (omega arith)
      | inr e ↦
          elim (Result-cases (team_id_by_number app.teams app.event_year payload.team_number)) [
            | inr (x, t) ↦ rw (ingest, y, e, t) (team_rejection-IsRefusal x)
            | inl (team_id, t) ↦
                let fetched = fetch app.unicode_lower app.network app.fetcher payload.image_url in
                elim (Result-cases fetched.0) [
                  | inr (x, f) ↦ rw (ingest, y, e, t, f) (fetch_rejection-IsRefusal x)
                  | inl (body, f) ↦
                      rw (ingest, y, e, t, f)
                        (process-IsOutcome team_id payload body.0 s log fetched.1)
                ]
          ]
    ]
  ]

  -- Every refusal of the handler has a status of 400 or more.
  pub kamera_callback_handler-IsAnswer :
      (given : Bytes) (payload : Option KameraPayload) (s : S.State) (log : Log)
      → IsAnswer (kamera_callback_handler app given payload s log).outcome
  unfolding kamera_callback_handler
  kamera_callback_handler-IsAnswer given none s log =
      elim (Bool-cases (webhook_authorized app given)) [
        | inr n ↦ rw (kamera_callback_handler, n) tt
        | inl y ↦ rw (kamera_callback_handler, y) (omega arith)
      ]
  kamera_callback_handler-IsAnswer given (some body) s log =
      let refused = ingest-IsOutcome body s log in
      elim (Bool-cases (webhook_authorized app given)) [
        | inr n ↦ rw (kamera_callback_handler, n) tt
        | inl y ↦ elim (Result-cases (ingest app body s log).outcome) [
          | inl (res, e) ↦ rw (kamera_callback_handler, y, e) tt
          | inr (rej, e) ↦ rw (kamera_callback_handler, y, e) (subst IsOutcome e refused)
        ]
      ]

  -- The handler accepts only what `ingest` accepted, and leaves what that call leaves.
  pub kamera_callback_handler-ingest :
      (given : Bytes) (body : KameraPayload) (s : S.State) (log : Log) (res : IngestResponse)
      → (kamera_callback_handler app given (some body) s log).outcome ≡ accepted res
      → ((ingest app body s log).outcome ≡ ok res)
        × ((kamera_callback_handler app given (some body) s log).objects
            ≡ (ingest app body s log).objects)
        × ((kamera_callback_handler app given (some body) s log).log ≡ (ingest app body s log).log)
  unfolding kamera_callback_handler
  kamera_callback_handler-ingest given body s log res h =
      elim (Bool-cases (webhook_authorized app given)) [
        | inr n ↦ absurd (cc (rw (kamera_callback_handler, n) at h))
        | inl y ↦ elim (Result-cases (ingest app body s log).outcome) [
          | inl (r, e) ↦ (
            e ∙ ap ok (accepted-injective (rw (kamera_callback_handler, y, e) at h)),
            rw (kamera_callback_handler, y) refl,
            rw (kamera_callback_handler, y) refl,
          )
          | inr (rej, e) ↦ absurd (cc (rw (kamera_callback_handler, y, e) at h))
        ]
      ]
