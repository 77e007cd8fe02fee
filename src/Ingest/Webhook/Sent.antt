-- ===== src/Ingest/Webhook/Sent.antt =====
-- The requests that a call of the webhook sends.
use foto.Base.{◌≡◌, refl, ◌⊎◌, inl, inr, Bool-cases, List, [], Bytes, is_empty, err, Result-cases}
use foto.Blob.Store.{Store}
use foto.Fetcher.Policy.{Url, FetchError}
use foto.Fetcher.Fetch.{fetch}
use foto.Imaging.Prepare.{prepare}
use foto.TeamNumber.{team_id_by_number}
use foto.Photo.Commands.{Log, publish}
use foto.Ingest.Rejection.{Rejection, bad_payload, not_ready, fetch_rejection, team_rejection}
use foto.Ingest.Storing.{StoredPhoto, store_photo}
use foto.Ingest.Webhook.{
  Application, KameraPayload, refuse, ready, command, broker_of, announce, process, ingest,
  display_edge, thumbnail_edges, jpeg_quality,
}

module _ {S : Store} (app : Application S) where
  announce-sent :
      (team_id : Bytes) (payload : KameraPayload) (stored : StoredPhoto) (s : S.State) (log : Log)
      (sent : List Url)
      → (announce app team_id payload stored s log sent).sent ≡ sent
  unfolding announce
  announce-sent team_id payload stored s log sent =
      let published =
        publish (broker_of app app.photo_table) (command app team_id payload stored) log in
      elim (Result-cases published.0) [
        | inl (done, e) ↦ rw (announce, e) refl
        | inr (e, q) ↦ rw (announce, q) refl
      ]

  process-sent :
      (team_id : Bytes) (payload : KameraPayload) (raw : Bytes) (s : S.State) (log : Log)
      (sent : List Url)
      → (process app team_id payload raw s log sent).sent ≡ sent
  unfolding process
  process-sent team_id payload raw s log sent =
      elim (Result-cases (prepare app.codec raw display_edge thumbnail_edges jpeg_quality)) [
        | inr (e, p) ↦ rw (process, p) refl
        | inl (prepared, p) ↦
            let stored = store_photo app.codec S app.env raw prepared s in
            elim (Result-cases stored.0) [
              | inr (e, q) ↦ rw (process, p, q) refl
              | inl (photo, q) ↦
                  rw (process, p, q) (announce-sent team_id payload photo stored.1 log sent)
            ]
      ]

module _ {S : Store} (app : Application S) (payload : KameraPayload) (s : S.State) (log : Log) where
  -- A call sends nothing, or what one call of `Fetch` on the payload's URL sends.
  pub ingest-sent :
      ((ingest app payload s log).sent ≡ [])
      ⊎ ((ingest app payload s log).sent
          ≡ (fetch app.unicode_lower app.network app.fetcher payload.image_url).1)
  unfolding ingest
  ingest-sent = elim (Bool-cases (ready app)) [
    | inr n ↦ inl (rw (ingest, n) refl)
    | inl y ↦ elim (Bool-cases (is_empty payload.image_url)) [
      | inl e ↦ inl (rw (ingest, y, e) refl)
      | inr e ↦
          elim (Result-cases (team_id_by_number app.teams app.event_year payload.team_number)) [
            | inr (x, t) ↦ inl (rw (ingest, y, e, t) refl)
            | inl (team_id, t) ↦
                let fetched = fetch app.unicode_lower app.network app.fetcher payload.image_url in
                elim (Result-cases fetched.0) [
                  | inr (x, f) ↦ inr (rw (ingest, y, e, t, f) refl)
                  | inl (body, f) ↦ inr (
                      rw (ingest, y, e, t, f)
                        (process-sent app team_id payload body.0 s log fetched.1))
                ]
          ]
    ]
  ]

  -- A photograph that cannot be fetched is refused, and nothing is stored or published.
  pub ingest_unfetched :
      (e : FetchError)
      → (fetch app.unicode_lower app.network app.fetcher payload.image_url).0 ≡ err e
      → (rejection : Rejection) × (sent : List Url) × (ingest app payload s log
          ≡ refuse app rejection s log sent)
  unfolding ingest
  ingest_unfetched e h = elim (Bool-cases (ready app)) [
    | inr n ↦ (not_ready, [], rw (ingest, n) refl)
    | inl y ↦ elim (Bool-cases (is_empty payload.image_url)) [
      | inl u ↦ (bad_payload, [], rw (ingest, y, u) refl)
      | inr u ↦
          elim (Result-cases (team_id_by_number app.teams app.event_year payload.team_number)) [
            | inr (x, t) ↦ (team_rejection x, [], rw (ingest, y, u, t) refl)
            | inl (team_id, t) ↦
                let fetched = fetch app.unicode_lower app.network app.fetcher payload.image_url in
                (fetch_rejection e, fetched.1, rw (ingest, y, u, t, h) refl)
          ]
    ]
  ]
