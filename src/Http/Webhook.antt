-- ===== src/Http/Webhook.antt =====
-- The answer of the webhook as the camera app sees it: `rejectIngest` and the end of
-- `kameraCallbackHandler` in go/cmd/api/callback.go.
pub mod Laws
use foto.Base.{
  ℕ, Bool, true, false, not, ◌&&◌, Option, none, some, List, [], ◌∷◌, ◌++◌, Bytes, codes, is_empty,
  bytes_eq, leb, if◌then◌else◌,
}
use foto.Blob.Store.{Store}
use foto.Fetcher.Policy.{Url}
use foto.Photo.Commands.{Log}
use foto.Ingest.Rejection.{Rejection, disallowed_host, not_ready}
use foto.Ingest.Webhook.{
  Application, KameraPayload, IngestResponse, Run, Answer, unauthorized, rejected, accepted,
  kamera_callback_handler,
}
use foto.Http.{
  Writer, new_writer, set_header, Connection, write_or_fail, Field, text, flag, Envelope,
  authentication_required_response,
}

-- Whether the refusal is logged as an error, not as a warning.
unfoldable pub logs_error : Rejection → Bool
logs_error rej = leb 500 rej.status && not (bytes_eq rej.code not_ready.code)

-- What the service marshals to JSON, and `url.Parse`.
pub record Outside : Type 0 where
  pub marshal : Envelope → Option Bytes
  pub marshal_response : IngestResponse → Option Bytes
  pub parse : Bytes → Option Url

module _ (o : Outside) (c : Connection) where
  -- The host of the payload's URL, for the one rejection that names it.
  unfoldable pub offending_host : KameraPayload → Rejection → Envelope
  offending_host payload rej =
      if bytes_eq rej.code disallowed_host.code
      then (elim (o.parse payload.image_url) [
        | none ↦ []
        | some u ↦ if is_empty u.hostname then [] else (codes "host", text u.hostname) ∷ []
      ])
      else []

  unfoldable pub rejection_body : KameraPayload → Rejection → Envelope
  unfolding offending_host
  rejection_body payload rej =
      (codes "error", text rej.message)
      ∷ (codes "code", text rej.code)
      ∷ (codes "retryable", flag rej.retryable)
      ∷ (codes "teamNumber", text payload.team_number)
      ∷ ((if is_empty rej.fix then [] else (codes "fix", text rej.fix) ∷ [])
          ++ offending_host payload rej)

  unfoldable pub reject_ingest : KameraPayload → Rejection → Writer → Writer
  unfolding rejection_body
  reject_ingest payload rej w =
      write_or_fail o.marshal c (o.marshal (rejection_body payload rej)) rej.status
        (set_header (codes "X-Foto-Rejected") rej.code w)

  -- What the handler writes for its outcome, on the payload as far as it was read.
  unfoldable pub reply : KameraPayload → Answer → Writer
  unfolding reject_ingest
  reply payload unauthorized = authentication_required_response o.marshal c new_writer
  reply payload (rejected rej) = reject_ingest payload rej new_writer
  reply payload (accepted res) = write_or_fail o.marshal c (o.marshal_response res) 200 new_writer
