-- ===== src/Http/Webhook/Laws.antt =====
-- What the camera app learns from the answer.
use foto.Base.{
  ℕ, ◌≤◌, ◌≡◌, ◌≢◌, inl, inr, refl, sym, ap, ◌∙◌, arith, Option, none, some, Option-cases, [], ◌∷◌,
  Bytes, bytes_eq, codes,
}
use foto.Base.Dict.{Dict, lookup, insert}
use foto.Ingest.Rejection.{Rejection}
use foto.Ingest.Webhook.{KameraPayload, IngestResponse, Answer, unauthorized, rejected, accepted}
use foto.Ingest.Webhook.Refused.{IsAnswer}
use foto.Http.{new_writer, set_header, set_headers, Connection, text}
use foto.Http.Laws.{
  status_of, status_from, or_failed, json_headers, error_response-status, write_or_fail-first,
  write_or_fail-unmarshalled,
}
use foto.Http.Webhook.{Outside, rejection_body, reject_ingest, reply}

or_failed-ne : (b : Option Bytes) (n : ℕ) → 400 ≤ n → or_failed b n ≢ 200
or_failed-ne none n h e = omega arith
or_failed-ne (some t) n h e = omega arith

some-injective : {a b : ℕ} → some a ≡ some b → a ≡ b
some-injective h = cc

module _ (o : Outside) (c : Connection) where
  -- A refusal is answered with its status and with its code in the header X-Foto-Rejected, if its body
  -- can be marshalled.
  pub reply-rejected :
      (payload : KameraPayload) (rej : Rejection) (t : Bytes)
      → o.marshal (rejection_body o c payload rej) ≡ some t
      → (headers : Dict Bytes) × ((reply o c payload (rejected rej)).sent
          ≡ some (rej.status, headers))
        × (lookup (codes "X-Foto-Rejected") headers ≡ some rej.code)
  unfolding reply reject_ingest set_header lookup insert bytes_eq set_headers
  reply-rejected payload rej t h =
      let w = set_header (codes "X-Foto-Rejected") rej.code new_writer in
      (
        json_headers [] w,
        rw (reply, reject_ingest, h) (write_or_fail-first o.marshal c t rej.status w refl),
        refl,
      )

  -- The camera app is told of success only where the photograph was accepted: no refusal, no missing
  -- secret and no failure to write the answer shows as the status 200.
  pub reply-accepted :
      (payload : KameraPayload) (a : Answer)
      → IsAnswer a
      → status_of (reply o c payload a) ≡ some 200
      → (res : IngestResponse) × (a ≡ accepted res)
  unfolding reply reject_ingest set_header
  reply-accepted payload unauthorized good h =
      let e = sym (error_response-status o.marshal c 401 _ new_writer refl) ∙ h in
      absurd (
        or_failed-ne (o.marshal ((codes "error", text _) ∷ [])) 401 (omega arith)
          (some-injective e))
  reply-accepted payload (rejected rej) good h =
      let w = set_header (codes "X-Foto-Rejected") rej.code new_writer in
      elim (Option-cases (o.marshal (rejection_body o c payload rej))) [
        | inl e ↦
            let five =
              sym (write_or_fail-unmarshalled o.marshal c rej.status w refl)
              ∙ (rw (reply, reject_ingest, e) at h) in
            absurd (omega (arith, some-injective five))
        | inr (t, e) ↦
            let own =
              sym (ap status_from (write_or_fail-first o.marshal c t rej.status w refl))
              ∙ (rw (reply, reject_ingest, e) at h) in
            absurd (omega (arith, some-injective own))
      ]
  reply-accepted payload (accepted res) good h = (res, refl)
