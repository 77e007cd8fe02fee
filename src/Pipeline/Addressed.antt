-- ===== src/Pipeline/Addressed.antt =====
-- The address of a photograph: what the webhook answers with is what /photos/ takes.
use foto.Base.{
  ◌≡◌, refl, ap, ◌∙◌, subst, arith, Bool, true, false, some, [], ◌∷◌, ◌++◌, Bytes, bytes_eq, codes,
  is_empty, length, all, any, ◌==◌, ok,
}
use foto.Base.Text.{trim_space, is_blank, trim_space-eq_self}
use foto.Blob.Ref.{Sha256, is_lower_hex}
use foto.Blob.Store.{Store, IsStore, IsHonest, IsCollisionFree, IsAddressed}
use foto.Photo.Subject.{Subject, valid_photo_ref}
use foto.Photo.Commands.{Log}
use foto.Photo.Query.{Reader}
use foto.Photo.Replay.{Database, IsDatabase, replay}
use foto.Photo.Replay.Erasure.{AreRows}
use foto.Ingest.Storing.Laws.{Keeps}
use foto.Ingest.Webhook.{KameraPayload, IngestResponse, ingest}
use foto.Ingest.Webhook.Laws.{IsCorpus}
use foto.Serving.{Response, show_photo_handler}
use foto.Http.Handlers.{write_photo}
use foto.Http.Routes.{Router, IsRouter, IsSegment, Request, Service, serve_http}
use foto.Http.Routes.Laws.{IsShow, serve_http-photo}
use foto.Pipeline.{history, IsMatch, IsMarshal}
use foto.Pipeline.Recorded.{IsHeld, ingest-IsKeptPhoto}
use foto.Pipeline.Shown.{IsView, IsAnswered, accepted-IsAnswered}

lower_hex-graphic : (r : Bytes) → all is_lower_hex r ≡ true → any is_blank r ≡ false
lower_hex-graphic [] h = refl
lower_hex-graphic (c ∷ r) h = ground (arith, lower_hex-graphic r)

lower_hex-whole : (r : Bytes) → all is_lower_hex r ≡ true → any (λ c. c == b'/') r ≡ false
lower_hex-whole [] h = refl
lower_hex-whole (c ∷ r) h = ground (arith, lower_hex-whole r)

pub valid_photo_ref-lower :
    (r : Bytes) → valid_photo_ref r ≡ true → (length r ≡ 64) × (all is_lower_hex r ≡ true)
unfolding valid_photo_ref
valid_photo_ref-lower r h = ground arith

filled_of_length : (r : Bytes) → length r ≡ 64 → is_empty r ≡ false
filled_of_length [] h = absurd (omega (arith, h))
filled_of_length (c ∷ r) h = refl

-- A content hash is one segment of a path, and is not trimmed.
valid_photo_ref-IsSegment : (r : Bytes) → valid_photo_ref r ≡ true → IsSegment r
valid_photo_ref-IsSegment r h =
    let (size, lower) = valid_photo_ref-lower r h in
    (filled_of_length r size, lower_hex-whole r lower)

valid_photo_ref-trimmed : (r : Bytes) → valid_photo_ref r ≡ true → trim_space r ≡ r
valid_photo_ref-trimmed r h =
    trim_space-eq_self r (lower_hex-graphic r (valid_photo_ref-lower r h).1)

module _ (S : Store) (honest : IsHonest S) (sha : Sha256) (store : IsStore sha S)
    (service : Service S) (matches : Subject → Bytes → Bool) (good : IsMarshal service.formats)
    (bus : IsMatch matches) (db : Database) (law : IsDatabase db) (contents : Bytes → Type 0)
    (free : IsCollisionFree sha contents) (payload : KameraPayload)
    (corpus : IsCorpus contents service.app payload) (router : Router)
    (routed : IsRouter router) where
  -- A photograph that `ingest` accepted is found at its address: a GET or a HEAD of /photos/ and the ref of the answer
  -- is answered with the stored object, or for a HEAD with its headers, unless the database or the
  -- store returns an error, and changes nothing; this on a store that has lost nothing since and a
  -- table of photographs that the log was replayed on, whose columns hold the row. The router, the database and the bus behave as documented, and
  -- the store keeps its contract and is addressed by content, without collisions among the contents concerned: what lies in the store, the upload, its display image and its thumbnails.
  pub accepted-addressed :
      (s later : S.State) (log now : Log) (res : IngestResponse) (d : db.State) (reader : Reader)
      (request : Request)
      → IsAddressed sha contents S s
      → AreRows db.engine (db.row_at d)
      → IsHeld service.formats matches good bus db law (ingest service.app payload s log).log
      → (ingest service.app payload s log).outcome ≡ ok res
      → Keeps S (ingest service.app payload s log).objects later
      → IsView db
          (replay service.formats matches db (history (ingest service.app payload s log).log) d)
          reader
      → service.readers ≡ some (some reader)
      → service.app.has_blobs ≡ true
      → IsShow request.method
      → request.path ≡ codes "/photos/" ++ res.ref
      → (response : Response) × (serve_http service request router later now
          ≡ (write_photo service.marshal service.connection response, later, now))
        × IsAnswered service.formats S service.env honest sha store reader response
            (bytes_eq request.method (codes "HEAD"))
            later
            res.ref
  accepted-addressed s later log now res d reader request addressed rows held accepted keeps sees
        read blobs shows path =
      let kept =
        ingest-IsKeptPhoto service.formats matches good bus db law sha contents S store free
          service.app payload corpus s log res d addressed rows held accepted in
      let valid : valid_photo_ref res.ref ≡ true =
        subst (λ r. valid_photo_ref r ≡ true) kept.ref kept.ref_valid in
      let trimmed = valid_photo_ref-trimmed res.ref valid in
      let head = bytes_eq request.method (codes "HEAD") in
      let response =
        show_photo_handler service.formats S service.env (some (some reader)) true res.ref head
          later in
      (
        response,
        serve_http-photo service request router routed later now res.ref shows
              (valid_photo_ref-IsSegment res.ref valid) path
            ∙ ap (λ r. (write_photo service.marshal service.connection r, later, now))
                (ap
                    (λ o.
                      show_photo_handler service.formats S service.env o service.app.has_blobs
                        res.ref head later)
                    read
                  ∙ ap
                      (λ b.
                        show_photo_handler service.formats S service.env (some (some reader)) b
                          res.ref head later)
                      blobs),
        subst (IsAnswered service.formats S service.env honest sha store reader response head later)
            trimmed
            (accepted-IsAnswered service.formats S service.env honest sha store matches good bus db
              law contents free service.app payload corpus s later log res d reader res.ref head
              addressed rows held accepted keeps sees trimmed),
      )
