-- ===== src/Pipeline/Told.antt =====
-- What the camera app may conclude from the status 200.
use foto.Base.{◌≡◌, sym, subst, Bool, some, Bytes}
use foto.Blob.Ref.{Sha256}
use foto.Blob.Store.{Store, IsStore, IsCollisionFree, IsAddressed}
use foto.Photo.Subject.{Subject}
use foto.Photo.Sql.{Formats}
use foto.Photo.Commands.{Log}
use foto.Photo.Replay.{Database, IsDatabase, replay}
use foto.Photo.Replay.Erasure.{AreRows}
use foto.Ingest.Webhook.{
  Application, KameraPayload, IngestResponse, accepted, ingest, kamera_callback_handler,
}
use foto.Ingest.Webhook.Laws.{IsCorpus}
use foto.Ingest.Webhook.Refused.{kamera_callback_handler-IsAnswer, kamera_callback_handler-ingest}
use foto.Http.{Connection}
use foto.Http.Laws.{status_of}
use foto.Http.Webhook.{Outside, reply}
use foto.Http.Webhook.Laws.{reply-accepted}
use foto.Pipeline.{history, IsMatch, IsMarshal}
use foto.Pipeline.Recorded.{IsHeld, IsKeptPhoto, ingest-IsKeptPhoto}

module _ (formats : Formats) (matches : Subject → Bytes → Bool) (good : IsMarshal formats)
    (bus : IsMatch matches) (db : Database) (law : IsDatabase db) (sha : Sha256)
    (contents : Bytes → Type 0) (S : Store) (store : IsStore sha S)
    (free : IsCollisionFree sha contents) (app : Application S) (payload : KameraPayload)
    (corpus : IsCorpus contents app payload) where
  -- If the camera app sees the status 200 for a payload, then the photograph was accepted and is recorded:
  -- the replay of the log, on any table of photographs, has its row under the year, the team and the ref of
  -- the answer and the kind of the payload, with that ref and the number of the payload, and the store
  -- has its display image under that ref, however the connection behaves. The columns of the table hold the
  -- row, the database and the bus behave as documented, and the store keeps its contract and is addressed
  -- by content, without collisions among the contents concerned: what lies in the store, the upload, its display
  -- image and its thumbnails.
  pub told-IsKeptPhoto :
      (o : Outside) (c : Connection) (given : Bytes) (s : S.State) (log : Log) (d : db.State)
      → IsAddressed sha contents S s
      → AreRows db.engine (db.row_at d)
      → IsHeld formats matches good bus db law
          (kamera_callback_handler app given (some payload) s log).log
      → status_of
          (reply o c payload (kamera_callback_handler app given (some payload) s log).outcome)
        ≡ some 200
      → (res : IngestResponse) × ((kamera_callback_handler app given (some payload) s log).outcome
          ≡ accepted res)
        × IsKeptPhoto formats matches good bus db law sha contents S store free app payload corpus
            res
            (kamera_callback_handler app given (some payload) s log).objects
            (replay formats matches db
              (history (kamera_callback_handler app given (some payload) s log).log)
              d)
  told-IsKeptPhoto o c given s log d addressed rows held seen =
      let (res, agreed) =
        reply-accepted o c payload _
          (kamera_callback_handler-IsAnswer app given (some payload) s log) seen in
      let (done, objects, after) =
        kamera_callback_handler-ingest app given payload s log res agreed in
      let kept =
        ingest-IsKeptPhoto formats matches good bus db law sha contents S store free app payload
          corpus s log res d addressed rows
          (subst (IsHeld formats matches good bus db law) after held) done in
      (
        res,
        agreed,
        subst
            (λ t.
              IsKeptPhoto formats matches good bus db law sha contents S store free app payload
                corpus res t
                (replay formats matches db
                  (history (kamera_callback_handler app given (some payload) s log).log) d))
            (sym objects)
            (subst
              (λ l.
                IsKeptPhoto formats matches good bus db law sha contents S store free app payload
                  corpus res (ingest app payload s log).objects
                  (replay formats matches db (history l) d))
              (sym after) kept),
      )
